-- ===== src/Budget/Bounds.antt =====
-- The limits of the ledger hold, and a refusal is final, whatever the branches of the run do.
use deep_data_agent.Prelude.{
  ℕ, ◌+◌, ◌≤◌, ◌≡◌, ◌↔◌, Bool, true, false, none, some, List, [], ◌∷◌, arith, is_some,
  if◌then◌else◌,
}
use deep_data_agent.Budget.{
  RunBudget, Failure, Kind, LedgerError, Step, reserves, observes, invalidates, fresh, check,
  reserve, observe_model_result, invalidate_cache, step, run,
}

-- A counter never passes its limit, and a recorded failure shows that its budget is used up.
pub record IsBounded (b : RunBudget) : Type 0 where
  pub models : b.model_requests ≤ b.model_limit
  pub tools : b.tool_calls ≤ b.tool_limit
  pub model_spent : b.failure ≡ some Failure.model → b.model_requests ≡ b.model_limit
  pub tool_spent : b.failure ≡ some Failure.tool → b.tool_calls ≡ b.tool_limit

pub fresh-IsBounded : (m t : ℕ) → IsBounded (fresh m t)
unfolding fresh
fresh-IsBounded m t = ground arith

reserve-IsBounded : (k : Kind) (b : RunBudget) → IsBounded b → IsBounded (reserve k b).1
unfolding reserve
reserve-IsBounded k b h = ground arith

step-IsBounded : (s : Step) (b : RunBudget) → IsBounded b → IsBounded (step s b)
unfolding step
step-IsBounded (reserves k) b h = reserve-IsBounded k b h
step-IsBounded (observes r) b h = ground arith
step-IsBounded invalidates b h = ground arith

pub run-IsBounded : (ss : List Step) (b : RunBudget) → IsBounded b → IsBounded (run ss b)
unfolding run
run-IsBounded [] b h = h
run-IsBounded (s ∷ ss) b h = run-IsBounded ss (step s b) (step-IsBounded s b h)

-- Whether a step is a reservation of this kind that went through.
abbrev pub grants : Kind → Step → RunBudget → Bool
grants Kind.model (reserves Kind.model) b = elim (reserve Kind.model b).0 [
  | none ↦ true
  | some _ ↦ false
]
grants Kind.tool (reserves Kind.tool) b = elim (reserve Kind.tool b).0 [
  | none ↦ true
  | some _ ↦ false
]
grants _ _ _ = false

-- How many reservations of one kind went through.
abbrev pub granted : Kind → List Step → RunBudget → ℕ
granted k [] b = 0
granted k (s ∷ ss) b = (if grants k s b then 1 else 0) + granted k ss (step s b)

step-counts :
    (s : Step) (b : RunBudget)
    → ((step s b).model_requests ≡ b.model_requests + (if grants Kind.model s b then 1 else 0))
      × ((step s b).tool_calls ≡ b.tool_calls + (if grants Kind.tool s b then 1 else 0))
      × ((step s b).model_limit ≡ b.model_limit)
      × ((step s b).tool_limit ≡ b.tool_limit)
unfolding step
step-counts (reserves Kind.model) b = ground arith
step-counts (reserves Kind.tool) b = ground arith
step-counts (reserves Kind.unknown) b = ground arith
step-counts (observes r) b = ground arith
step-counts invalidates b = ground arith

pub run-counts :
    (ss : List Step) (b : RunBudget)
    → ((run ss b).model_requests ≡ b.model_requests + granted Kind.model ss b)
      × ((run ss b).tool_calls ≡ b.tool_calls + granted Kind.tool ss b)
      × ((run ss b).model_limit ≡ b.model_limit)
      × ((run ss b).tool_limit ≡ b.tool_limit)
unfolding run
run-counts [] b = ground arith
run-counts (s ∷ ss) b = ground (arith, step-counts s b, run-counts ss (step s b))

-- However the branches of a run interleave, the reservations of model requests that go through
-- are counted exactly and number at most the model limit, and likewise those of tool calls.
pub granted-le-limit :
    (m t : ℕ) (ss : List Step)
    → (granted Kind.model ss (fresh m t) ≤ m)
      × (granted Kind.tool ss (fresh m t) ≤ t)
      × ((run ss (fresh m t)).model_requests ≡ granted Kind.model ss (fresh m t))
      × ((run ss (fresh m t)).tool_calls ≡ granted Kind.tool ss (fresh m t))
unfolding fresh
granted-le-limit m t ss =
    ground (arith, run-counts ss (fresh m t), run-IsBounded ss (fresh m t) (fresh-IsBounded m t))

-- The first refusal of a kind comes exactly when its limit is reached.
pub reserve_refused :
    (b : RunBudget)
    → b.failure ≡ none
    → ((is_some (reserve Kind.model b).0 ≡ true) ↔ (b.model_limit ≤ b.model_requests))
      × ((is_some (reserve Kind.tool b).0 ≡ true) ↔ (b.tool_limit ≤ b.tool_calls))
unfolding reserve
reserve_refused b e =
    ((λ h. ground arith, λ h. ground arith), (λ h. ground arith, λ h. ground arith))

-- Once a check fails, no later step of any branch changes a counter or the answer: every later
-- check and reservation raises the same error.
pub refusal_final :
    (ss : List Step) (k : Kind) (b : RunBudget) (e : LedgerError)
    → check b ≡ some e
    → (check (run ss b) ≡ some e)
      × ((reserve k (run ss b)).0 ≡ some e)
      × ((run ss b).model_requests ≡ b.model_requests)
      × ((run ss b).tool_calls ≡ b.tool_calls)
unfolding run reserve
refusal_final [] k b e h = ground arith
refusal_final (reserves j ∷ ss) k b e h = ground (arith, refusal_final ss k b e h)
refusal_final (observes r ∷ ss) k b e h =
    ground (arith, refusal_final ss k (observe_model_result r b) e h)
refusal_final (invalidates ∷ ss) k b e h =
    ground (arith, refusal_final ss k (invalidate_cache b) e h)
