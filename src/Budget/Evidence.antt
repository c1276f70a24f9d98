-- ===== src/Budget/Evidence.antt =====
-- What it takes for the ledger of a run to allow that the run's answer is cached
-- (`allows_answer_cache` in data_agent/services/agent_budget.py).
use deep_data_agent.Prelude.{
  ℕ, ◌+◌, ◌≤◌, ◌≡◌, refl, ◌↔◌, Bool, true, false, ◌||◌, none, List, [], ◌∷◌, arith, All,
}
use deep_data_agent.Budget.{
  RunBudget, Kind, Step, reserves, observes, invalidates, fresh, reserve, step, run, finish,
  allows_answer_cache, is_complete,
}
use deep_data_agent.Budget.Bounds.{run-counts, IsBounded, fresh-IsBounded, run-IsBounded}

-- A step that does not speak against caching: no tool reservation, no veto, and no model result
-- that is incomplete.
abbrev pub IsClean : Step → Type 0
IsClean (observes response) = is_complete response ≡ true
IsClean invalidates = ⊥
IsClean (reserves Kind.model) = Unit
IsClean (reserves Kind.tool) = ⊥
IsClean (reserves Kind.unknown) = Unit

-- Whether some step observes a model result.
abbrev pub observed : List Step → Bool
observed [] = false
observed (observes _ ∷ ss) = true
observed (invalidates ∷ ss) = observed ss
observed (reserves _ ∷ ss) = observed ss

-- How many model requests the steps ask for.
abbrev pub asked : List Step → ℕ
asked [] = 0
asked (reserves Kind.model ∷ ss) = asked ss + 1
asked (reserves Kind.tool ∷ ss) = asked ss
asked (reserves Kind.unknown ∷ ss) = asked ss
asked (observes _ ∷ ss) = asked ss
asked (invalidates ∷ ss) = asked ss

record IsUsable (b : RunBudget) : Type 0 where
  safe : b.cache_safe ≡ true
  open_ : b.failure ≡ none
  unused : b.tool_calls ≡ 0

step-IsUsable : (s : Step) (b : RunBudget) → IsUsable (step s b) → IsUsable b × IsClean s
unfolding step
step-IsUsable (reserves Kind.model) b h = ground arith
step-IsUsable (reserves Kind.tool) b h = ground arith
step-IsUsable (reserves Kind.unknown) b h = ground arith
step-IsUsable (observes r) b h = ground arith
step-IsUsable invalidates b h = ground arith

run-IsUsable : (ss : List Step) (b : RunBudget) → IsUsable (run ss b) → IsUsable b × All IsClean ss
unfolding run
run-IsUsable [] b h = (h, tt)
run-IsUsable (s ∷ ss) b h =
    let (next, clean) = run-IsUsable ss (step s b) h in
    let (now, first) = step-IsUsable s b next in (now, (first, clean))

run-observed :
    (ss : List Step) (b : RunBudget) → (run ss b).model_observed ≡ (b.model_observed || observed ss)
unfolding run step
run-observed [] b = ground arith
run-observed (reserves k ∷ ss) b = ground (arith, run-observed ss (reserve k b).1)
run-observed (observes r ∷ ss) b = ground (arith, run-observed ss (step (observes r) b))
run-observed (invalidates ∷ ss) b = ground (arith, run-observed ss (step invalidates b))

step-open : (s : Step) (b : RunBudget) → (step s b).failure ≡ none → b.failure ≡ none
unfolding step
step-open (reserves k) b h = ground arith
step-open (observes r) b h = h
step-open invalidates b h = h

run-open : (ss : List Step) (b : RunBudget) → (run ss b).failure ≡ none → b.failure ≡ none
unfolding run
run-open [] b h = h
run-open (s ∷ ss) b h = step-open s b (run-open ss (step s b) h)

-- A step that leaves the ledger open counts what it asks for.
step-asked :
    (s : Step) (b : RunBudget)
    → (step s b).failure ≡ none
    → (step s b).model_requests ≡ b.model_requests + asked (s ∷ [])
unfolding step
step-asked (reserves Kind.model) b h = ground arith
step-asked (reserves Kind.tool) b h = ground arith
step-asked (reserves Kind.unknown) b h = ground arith
step-asked (observes r) b h = ground arith
step-asked invalidates b h = ground arith

asked-cons : (s : Step) (ss : List Step) → asked (s ∷ ss) ≡ asked (s ∷ []) + asked ss
asked-cons (reserves Kind.model) ss = omega arith
asked-cons (reserves Kind.tool) ss = omega arith
asked-cons (reserves Kind.unknown) ss = omega arith
asked-cons (observes r) ss = omega arith
asked-cons invalidates ss = omega arith

run-asked :
    (ss : List Step) (b : RunBudget)
    → (run ss b).failure ≡ none
    → (run ss b).model_requests ≡ b.model_requests + asked ss
unfolding run
run-asked [] b h = omega arith
run-asked (s ∷ ss) b h =
    omega
      (arith, run-asked ss (step s b) h, step-asked s b (run-open ss (step s b) h), asked-cons s ss)

step-keeps :
    (s : Step) (b : RunBudget)
    → IsUsable b
    → IsClean s
    → b.model_requests + asked (s ∷ []) ≤ b.model_limit
    → IsUsable (step s b)
      × ((step s b).model_requests ≡ b.model_requests + asked (s ∷ []))
      × ((step s b).model_limit ≡ b.model_limit)
unfolding step
step-keeps (reserves Kind.model) b u c h = ground arith
step-keeps (reserves Kind.tool) b u c h = ground arith
step-keeps (reserves Kind.unknown) b u c h = ground arith
step-keeps (observes r) b u c h = ground arith
step-keeps invalidates b u c h = ground arith

run-keeps :
    (ss : List Step) (b : RunBudget)
    → IsUsable b
    → All IsClean ss
    → b.model_requests + asked ss ≤ b.model_limit
    → IsUsable (run ss b)
unfolding run
run-keeps [] b u c h = u
run-keeps (s ∷ ss) b u c h =
    let next = step-keeps s b u c.0 (omega (arith, asked-cons s ss)) in
    run-keeps ss (step s b) next.0 c.1 (omega (arith, next.1, next.2, asked-cons s ss))

-- What allows the cached answer of a run with the model limit `m`.
abbrev pub Cacheable : Bool → ℕ → List Step → Type 0
Cacheable success m ss = (success ≡ true) × (observed ss ≡ true) × All IsClean ss × (asked ss ≤ m)

-- The answer of a run may be cached exactly when the run ended well, some model result was
-- observed, and every step of every branch was clean: no tool was asked for, no result was
-- incomplete, nobody vetoed, and no more model requests were asked for than the limit allows.
pub allows_answer_cache_iff :
    (success : Bool) (m t : ℕ) (ss : List Step)
    → (allows_answer_cache (finish success (run ss (fresh m t))) ≡ true) ↔ Cacheable success m ss
unfolding allows_answer_cache finish fresh
allows_answer_cache_iff success m t ss = (forth, back)
  where
    end : RunBudget
    end = run ss (fresh m t)

    bounded : IsBounded end
    bounded = run-IsBounded ss (fresh m t) (fresh-IsBounded m t)

    usable : allows_answer_cache (finish success end) ≡ true → IsUsable end
    usable h = ground arith

    forth : allows_answer_cache (finish success end) ≡ true → Cacheable success m ss
    forth h =
        let u = usable h in
        (
          ground arith,
          ground (arith, run-observed ss (fresh m t)),
          (run-IsUsable ss (fresh m t) u).1,
          omega (
            arith,
            bounded.models,
            (run-counts ss (fresh m t)).2,
            run-asked ss (fresh m t) u.open_,
          ),
        )

    back : Cacheable success m ss → allows_answer_cache (finish success end) ≡ true
    back c =
        let u =
          run-keeps ss (fresh m t) (record { safe = refl; open_ = refl; unused = refl }) c.2
            (omega arith) in
        ground (arith, u, run-observed ss (fresh m t))
