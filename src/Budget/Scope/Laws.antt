-- ===== src/Budget/Scope/Laws.antt =====
-- The scope of a run: what `hold_run_budget` promises for any body, that a refused tool is not
-- run, and when an observed run may be cached (data_agent/services/agent_budget.py).
use deep_data_agent.Prelude.{
  ℕ, zero, suc, ◌≤◌, ◌≡◌, refl, ap, ◌↔◌, inl, inr, Bool, true, false, Option, none, some, List, [],
  ◌∷◌, ◌++◌, arith, length, get_elem?, get_elem?-append_length, Option-cases,
}
use deep_data_agent.Budget.{
  RunBudget, Failure, LedgerError, tool_budget_exceeded, Kind, Step, fresh, check, reserve, run,
  finish, allows_answer_cache,
}
use deep_data_agent.Budget.Evidence.{Cacheable, allows_answer_cache_iff}
use deep_data_agent.Budget.Scope.{
  ledger, budget_context_missing, exception, base_exception, Exit, returned, raised, World, modify,
  allows_cache, observe_answer_cache, check_at, conclude, is_returned, enter, hold_run_budget,
  wrap_tool_call,
}

get_elem?-modify :
    {A : Type 0} (i : ℕ) (f : A → A) (xs : List A) (x : A)
    → get_elem? xs i ≡ some x
    → get_elem? (modify i f xs) i ≡ some (f x)
unfolding modify
get_elem?-modify i f [] x h = cc
get_elem?-modify zero f (y ∷ xs) x h = ap (λ o. elim o [ none ↦ none | some a ↦ some (f a) ]) h
get_elem?-modify (suc i) f (y ∷ xs) x h = get_elem?-modify i f xs x h

modify-append_length :
    {A : Type 0} (f : A → A) (xs : List A) (x : A)
    → modify (length xs) f (xs ++ x ∷ []) ≡ xs ++ f x ∷ []
unfolding modify
modify-append_length f [] x = refl
modify-append_length f (y ∷ xs) x = ap (◌∷◌ y) (modify-append_length f xs x)

conclude_returned :
    {A : Type 0} (exit : Exit A) (failed : Option LedgerError) (a : A)
    → (conclude exit failed ≡ returned a) ↔ ((exit ≡ returned a) × (failed ≡ none))
unfolding conclude
conclude_returned (returned x) none a = (λ h. (h, refl), λ h. h.0)
conclude_returned (returned x) (some e) a = (λ h. cc, λ h. cc)
conclude_returned (raised (base_exception n)) none a = (λ h. cc, λ h. cc)
conclude_returned (raised (base_exception n)) (some e) a = (λ h. cc, λ h. cc)
conclude_returned (raised (exception n)) none a = (λ h. cc, λ h. cc)
conclude_returned (raised (exception n)) (some e) a = (λ h. cc, λ h. cc)
conclude_returned (raised (ledger l)) none a = (λ h. cc, λ h. cc)
conclude_returned (raised (ledger l)) (some e) a = (λ h. cc, λ h. cc)
conclude_returned (raised budget_context_missing) none a = (λ h. cc, λ h. cc)
conclude_returned (raised budget_context_missing) (some e) a = (λ h. cc, λ h. cc)

-- An exit that the refusal of the budget overrides: a result, or an Exception.
abbrev pub IsOverridden : {A : Type 0} → Exit A → Type 0
IsOverridden (raised (base_exception n)) = ⊥
IsOverridden (raised (exception n)) = Unit
IsOverridden (raised (ledger l)) = Unit
IsOverridden (raised budget_context_missing) = Unit
IsOverridden (returned a) = Unit

conclude_refused :
    {A : Type 0} (exit : Exit A) (e : LedgerError)
    → IsOverridden exit
    → conclude exit (some e) ≡ raised (ledger e)
unfolding conclude
conclude_refused (returned x) e h = refl
conclude_refused (raised (base_exception n)) e h = absurd h
conclude_refused (raised (exception n)) e h = refl
conclude_refused (raised (ledger l)) e h = refl
conclude_refused (raised budget_context_missing) e h = refl

check_at_lem :
    (id : ℕ) (w : World) (b : RunBudget) → get_elem? w.budgets id ≡ some b → check_at id w ≡ check b
unfolding check_at
check_at_lem id w b g = rw (g, check_at)

-- For every body that leaves its own ledger `b` in the store: the run returns a value exactly when
-- the body returns it and the ledger records no failure; the ledger ends completed exactly when
-- the run returned, with nothing else of it changed; and the outer budget is active again.
pub hold_run_budget_contract :
    {A : Type 0} (m t : ℕ) (body : ℕ → World → Exit A × World) (w w' : World) (exit : Exit A)
    (b : RunBudget) (a : A)
    → body (length w.budgets) (enter m t w) ≡ (exit, w')
    → get_elem? w'.budgets (length w.budgets) ≡ some b
    → let (verdict, end) = hold_run_budget m t body w in
      ((verdict ≡ returned a) ↔ ((exit ≡ returned a) × (check b ≡ none)))
      × (get_elem? end.budgets (length w.budgets) ≡ some (finish (is_returned verdict) b))
      × (end.active ≡ w.active)
unfolding hold_run_budget
hold_run_budget_contract m t body w w' exit b a h g = rw h (
    rw (check_at_lem (length w.budgets) w' b g) (
      conclude_returned exit (check b) a,
      get_elem?-modify (length w.budgets) _ w'.budgets b g,
      refl,
    ))

-- A failure that the ledger records turns every result and every Exception of the body, whatever
-- the body made of the refusal, into the error of that budget.
pub hold_run_budget_refused :
    {A : Type 0} (m t : ℕ) (body : ℕ → World → Exit A × World) (w w' : World) (exit : Exit A)
    (b : RunBudget) (e : LedgerError)
    → body (length w.budgets) (enter m t w) ≡ (exit, w')
    → get_elem? w'.budgets (length w.budgets) ≡ some b
    → check b ≡ some e
    → IsOverridden exit
    → (hold_run_budget m t body w).0 ≡ raised (ledger e)
unfolding hold_run_budget
hold_run_budget_refused m t body w w' exit b e h g f o =
    rw h (rw (check_at_lem (length w.budgets) w' b g) (rw f (conclude_refused exit e o)))

reserve_tool_spent :
    (b : RunBudget)
    → check b ≡ none
    → b.tool_limit ≤ b.tool_calls
    → reserve Kind.tool b ≡ (some tool_budget_exceeded, record b { failure = some Failure.tool })
unfolding reserve
reserve_tool_spent b open_ spent = ground arith

-- With the tool budget of the active ledger `b` used up, `wrap_tool_call` raises the refusal
-- without running the handler: only the failure is recorded, and no counter moves.
pub wrap_tool_call_refused :
    {A : Type 0} (handler : World → Exit A × World) (w : World) (id : ℕ) (b : RunBudget)
    → w.active ≡ some id
    → get_elem? w.budgets id ≡ some b
    → check b ≡ none
    → b.tool_limit ≤ b.tool_calls
    → let (exit, end) = wrap_tool_call handler w in
      (exit ≡ raised (ledger tool_budget_exceeded))
      × (get_elem? end.budgets id ≡ some (record b { failure = some Failure.tool }))
      × (end.observations ≡ w.observations)
      × (end.active ≡ w.active)
unfolding wrap_tool_call
wrap_tool_call_refused handler w id b act g open_ spent =
    let r = reserve_tool_spent b open_ spent in
    let kept = get_elem?-modify id (λ b'. (reserve Kind.tool b').1) w.budgets b g in
    ground (arith, r, kept)

-- The body that takes the steps `ss` on its own ledger and then exits.
abbrev pub acts : {A : Type 0} → List Step → Exit A → ℕ → World → Exit A × World
acts ss exit id w = (exit, record w { budgets = modify id (run ss) w.budgets })

-- An observation of one budget allows what that budget allows.
allows_cache_single :
    (os : List (List ℕ)) (bs : List RunBudget) (b : RunBudget) (active observing : Option ℕ)
    → allows_cache (length os) (record {
      budgets = bs ++ b ∷ [];
      observations = os ++ (length bs ∷ []) ∷ [];
      active = active;
      observing = observing;
    })
      ≡ allows_answer_cache b
unfolding allows_cache
allows_cache_single os bs b active observing =
    ground (arith, get_elem?-append_length os (length bs ∷ []), get_elem?-append_length bs b)

-- A recorded failure bars the cache whatever `_finish` is told.
allows_answer_cache_refused :
    (b : RunBudget) (e : LedgerError) (success : Bool)
    → check b ≡ some e
    → allows_answer_cache (finish success b) ≡ false
unfolding allows_answer_cache check finish
allows_answer_cache_refused b e success h = ground arith

conclude-none : {A : Type 0} (exit : Exit A) → conclude exit none ≡ exit
unfolding conclude
conclude-none (returned x) = refl
conclude-none (raised (base_exception n)) = refl
conclude-none (raised (exception n)) = refl
conclude-none (raised (ledger l)) = refl
conclude-none (raised budget_context_missing) = refl

conclude_allows :
    {A : Type 0} (exit : Exit A) (b : RunBudget)
    → allows_answer_cache (finish (is_returned (conclude exit (check b))) b)
      ≡ allows_answer_cache (finish (is_returned exit) b)
conclude_allows exit b = elim (Option-cases (check b)) [
  | inl e ↦ rw e (rw (conclude-none exit))
  | inr (x, e) ↦
      rw (allows_answer_cache_refused b x (is_returned (conclude exit (check b))) e)
        (rw (allows_answer_cache_refused b x (is_returned exit) e))
]

-- Where a run takes the steps `ss` on its ledger and exits under a fresh cache observation, the
-- observation allows that the answer is cached exactly when the body returned and the steps are
-- the evidence for it.
pub observed_run_allows_cache :
    {A : Type 0} (m t : ℕ) (ss : List Step) (exit : Exit A) (w : World)
    → let (verdict, end) = observe_answer_cache (λ o. hold_run_budget m t (acts ss exit)) w in
      (allows_cache (length w.observations) end ≡ true) ↔ Cacheable (is_returned exit) m ss
unfolding observe_answer_cache hold_run_budget
observed_run_allows_cache m t ss exit w = rw (modify-append_length (run ss) w.budgets (fresh m t)) (
    rw (modify-append_length (λ ids. ids ++ length w.budgets ∷ []) w.observations []) (
      rw
        (check_at_lem (length w.budgets) end (run ss (fresh m t))
          (get_elem?-append_length w.budgets _))
        (rw (modify-append_length _ w.budgets (run ss (fresh m t))) (
          rw (allows_cache_single w.observations w.budgets _ w.active w.observing) (
            rw (conclude_allows exit (run ss (fresh m t)))
              (allows_answer_cache_iff (is_returned exit) m t ss))))))
  where
    end : World
    end = record {
      budgets = w.budgets ++ run ss (fresh m t) ∷ [];
      observations = w.observations ++ (length w.budgets ∷ []) ∷ [];
      active = some (length w.budgets);
      observing = some (length w.observations);
    }
