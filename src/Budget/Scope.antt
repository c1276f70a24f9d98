-- ===== src/Budget/Scope.antt =====
-- The context of a run (data_agent/services/agent_budget.py): the ContextVars that hold the active
-- budget and the cache observation, `hold_run_budget`, and the middleware that charges the ledger.
-- A budget is a shared object: the store keeps every budget that was made, and the context
-- variables and the observations hold its index.
pub mod Laws
use deep_data_agent.Prelude.{
  ℕ, zero, suc, ◌+◌, Bool, true, false, ◌&&◌, Option, none, some, List, [], ◌∷◌, ◌++◌, all, length,
  get_elem?,
}
use deep_data_agent.Budget.{
  RunBudget, LedgerError, ResponseResult, Kind, Step, fresh, check, reserve, run, finish,
  observe_model_result, invalidate_cache, allows_answer_cache,
}

-- What a call can raise. `exception n` is another subclass of Exception and `base_exception n` a
-- BaseException that is none (cancellation, generator exit); `n` tells them apart.
pub data Exn : Type 0 where
  ledger : LedgerError → Exn
  budget_context_missing : Exn
  exception base_exception : ℕ → Exn

pub data Exit (A : Type 0) : Type 0 where
  returned : A → Exit A
  raised : Exn → Exit A

pub record World : Type 0 where
  pub budgets : List RunBudget
  -- the `_budgets` of each observation that was made
  pub observations : List (List ℕ)
  -- `_active_budget` and `_answer_cache_observation`
  pub active : Option ℕ
  pub observing : Option ℕ

-- An update of the object at one index.
unfoldable pub modify : {A : Type 0} → ℕ → (A → A) → List A → List A
modify i f [] = []
modify zero f (x ∷ xs) = f x ∷ xs
modify (suc i) f (x ∷ xs) = x ∷ modify i f xs

-- `observation.include(budget)`, where an observation is active.
unfoldable pub include : Option ℕ → ℕ → List (List ℕ) → List (List ℕ)
unfolding modify
include none id os = os
include (some o) id os = modify o (λ ids. ids ++ id ∷ []) os

unfoldable pub allows_budget : List RunBudget → ℕ → Bool
unfolding allows_answer_cache
allows_budget bs id = elim (get_elem? bs id) [ none ↦ false | some b ↦ allows_answer_cache b ]

unfoldable pub allows_ids : List RunBudget → List ℕ → Bool
unfolding allows_budget
allows_ids bs [] = false
allows_ids bs (id ∷ ids) = all (allows_budget bs) (id ∷ ids)

-- `_AnswerCacheObservation.allows_cache`
unfoldable pub allows_cache : ℕ → World → Bool
unfolding allows_ids
allows_cache o w = elim (get_elem? w.observations o) [
  | none ↦ false
  | some ids ↦ allows_ids w.budgets ids
]

-- `observe_answer_cache`: the body gets the observation, and the context variable is reset.
unfoldable pub observe_answer_cache :
    {A : Type 0} → (ℕ → World → Exit A × World) → World → Exit A × World
observe_answer_cache body w =
    let o = length w.observations in
    let (exit, w') =
      body o (record w { observations = w.observations ++ [] ∷ []; observing = some o }) in
    (exit, record w' { observing = w.observing })

-- The check of the budget with this index.
unfoldable pub check_at : ℕ → World → Option LedgerError
unfolding check
check_at id w = elim (get_elem? w.budgets id) [ none ↦ none | some b ↦ check b ]

-- The `try` of `hold_run_budget`: the check after the body, and the one in `except Exception`.
unfoldable pub conclude : {A : Type 0} → Exit A → Option LedgerError → Exit A
conclude (raised (base_exception n)) failed = raised (base_exception n)
conclude exit none = exit
conclude exit (some e) = raised (ledger e)

abbrev pub is_returned : {A : Type 0} → Exit A → Bool
is_returned (returned _) = true
is_returned (raised _) = false

-- The context in which the body of `hold_run_budget` starts.
unfoldable pub enter : ℕ → ℕ → World → World
unfolding include modify
enter model_limit tool_limit w = record w {
  budgets = w.budgets ++ fresh model_limit tool_limit ∷ [];
  observations = include w.observing (length w.budgets) w.observations;
  active = some (length w.budgets);
}

-- `hold_run_budget`, with the `with` block as `body`.
unfoldable pub hold_run_budget :
    {A : Type 0} → ℕ → ℕ → (ℕ → World → Exit A × World) → World → Exit A × World
unfolding conclude check_at enter modify
hold_run_budget model_limit tool_limit body w =
    let id = length w.budgets in
    let (exit, w') = body id (enter model_limit tool_limit w) in
    let verdict = conclude exit (check_at id w') in
    (
      verdict,
      record w' {
        budgets = modify id (finish (is_returned verdict)) w'.budgets;
        active = w.active;
      },
    )

-- `active_run_budget().reserve(kind)`: the request hook `reserve_model_request`, and the start of
-- `wrap_tool_call`.
unfoldable pub reserve_active : Kind → World → Exit (Unit {0}) × World
unfolding reserve modify
reserve_active kind w = elim w.active [
  | none ↦ (raised budget_context_missing, w)
  | some id ↦ elim (get_elem? w.budgets id) [
    | none ↦ (raised budget_context_missing, w)
    | some b ↦
        let w' = record w { budgets = modify id (λ b'. (reserve kind b').1) w.budgets } in
        elim (reserve kind b).0 [ none ↦ (returned tt, w') | some e ↦ (raised (ledger e), w') ]
  ]
]

unfoldable pub reserve_model_request : World → Exit (Unit {0}) × World
unfolding reserve_active
reserve_model_request = reserve_active Kind.model

unfoldable pub wrap_tool_call : {A : Type 0} → (World → Exit A × World) → World → Exit A × World
unfolding reserve_active
wrap_tool_call handler w =
    let (exit, w') = reserve_active Kind.tool w in
    elim exit [ returned _ ↦ handler w' | raised e ↦ (raised e, w') ]

-- The handler returns the response; `result` reads its messages. Every exception of the handler
-- vetoes the cache and is raised again.
unfoldable pub wrap_model_call :
    {A : Type 0} → (A → ResponseResult) → (World → Exit A × World) → World → Exit A × World
unfolding modify
wrap_model_call result handler w = elim w.active [
  | none ↦ (raised budget_context_missing, w)
  | some id ↦
      let (exit, w') = handler w in
      elim exit [
        | returned response ↦ (
          returned response,
          record w' { budgets = modify id (observe_model_result (result response)) w'.budgets },
        )
        | raised e ↦ (raised e, record w' { budgets = modify id invalidate_cache w'.budgets })
      ]
]
