-- ===== src/Budget/Tests.antt =====
-- Runs of the ledger and of its scope at small limits, and the theorems at such inputs.
use deep_data_agent.Prelude.{
  ℕ, ◌≤◌, ◌≡◌, refl, ◌↔◌, true, false, none, some, List, [], ◌∷◌, get_elem?,
}
use deep_data_agent.Budget.{
  RunBudget, Failure, Kind, Message, sequence, Step, reserves, observes, fresh, check, reserve, run,
  finish, allows_answer_cache,
}
use deep_data_agent.Budget.Bounds.{granted, granted-le-limit}
use deep_data_agent.Budget.Evidence.{Cacheable, allows_answer_cache_iff}
use deep_data_agent.Budget.Scope.{Exit, returned, World, enter, hold_run_budget, is_returned}
use deep_data_agent.Budget.Scope.Laws.{hold_run_budget_contract, acts}

abbrev final_message : Message
final_message = record {
  is_ai_message = true;
  finish_reason = some "stop";
  tool_calls = 0;
  invalid_tool_calls = 0;
}

abbrev branches : List Step
branches =
    reserves Kind.model
    ∷ reserves Kind.tool
    ∷ observes (sequence (final_message ∷ []))
    ∷ reserves Kind.tool
    ∷ reserves Kind.model
    ∷ []

-- One tool is granted, the second is refused, and the refusal bars the second model request.
run_branches :
    (granted Kind.model branches (fresh 3 1) ≡ 1) × (granted Kind.tool branches (fresh 3 1) ≡ 1)
unfolding reserve fresh run
run_branches = (refl, refl)

granted-le-limit_example :
    (granted Kind.model branches (fresh 3 1) ≤ 3)
    × (granted Kind.tool branches (fresh 3 1) ≤ 1)
    × ((run branches (fresh 3 1)).model_requests ≡ granted Kind.model branches (fresh 3 1))
    × ((run branches (fresh 3 1)).tool_calls ≡ granted Kind.tool branches (fresh 3 1))
granted-le-limit_example = granted-le-limit 3 1 branches

abbrev spent : RunBudget
spent = record {
  model_limit = 3;
  tool_limit = 1;
  model_requests = 1;
  tool_calls = 1;
  failure = some Failure.tool;
  model_observed = true;
  cache_safe = true;
  completed = false;
}

abbrev clean : List Step
clean = reserves Kind.model ∷ observes (sequence (final_message ∷ [])) ∷ []

allows_answer_cache_iff_example :
    (allows_answer_cache (finish true (run clean (fresh 3 1))) ≡ true) ↔ Cacheable true 3 clean
allows_answer_cache_iff_example = allows_answer_cache_iff true 3 1 clean

abbrev answered : Exit ℕ
answered = returned 7

abbrev outside : World
outside = record { budgets = []; observations = []; active = none; observing = none }

-- The body spends the tool budget and returns all the same.
abbrev overspends : ℕ → World → Exit ℕ × World
overspends = acts branches answered

hold_run_budget_contract_example :
    let (verdict, end) = hold_run_budget 3 2 overspends outside in
    ((verdict ≡ returned 7) ↔ ((answered ≡ returned 7) × (check (run branches (fresh 3 2)) ≡ none)))
    × (get_elem? end.budgets 0 ≡ some (finish (is_returned verdict) (run branches (fresh 3 2))))
    × (end.active ≡ none)
unfolding enter fresh run
hold_run_budget_contract_example =
    hold_run_budget_contract 3 2 overspends outside (overspends 0 (enter 3 2 outside)).1 answered
      (run branches (fresh 3 2)) 7 refl refl

abbrev all_used : RunBudget
all_used = record spent { failure = none }

abbrev inside : World
inside = record { budgets = all_used ∷ []; observations = []; active = some 0; observing = none }
