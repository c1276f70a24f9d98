-- ===== src/Budget.antt =====
-- data_agent/services/agent_budget.py: `RunBudget`, the ledger of one run. The lock makes each
-- method one atomic step, so an execution with any number of branches is a list of steps.
pub mod Bounds
pub mod Evidence
pub mod Scope
mod Tests
use deep_data_agent.Prelude.{
  ℕ, ◌+◌, Bool, true, false, ◌&&◌, not, Option, none, some, List, [], ◌∷◌, String, str_eq, all, leb,
  is_some, ◌==◌, if◌then◌else◌,
}

-- Which budget `_failure` names.
pub data Failure : Type 0 where
  model tool : Failure

-- The string passed to `reserve`; `unknown` is any other string.
pub data Kind : Type 0 where
  model tool unknown : Kind

-- The exceptions that the ledger raises: AgentModelBudgetExceededError,
-- AgentToolBudgetExceededError and the ValueError of `reserve`.
pub data LedgerError : Type 0 where
  model_budget_exceeded tool_budget_exceeded unknown_kind : LedgerError

pub record RunBudget : Type 0 where
  pub model_limit : ℕ
  pub tool_limit : ℕ
  pub model_requests : ℕ
  pub tool_calls : ℕ
  pub failure : Option Failure
  pub model_observed : Bool
  pub cache_safe : Bool
  pub completed : Bool

-- `RunBudget.__init__`
unfoldable pub fresh : ℕ → ℕ → RunBudget
fresh model_limit tool_limit = record {
  model_limit = model_limit;
  tool_limit = tool_limit;
  model_requests = 0;
  tool_calls = 0;
  failure = none;
  model_observed = false;
  cache_safe = true;
  completed = false;
}

-- What `observe_model_result` reads of one message.
pub record Message : Type 0 where
  pub is_ai_message : Bool
  pub finish_reason : Option String
  pub tool_calls : ℕ
  pub invalid_tool_calls : ℕ

-- `getattr(response, "result", None)`: a list or a tuple of messages, or anything else.
pub data ResponseResult : Type 0 where
  sequence : List Message → ResponseResult
  other : ResponseResult

unfoldable pub is_stop : Option String → Bool
is_stop none = false
is_stop (some reason) = str_eq reason "stop"

unfoldable pub is_final : Message → Bool
is_final m =
    m.is_ai_message && is_stop m.finish_reason && m.tool_calls == 0 && m.invalid_tool_calls == 0

unfoldable pub is_complete : ResponseResult → Bool
is_complete (sequence []) = false
is_complete (sequence (m ∷ ms)) = all is_final (m ∷ ms)
is_complete other = false

unfoldable pub observe_model_result : ResponseResult → RunBudget → RunBudget
observe_model_result response b = record b {
  model_observed = true;
  cache_safe = b.cache_safe && is_complete response;
}

unfoldable pub invalidate_cache : RunBudget → RunBudget
invalidate_cache b = record b { cache_safe = false }

-- `_finish`
unfoldable pub finish : Bool → RunBudget → RunBudget
finish success b = record b { completed = success }

unfoldable pub allows_answer_cache : RunBudget → Bool
allows_answer_cache b =
    b.completed && b.model_observed && b.cache_safe && not (is_some b.failure) && b.tool_calls == 0

-- The error that `_check_locked` raises, if it raises one.
abbrev pub refusal : Option Failure → Option LedgerError
refusal none = none
refusal (some Failure.model) = some model_budget_exceeded
refusal (some Failure.tool) = some tool_budget_exceeded

-- `check` and `_check_locked`
unfoldable pub check : RunBudget → Option LedgerError
check b = refusal b.failure

-- The `if` chain of `reserve` between its two checks; `none` is the ValueError.
unfoldable pub charge : Kind → RunBudget → Option RunBudget
charge Kind.model b = some (
    if leb b.model_limit b.model_requests
    then record b { failure = some Failure.model }
    else record b { model_requests = b.model_requests + 1 })
charge Kind.tool b = some (
    if leb b.tool_limit b.tool_calls
    then record b { failure = some Failure.tool }
    else record b { tool_calls = b.tool_calls + 1 })
charge Kind.unknown b = none

-- The error, if `reserve` raises one, and the ledger after it.
unfoldable pub reserve : Kind → RunBudget → Option LedgerError × RunBudget
unfolding check charge
reserve kind b = elim (check b) [
  | some e ↦ (some e, b)
  | none ↦ elim (charge kind b) [ none ↦ (some unknown_kind, b) | some b' ↦ (check b', b') ]
]

-- One atomic step of some branch of the run.
pub data Step : Type 0 where
  reserves : Kind → Step
  observes : ResponseResult → Step
  invalidates : Step

unfoldable pub step : Step → RunBudget → RunBudget
unfolding reserve observe_model_result invalidate_cache
step (reserves kind) b = (reserve kind b).1
step (observes response) b = observe_model_result response b
step invalidates b = invalidate_cache b

-- Any interleaving of the branches is such a list.
unfoldable pub run : List Step → RunBudget → RunBudget
unfolding step
run [] b = b
run (s ∷ ss) b = run ss (step s b)
