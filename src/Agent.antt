-- ===== src/Agent.antt =====
-- data_agent/services/agent_service.py: the results of the graph and the failures of a request.
pub mod Channel
pub mod Request
pub mod Config
pub mod Stream
use deep_data_agent.Prelude.{
  ℕ, Bool, true, false, ◌&&◌, ◌||◌, not, Option, none, some, List, [], ◌∷◌, String, str_eq, leb,
  ltb, if◌then◌else◌,
}
use deep_data_agent.Budget.{Message, is_final}
use Prim.Native.String.{count}

-- What `ainvoke` and the graph raise, by the handlers of `ainvoke`: `model_limit` and `tool_limit` are
-- the errors of the LangChain middleware, `timed_out` any TimeoutError but AgentTimeoutError, and `other`
-- any other Exception; `base_other` is a BaseException that is none and no cancellation.
pub data Failure : Type 0 where
  permission_denied invalid_query : Failure
  busy protection_unavailable : ℕ → Failure
  model_budget model_limit tool_budget tool_limit : Failure
  response_too_large agent_timeout timed_out cancelled not_configured invocation : Failure
  other base_other : Failure

-- A result or an exception.
pub data Answer (A : Type 0) : Type 0 where
  ok : A → Answer A
  err : Failure → Answer A

-- One message of a graph's result: what the budget reads of it, and its `content` if that is a text.
pub record Reply : Type 0 where
  pub message : Message
  pub content : Option String

-- What `graph.ainvoke` returns: a mapping, with whether it has `__interrupt__` and the sequence
-- under `messages`, if there is one; or something else.
pub data GraphResult : Type 0 where
  mapping : Bool → Option (List Reply) → GraphResult
  unmapped : GraphResult

-- `messages[-1]`
unfoldable pub last : List Reply → Option Reply
last [] = none
last (m ∷ []) = some m
last (m ∷ n ∷ ms) = last (n ∷ ms)

-- `_complete_answer`
unfoldable pub complete_answer : GraphResult → Bool
unfolding is_final
complete_answer unmapped = false
complete_answer (mapping interrupted none) = false
complete_answer (mapping interrupted (some messages)) =
    not interrupted && elim (last messages) [ none ↦ false | some final ↦ is_final final.message ]

-- `_validate_response_text`, with `AGENT_RESPONSE_MAX_CHARS`; `none` is a value that is no text.
unfoldable pub validate_response_text : ℕ → Option String → Answer String
validate_response_text max none = err invocation
validate_response_text max (some response) =
    if ltb max (count response) then err response_too_large else ok response

-- `_response_text`
unfoldable pub response_text : ℕ → GraphResult → Answer String
unfolding validate_response_text last
response_text max unmapped = err invocation
response_text max (mapping interrupted none) = err invocation
response_text max (mapping interrupted (some messages)) = elim (last messages) [
  | none ↦ err invocation
  | some final ↦ validate_response_text max final.content
]

-- The `except` chain of `ainvoke`.
unfoldable pub translate : Failure → Failure
translate model_limit = model_budget
translate tool_limit = tool_budget
translate timed_out = agent_timeout
translate other = invocation
translate f = f
