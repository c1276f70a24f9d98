-- ===== src/Agent/Config.antt =====
-- The configuration of a graph run (data_agent/services/agent_service.py): the client's keys that the
-- server owns are taken out, and the subject of the run is put in. A Python value is a parameter with
-- what the code asks of it; a dict is an association list.
pub mod Entries
pub mod Laws
pub mod Owner
mod Tests
use deep_data_agent.Prelude.{
  ℕ, ◌≡◌, Bool, true, false, ◌&&◌, not, Option, none, some, List, [], ◌∷◌, ◌++◌, String, listed,
  str_eq, leb, if◌then◌else◌,
}
use deep_data_agent.Lease.Manager.{Subjects}
use deep_data_agent.Agent.Config.Entries.{Dict, get, put, pop_all}

-- The identity of a user as `_canonical_subject` tells it apart: an int that is no bool, a str, or
-- another value. `negative` is an int below 0.
pub data Identity : Type 0 where
  number : ℕ → Identity
  negative unsupported : Identity
  text : String → Identity

-- What the code asks of a value: the entries that `dict(value or {})` has, or `none` where that raises;
-- `is_authenticated is True` and the identity of the user, where there is no value too; its members
-- if it is a list, a tuple or a set.
pub record Values : Type 1 where
  pub V : Type 0
  pub entries : V → Option (Dict V)
  pub of_dict : Dict V → V
  pub of_number : ℕ → V
  pub of_text : String → V
  pub is_authenticated : Option V → Bool
  pub identity : Option V → Identity
  pub members : Option V → Option (List String)
  -- `dict` of a dict is a copy of it
  pub entries-of_dict : (d : Dict V) → entries (of_dict d) ≡ some d

-- `_CLIENT_BUDGET_KEYS | _CLIENT_IDENTITY_KEYS`
abbrev pub client_keys : List String
client_keys =
    "max_completion_tokens" ∷ "max_retries" ∷ "max_tokens" ∷ "model_call_limit" ∷ "request_timeout"
    ∷ "timeout" ∷ "tool_call_limit" ∷ "langgraph_auth_user_id" ∷ []

-- The keys that are taken out of the sections.
abbrev pub section_keys : List String
section_keys = "recursion_limit" ∷ client_keys

-- What a run may be told: a canonical subject, AgentIdentityError, or another exception of Python.
pub data Subject : Type 0 where
  subject : String → Subject
  identity_error crashed : Subject

unfoldable pub canonical_text : Subjects → String → Subject
canonical_text names value =
    if not (names.is_digit value) then identity_error else elim (names.int value) [
      | none ↦ crashed
      | some n ↦ if leb 1 n && str_eq (names.str n) value then subject value else identity_error
    ]

-- `_canonical_subject`
unfoldable pub canonical_subject : Subjects → Identity → Subject
unfolding canonical_text
canonical_subject names (number n) = canonical_text names (names.str n)
canonical_subject names negative = identity_error
canonical_subject names unsupported = identity_error
canonical_subject names (text value) = canonical_text names value

module _ (y : Values) where
  open y use {V, entries, of_dict, of_number, of_text, is_authenticated, identity, members}

  -- `dict(config.get(key) or {})`
  unfoldable pub section : String → Dict V → Option (Dict V)
  section key config = elim (get key config) [ none ↦ some [] | some v ↦ entries v ]

  -- `bounded["context"]`, if there is one.
  unfoldable pub bound_context : Dict V → Option (Dict V)
  bound_context bounded = elim (get "context" bounded) [
    | none ↦ some bounded
    | some v ↦ elim (entries v) [
      | none ↦ none
      | some context ↦ some (put "context" (of_dict (pop_all section_keys context)) bounded)
    ]
  ]

  unfoldable pub bound_configurable : Dict V → Option (Dict V)
  bound_configurable bounded = elim (section "configurable" bounded) [
    | none ↦ none
    | some configurable ↦
        some (put "configurable" (of_dict (pop_all section_keys configurable)) bounded)
  ]

  -- `_bounded_run_config`, with `AGENT_RECURSION_LIMIT`; without a configuration it is `[]`.
  unfoldable pub bounded_run_config : ℕ → Dict V → Option (Dict V)
  bounded_run_config limit config = elim (bound_configurable (pop_all client_keys config)) [
    | none ↦ none
    | some bounded ↦ elim (bound_context bounded) [
      | none ↦ none
      | some bounded' ↦ some (put "recursion_limit" (of_number limit) bounded')
    ]
  ]

  -- The membership test on the permissions of the user.
  unfoldable pub may_invoke : Option V → Bool
  may_invoke permissions = elim (members permissions) [
    | none ↦ false
    | some granted ↦ listed "agent.invoke_own" granted
  ]

  -- `_authenticated_subject`, with the active subject of the context.
  unfoldable pub authenticated_subject : Subjects → Option String → Dict V → Subject
  authenticated_subject names (some active) config = canonical_subject names (text active)
  authenticated_subject names none config = elim (section "configurable" config) [
    | none ↦ crashed
    | some configurable ↦
        let user = get "langgraph_auth_user" configurable in
        if is_authenticated user && may_invoke (get "langgraph_auth_permissions" configurable)
        then canonical_subject names (identity user)
        else identity_error
  ]

  -- The configuration with its subject, AgentIdentityError, or another exception.
  pub data Prepared : Type 0 where
    prepared : Dict V → String → Prepared
    unidentified failed : Prepared

  -- The end of `_prepare_run_config`.
  unfoldable pub name_subject : Dict V → String → Prepared
  name_subject bounded name = elim (section "configurable" bounded) [
    | none ↦ failed
    | some configurable ↦
        prepared
          (put "configurable" (of_dict (put "langgraph_auth_user_id" (of_text name) configurable))
            bounded)
          name
  ]

  -- `_prepare_run_config`
  unfoldable pub prepare_run_config : ℕ → Subjects → Option String → Dict V → Prepared
  prepare_run_config limit names active config = elim (bounded_run_config limit config) [
    | none ↦ failed
    | some bounded ↦ elim (authenticated_subject names active bounded) [
      | subject name ↦ name_subject bounded name
      | identity_error ↦ unidentified
      | crashed ↦ failed
    ]
  ]
