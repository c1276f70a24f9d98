-- ===== src/Agent/Config/Tests.antt =====
-- A client's configuration that claims another identity, and the theorems of the configuration there.
use deep_data_agent.Prelude.{
  ℕ, ◌≡◌, refl, ap, Bool, true, false, none, some, List, [], ◌∷◌, String, Option, if◌then◌else◌,
  listed,
}
use deep_data_agent.Lease.Manager.Tests.{names}
use deep_data_agent.Agent.Config.Entries.{Dict, get, put, pop_all}
use deep_data_agent.Agent.Config.{
  Identity, number, unsupported, Values, client_keys, section_keys, section, bounded_run_config,
  prepare_run_config, authenticated_subject, canonical_subject, canonical_text, may_invoke,
  name_subject, bound_configurable, bound_context,
}
use deep_data_agent.Agent.Config.Laws.{Strips, bounded_run_config-Strips}
use deep_data_agent.Agent.Config.Owner.{IsOwned, prepare_run_config-IsOwned}

-- Values: a text, a number, a user who is signed in under this id, permissions, and dicts by their
-- entries.
data Value : Type 0 where
  word : String → Value
  limit : ℕ → Value
  user : ℕ → Value
  granted : List String → Value
  empty : Value
  entry : String → Value → Value → Value

abbrev of_dict : Dict Value → Value
of_dict [] = empty
of_dict ((k, v) ∷ d) = entry k v (of_dict d)

abbrev entries : Value → Option (Dict Value)
entries empty = some []
entries (entry k v d) = elim (entries d) [ none ↦ none | some e ↦ some ((k, v) ∷ e) ]
entries _ = none

entries-of_dict : (d : Dict Value) → entries (of_dict d) ≡ some d
entries-of_dict [] = refl
entries-of_dict ((k, v) ∷ d) =
    ap (λ o. elim o [ none ↦ none | some e ↦ some ((k, v) ∷ e) ]) (entries-of_dict d)

abbrev is_user : Option Value → Bool
is_user (some (user n)) = true
is_user _ = false

abbrev identity_of : Option Value → Identity
identity_of (some (user n)) = number n
identity_of _ = unsupported

abbrev members_of : Option Value → Option (List String)
members_of (some (granted names)) = some names
members_of _ = none

abbrev values : Values
values = record {
  V = Value;
  entries = entries;
  of_dict = of_dict;
  of_number = limit;
  of_text = word;
  is_authenticated = is_user;
  identity = identity_of;
  members = members_of;
  entries-of_dict = entries-of_dict;
}

-- The `configurable` of a client that claims the id 1 and a longer timeout.
abbrev claimed : Dict Value
claimed =
    ("langgraph_auth_user", user 7)
    ∷ ("langgraph_auth_user_id", word "1")
    ∷ ("langgraph_auth_permissions", granted ("agent.invoke_own" ∷ []))
    ∷ ("timeout", limit 9999)
    ∷ []

abbrev config : Dict Value
config =
    ("recursion_limit", limit 9999) ∷ ("tags", word "t") ∷ ("configurable", of_dict claimed) ∷ []

-- What the server makes of it.
abbrev owned : Dict Value
owned =
    ("recursion_limit", limit 50)
    ∷ ("tags", word "t")
    ∷ (
      "configurable",
      of_dict (
          ("langgraph_auth_user", user 7)
          ∷ ("langgraph_auth_permissions", granted ("agent.invoke_own" ∷ []))
          ∷ ("langgraph_auth_user_id", word "7")
          ∷ []),
    )
    ∷ []

bounded_run_config-Strips_example :
    (b : Dict Value) × (bounded_run_config values 50 config ≡ some b)
    × (get "recursion_limit" b ≡ some (limit 50))
    × ((d : Dict Value) × (section values "configurable" b ≡ some d)
        × Strips values section_keys claimed d)
    × ((e : Dict Value) × (section values "context" b ≡ some e) × Strips values section_keys [] e)
    × (get "tags" b ≡ (if listed "tags" client_keys then none else get "tags" config))
unfolding section get listed
bounded_run_config-Strips_example =
    bounded_run_config-Strips values 50 config claimed [] "tags" refl refl refl

prepare_run_config-IsOwned_example : IsOwned values names none claimed owned "7"
unfolding section get listed put pop_all bounded_run_config bound_configurable bound_context
    prepare_run_config authenticated_subject canonical_subject canonical_text may_invoke
    name_subject
prepare_run_config-IsOwned_example =
    prepare_run_config-IsOwned values 50 names none config claimed [] owned "7" refl refl refl
