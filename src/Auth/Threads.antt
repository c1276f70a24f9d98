-- ===== src/Auth/Threads.antt =====
-- data_agent/security/langgraph_auth.py: who a caller of the graph server is, and whose threads it sees.
-- How the server matches a filter is a parameter.
use deep_data_agent.Prelude.{
  ℕ, ◌≡◌, refl, sym, ap, ◌∙◌, ◌↔◌, Bool, true, Option, some, List, [], ◌∷◌, String, keep, arith,
}
use deep_data_agent.Access.{
  Permission, session_read_own, session_write_own, session_delete_own, agent_invoke_own,
  file_read_own, file_write_own, file_delete_own, admin_users_list, admin_roles_write,
  has_permission,
}
use deep_data_agent.Agent.Config.Entries.{Dict, get, put, get-put}
use deep_data_agent.Auth.{
  Jwt, Texts, Answer, granted, ◌next◌, User, get_user_for_authorization_header,
  bearer_token_from_header, get_user_for_access_token,
}
use deep_data_agent.Auth.Laws.{next-eq-granted, IsDecimal, IsAuthentic, token-IsAuthentic}

-- The permissions in the order of their values.
abbrev pub sorted_permissions : List Permission
sorted_permissions =
    admin_roles_write ∷ admin_users_list ∷ agent_invoke_own ∷ file_delete_own ∷ file_read_own
    ∷ file_write_own ∷ session_delete_own ∷ session_read_own ∷ session_write_own ∷ []

-- The dict that `authenticate` returns; `is_authenticated` is always true.
pub record Caller : Type 0 where
  pub identity : String
  pub permissions : List Permission

unfoldable pub caller_of : Texts → User → Caller
caller_of x user = record {
  identity = x.str user.id;
  permissions = keep (has_permission user.role) sorted_permissions;
}

-- `authenticate`: a missing configuration is its 503, invalid credentials its 401.
unfoldable pub authenticate :
    Jwt → Texts → Option String → (ℕ → Option User) → ℕ → Option String → Answer Caller
authenticate j x secret by_id now authorization =
    get_user_for_authorization_header j x secret by_id now authorization next λ user.
    granted (caller_of x user)

-- `value.get("metadata")`: a dict, or anything else.
pub data Metadata (V : Type 0) : Type 0 where
  dict : Dict V → Metadata V
  other : Metadata V

-- `authorize_thread_owner`: the metadata of the thread and the filter, where `text` makes a value of a str.
unfoldable pub authorize_thread_owner :
    {V : Type 0} → (String → V) → Caller → Metadata V → Dict V × Dict V
authorize_thread_owner text caller (dict entries) =
    (put "owner" (text caller.identity) entries, ("owner", text caller.identity) ∷ [])
authorize_thread_owner text caller other =
    (put "owner" (text caller.identity) [], ("owner", text caller.identity) ∷ [])

-- The server, as documented: a filter lets a thread through if each entry of the filter is one of the
-- thread's metadata.
pub record Server (V : Type 0) : Type 0 where
  pub text : String → V
  pub admits : Dict V → Dict V → Bool
  pub text_injective : (a b : String) → text a ≡ text b → a ≡ b
  pub admits_iff :
      (key : String) (value : V) (metadata : Dict V)
      → (admits ((key, value) ∷ []) metadata ≡ true) ↔ (get key metadata ≡ some value)

inside : {A : Type 0} {a b : A} → some a ≡ some b → a ≡ b
inside h = ground arith

module _ {V : Type 0} (v : Server V) where
  open v use {text, admits}

  owner_of :
      (caller : Caller) (m : Metadata V)
      → get "owner" (authorize_thread_owner text caller m).0 ≡ some (text caller.identity)
  unfolding authorize_thread_owner
  owner_of caller (dict entries) = get-put "owner" "owner" (text caller.identity) entries ∙ refl
  owner_of caller other = get-put "owner" "owner" (text caller.identity) [] ∙ refl

  filter_of :
      (caller : Caller) (m : Metadata V)
      → (authorize_thread_owner text caller m).1 ≡ ("owner", text caller.identity) ∷ []
  unfolding authorize_thread_owner
  filter_of caller (dict entries) = refl
  filter_of caller other = refl

  -- Whatever metadata a client sends: a thread that one user creates or changes is seen by another exactly if
  -- the two are one user.
  pub threads_apart :
      (x : Texts)
      → IsDecimal x
      → (creator reader : User) (sent asked : Metadata V)
      → (admits
            (authorize_thread_owner text (caller_of x reader) asked).1
            (authorize_thread_owner text (caller_of x creator) sent).0
          ≡ true)
        ↔ (reader.id ≡ creator.id)
  unfolding caller_of
  threads_apart x law creator reader sent asked =
      let metadata = (authorize_thread_owner text (caller_of x creator) sent).0 in
      let same = owner_of (caller_of x creator) sent in
      let seen = v.admits_iff "owner" (text (x.str reader.id)) metadata in
      let filter = filter_of (caller_of x reader) asked in
      (
        (λ h. inside (
            sym (law.int_str reader.id)
            ∙ ap x.int (
                sym (
                  v.text_injective (x.str creator.id) (x.str reader.id)
                    (inside (sym same ∙ seen.0 (rw filter at h)))))
            ∙ law.int_str creator.id)),
        λ e. rw filter (seen.1 (same ∙ ap (λ n. some (text (x.str n))) (sym e))),
      )

-- A caller is a stored user with a token that is valid now, and has the permissions of the stored role.
pub authenticate-IsAuthentic :
    (j : Jwt) (x : Texts) (secret : Option String) (table : ℕ → Option User) (now : ℕ)
    (authorization : Option String) (caller : Caller)
    → authenticate j x secret table now authorization ≡ granted caller
    → (token : String) × (user : User) × (bearer_token_from_header j x authorization
        ≡ granted token)
      × IsAuthentic j x secret table now token user
      × (caller ≡ caller_of x user)
unfolding authenticate get_user_for_authorization_header
authenticate-IsAuthentic j x secret table now authorization caller h =
    let (user, e, g) =
      next-eq-granted
        (bearer_token_from_header j x authorization
          next get_user_for_access_token j x secret table now)
        _ h in
    let (token, e', g') = next-eq-granted (bearer_token_from_header j x authorization) _ e in
    (token, user, e', token-IsAuthentic j x secret table now token user g', ground arith)
