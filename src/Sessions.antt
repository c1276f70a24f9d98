-- ===== src/Sessions.antt =====
-- data_agent/services/session_service.py: chat sessions and their messages, each owned by a user.
-- The two tables are a parameter; the exceptions of the database, which every operation passes on,
-- are not modelled. A fresh UUID is an argument.
pub mod Isolation
mod Tests
use deep_data_agent.Prelude.{ℕ, Bool, true, false, Option, none, some, List, String, if◌then◌else◌}
use deep_data_agent.Access.{
  Permission, session_read_own, session_write_own, session_delete_own, User, AuditEvent,
  ensure_permission,
}

-- A row of the sessions table.
pub record ChatSession : Type 0 where
  pub id : ℕ
  pub user_id : ℕ
  pub session_id : String
  pub title : String
  pub updated_at : ℕ

-- A row of the messages table.
pub record Message : Type 0 where
  pub id : ℕ
  pub session_id : ℕ
  pub role : String
  pub content : String

-- The queries and changes of the two tables, each change with its commit.
pub record Tables : Type 1 where
  pub Store : Type 0
  -- user_id, session_id and title
  pub add_session : ℕ → String → String → Store → ChatSession × Store
  -- of a user, the latest first
  pub sessions_of : ℕ → Store → List ChatSession
  -- by session_id and user_id
  pub find_session : String → ℕ → Store → Option ChatSession
  pub add_message : ℕ → String → String → Store → Message × Store
  -- `session.updated_at = utc_now()`
  pub touch : ℕ → Store → Store
  -- of a session, by created_at
  pub messages_of : ℕ → Store → List Message
  pub delete_messages : ℕ → Store → Store
  pub delete_row : ℕ → Store → Store

-- A result, AuthorizationDeniedError, or the ValueError "Session not found".
pub data Result (A : Type 0) : Type 0 where
  ok : A → Result A
  denied session_not_found : Result A

module _ (t : Tables) where
  open t use {
    Store, add_session, sessions_of, find_session, add_message, touch, messages_of, delete_messages,
    delete_row,
  }

  pub record World : Type 0 where
    pub store : Store
    pub log : List AuditEvent

  -- `ensure_permission` in front of the rest of an operation.
  abbrev guarded :
      {A : Type 0} → User → Permission → (World → Result A × World) → World → Result A × World
  guarded actor permission rest w =
      let (allowed, log) = ensure_permission actor permission w.log in
      let w' = record w { log = log } in if allowed then rest w' else (denied, w')

  -- `create_session`
  unfoldable pub create_session : User → String → String → World → Result ChatSession × World
  create_session actor title uuid = guarded actor session_write_own (λ w.
      let (row, store) = add_session actor.id uuid title w.store in
      (ok row, record w { store = store }))

  -- `get_sessions`
  unfoldable pub get_sessions : User → World → Result (List ChatSession) × World
  get_sessions actor = guarded actor session_read_own (λ w. (ok (sessions_of actor.id w.store), w))

  -- `get_session`
  unfoldable pub get_session : String → User → World → Result (Option ChatSession) × World
  get_session session_id actor =
      guarded actor session_read_own (λ w. (ok (find_session session_id actor.id w.store), w))

  -- The `get_session` inside another operation: denied, no such session, or the session.
  abbrev with_session :
      {A : Type 0}
      → String
      → User
      → Result A
      → (ChatSession → World → Result A × World)
      → World
      → Result A × World
  with_session session_id actor absent rest w =
      let (found, w') = get_session session_id actor w in
      elim found [
        | ok (some session) ↦ rest session w'
        | ok none ↦ (absent, w')
        | denied ↦ (denied, w')
        | session_not_found ↦ (session_not_found, w')
      ]

  -- `add_message`
  unfoldable pub add_message_to : String → User → String → String → World → Result Message × World
  add_message_to session_id actor role content = guarded actor session_write_own (
      with_session session_id actor session_not_found (λ session w.
        let (message, store) = add_message session.id role content w.store in
        (ok message, record w { store = touch session.id store })))

  -- `get_messages`
  unfoldable pub get_messages : String → User → World → Result (List Message) × World
  get_messages session_id actor = guarded actor session_read_own (
      with_session session_id actor session_not_found
        (λ session w. (ok (messages_of session.id w.store), w)))

  -- `delete_session`
  unfoldable pub delete_session : String → User → World → Result Bool × World
  delete_session session_id actor = guarded actor session_delete_own (
      with_session session_id actor (ok false) (λ session w.
        (ok true, record w { store = delete_row session.id (delete_messages session.id w.store) })))
