-- ===== src/Access.antt =====
-- data_agent/services/authorization_service.py: roles, permissions and their audit records.
pub mod Admin
mod Tests
use deep_data_agent.Prelude.{
  ℕ, Bool, true, false, ◌||◌, List, [], ◌∷◌, ◌++◌, String, str_eq, leb, ℕ, Option, if◌then◌else◌,
}

-- `Permission`
pub data Permission : Type 0 where
  session_read_own session_write_own session_delete_own agent_invoke_own : Permission
  file_read_own file_write_own file_delete_own : Permission
  admin_users_list admin_roles_write : Permission

-- `actor`, as far as the services read it.
pub record User : Type 0 where
  pub id : ℕ
  pub role : String

-- The audit records of authorization_service.py and admin_service.py. `role_rejected` has the target
-- with its previous and its requested role where the source gives them.
pub data AuditEvent : Type 0 where
  authorization_denied : ℕ → Permission → AuditEvent
  users_listed : ℕ → ℕ → AuditEvent
  role_rejected : ℕ → Option (ℕ × String × String) → AuditEvent
  role_changed : ℕ → ℕ → String → String → AuditEvent

-- `_SESSION_PERMISSIONS`
unfoldable pub is_session_permission : Permission → Bool
is_session_permission admin_users_list = false
is_session_permission admin_roles_write = false
is_session_permission _ = true

-- `has_permission`, with `ROLE_PERMISSIONS`: an unknown role has none.
unfoldable pub has_permission : String → Permission → Bool
has_permission role permission =
    if str_eq role "user" then is_session_permission permission else str_eq role "admin"

-- `ensure_permission`: whether it returns, and the audit log after it.
unfoldable pub ensure_permission : User → Permission → List AuditEvent → Bool × List AuditEvent
ensure_permission actor permission log =
    if has_permission actor.role permission then (true, log) else (
      false,
      if leb 1 actor.id then log ++ authorization_denied actor.id permission ∷ [] else log,
    )
