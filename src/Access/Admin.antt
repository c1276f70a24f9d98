-- ===== src/Access/Admin.antt =====
-- data_agent/services/admin_service.py: the listing of users and the change of a role. The users
-- table is a parameter; a commit may fail. Arguments of a wrong Python type are not modelled.
pub mod Laws
use deep_data_agent.Prelude.{
  ℕ, ◌≡◌, ◌≤◌, Bool, true, false, ◌&&◌, ◌||◌, not, Option, none, some, List, [], ◌∷◌, ◌++◌, String,
  str_eq, leb, ◌==◌, length, if◌then◌else◌,
}
use deep_data_agent.Prelude.Int.{ℤ, pos, negsuc}
use deep_data_agent.Access.{
  Permission, admin_users_list, admin_roles_write, User, AuditEvent, users_listed, role_rejected,
  role_changed, ensure_permission,
}

-- `UserRole`
pub data UserRole : Type 0 where
  user admin : UserRole

unfoldable pub role_value : UserRole → String
role_value user = "user"
role_value admin = "admin"

-- What the service asks of the session: a query, the assignment of a role to a user of the session,
-- `commit` and `refresh` of a user, which may raise (`false`), and `rollback`.
pub record Users : Type 1 where
  pub Store : Type 0
  pub page : ℕ → ℕ → Store → List User
  pub find_user : ℕ → Store → Option User
  pub set_role : ℕ → String → Store → Store
  pub commit : Store → Bool × Store
  pub rollback : Store → Store
  pub refresh : ℕ → Store → Bool

-- `database_error` is the exception of `commit`, `refresh_error` that of `refresh`.
pub data Result (A : Type 0) : Type 0 where
  ok : A → Result A
  denied user_not_found self_role_change invalid_bounds database_error refresh_error : Result A

module _ (t : Users) where
  open t use {Store, page, find_user, set_role, commit, rollback, refresh}

  pub record World : Type 0 where
    pub store : Store
    pub log : List AuditEvent

  -- `list_users`, with `offset` and `limit` as integers.
  unfoldable pub list_users : User → ℤ → ℤ → World → Result (List User) × World
  list_users actor offset limit w =
      let (allowed, log) = ensure_permission actor admin_users_list w.log in
      if allowed then in_bounds offset limit log else (denied, record w { log = log })
    where
      in_bounds : ℤ → ℤ → List AuditEvent → Result (List User) × World
      in_bounds (pos o) (pos l) log =
          if leb 1 l && leb l 100
          then (
            ok (page o l w.store),
            record w { log = log ++ users_listed actor.id (length (page o l w.store)) ∷ [] },
          )
          else (invalid_bounds, record w { log = log })
      in_bounds _ _ log = (invalid_bounds, record w { log = log })

  -- The part of `change_user_role` after the target was found.
  unfoldable pub assign_role : User → User → UserRole → World → Result User × World
  assign_role actor target role w =
      let changed = record target { role = role_value role } in
      let event = role_changed actor.id target.id target.role (role_value role) in
      let (committed, store) = commit (set_role target.id (role_value role) w.store) in
      if str_eq target.role (role_value role)
      then (ok target, record w { log = w.log ++ event ∷ [] })
      else if not committed
      then (database_error, record w { store = rollback store })
      else if refresh target.id store
      then (ok changed, record { store = store; log = w.log ++ event ∷ [] })
      else (refresh_error, record w { store = store })

  -- `change_user_role`
  unfoldable pub change_user_role : User → ℕ → UserRole → World → Result User × World
  change_user_role actor target_user_id role w =
      let (allowed, log) = ensure_permission actor admin_roles_write w.log in
      let w' = record w { log = log } in
      if not allowed
      then (denied, w')
      else if not (leb 1 target_user_id)
      then (user_not_found, w')
      else if actor.id == target_user_id
      then (
        self_role_change,
        record w' {
          log =
              log
              ++ role_rejected actor.id (some (target_user_id, actor.role, role_value role)) ∷ [];
        },
      )
      else elim (find_user target_user_id w.store) [
        | none ↦ (user_not_found, record w' { log = log ++ role_rejected actor.id none ∷ [] })
        | some target ↦ assign_role actor target role w'
      ]
