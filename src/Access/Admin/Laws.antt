-- ===== src/Access/Admin/Laws.antt =====
-- What a change of role does to the users table (data_agent/services/admin_service.py).
use deep_data_agent.Prelude.{
  ℕ, ◌≡◌, ◌≢◌, refl, sym, ap, ◌∙◌, ◌⊎◌, inl, inr, Bool, true, false, not, ◌&&◌, Option, none, some,
  [], ◌∷◌, ◌++◌, String, str_eq, eq_iff, arith, leb, ◌==◌, if◌then◌else◌, Bool-cases, Option-cases,
}
use deep_data_agent.Access.{
  User, role_changed, ensure_permission, has_permission, is_session_permission,
}
use deep_data_agent.Access.Admin.{
  UserRole, role_value, Users, Result, ok, refresh_error, World, assign_role, change_user_role,
}

abbrev pub with_role : String → Option User → Option User
with_role r none = none
with_role r (some u) = some (record u { role = r })

-- The table as the session shows it. A commit keeps what the session shows; a rollback after a
-- failed commit drops what was assigned since the session was clean.
pub record Documented (t : Users) : Type 0 where
  pub row : t.Store → ℕ → Option User
  pub is_clean : t.Store → Bool
  pub find_row : (i : ℕ) (s : t.Store) → t.find_user i s ≡ row s i
  pub row_id : (i : ℕ) (u : User) (s : t.Store) → row s i ≡ some u → u.id ≡ i
  pub set_role_row :
      (i j : ℕ) (r : String) (s : t.Store)
      → row (t.set_role i r s) j ≡ (if i == j then with_role r (row s j) else row s j)
  pub commit_row : (j : ℕ) (s : t.Store) → (t.commit s).0 ≡ true → row (t.commit s).1 j ≡ row s j
  pub rollback_row :
      (i j : ℕ) (r : String) (s : t.Store)
      → is_clean s ≡ true
      → (t.commit (t.set_role i r s)).0 ≡ false
      → row (t.rollback (t.commit (t.set_role i r s)).1) j ≡ row s j

admin_is_no_user : (role : String) → str_eq role "admin" ≡ true → str_eq role "user" ≡ false
admin_is_no_user role e = rw ((eq_iff role "admin").0 e) refl

module _ (t : Users) (h : Documented t) where
  open h use {row}

  pub assigned :
      (u : User) (j : ℕ) (r : String) (s : t.Store)
      → row s u.id ≡ some u
      → (t.commit (t.set_role u.id r s)).0 ≡ true
      → row (t.commit (t.set_role u.id r s)).1 j
        ≡ (if u.id == j then some (record u { role = r }) else row s j)
  assigned u j r s f c =
      h.commit_row j (t.set_role u.id r s) c ∙ h.set_role_row u.id j r s ∙ ground (arith, f)

  -- The result is not reported before the commit has gone through.
  abbrev pub is_committed : {A : Type 0} → Result A → Bool
  is_committed (ok _) = true
  is_committed refresh_error = true
  is_committed _ = false

  assign_ok :
      (actor old u : User) (role : UserRole) (w : World t)
      → row w.store old.id ≡ some old
      → (assign_role t actor old role w).0 ≡ ok u
      → (row (assign_role t actor old role w).1.store old.id ≡ some u)
        × (u.role ≡ role_value role)
        × ((assign_role t actor old role w).1.log
            ≡ w.log ++ role_changed actor.id old.id old.role (role_value role) ∷ [])
  unfolding assign_role
  assign_ok actor old u role w f e = elim (Bool-cases (str_eq old.role (role_value role))) [
    | inl same ↦ ground (arith, eq_iff old.role (role_value role))
    | inr other ↦ elim (Bool-cases (t.commit (t.set_role old.id (role_value role) w.store)).0) [
      | inl c ↦
          let store = (t.commit (t.set_role old.id (role_value role) w.store)).1 in
          elim (Bool-cases (t.refresh old.id store)) [
            | inl read ↦ ground (arith, assigned old old.id (role_value role) w.store f c)
            | inr unread ↦ ground arith
          ]
      | inr c ↦ ground arith
    ]
  ]

  assign_keeps :
      (actor old : User) (j : ℕ) (role : UserRole) (w : World t)
      → row w.store old.id ≡ some old
      → h.is_clean w.store ≡ true
      → (j ≢ old.id) ⊎ (is_committed (assign_role t actor old role w).0 ≡ false)
      → row (assign_role t actor old role w).1.store j ≡ row w.store j
  unfolding assign_role
  assign_keeps actor old j role w f c k = elim (Bool-cases (str_eq old.role (role_value role))) [
    | inl same ↦ ground arith
    | inr other ↦ elim (Bool-cases (t.commit (t.set_role old.id (role_value role) w.store)).0) [
      | inl d ↦
          let store = (t.commit (t.set_role old.id (role_value role) w.store)).1 in
          elim (Bool-cases (t.refresh old.id store)) [
            | inl read ↦ ground (arith, assigned old j (role_value role) w.store f d)
            | inr unread ↦ ground (arith, assigned old j (role_value role) w.store f d)
          ]
      | inr d ↦ ground (arith, h.rollback_row old.id j (role_value role) w.store c d)
    ]
  ]

  -- A change is refused with the table as it was, or it comes to the assignment of the role.
  change_cases :
      (actor : User) (target : ℕ) (role : UserRole) (w : World t)
      → ((is_committed (change_user_role t actor target role w).0 ≡ false)
          × ((change_user_role t actor target role w).1.store ≡ w.store))
        ⊎ ((actor.role ≡ "admin")
            × (actor.id ≢ target)
            × ((old : User) × (row w.store target ≡ some old)
                × (old.id ≡ target)
                × (change_user_role t actor target role w ≡ assign_role t actor old role w)))
  unfolding change_user_role ensure_permission has_permission is_session_permission
  change_cases actor target role w = elim (Option-cases (t.find_user target w.store)) [
    | inl n ↦ inl (ground arith, ground arith)
    | inr (old, f) ↦
        elim (Bool-cases (str_eq actor.role "admin" && leb 1 target && not (actor.id == target))) [
          | inl go ↦ inr (
            (eq_iff actor.role "admin").0 (ground arith),
            ground arith,
            (
              old,
              sym (h.find_row target w.store) ∙ f,
              h.row_id target old w.store (sym (h.find_row target w.store) ∙ f),
              ground (arith, admin_is_no_user actor.role (ground arith)),
            ),
          )
          | inr stop ↦ inl (ground arith, ground arith)
        ]
  ]

  not_committed : {r : Result User} {u : User} → is_committed r ≡ false → r ≡ ok u → ⊥
  not_committed {r} {u} n e = false≢true (sym n ∙ ap is_committed e)
    where
      false≢true : false ≡ true → ⊥
      false≢true q = cc

  -- When a change of role succeeds, the actor is an administrator and not the target, the target has
  -- the new role, and one audit record names actor, target, previous and new role.
  pub change_user_role_ok :
      (actor u : User) (target : ℕ) (role : UserRole) (w : World t)
      → (change_user_role t actor target role w).0 ≡ ok u
      → (actor.role ≡ "admin")
        × (actor.id ≢ target)
        × (row (change_user_role t actor target role w).1.store target ≡ some u)
        × (u.role ≡ role_value role)
        × ((old : User) × (row w.store target ≡ some old)
            × ((change_user_role t actor target role w).1.log
                ≡ w.log ++ role_changed actor.id target old.role (role_value role) ∷ []))
  change_user_role_ok actor u target role w e = elim (change_cases actor target role w) [
    | inl (failed, same) ↦ absurd (not_committed failed e)
    | inr (adm, n, (old, f, i, same)) ↦
        let a =
          assign_ok actor old u role w (ap (row w.store) i ∙ f) (ap (λ r. r.0) (sym same) ∙ e) in
        (
          adm,
          n,
          rw same (ap (row (assign_role t actor old role w).1.store) (sym i) ∙ a.0),
          a.1,
          (
            old,
            f,
            rw same (
                a.2 ∙ ap (λ x. w.log ++ role_changed actor.id x old.role (role_value role) ∷ []) i),
          ),
        )
  ]

  -- From a session that is clean, and whatever a change of role answers: the actor's own row and the rows of
  -- all but the target stay; so does every row when it neither succeeds nor ends in the exception of the
  -- refresh, which comes after the commit.
  pub change_user_role_keeps :
      (actor : User) (target j : ℕ) (role : UserRole) (w : World t)
      → h.is_clean w.store ≡ true
      → (j ≡ actor.id)
        ⊎ (j ≢ target)
        ⊎ (is_committed (change_user_role t actor target role w).0 ≡ false)
      → row (change_user_role t actor target role w).1.store j ≡ row w.store j
  change_user_role_keeps actor target j role w c k = elim (change_cases actor target role w) [
    | inl (failed, same) ↦ ap (λ s. row s j) same
    | inr (adm, n, (old, f, i, same)) ↦ rw same (
        assign_keeps actor old j role w (ap (row w.store) i ∙ f) c (elim k [
          | inl own ↦ inl (λ q. n (sym own ∙ q ∙ i))
          | inr (inl other) ↦ inl (λ q. other (q ∙ i))
          | inr (inr failed) ↦ inr (ap (λ r. is_committed r.0) (sym same) ∙ failed)
        ]))
  ]
