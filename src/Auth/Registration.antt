-- ===== src/Auth/Registration.antt =====
-- A registration and the login after it (data_agent/routes/auth.py over data_agent/services/auth_service.py).
use deep_data_agent.Prelude.{
  ℕ, ◌*◌, ◌≤◌, ◌≡◌, ◌≢◌, refl, sym, ap, subst, ◌∙◌, inl, inr, true, false, ◌||◌, Option, none, some,
  List, [], ◌∷◌, ◌++◌, String, Bool-cases, arith,
}
use deep_data_agent.Auth.{Jwt, Texts, create_access_token, User}
use deep_data_agent.Auth.Accounts.{
  NewUser, Commit, committed, conflict, broken, Users, Passwords, Registered, registered,
  registration_conflict, unread, crash, UserCreate, refreshed_user, after_commit, create_user,
  register, login, is_there,
}

-- The database, as documented: what is not committed is not saved, and a committed row is read back with
-- its values.
pub record IsSession (t : Users) : Type 0 where
  pub saved : t.Store → List User
  -- the row that a commit saves
  pub row : NewUser → t.Store → User
  pub rollback_saved : (s : t.Store) → saved (t.rollback s) ≡ saved s
  pub commit_failure :
      (n : NewUser) (s : t.Store)
      → (t.commit (t.add n s)).0 ≢ committed
      → saved (t.commit (t.add n s)).1 ≡ saved s
  pub commit_saved :
      (n : NewUser) (s : t.Store)
      → (t.commit (t.add n s)).0 ≡ committed
      → saved (t.commit (t.add n s)).1 ≡ saved s ++ row n s ∷ []
  pub row_values :
      (n : NewUser) (s : t.Store)
      → (t.commit (t.add n s)).0 ≡ committed
      → ((row n s).username ≡ n.username)
        × ((row n s).email ≡ n.email)
        × ((row n s).hashed_password ≡ n.hashed_password)
        × (1 ≤ (row n s).id)
  pub found :
      (n : NewUser) (s : t.Store)
      → (t.commit (t.add n s)).0 ≡ committed
      → t.by_username n.username s ≡ none
      → t.by_username n.username (t.commit (t.add n s)).1 ≡ some (row n s)
  pub refreshed :
      (n : NewUser) (s : t.Store) (user : User)
      → (t.commit (t.add n s)).0 ≡ committed
      → t.refresh n (t.commit (t.add n s)).1 ≡ some user
      → user ≡ row n s

module _ (t : Users) (p : Passwords) (law : IsSession t) where
  open t use {Store, by_username, by_email, add, commit, rollback, refresh}

  -- One row more, of this name and address, under the hash of the password; no row had the name or the
  -- address before.
  abbrev pub IsRegistered : String → UserCreate → User → Store → Store → Type 0
  IsRegistered salt u user s s' =
      (law.saved s' ≡ law.saved s ++ user ∷ [])
      × (user.username ≡ u.username)
      × (user.email ≡ u.email)
      × (user.hashed_password ≡ p.hash salt u.password)
      × (1 ≤ user.id)
      × (by_username u.username s ≡ none)
      × (by_email u.email s ≡ none)
      × (by_username u.username s' ≡ some user)

  abbrev new_user : String → UserCreate → NewUser
  new_user salt u = record {
    username = u.username;
    email = u.email;
    hashed_password = p.hash salt u.password;
  }

  not_there : (o : Option User) → is_there t p o ≡ false → o ≡ none
  not_there none h = refl
  not_there (some user) h = cc

  abbrev pub Atomic : String → UserCreate → Registered → Store → Store → Type 0
  Atomic salt u (registered user) s s' = IsRegistered salt u user s s'
  Atomic salt u unread s s' = (user : User) × IsRegistered salt u user s s'
  Atomic salt u registration_conflict s s' = law.saved s' ≡ law.saved s
  Atomic salt u crash s s' = law.saved s' ≡ law.saved s

  conflict-committed : conflict ≢ committed
  conflict-committed h = cc

  broken-committed : broken ≢ committed
  broken-committed h = cc

  saves :
      (salt : String) (u : UserCreate) (s : Store)
      → (commit (add (new_user salt u) s)).0 ≡ committed
      → by_username u.username s ≡ none
      → by_email u.email s ≡ none
      → IsRegistered salt u (law.row (new_user salt u) s) s (commit (add (new_user salt u) s)).1
  saves salt u s done n m =
      let n' = new_user salt u in
      let (name, email, hashed, positive) = law.row_values n' s done in
      (law.commit_saved n' s done, name, email, hashed, positive, n, m, law.found n' s done n)

  read_back :
      (salt : String) (u : UserCreate) (s s' : Store) (o : Option User)
      → IsRegistered salt u (law.row (new_user salt u) s) s s'
      → ((user : User) → o ≡ some user → user ≡ law.row (new_user salt u) s)
      → Atomic salt u (refreshed_user t p o) s s'
  unfolding refreshed_user
  read_back salt u s s' none saved same = (law.row (new_user salt u) s, saved)
  read_back salt u s s' (some user) saved same =
      subst (λ r. IsRegistered salt u r s s') (sym (same user refl)) saved

  created :
      (salt : String) (u : UserCreate) (s : Store) (q : Commit × Store)
      → commit (add (new_user salt u) s) ≡ q
      → by_username u.username s ≡ none
      → by_email u.email s ≡ none
      → let run = after_commit t p (new_user salt u) q in Atomic salt u run.0 s run.1
  unfolding after_commit
  created salt u s (committed, s') e n m =
      let n' = new_user salt u in
      let done = ap (λ q. q.0) e in
      let same = ap (λ q. q.1) e in
      read_back salt u s s' (refresh n' s')
        (subst (λ z. IsRegistered salt u (law.row n' s) s z) same (saves salt u s done n m))
        (λ user f. law.refreshed n' s user done (ap (refresh n') same ∙ f))
  created salt u s (conflict, s') e n m =
      law.rollback_saved s'
      ∙ ap law.saved (sym (ap (λ q. q.1) e))
      ∙ law.commit_failure (new_user salt u) s (λ c. conflict-committed (sym (ap (λ q. q.0) e) ∙ c))
  created salt u s (broken, s') e n m =
      ap law.saved (sym (ap (λ q. q.1) e))
      ∙ law.commit_failure (new_user salt u) s (λ c. broken-committed (sym (ap (λ q. q.0) e) ∙ c))

  -- A registration either adds one row and reports it, or changes no saved row and reports a conflict or an
  -- exception. The exception of the refresh after the commit is the one that comes with a saved row: then too
  -- it is one row more, with the name and the address, which no row had before, and the hash of the password.
  pub register_atomic :
      (salt : String) (u : UserCreate) (s : Store)
      → let run = register t p salt u s in Atomic salt u run.0 s run.1
  unfolding register create_user
  register_atomic salt u s =
      elim (Bool-cases
        (is_there t p (by_username u.username s) || is_there t p (by_email u.email s))) [
          | inl e ↦ rw e refl
          | inr e ↦ rw e (
              created salt u s (commit (add (new_user salt u) s)) refl (not_there _ (ground arith))
                (not_there _ (ground arith)))
        ]

  module _ (j : Jwt) (x : Texts)
      (verifies : (salt password : String) → p.verify password (p.hash salt password) ≡ true) where
    -- Who has registered logs in with the same name and password, and gets a token for the new row.
    pub register-login :
        (salt key : String) (minutes now : ℕ) (u : UserCreate) (s : Store) (user : User)
        → (register t p salt u s).0 ≡ registered user
        → x.strip u.username ≡ u.username
        → login t p j x (some key) minutes now u.username u.password (register t p salt u s).1
          ≡ create_access_token j x
              (some key)
              (minutes * 60000000)
              now
              user.id
              (some (minutes * 60000000))
    unfolding login
    register-login salt key minutes now u s user h strips =
        let (saved, name, email, hashed, positive, free, free', found) =
          reported (register t p salt u s) h (register_atomic salt u s) in
        rw strips (rw found (rw hashed (rw (verifies salt u.password))))
      where
        reported :
            (q : Registered × Store)
            → q.0 ≡ registered user
            → Atomic salt u q.0 s q.1
            → IsRegistered salt u user s q.1
        reported (registered v, s') e a =
            let same : v ≡ user = ground arith in subst (λ w. IsRegistered salt u w s s') same a
        reported (registration_conflict, s') e a = cc
        reported (unread, s') e a = cc
        reported (crash, s') e a = cc
