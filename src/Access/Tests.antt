-- ===== src/Access/Tests.antt =====
-- A users table of two, and the theorems of a change of role there.
use deep_data_agent.Prelude.{
  ℕ, ◌≡◌, refl, sym, ap, inl, inr, Bool, true, false, Option, none, some, List, [], ◌∷◌, String,
  arith, ◌==◌, Bool-cases, if◌then◌else◌,
}
use deep_data_agent.Access.{User, ensure_permission, has_permission, is_session_permission}
use deep_data_agent.Access.Admin.{UserRole, role_value, Users, World, assign_role, change_user_role}
use deep_data_agent.Access.Admin.Laws.{Documented, with_role, change_user_role_keeps}

abbrev found : ℕ → Option String → Option User
found i none = none
found i (some r) = some (record { id = i; role = r })

abbrev with_text : String → Option String → Option String
with_text r none = none
with_text r (some _) = some r

-- The roles that a session shows: those of the table, and over them what was assigned and not committed.
abbrev shown : (ℕ → Option String) → List (ℕ × String) → ℕ → Option String
shown base [] j = base j
shown base ((i, r) ∷ more) j = if i == j then with_text r (shown base more j) else shown base more j

-- A commit of a change of the user 3 fails.
abbrev commits :
    (ℕ → Option String) → List (ℕ × String) → Bool × ((ℕ → Option String) × List (ℕ × String))
commits base [] = (true, (base, []))
commits base ((i, r) ∷ more) =
    if i == 3 then (false, (base, (i, r) ∷ more)) else (true, (shown base ((i, r) ∷ more), []))

abbrev table : Users
table = record {
  Store = (ℕ → Option String) × List (ℕ × String);
  page = λ o l s. [];
  find_user = λ i s. found i (shown s.0 s.1 i);
  set_role = λ i r s. (s.0, (i, r) ∷ s.1);
  commit = λ s. commits s.0 s.1;
  rollback = λ s. (s.0, []);
  refresh = λ i s. true;
}

found_id : (i : ℕ) (x : Option String) (u : User) → found i x ≡ some u → u.id ≡ i
found_id i none u e = cc
found_id i (some r) u e = ap user_id (sym e)
  where
    user_id : Option User → ℕ
    user_id none = i
    user_id (some v) = v.id

found_with :
    (i j : ℕ) (r : String) (x : Option String)
    → found j (if i == j then with_text r x else x)
      ≡ (if i == j then with_role r (found j x) else found j x)
found_with i j r none = ground arith
found_with i j r (some y) = ground arith

commits-shown :
    (j : ℕ) (base : ℕ → Option String) (more : List (ℕ × String))
    → (commits base more).0 ≡ true
    → found j (shown (commits base more).1.0 (commits base more).1.1 j)
      ≡ found j (shown base more j)
commits-shown j base [] h = refl
commits-shown j base ((i, r) ∷ more) h = elim (Bool-cases (i == 3)) [
  | inl e ↦ ground arith
  | inr e ↦ rw e refl
]

abbrev is_empty : List (ℕ × String) → Bool
is_empty [] = true
is_empty (x ∷ more) = false

rolled_back :
    (i j : ℕ) (r : String) (base : ℕ → Option String) (more : List (ℕ × String))
    → is_empty more ≡ true
    → (commits base ((i, r) ∷ more)).0 ≡ false
    → found j ((commits base ((i, r) ∷ more)).1.0 j) ≡ found j (shown base more j)
rolled_back i j r base [] e h = elim (Bool-cases (i == 3)) [
  | inl three ↦ rw three refl
  | inr other ↦ ground arith
]
rolled_back i j r base (x ∷ more) e h = cc

abbrev laws : Documented table
laws = record {
  row = λ s i. found i (shown s.0 s.1 i);
  is_clean = λ s. is_empty s.1;
  find_row = λ i s. refl;
  row_id = λ i u s. found_id i (shown s.0 s.1 i) u;
  set_role_row = λ i j r s. found_with i j r (shown s.0 s.1 j);
  commit_row = λ j s c. commits-shown j s.0 s.1 c;
  rollback_row = λ i j r s c f. rolled_back i j r s.0 s.1 c f;
}

abbrev root : User
root = record { id = 1; role = "admin" }

abbrev start : World table
start = record { store = ((λ i. if i == 1 then some "admin" else some "user"), []); log = [] }

-- The commit fails.
change_user_role_keeps_example :
    laws.row (change_user_role table root 3 UserRole.admin start).1.store 3 ≡ laws.row start.store 3
unfolding change_user_role assign_role role_value ensure_permission has_permission
    is_session_permission
change_user_role_keeps_example =
    change_user_role_keeps table laws root 3 3 UserRole.admin start refl (inr (inr refl))
