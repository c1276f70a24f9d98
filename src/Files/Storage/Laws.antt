-- ===== src/Files/Storage/Laws.antt =====
-- One file written to disk (data_agent/services/managed_file_service.py, `_write_file`).
use deep_data_agent.Prelude.{
  ℕ, ◌≡◌, refl, sym, ap, ◌∙◌, ◌⊎◌, inl, inr, Bool, true, false, ◌||◌, not, Option, none, some,
  String, str_eq, eq_iff, arith, Bool-cases, if◌then◌else◌,
}
use deep_data_agent.Files.{FileError, Result, ok, err, Bytes}
use deep_data_agent.Files.Prepare.{Texts}
use deep_data_agent.Files.Prepare.Laws.{Result-cases}
use deep_data_agent.Files.Storage.{
  Disk, key_of, temporary, user_directory, clean_up, write_through, write_file,
}
use Prim.Native.String.{◌++◌}

-- A file system by its content: which file each call changes, and what a call that returns leaves.
pub record Posix (k : Disk) : Type 0 where
  pub content : k.Store → String → Option Bytes
  pub make_root_content : (d : k.Store) (q : String) → content (k.make_root d).1 q ≡ content d q
  pub make_directory_content :
      (n : ℕ) (d : k.Store) (q : String) → content (k.make_directory n d).1 q ≡ content d q
  pub create_content :
      (p : String) (d : k.Store) (q : String)
      → str_eq q p ≡ false
      → content (k.create p d).1 q ≡ content d q
  pub write_content :
      (p : String) (c : Bytes) (d : k.Store) (q : String)
      → (k.write p c d).0 ≡ true
      → content (k.write p c d).1 q ≡ (if str_eq q p then some c else content d q)
  pub write_failure :
      (p : String) (c : Bytes) (d : k.Store) (q : String)
      → str_eq q p ≡ false
      → content (k.write p c d).1 q ≡ content d q
  pub replace_content :
      (p r : String) (d : k.Store) (q : String)
      → (k.replace p r d).0 ≡ true
      → content (k.replace p r d).1 q
        ≡ (if str_eq q r then content d p else if str_eq q p then none else content d q)
  pub replace_failure :
      (p r : String) (d : k.Store) (q : String)
      → (k.replace p r d).0 ≡ false
      → content (k.replace p r d).1 q ≡ content d q
  pub unlink_content :
      (p : String) (d : k.Store) (q : String)
      → (k.unlink p d).0 ≡ true
      → content (k.unlink p d).1 q ≡ (if str_eq q p then none else content d q)

-- A file system on which removing a file does not fail.
abbrev pub Unlinks : Disk → Type 0
Unlinks k = (p : String) (d : k.Store) → (k.unlink p d).0 ≡ true

module _ (t : Texts) (k : Disk) (str : ℕ → String) (x : Posix k) (u : Unlinks k) where
  open k use {Store}
  open x use {content}

  user_directory_content :
      (user : ℕ) (d : Store) (q : String)
      → content (user_directory t k str user d).1 q ≡ content d q
  unfolding user_directory
  user_directory_content user d q =
      let a = x.make_root_content d q in
      let b = x.make_directory_content user (k.make_root d).1 q in ground arith

  -- Getting through puts the content under the final name and leaves no temporary file.
  write_through_content :
      (p r : String) (c : Bytes) (d : Store) (q : String)
      → str_eq p r ≡ false
      → (write_through t k str p r c d).0 ≡ true
      → content (write_through t k str p r c d).1 q
        ≡ (if str_eq q r then some c else if str_eq q p then none else content d q)
  unfolding write_through
  write_through_content p r c d q apart h =
      let d1 = (k.create p d).1 in
      let d2 = (k.write p c d1).1 in
      let (made, wrote, moved) =
        through d1 d2 (k.replace p r d2).1 (k.create p d).0 (k.write p c d1).0 (k.replace p r d2).0
          h in
      let here = x.write_content p c d1 p wrote in
      let there = x.write_content p c d1 q wrote in
      let end = x.replace_content p r d2 q moved in
      elim (Bool-cases (str_eq q p)) [
        | inl same ↦ rw made (rw wrote (ground (arith, self p)))
        | inr other ↦
            let before = x.create_content p d q other in rw made (rw wrote (ground (arith, self p)))
      ]
    where
      self : (a : String) → str_eq a a ≡ true
      self a = (eq_iff a a).1 refl

      through :
          {A : Type 0} (e f g : A) (a b m : Bool)
          → (if◌then◌else◌ {A = Bool × A}
              (not a)
              (false, e)
              (if◌then◌else◌ {A = Bool × A} (not b) (false, f) (m, g))).0
            ≡ true
          → (a ≡ true) × (b ≡ true) × (m ≡ true)
      through e f g true true m h = (refl, refl, h)
      through e f g true false m h = absurd (ground arith)
      through e f g false b m h = absurd (ground arith)

  -- Otherwise only the two names may have changed.
  write_through_failure :
      (p r : String) (c : Bytes) (d : Store) (q : String)
      → str_eq q p ≡ false
      → (write_through t k str p r c d).0 ≡ false
      → content (write_through t k str p r c d).1 q ≡ content d q
  unfolding write_through
  write_through_failure p r c d q a h =
      let d1 = (k.create p d).1 in
      let d2 = (k.write p c d1).1 in
      let made = x.create_content p d q a in
      let wrote = x.write_failure p c d1 q a in
      let moved = x.replace_failure p r d2 q in ground arith

  clean_up_content :
      (p r : String) (d : Store) (q : String)
      → content (clean_up t k str p r d).1 q
        ≡ (if str_eq q p || str_eq q r then none else content d q)
  unfolding clean_up
  clean_up_content p r d q =
      let d1 = (k.unlink p d).1 in
      let first = x.unlink_content p d q (u p d) in
      let second = x.unlink_content r d1 q (u r d1) in ground (arith, u p d, u r d1)

  -- The names that one file takes on disk.
  abbrev pub final_of : ℕ → String → String → String
  final_of user file_id suffix = key_of t k str user (file_id ++ suffix)

  -- The two names were free, and differ.
  abbrev pub IsFree : ℕ → String → String → Store → Type 0
  IsFree user file_id suffix d =
      (content d (final_of user file_id suffix) ≡ none)
      × (content d (temporary t k str user file_id) ≡ none)
      × (str_eq (temporary t k str user file_id) (final_of user file_id suffix) ≡ false)

  -- What `_write_file` answers, and what it leaves on disk: the file, or everything as it was.
  pub write_file_content :
      (user : ℕ) (file_id suffix : String) (c : Bytes) (d : Store)
      → IsFree user file_id suffix d
      → let (wrote, end) = write_file t k str user file_id suffix c d in
        ((e : FileError) × (wrote ≡ err e) × ((q : String) → content end q ≡ content d q))
        ⊎ ((wrote ≡ ok (final_of user file_id suffix))
            × ((q : String)
                → content end q
                  ≡ (if str_eq q (final_of user file_id suffix) then some c else content d q)))
  unfolding write_file
  write_file_content user file_id suffix c d (free, spare, apart) = elim (Result-cases ready.0) [
    | inr (e, h) ↦ rw (h, write_file) (inl (e, refl, user_directory_content user d))
    | inl (_, h) ↦ elim (Bool-cases (write_through t k str p r c ready.1).0) [
      | inl y ↦ rw (h, write_file) (rw (y, write_file) (inr (refl, λ q. put q y)))
      | inr n ↦ rw (h, write_file) (rw (n, write_file) (inl (_, refl, λ q. undone q n)))
    ]
  ]
    where
      p : String
      p = temporary t k str user file_id

      r : String
      r = final_of user file_id suffix

      ready : Result (Unit {0}) × Store
      ready = user_directory t k str user d

      at_name : (n q : String) → content d n ≡ none → str_eq q n ≡ true → none ≡ content d q
      at_name n q f e = sym (ap (content d) ((eq_iff q n).0 e) ∙ f)

      put :
          (q : String)
          → (write_through t k str p r c ready.1).0 ≡ true
          → content (write_through t k str p r c ready.1).1 q
            ≡ (if str_eq q r then some c else content d q)
      put q y =
          let step = write_through_content p r c ready.1 q apart y in
          let kept = user_directory_content user d q in
          elim (Bool-cases (str_eq q p)) [
            | inl e ↦ let away = at_name p q spare e in ground arith
            | inr e ↦ ground arith
          ]

      undone :
          (q : String)
          → (write_through t k str p r c ready.1).0 ≡ false
          → content (clean_up t k str p r (write_through t k str p r c ready.1).1).1 q ≡ content d q
      undone q n =
          let cleaned = clean_up_content p r (write_through t k str p r c ready.1).1 q in
          let kept = user_directory_content user d q in
          elim (Bool-cases (str_eq q p)) [
            | inl e ↦ let away = at_name p q spare e in ground arith
            | inr e ↦
                let before = write_through_failure p r c ready.1 q e n in
                elim (Bool-cases (str_eq q r)) [
                  | inl f ↦ let away = at_name r q free f in ground arith
                  | inr f ↦ ground arith
                ]
          ]
