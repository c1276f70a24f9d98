-- ===== src/Files/Storage/Rollback.antt =====
-- The files of one batch on disk: what the loop of `upload_files` writes, and that removing what was
-- written undoes it (data_agent/services/managed_file_service.py).
use deep_data_agent.Prelude.{
  ℕ, ◌≡◌, refl, sym, ap, ◌∙◌, inl, inr, Bool, false, none, some, List, [], ◌∷◌, String, listed,
  str_eq, eq_iff, arith, All, Bool-cases, if◌then◌else◌,
}
use deep_data_agent.Files.{◌then◌, Bytes, PreparedFile}
use deep_data_agent.Files.Prepare.{Texts}
use deep_data_agent.Files.Storage.{Disk, temporary, write_file, write_all, unlink_all}
use deep_data_agent.Files.Storage.Laws.{Posix, Unlinks, final_of, IsFree, write_file_content}

module _ (t : Texts) (k : Disk) (str : ℕ → String) (x : Posix k) (u : Unlinks k) where
  open k use {Store}
  open x use {content}

  unlink_all_content :
      (paths : List String) (d : Store) (q : String)
      → content (unlink_all t k str paths d).1 q ≡ (if listed q paths then none else content d q)
  unfolding unlink_all listed
  unlink_all_content [] d q = refl
  unlink_all_content (p ∷ ps) d q =
      let d1 = (k.unlink p d).1 in
      let first = x.unlink_content p d q (u p d) in
      let rest = unlink_all_content ps d1 q in ground (arith, u p d)

  -- The names that a file takes are not those of another.
  abbrev pub Apart : ℕ → String × PreparedFile → String × PreparedFile → Type 0
  Apart user a b =
      (str_eq (final_of t k str x u user b.0 b.1.suffix) (final_of t k str x u user a.0 a.1.suffix)
        ≡ false)
      × (str_eq (temporary t k str user b.0) (final_of t k str x u user a.0 a.1.suffix) ≡ false)

  -- The ids of a batch are new: no name that a file takes is in use, or is one of another file.
  abbrev pub AreNew : ℕ → List (String × PreparedFile) → Store → Type 0
  AreNew user [] d = Unit
  AreNew user (a ∷ items) d =
      IsFree t k str x u user a.0 a.1.suffix d × All (Apart user a) items × AreNew user items d

  -- One write leaves the rest of the batch new.
  AreNew-write :
      (user : ℕ) (a : String × PreparedFile) (items : List (String × PreparedFile)) (c : Bytes)
      (d d1 : Store)
      → ((q : String)
          → content d1 q
            ≡ (if str_eq q (final_of t k str x u user a.0 a.1.suffix) then some c else content d q))
      → All (Apart user a) items
      → AreNew user items d
      → AreNew user items d1
  AreNew-write user a [] c d d1 e p n = tt
  AreNew-write user a (b ∷ bs) c d d1 e ((pf, pt), ps) ((ff, ft, fd), ns, n) = (
    (
      e (final_of t k str x u user b.0 b.1.suffix) ∙ other _ _ pf ∙ ff,
      e (temporary t k str user b.0) ∙ other _ _ pt ∙ ft,
      fd,
    ),
    ns,
    AreNew-write user a bs c d d1 e ps n,
  )
    where
      other : {A : Type 0} {f : Bool} (v w : A) → f ≡ false → (if f then v else w) ≡ w
      other v w h = rw h refl

  -- Whatever was written, and whether or not the loop got through: apart from the paths that it
  -- reports, the disk is as before, and these were free.
  pub write_all_content :
      (user expires_at : ℕ) (items : List (String × PreparedFile)) (d : Store) (q : String)
      → AreNew user items d
      → let (records, paths, end) = write_all t k str user expires_at items d in
        content d q ≡ (if listed q paths then none else content end q)
  unfolding write_all listed
  write_all_content user expires_at [] d q n = refl
  write_all_content user expires_at (a ∷ items) d q (free, apart, n) =
      elim (write_file_content t k str x u user a.0 a.1.suffix a.1.content d free) [
        | inl (e, h, same) ↦ rw (h, write_all) (sym (same q))
        | inr (h, wrote) ↦
            let d1 = (write_file t k str user a.0 a.1.suffix a.1.content d).1 in
            let rest =
              write_all_content user expires_at items d1 q
                (AreNew-write user a items a.1.content d d1 wrote apart n) in
            let name = final_of t k str x u user a.0 a.1.suffix in
            rw (h, write_all)
              (elim (Bool-cases (str_eq q name)) [
                | inl here ↦
                    let was_free = ap (content d) ((eq_iff q name).0 here) ∙ free.0 in ground arith
                | inr elsewhere ↦ let kept = wrote q in ground arith
              ])
      ]

  -- However far the loop over a batch of new ids got: when the paths that it reports are removed, every
  -- file of the disk is what it was before, and no other is there.
  pub unlink_all-write_all :
      (user expires_at : ℕ) (items : List (String × PreparedFile)) (d : Store) (q : String)
      → AreNew user items d
      → let (records, paths, end) = write_all t k str user expires_at items d in
        content (unlink_all t k str paths end).1 q ≡ content d q
  unlink_all-write_all user expires_at items d q n =
      let (records, paths, end) = write_all t k str user expires_at items d in
      unlink_all_content paths end q ∙ sym (write_all_content user expires_at items d q n)
