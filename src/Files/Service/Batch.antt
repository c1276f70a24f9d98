-- ===== src/Files/Service/Batch.antt =====
-- A batch of files is stored as a whole or not at all (data_agent/services/managed_file_service.py, the
-- inner `try` of `upload_files`).
use deep_data_agent.Prelude.{ℕ, ◌≡◌, ◌≢◌, refl, ◌∙◌, ◌⊎◌, inl, inr, List, ◌++◌, String}
use deep_data_agent.Files.{
  FileError, duplicate_file, file_database_error, Result, ok, err, PreparedFile, ManagedFile,
  Limits,
}
use deep_data_agent.Files.Prepare.{Texts}
use deep_data_agent.Files.Prepare.Laws.{Result-cases}
use deep_data_agent.Files.Storage.{Disk, write_all}
use deep_data_agent.Files.Storage.Laws.{Posix, Unlinks}
use deep_data_agent.Files.Storage.Rollback.{AreNew, unlink_all-write_all}
use deep_data_agent.Files.Service.{
  Commit, committed, conflict, refused, broken, Database, World, storage_error, undo, persist,
}

-- A session by what is saved: a commit that ends well saves what the queries see, any other leaves the
-- saved rows, and a rollback returns to them.
pub record Transactional (b : Database) : Type 0 where
  pub saved : b.Store → List ManagedFile
  pub add_all_rows :
      (rs : List ManagedFile) (s : b.Store) → b.rows (b.add_all rs s) ≡ b.rows s ++ rs
  pub add_all_saved : (rs : List ManagedFile) (s : b.Store) → saved (b.add_all rs s) ≡ saved s
  pub commit_rows : (s : b.Store) → (b.commit s).0 ≡ committed → b.rows (b.commit s).1 ≡ b.rows s
  pub commit_saved : (s : b.Store) → (b.commit s).0 ≡ committed → saved (b.commit s).1 ≡ b.rows s
  pub commit_failure : (s : b.Store) → (b.commit s).0 ≢ committed → saved (b.commit s).1 ≡ saved s
  pub rollback_rows : (s : b.Store) → b.rows (b.rollback s) ≡ saved s
  pub rollback_saved : (s : b.Store) → saved (b.rollback s) ≡ saved s

pub Commit-cases : (c : Commit) → (c ≡ committed) ⊎ (c ≡ conflict) ⊎ (c ≡ refused) ⊎ (c ≡ broken)
Commit-cases committed = inl refl
Commit-cases conflict = inr (inl refl)
Commit-cases refused = inr (inr (inl refl))
Commit-cases broken = inr (inr (inr refl))

module _ (t : Texts) (k : Disk) (str : ℕ → String) (b : Database) (l : Limits) (x : Posix k)
    (u : Unlinks k) (y : Transactional b) where
  open x use {content}
  open y use {saved}

  -- No trace of the batch: an error, the saved rows and every file as before.
  abbrev pub IsUndone : World t k str b l → Result (List ManagedFile) × World t k str b l → Type 0
  IsUndone w (result, end) =
      ((e : FileError) × (result ≡ err e))
      × (b.rows end.db ≡ saved w.db)
      × (saved end.db ≡ saved w.db)
      × ((q : String) → content end.disk q ≡ content w.disk q)

  undo_lem :
      (e : FileError) (user expires_at : ℕ) (items : List (String × PreparedFile)) (db : b.Store)
      (w : World t k str b l)
      → saved db ≡ saved w.db
      → AreNew t k str x u user items w.disk
      → let (records, paths, disk) = write_all t k str user expires_at items w.disk in
        IsUndone w (undo t k str b l e paths db (record w { disk = disk }))
  unfolding undo
  undo_lem e user expires_at items db w s n =
      let (records, paths, disk) = write_all t k str user expires_at items w.disk in
      (
        (_, refl),
        y.rollback_rows db ∙ s,
        y.rollback_saved db ∙ s,
        λ q. unlink_all-write_all t k str x u user expires_at items w.disk q n,
      )

  failed_saved :
      (rs : List ManagedFile) (s : b.Store)
      → (b.commit (b.add_all rs s)).0 ≢ committed
      → saved (b.commit (b.add_all rs s)).1 ≡ saved s
  failed_saved rs s h = y.commit_failure (b.add_all rs s) h ∙ y.add_all_saved rs s

  persist_failed :
      (e : FileError) (user expires_at : ℕ) (items : List (String × PreparedFile))
      (w : World t k str b l)
      → (write_all t k str user expires_at items w.disk).0 ≡ err e
      → AreNew t k str x u user items w.disk
      → IsUndone w (persist t k str b l user expires_at items w)
  unfolding persist
  persist_failed e user expires_at items w h n =
      rw (h, persist) (undo_lem (storage_error e) user expires_at items w.db w refl n)

  -- A batch of new ids leaves no trace when it fails, however far it got: the same rows and the same
  -- files; or it is stored, and its records are the rows that were added. That holds where removing a file
  -- does not fail and `commit` raises no other exception than SQLAlchemyError.
  pub persist_atomic :
      (user expires_at : ℕ) (items : List (String × PreparedFile)) (w : World t k str b l)
      → AreNew t k str x u user items w.disk
      → ((s : b.Store) → (b.commit s).0 ≢ broken)
      → IsUndone w (persist t k str b l user expires_at items w)
        ⊎ ((rs : List ManagedFile) × ((persist t k str b l user expires_at items w).0 ≡ ok rs)
            × (b.rows (persist t k str b l user expires_at items w).1.db ≡ b.rows w.db ++ rs)
            × (saved (persist t k str b l user expires_at items w).1.db ≡ b.rows w.db ++ rs))
  unfolding persist
  persist_atomic user expires_at items w n nb =
      elim (Result-cases (write_all t k str user expires_at items w.disk).0) [
        | inr (e, h) ↦ inl (persist_failed e user expires_at items w h n)
        | inl (rs, h) ↦
            let s = b.add_all rs w.db in
            elim (Commit-cases (b.commit s).0) [
              | inl c ↦
                  rw (h, persist)
                    (rw (c, persist)
                      (inr (
                        rs,
                        refl,
                        y.commit_rows s c ∙ y.add_all_rows rs w.db,
                        y.commit_saved s c ∙ y.add_all_rows rs w.db,
                      )))
              | inr (inl c) ↦
                  rw (h, persist)
                    (rw (c, persist)
                      (inl (
                        undo_lem duplicate_file user expires_at items (b.commit s).1 w
                          (failed_saved rs w.db (λ g. cc)) n)))
              | inr (inr (inl c)) ↦
                  rw (h, persist)
                    (rw (c, persist)
                      (inl (
                        undo_lem file_database_error user expires_at items (b.commit s).1 w
                          (failed_saved rs w.db (λ g. cc)) n)))
              | inr (inr (inr c)) ↦ absurd (nb s c)
            ]
      ]
