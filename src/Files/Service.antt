-- ===== src/Files/Service.antt =====
-- `ManagedFileService` of data_agent/services/managed_file_service.py over the files of Storage.antt. The
-- database session is a parameter; log events and the clock's advance within an operation are not
-- modelled.
pub mod Laws
pub mod Batch
pub mod Quota
pub mod Tests
use deep_data_agent.Prelude.{
  ℕ, ◌+◌, Bool, true, false, ◌&&◌, ◌||◌, not, Option, none, some, List, [], ◌∷◌, ◌++◌, String,
  str_eq, listed, leb, ltb, length, map, keep, ◌==◌, if◌then◌else◌,
}
use deep_data_agent.Access.{
  Permission, User, AuditEvent, file_read_own, file_write_own, file_delete_own, ensure_permission,
}
use deep_data_agent.Files.{
  FileError, file_count_exceeded, file_batch_too_large, duplicate_file, file_quota_exceeded,
  file_database_error, file_storage_unavailable, analysis_table_limit, permission_denied, crash,
  Result, ok, err, ◌then◌, Bytes, PreparedFile, ManagedFile, Limits,
}
use deep_data_agent.Files.Prepare.{Texts, decode_text, normalize_file_id, Upload, prepare_upload}
use deep_data_agent.Files.Storage.{Disk, unlink_record, read_bytes, write_all, unlink_all}
use Prim.Native.String.{count as characters}

-- How `commit` ends: IntegrityError, another SQLAlchemyError, or another exception.
pub data Commit : Type 0 where
  committed conflict refused broken : Commit

-- The session: the rows that its queries see and the calls of the service.
pub record Database : Type 1 where
  pub Store : Type 0
  pub rows : Store → List ManagedFile
  pub user_exists : ℕ → Store → Bool
  pub add_all : List ManagedFile → Store → Store
  -- `db.delete` of the rows that pass
  pub delete_where : (ManagedFile → Bool) → Store → Store
  pub commit : Store → Commit × Store
  pub rollback : Store → Store

-- The error that an exception becomes: a raw OSError, or another one, is `crash` here.
unfoldable pub storage_error : FileError → FileError
storage_error crash = file_storage_unavailable
storage_error e = e

-- The sizes of some rows together.
unfoldable pub used_bytes : List ManagedFile → ℕ
used_bytes [] = 0
used_bytes (row ∷ rows) = row.size_bytes + used_bytes rows

unfoldable pub content_bytes : List PreparedFile → ℕ
content_bytes [] = 0
content_bytes (f ∷ fs) = length f.content + content_bytes fs

-- `len(set(hashes)) != len(hashes)`
unfoldable pub has_duplicate : List String → Bool
has_duplicate [] = false
has_duplicate (h ∷ hs) = listed h hs || has_duplicate hs

-- The ids of `uuid4` for the files; where they run out, the files do.
unfoldable pub name_all : List String → List PreparedFile → List (String × PreparedFile)
name_all [] fs = []
name_all (i ∷ is) [] = []
name_all (i ∷ is) (f ∷ fs) = (i, f) ∷ name_all is fs

-- `query.first()`
abbrev pub first : List ManagedFile → Option ManagedFile
first [] = none
first (row ∷ rs) = some row

module _ (t : Texts) (k : Disk) (str : ℕ → String) (b : Database) (l : Limits) where
  open b use {rows, user_exists, add_all, delete_where, commit, rollback}

  pub record World : Type 0 where
    pub db : b.Store
    pub disk : k.Store
    pub log : List AuditEvent

  -- Rows of a user, in time.
  abbrev pub is_own : ℕ → ManagedFile → Bool
  is_own user row = row.user_id == user

  abbrev pub is_expired : ℕ → ℕ → ManagedFile → Bool
  is_expired user now row = is_own user row && leb row.expires_at now

  unfoldable pub unlink_records : List ManagedFile → k.Store → k.Store
  unlink_records [] d = d
  unlink_records (row ∷ rs) d = unlink_records rs (unlink_record t k str row d)

  -- `cleanup_expired`
  unfoldable pub cleanup_expired : ℕ → ℕ → World → Result ℕ × World
  cleanup_expired user now w =
      let expired = keep (is_expired user now) (rows w.db) in
      let (outcome, db) = commit (delete_where (is_expired user now) w.db) in
      if length expired == 0 then (ok 0, w) else elim outcome [
        | committed ↦
            (ok (length expired), record w { db = db; disk = unlink_records expired w.disk })
        | conflict ↦ (err file_database_error, record w { db = rollback db })
        | refused ↦ (err file_database_error, record w { db = rollback db })
        | broken ↦ (err crash, record w { db = db })
      ]

  -- The inner handlers of `upload_files`: `rollback`, and the files that were written.
  unfoldable pub undo :
      FileError → List String → b.Store → World → Result (List ManagedFile) × World
  undo e paths db w =
      let (gone, disk) = unlink_all t k str paths w.disk in
      (err (if gone then e else crash), record w { db = rollback db; disk = disk })

  -- The inner `try` of `upload_files`.
  unfoldable pub persist :
      ℕ → ℕ → List (String × PreparedFile) → World → Result (List ManagedFile) × World
  persist user expires_at items w =
      let (records, paths, disk) = write_all t k str user expires_at items w.disk in
      let w' = record w { disk = disk } in
      elim records [
        | err e ↦ undo (storage_error e) paths w.db w'
        | ok rs ↦
            let (outcome, db) = commit (add_all rs w.db) in
            elim outcome [
              | committed ↦ (ok rs, record w' { db = db })
              | conflict ↦ undo duplicate_file paths db w'
              | refused ↦ undo file_database_error paths db w'
              | broken ↦ (err crash, record w' { db = db })
            ]
      ]

  -- The loop that prepares the batch, with the bytes until now.
  unfoldable pub prepare_all : ℕ → List (Upload t) → Result (List PreparedFile)
  prepare_all bytes [] = ok []
  prepare_all bytes (upload ∷ uploads) = prepare_upload t l.upload_max_bytes upload then λ f.
      (if ltb l.batch_max_bytes (bytes + length f.content)
        then err file_batch_too_large
        else prepare_all (bytes + length f.content) uploads)
      then λ fs. ok (f ∷ fs)

  -- The conditions on what the user has, after the cleanup.
  unfoldable pub admit : ℕ → List PreparedFile → b.Store → Result (Unit {0})
  admit user fs db =
      let own = keep (is_own user) (rows db) in
      if not (user_exists user db)
      then err permission_denied
      else if ltb l.user_max_count (length own + length fs)
          || ltb l.user_quota_bytes (used_bytes own + content_bytes fs)
      then err file_quota_exceeded
      else if has_duplicate_of (map (λ f. f.sha256) fs) own
      then err duplicate_file
      else ok tt
    where
      has_duplicate_of : List String → List ManagedFile → Bool
      has_duplicate_of hashes [] = false
      has_duplicate_of hashes (row ∷ rs) = listed row.sha256 hashes || has_duplicate_of hashes rs

  -- `upload_files` between its count check and its outer handlers.
  unfoldable pub upload_batch :
      ℕ → ℕ → List String → List (Upload t) → World → Result (List ManagedFile) × World
  upload_batch user now ids uploads w = elim (prepare_all 0 uploads) [
    | err e ↦ (err e, w)
    | ok fs ↦
        let (cleaned, w') = cleanup_expired user now w in
        if has_duplicate (map (λ f. f.sha256) fs) then (err duplicate_file, w) else elim cleaned [
          | err e ↦ (err e, w')
          | ok _ ↦ elim (admit user fs w'.db) [
            | err e ↦ (err e, w')
            | ok _ ↦ persist user (now + l.retention) (name_all ids fs) w'
          ]
        ]
  ]

  -- The outer handlers.
  unfoldable pub conclude : Result (List ManagedFile) × World → Result (List ManagedFile) × World
  conclude (ok rs, w) = (ok rs, w)
  conclude (err e, w) = (err (storage_error e), record w { db = rollback w.db })

  -- `ensure_permission` and `_actor_id`, and then the operation.
  unfoldable pub authorized :
      {A : Type 0} → Permission → User → (World → Result A × World) → World → Result A × World
  authorized permission actor body w =
      let (allowed, log) = ensure_permission actor permission w.log in
      if allowed && leb 1 actor.id
      then body (record w { log = log })
      else (err permission_denied, record w { log = log })

  -- `upload_files`. The refresh of the new rows is not modelled.
  unfoldable pub upload_files :
      User → ℕ → List String → List (Upload t) → World → Result (List ManagedFile) × World
  upload_files actor now ids uploads = authorized file_write_own actor (λ w.
      if length uploads == 0 || ltb l.batch_max_count (length uploads)
      then (err file_count_exceeded, w)
      else conclude (upload_batch actor.id now ids uploads w))

  -- The filters of the queries for live rows.
  unfoldable pub is_live : ℕ → ℕ → ManagedFile → Bool
  is_live user now row = is_own user row && ltb now row.expires_at

  -- `list_files`, without its `order_by`: the rows come in the order of the table.
  unfoldable pub list_files : User → ℕ → World → Result (List ManagedFile) × World
  list_files actor now = authorized file_read_own actor (λ w.
      let (cleaned, w') = cleanup_expired actor.id now w in
      elim cleaned [
        | err e ↦ (err e, w')
        | ok _ ↦ (ok (keep (is_live actor.id now) (rows w'.db)), w')
      ])

  -- The query of `get_file`.
  unfoldable pub find_file : ℕ → ℕ → String → World → Option ManagedFile
  find_file user now file_id w =
      first (keep (λ row. str_eq row.file_id file_id && is_live user now row) (rows w.db))

  -- `get_file`
  unfoldable pub get_file : User → ℕ → String → World → Result (Option ManagedFile) × World
  get_file actor now file_id = authorized file_read_own actor (λ w.
      (normalize_file_id t file_id then λ normalized. ok (find_file actor.id now normalized w), w))

  -- The deletion in `delete_file`, after the row was found.
  unfoldable pub remove_file : ManagedFile → World → Result Bool × World
  remove_file row w =
      let (outcome, db) = commit (delete_where (λ r. str_eq r.file_id row.file_id) w.db) in
      elim outcome [
        | committed ↦ (ok true, record w { db = db; disk = unlink_record t k str row w.disk })
        | conflict ↦ (err file_database_error, record w { db = rollback db })
        | refused ↦ (err file_database_error, record w { db = rollback db })
        | broken ↦ (err crash, record w { db = db })
      ]

  -- Where the row was not found: the cleanup, and the answer.
  unfoldable pub cleaned_up : {A : Type 0} → ℕ → ℕ → A → World → Result A × World
  cleaned_up user now absent w =
      let (cleaned, w') = cleanup_expired user now w in (cleaned then λ n. ok absent, w')

  -- `delete_file`; `file_id` is unique in the table.
  unfoldable pub delete_file : User → ℕ → String → World → Result Bool × World
  delete_file actor now file_id w =
      let (allowed, log) = ensure_permission actor file_delete_own w.log in
      let (found, w') = get_file actor now file_id (record w { log = log }) in
      if not allowed then (err permission_denied, record w { log = log }) else elim found [
        | err e ↦ (err e, w')
        | ok none ↦ cleaned_up actor.id now false w'
        | ok (some row) ↦ remove_file row w'
      ]

  -- The verified bytes of the row that was found, for a table of at most `MAX_BYTES`.
  unfoldable pub content_of : Option ManagedFile → k.Store → Result (Option (ManagedFile × Bytes))
  content_of none d = ok none
  content_of (some row) d =
      if ltb l.table_max_bytes row.size_bytes
      then err analysis_table_limit
      else (read_bytes t k str l.upload_max_bytes row d then λ content. ok (some (row, content)))

  -- `file_statistics` up to the call of `calculate_statistics`.
  unfoldable pub read_table :
      User → ℕ → String → World → Result (Option (ManagedFile × Bytes)) × World
  read_table actor now file_id w =
      let (found, w') = get_file actor now file_id w in
      (found then λ row. content_of row w'.disk, w')

  -- The row, the text that is shown and whether it was cut.
  unfoldable pub preview : ManagedFile → k.Store → Result (Option (ManagedFile × String × Bool))
  preview row d = read_bytes t k str l.upload_max_bytes row d then λ content.
      decode_text t content then λ text.
      ok (some (row, t.take l.analysis_max_chars text, ltb l.analysis_max_chars (characters text)))

  -- `analyze_file`
  unfoldable pub analyze_file :
      User → ℕ → String → World → Result (Option (ManagedFile × String × Bool)) × World
  analyze_file actor now file_id w =
      let (found, w') = get_file actor now file_id w in
      elim found [
        | err e ↦ (err e, w')
        | ok none ↦ cleaned_up actor.id now none w'
        | ok (some row) ↦ (preview row w'.disk, w')
      ]
