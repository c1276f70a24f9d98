-- ===== src/Files/Service/Tests.antt =====
-- A service over a disk and a session that are functions and lists, and the theorems of the files there.
use deep_data_agent.Prelude.{
  ℕ, ◌≡◌, ◌≢◌, ◌≤◌, refl, ◌⊎◌, Bool, true, false, not, Option, none, some, List, [], ◌∷◌, ◌++◌,
  String, str_eq, keep, length, if◌then◌else◌, listed,
}
use deep_data_agent.Access.{
  User, has_permission, ensure_permission, is_session_permission, file_read_own,
}
use deep_data_agent.Files.{ok, Bytes, PreparedFile, ManagedFile, Limits, file_types}
use deep_data_agent.Files.Prepare.{
  Texts, chunk, Upload, prepare_upload, normalize_filename, is_filename, typed_name,
  validate_declared_type, read_upload, non_empty, decode_text, validate_structured_content,
  normalize_file_id,
}
use deep_data_agent.Files.Prepare.Laws.{IsPrepared, prepare_upload-IsPrepared}
use deep_data_agent.Files.Storage.{
  Disk, holds, bytes, unreadable, read_bytes, record_path, check_candidate, verify_reading, verify,
  write_all, write_file, write_through, user_directory,
}
use deep_data_agent.Files.Storage.Laws.{Posix}
use deep_data_agent.Files.Service.{
  used_bytes, content_bytes, upload_files, conclude, upload_batch, prepare_all, cleanup_expired,
  has_duplicate, admit, name_all, is_own, committed, broken, Database, World, persist, read_table,
  get_file, find_file, content_of, authorized, is_live,
}
use deep_data_agent.Files.Service.Batch.{Transactional, IsUndone, persist_atomic}
use deep_data_agent.Files.Service.Quota.{upload_files-Fits}
use deep_data_agent.Files.Service.Laws.{IsLive, IsVerified, read_table-IsVerified}

-- Python on the texts of these tests.
abbrev pub texts : Texts
texts = record {
  uuid = λ v. some v;
  normalize = λ v. v;
  contains = λ part v. false;
  has_control = λ v. false;
  suffix = λ v. ".txt";
  drop_last = λ n v. "a";
  take = λ n v. v;
  media = λ v. v;
  lstrip = λ v. v;
  decode = λ c. some "hi";
  json_fails = λ v. false;
  csv_rows = λ v. ([], false);
  sha256 = λ c. "digest";
}

abbrev is_there : Option Bytes → Bool
is_there none = false
is_there (some c) = true

abbrev pub disk : Disk
disk = record {
  Store = String → Option Bytes;
  parts = λ key. "7" ∷ "f1.txt" ∷ [];
  is_absolute = λ key. false;
  make_root = λ d. (true, d);
  root_stands = λ d. true;
  make_directory = λ n d. (true, d);
  directory_stands = λ n d. holds;
  create = λ p d. (true, λ q. if str_eq q p then some [] else d q);
  write = λ p c d. (true, λ q. if str_eq q p then some c else d q);
  replace = λ p r d. (true, λ q. if str_eq q r then d p else if str_eq q p then none else d q);
  unlink = λ p d. (true, λ q. if str_eq q p then none else d q);
  lstat = λ p d. holds;
  is_symlink = λ p d. false;
  is_file = λ p d. is_there (d p);
  read = λ p n d. elim (d p) [ none ↦ unreadable | some c ↦ bytes c ];
}

true≢false : true ≢ false
true≢false h = cc

if_false : {b : Bool} (c o : Option Bytes) → b ≡ false → (if b then c else o) ≡ o
if_false c o h = rw h refl

abbrev posix : Posix disk
posix = record {
  content = λ d q. d q;
  make_root_content = λ d q. refl;
  make_directory_content = λ n d q. refl;
  create_content = λ p d q h. if_false (some []) (d q) h;
  write_content = λ p c d q h. refl;
  write_failure = λ p c d q h. if_false (some c) (d q) h;
  replace_content = λ p r d q h. refl;
  replace_failure = λ p r d q h. absurd (true≢false h);
  unlink_content = λ p d q h. refl;
}

-- What is saved, and what the queries see.
abbrev pub session : Database
session = record {
  Store = List ManagedFile × List ManagedFile;
  rows = λ s. s.1;
  user_exists = λ n s. true;
  add_all = λ rs s. (s.0, s.1 ++ rs);
  delete_where = λ p s. (s.0, keep (λ r. not (p r)) s.1);
  commit = λ s. (committed, (s.1, s.1));
  rollback = λ s. (s.0, s.0);
}

abbrev transactional : Transactional session
transactional = record {
  saved = λ s. s.0;
  add_all_rows = λ rs s. refl;
  add_all_saved = λ rs s. refl;
  commit_rows = λ s h. refl;
  commit_saved = λ s h. refl;
  commit_failure = λ s h. absurd (h refl);
  rollback_rows = λ s. refl;
  rollback_saved = λ s. refl;
}

abbrev pub limits : Limits
limits = record {
  upload_max_bytes = 4;
  batch_max_count = 2;
  batch_max_bytes = 6;
  user_max_count = 3;
  user_quota_bytes = 10;
  retention = 24;
  analysis_max_chars = 100;
  table_max_bytes = 3;
}

abbrev pub digits : ℕ → String
digits n = "7"

abbrev upload : Upload texts
upload = record {
  filename = some "a.txt";
  content_type = some "text/plain";
  reads = chunk (104 ∷ 105 ∷ []) ∷ chunk [] ∷ [];
}

abbrev file : PreparedFile
file = record {
  original_name = "a.txt";
  suffix = ".txt";
  media_type = "text/plain";
  content = 104 ∷ 105 ∷ [];
  sha256 = "digest";
}

abbrev pub row : ManagedFile
row = record {
  file_id = "f1";
  user_id = 7;
  original_name = "a.txt";
  media_type = "text/plain";
  size_bytes = 2;
  sha256 = "digest";
  storage_key = "7/f1.txt";
  expires_at = 30;
}

abbrev empty : World texts disk digits session limits
empty = record { db = ([], []); disk = λ q. none; log = [] }

abbrev pub stored : World texts disk digits session limits
stored = record {
  db = (row ∷ [], row ∷ []);
  disk = λ q. if str_eq q "7/f1.txt" then some (104 ∷ 105 ∷ []) else none;
  log = [];
}

abbrev pub actor : User
actor = record { id = 7; role = "user" }

prepare_upload-IsPrepared_example : IsPrepared texts 4 upload file
unfolding prepare_upload normalize_filename is_filename typed_name file_types validate_declared_type
    read_upload non_empty decode_text validate_structured_content listed
prepare_upload-IsPrepared_example = prepare_upload-IsPrepared texts 4 upload file refl

persist_atomic_example :
    IsUndone texts disk digits session limits posix
      (λ p d. refl)
      transactional
      empty
      (persist texts disk digits session limits 7 30 (("f1", file) ∷ []) empty)
    ⊎ ((rs : List ManagedFile) × ((persist texts disk digits session limits 7 30
            (("f1", file) ∷ [])
            empty).0
          ≡ ok rs)
        × (session.rows
              (persist texts disk digits session limits 7 30 (("f1", file) ∷ []) empty).1.db
            ≡ rs)
        × (transactional.saved
              (persist texts disk digits session limits 7 30 (("f1", file) ∷ []) empty).1.db
            ≡ rs))
persist_atomic_example =
    persist_atomic texts disk digits session limits posix (λ p d. refl) transactional 7 30
      (("f1", file) ∷ []) empty ((refl, refl, refl), tt, tt) (λ s h. committed-broken h)
  where
    committed-broken : committed ≡ broken → ⊥
    committed-broken h = cc

read_table-IsVerified_example :
    (has_permission "user" file_read_own ≡ true)
    × IsLive 7 10 "f1" row
    × IsVerified texts disk digits 4 row (104 ∷ 105 ∷ [])
    × (1 ≤ 2)
unfolding read_table get_file find_file content_of authorized is_live ensure_permission
    has_permission is_session_permission normalize_file_id read_bytes record_path check_candidate
    verify_reading verify
read_table-IsVerified_example =
    read_table-IsVerified texts disk digits session limits actor 10 "f1" stored row (104 ∷ 105 ∷ [])
      refl

upload_files-Fits_example :
    let end =
      (upload_files texts disk digits session limits actor 6 ("f1" ∷ []) (upload ∷ []) empty).1 in
    let own = keep (is_own texts disk digits session limits 7) (session.rows end.db) in
    (length own ≤ 3) × (used_bytes own ≤ 10)
unfolding upload_files authorized conclude upload_batch prepare_all cleanup_expired has_duplicate
    admit persist write_all write_file write_through user_directory name_all used_bytes
    content_bytes ensure_permission has_permission is_session_permission prepare_upload
    normalize_filename is_filename typed_name file_types validate_declared_type read_upload
    non_empty decode_text validate_structured_content listed
upload_files-Fits_example =
    upload_files-Fits texts disk digits session limits transactional actor 6 ("f1" ∷ [])
      (upload ∷ []) empty (row ∷ []) refl
