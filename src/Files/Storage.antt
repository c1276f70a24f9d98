-- ===== src/Files/Storage.antt =====
-- The bytes of the managed files (data_agent/services/managed_file_service.py). The file system is a
-- parameter with one function per call of the source; a path below the storage root is named by its
-- storage key.
pub mod Laws
pub mod Rollback
use deep_data_agent.Prelude.{
  ℕ, ◌+◌, Bool, true, false, ◌&&◌, ◌||◌, not, Option, none, some, List, [], ◌∷◌, String, str_eq,
  leb, ltb, length, ◌==◌, if◌then◌else◌,
}
use deep_data_agent.Files.{
  FileError, invalid_file_content, file_storage_unavailable, file_storage_invalid, crash, Result,
  ok, err, ◌then◌, Bytes, PreparedFile, ManagedFile, Limits,
}
use deep_data_agent.Files.Prepare.{Texts}
use Prim.Native.String.{◌++◌}

-- A test of a path that may raise FileNotFoundError or another OSError.
pub data Check : Type 0 where
  holds fails missing failed : Check

-- What reading a file gives: OSError, something that is no regular file, or its first bytes.
pub data Reading : Type 0 where
  unreadable irregular : Reading
  bytes : Bytes → Reading

-- The calls of `os` and `pathlib`; a Boolean is whether the call returns. `parts` is the one of
-- PurePosixPath, with `is_absolute`.
pub record Disk : Type 1 where
  pub Store : Type 0
  pub parts : String → List String
  pub is_absolute : String → Bool
  pub make_root : Store → Bool × Store
  -- `root.resolve(strict=True)` and `is_dir`
  pub root_stands : Store → Bool
  pub make_directory : ℕ → Store → Bool × Store
  -- no symbolic link, and resolved to itself
  pub directory_stands : ℕ → Store → Check
  pub create : String → Store → Bool × Store
  pub write : String → Bytes → Store → Bool × Store
  pub replace : String → String → Store → Bool × Store
  pub unlink : String → Store → Bool × Store
  pub lstat : String → Store → Check
  pub is_symlink : String → Store → Bool
  pub is_file : String → Store → Bool
  pub read : String → ℕ → Store → Reading

module _ (t : Texts) (k : Disk) (str : ℕ → String) where
  open k use {
    Store, parts, is_absolute, make_root, root_stands, make_directory, directory_stands, create,
    write, replace, unlink, lstat, is_symlink, is_file, read,
  }

  -- The storage key of a file in a user's directory.
  abbrev pub key_of : ℕ → String → String
  key_of user name = str user ++ ("/" ++ name)

  abbrev pub temporary : ℕ → String → String
  temporary user file_id = key_of user ("." ++ (file_id ++ ".upload"))

  -- `_user_directory`, with `_storage_root(create=True)`.
  unfoldable pub user_directory : ℕ → Store → Result (Unit {0}) × Store
  user_directory user d =
      let (rooted, d1) = make_root d in
      let (made, d2) = make_directory user d1 in
      if not rooted
      then (err crash, d1)
      else if not (root_stands d1)
      then (err file_storage_unavailable, d1)
      else if not made
      then (err file_storage_unavailable, d2)
      else (
        elim (directory_stands user d2) [
          | holds ↦ ok tt
          | fails ↦ err file_storage_invalid
          | missing ↦ err file_storage_unavailable
          | failed ↦ err file_storage_unavailable
        ],
        d2,
      )

  -- The handler of OSError in `_write_file`; an `unlink` that raises passes its own on.
  unfoldable pub clean_up : String → String → Store → FileError × Store
  clean_up temporary_path final_path d =
      let (first, d1) = unlink temporary_path d in
      let (second, d2) = unlink final_path d1 in
      if not first then (crash, d1) else (if second then file_storage_unavailable else crash, d2)

  -- The `try` of `_write_file`: whether it gets through.
  unfoldable pub write_through : String → String → Bytes → Store → Bool × Store
  write_through temporary_path final_path content d =
      let (created, d1) = create temporary_path d in
      let (written, d2) = write temporary_path content d1 in
      let (replaced, d3) = replace temporary_path final_path d2 in
      if not created then (false, d1) else if not written then (false, d2) else (replaced, d3)

  -- `_write_file`: the storage key, which is the path as well.
  unfoldable pub write_file : ℕ → String → String → Bytes → Store → Result String × Store
  write_file user file_id suffix content d =
      let (ready, d1) = user_directory user d in
      let temporary_path = temporary user file_id in
      let final_path = key_of user (file_id ++ suffix) in
      let (through, d2) = write_through temporary_path final_path content d1 in
      elim ready [
        | err e ↦ (err e, d1)
        | ok _ ↦
            if through
            then (ok final_path, d2)
            else (let (e, d3) = clean_up temporary_path final_path d2 in (err e, d3))
      ]

  abbrev same_parts : List String → String → String → Bool
  same_parts (a ∷ b ∷ []) user name = str_eq a user && str_eq b name
  same_parts _ user name = false

  -- The tests of `_record_path` on the candidate.
  unfoldable pub check_candidate : String → Bool → Store → Result String
  check_candidate key require_exists d =
      if is_symlink key d || (require_exists && not (is_file key d))
      then err file_storage_invalid
      else ok key

  -- `_record_path`, for a record or a StoredFileRef.
  unfoldable pub record_path : ManagedFile → Bool → Store → Result String
  record_path row require_exists d =
      if not (root_stands d)
      then err file_storage_unavailable
      else if is_absolute row.storage_key
          || not (
              same_parts (parts row.storage_key) (str row.user_id)
                (row.file_id ++ t.suffix row.original_name))
      then err file_storage_invalid
      else elim (directory_stands row.user_id d) [
        | fails ↦ err file_storage_invalid
        | missing ↦ err file_storage_invalid
        | failed ↦ err file_storage_unavailable
        | holds ↦
            if require_exists
            then elim (lstat row.storage_key d) [
              | holds ↦ check_candidate row.storage_key require_exists d
              | fails ↦ check_candidate row.storage_key require_exists d
              | missing ↦ err file_storage_invalid
              | failed ↦ err file_storage_unavailable
            ]
            else check_candidate row.storage_key require_exists d
      ]

  -- `_unlink_record`: a failure is logged only.
  unfoldable pub unlink_record : ManagedFile → Store → Store
  unlink_record row d = elim (record_path row false d) [ err _ ↦ d | ok path ↦ (unlink path d).1 ]

  -- The tests of `_read_bytes` on what it read.
  unfoldable pub verify : ℕ → ManagedFile → Bytes → Result Bytes
  verify max row content =
      if not (length content == row.size_bytes)
        || ltb max (length content)
        || not (str_eq (t.sha256 content) row.sha256)
      then err file_storage_invalid
      else ok content

  unfoldable pub verify_reading : ℕ → ManagedFile → Reading → Result Bytes
  verify_reading max row unreadable = err file_storage_unavailable
  verify_reading max row irregular = err file_storage_invalid
  verify_reading max row (bytes content) = verify max row content

  -- `_read_bytes`, with `FILE_UPLOAD_MAX_BYTES`
  unfoldable pub read_bytes : ℕ → ManagedFile → Store → Result Bytes
  read_bytes max row d =
      if row.size_bytes == 0 || ltb max row.size_bytes
      then err file_storage_invalid
      else (record_path row true d then λ path. verify_reading max row (read path (max + 1) d))

  -- The loop of `upload_files` that writes the prepared files, each with its new id: the records or the
  -- error, and the paths written until then.
  unfoldable pub write_all :
      ℕ → ℕ → List (String × PreparedFile) → Store → Result (List ManagedFile) × List String × Store
  write_all user expires_at [] d = (ok [], [], d)
  write_all user expires_at ((file_id, f) ∷ items) d =
      let (wrote, d1) = write_file user file_id f.suffix f.content d in
      let (records, paths, d2) = write_all user expires_at items d1 in
      elim wrote [
        | err e ↦ (err e, [], d1)
        | ok key ↦ (
          records then λ rows. ok (
              record {
                file_id = file_id;
                user_id = user;
                original_name = f.original_name;
                media_type = f.media_type;
                size_bytes = length f.content;
                sha256 = f.sha256;
                storage_key = key;
                expires_at = expires_at;
              }
              ∷ rows),
          key ∷ paths,
          d2,
        )
      ]

  -- `path.unlink(missing_ok=True)` for each path; it stops where one raises.
  unfoldable pub unlink_all : List String → Store → Bool × Store
  unlink_all [] d = (true, d)
  unlink_all (path ∷ paths) d =
      let (gone, d1) = unlink path d in
      let rest = unlink_all paths d1 in if gone then rest else (false, d1)
