-- ===== src/Files.antt =====
-- data_agent/services/managed_file_service.py: the errors, types and records of the managed files.
pub mod Prepare
pub mod Storage
pub mod Service
use deep_data_agent.Prelude.{ℕ, Option, none, some, List, [], ◌∷◌, String, str_eq, if◌then◌else◌}

-- The codes of ManagedFileError, AuthorizationDeniedError, and any other exception.
pub data FileError : Type 0 where
  invalid_file_id invalid_filename unsupported_file_type invalid_file_content : FileError
  unsafe_csv_formula file_too_large file_count_exceeded file_batch_too_large : FileError
  duplicate_file file_quota_exceeded file_database_error : FileError
  file_storage_unavailable file_storage_invalid analysis_table_limit : FileError
  permission_denied crash : FileError

pub data Result (A : Type 0) : Type 0 where
  ok : A → Result A
  err : FileError → Result A

-- The value of a step is what the next one works on; an error ends the chain.
infix 20 ◌then◌
abbrev pub ◌then◌ : {A B : Type 0} → Result A → (A → Result B) → Result B
ok a then f = f a
err e then f = err e

pub record FileTypeSpec : Type 0 where
  pub media_type : String
  pub declared_types : List String

-- `FILE_TYPES.get`
unfoldable pub file_types : String → Option FileTypeSpec
file_types suffix =
    if str_eq suffix ".txt"
    then some (record { media_type = "text/plain"; declared_types = "text/plain" ∷ [] })
    else if str_eq suffix ".md"
    then some (record {
      media_type = "text/markdown";
      declared_types = "text/markdown" ∷ "text/plain" ∷ [];
    })
    else if str_eq suffix ".csv"
    then some (record {
      media_type = "text/csv";
      declared_types = "text/csv" ∷ "application/vnd.ms-excel" ∷ [];
    })
    else if str_eq suffix ".json"
    then some (record {
      media_type = "application/json";
      declared_types = "application/json" ∷ "text/json" ∷ "text/plain" ∷ [];
    })
    else none

-- The bytes of a file, each below 256.
abbrev pub Bytes : Type 0
Bytes = List ℕ

pub record PreparedFile : Type 0 where
  pub original_name : String
  pub suffix : String
  pub media_type : String
  pub content : Bytes
  pub sha256 : String

-- A row of ManagedFile, with the times as numbers.
pub record ManagedFile : Type 0 where
  pub file_id : String
  pub user_id : ℕ
  pub original_name : String
  pub media_type : String
  pub size_bytes : ℕ
  pub sha256 : String
  pub storage_key : String
  pub expires_at : ℕ

-- `Settings` of the file service.
pub record Limits : Type 0 where
  pub upload_max_bytes : ℕ
  pub batch_max_count : ℕ
  pub batch_max_bytes : ℕ
  pub user_max_count : ℕ
  pub user_quota_bytes : ℕ
  pub retention : ℕ
  pub analysis_max_chars : ℕ
  -- `MAX_BYTES` of file_statistics.py
  pub table_max_bytes : ℕ
