-- ===== src/Statistics/Tool.antt =====
-- `file_statistics` of data_agent/services/managed_file_service.py and the chat tool over it,
-- data_agent/tools/file_statistics.py.
use deep_data_agent.Prelude.{
  ℕ, ◌+◌, ◌-◌, Bool, true, false, ◌||◌, not, Option, none, some, String, str_eq, ltb, if◌then◌else◌,
  ◌==◌,
}
use deep_data_agent.Access.{User}
use deep_data_agent.Files.{
  FileError, invalid_file_id, unsafe_csv_formula, file_storage_unavailable, file_storage_invalid,
  file_database_error, analysis_table_limit, permission_denied, crash, Result, ok, err, Bytes,
  ManagedFile, Limits,
}
use deep_data_agent.Files.Prepare.{Texts}
use deep_data_agent.Files.Storage.{Disk}
use deep_data_agent.Files.Service.{Database, World, read_table}
use deep_data_agent.Statistics.{StatisticsError, done, refused, Decimals, Python}
use deep_data_agent.Statistics.Report.{Report, Sourced, calculate_statistics, attach_source}
use Prim.Native.String.{count as characters}

-- The error of `file_statistics`: a StatisticsError becomes a ManagedFileError with its code.
pub data Failure : Type 0 where
  file : FileError → Failure
  statistics : StatisticsError → Failure

pub data Outcome (A : Type 0) : Type 0 where
  found : A → Outcome A
  absent : Outcome A
  failed : Failure → Outcome A

-- The codes of the tool's errors: `managed_file_auth_required`, `managed_file_not_found`,
-- `analysis_busy`, `analysis_error` or one that is passed on.
pub data ToolCode : Type 0 where
  auth_required not_found busy analysis_error : ToolCode
  passed : Failure → ToolCode

pub data ToolResult : Type 0 where
  success : Sourced → ToolResult
  error : ToolCode → ToolResult

-- The keys of `_ERROR_MESSAGES` among the codes of the file service; those of StatisticsError are all there.
unfoldable pub has_message : FileError → Bool
has_message invalid_file_id = true
has_message unsafe_csv_formula = true
has_message file_storage_unavailable = true
has_message file_storage_invalid = true
has_message file_database_error = true
has_message analysis_table_limit = true
has_message _ = false

-- `_failure` of a ManagedFileError, and the handlers of `_calculate` before it.
unfoldable pub failure : Failure → ToolCode
failure (statistics e) = passed (statistics e)
failure (file permission_denied) = not_found
failure (file crash) = analysis_error
failure (file e) = if has_message e then passed (file e) else analysis_error

-- The end of `_calculate`.
unfoldable pub tool_result : Outcome Sourced → ToolResult
tool_result (found s) = success s
tool_result absent = error not_found
tool_result (failed e) = error (failure e)

-- Python on the subject of the active agent run: `isascii() and isdigit()`, `int` and `str`.
pub record Subjects : Type 0 where
  pub is_digits : String → Bool
  pub int : String → ℕ
  pub str : ℕ → String

-- The test on the subject in `_calculate`.
unfoldable pub user_id_of : Subjects → Option String → Option ℕ
user_id_of p none = none
user_id_of p (some s) =
    if not (p.is_digits s)
      || ltb 20 (characters s)
      || p.int s == 0
      || not (str_eq (p.str (p.int s)) s)
    then none
    else some (p.int s)

module _ (t : Texts) (k : Disk) (str : ℕ → String) (b : Database) (l : Limits) (d : Decimals)
    (y : Python d) (late : ℕ → Bool) (digest : Report → String → String → ℕ → String) where
  -- The end of `file_statistics`, on the bytes that were read.
  unfoldable pub statistics_of : String → ManagedFile → Bytes → Outcome Sourced
  statistics_of column row content =
      elim (calculate_statistics d y late content row.media_type column) [
        | done report ↦ found (attach_source d y digest report row)
        | refused e ↦ failed (statistics e)
      ]

  unfoldable pub on_read : String → Result (Option (ManagedFile × Bytes)) → Outcome Sourced
  on_read column (err e) = failed (file e)
  on_read column (ok none) = absent
  on_read column (ok (some (row, content))) = statistics_of column row content

  -- `file_statistics`
  unfoldable pub file_statistics :
      User → ℕ → String → String → World t k str b l → Outcome Sourced × World t k str b l
  file_statistics actor now file_id column w =
      let (read, w') = read_table t k str b l actor now file_id w in (on_read column read, w')

  -- `_calculate`: `user` is the lookup of the actor, where `err` stands for a raised exception.
  unfoldable pub calculate_tool :
      Subjects
      → Option String
      → (ℕ → Result (Option User))
      → ℕ
      → String
      → String
      → World t k str b l
      → ToolResult × World t k str b l
  calculate_tool p subject user now file_id column w = elim (user_id_of p subject) [
    | none ↦ (error auth_required, w)
    | some i ↦ elim (user i) [
      | err e ↦ (error analysis_error, w)
      | ok none ↦ (error not_found, w)
      | ok (some actor) ↦
          let (outcome, w') = file_statistics actor now file_id column w in
          (tool_result outcome, w')
    ]
  ]

-- The semaphore of the tool's threads: the slots that are free, and the submitted runs not yet done.
pub record Slots : Type 0 where
  pub free : ℕ
  pub running : ℕ

abbrev pub workers : ℕ
workers = 4

-- How `_executor.submit` ends.
pub data Submitted : Type 0 where
  accepted raised : Submitted

-- `_submit`: an error, or none where the run started.
unfoldable pub submit : Submitted → Slots → Option ToolCode × Slots
submit outcome s = if s.free == 0 then (some busy, s) else elim outcome [
  | accepted ↦ (none, record s { free = s.free - 1; running = s.running + 1 })
  | raised ↦ (some analysis_error, s)
]

-- The callback when a run is done.
unfoldable pub release : Slots → Slots
release s = record s { free = s.free + 1; running = s.running - 1 }
