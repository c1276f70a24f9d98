-- ===== src/Statistics/Report.antt =====
-- What `calculate_statistics` and `attach_source` of data_agent/services/file_statistics.py return. `show` is
-- Python's `str` of a number, `digest` the SHA-256 of the canonical JSON.
use deep_data_agent.Prelude.{
  ℕ, Bool, Option, none, some, List, [], ◌∷◌, ◌++◌, String, ltb, if◌then◌else◌,
}
use deep_data_agent.Files.{Bytes, ManagedFile}
use deep_data_agent.Statistics.{Computed, done, ◌next◌, Decimals, Python, Kind, decimal_text}
use deep_data_agent.Statistics.Table.{Table}
use deep_data_agent.Statistics.Sums.{Tally, Sums, index, calculate}

-- `sorted(kinds[index])`
unfoldable pub types_of : Tally → List Kind
types_of t =
    (if t.boolean then Kind.boolean ∷ [] else [])
    ++ (if t.number then Kind.number ∷ [] else [])
    ++ (if t.string then Kind.string ∷ [] else [])

pub record ColumnInfo : Type 0 where
  pub name : String
  pub types : List Kind
  pub missing_count : ℕ

pub data Warning : Type 0 where
  unit_unspecified missing_values_excluded duplicate_rows_included : Warning

-- The parts of the dict that vary, without the summary, a text over the others.
pub record Report : Type 0 where
  pub column : String
  pub row_count : ℕ
  pub columns : List ColumnInfo
  pub duplicate_row_count : ℕ
  pub value : String
  pub valid_count : ℕ
  pub missing_count : ℕ
  pub minimum : String
  pub maximum : String
  pub warnings : List Warning

-- The entry `source`, and the digest.
pub record Sourced : Type 0 where
  pub report : Report
  pub file_id : String
  pub sha256 : String
  pub size_bytes : ℕ
  pub result_sha256 : String

-- `enumerate(names)`
unfoldable pub columns_of : List String → List Tally → List ColumnInfo
columns_of [] tallies = []
columns_of (n ∷ ns) [] = []
columns_of (n ∷ ns) (t ∷ ts) =
    record { name = n; types = types_of t; missing_count = t.missing } ∷ columns_of ns ts

-- `missing[selected]`
unfoldable pub missing_at : List Tally → ℕ → ℕ
missing_at [] i = 0
missing_at (t ∷ ts) ℕ.zero = t.missing
missing_at (t ∷ ts) (ℕ.suc i) = missing_at ts i

unfoldable pub warnings_of : ℕ → ℕ → List Warning
warnings_of missing duplicates =
    unit_unspecified ∷ (if ltb 0 missing then missing_values_excluded ∷ [] else [])
    ++ (if ltb 0 duplicates then duplicate_rows_included ∷ [] else [])

module _ (d : Decimals) (y : Python d) where
  -- `_decimal_text` of a bound, which is there where a value is.
  unfoldable pub bound_text : Option d.T → String
  bound_text none = ""
  bound_text (some x) = decimal_text d y x

  unfoldable pub report_of : String → Table d × Sums d → Report
  report_of column (t, s) =
      let missing = missing_at s.tallies (index t.names column) in
      record {
        column = column;
        row_count = s.row_count;
        columns = columns_of t.names s.tallies;
        duplicate_row_count = s.duplicate_count;
        value = decimal_text d y s.total;
        valid_count = s.valid_count;
        missing_count = missing;
        minimum = bound_text s.minimum;
        maximum = bound_text s.maximum;
        warnings = warnings_of missing s.duplicate_count;
      }

  -- `calculate_statistics`
  unfoldable pub calculate_statistics : (ℕ → Bool) → Bytes → String → String → Computed Report
  calculate_statistics late content media_type column =
      calculate d y late content media_type column next λ end. done (report_of column end)

  -- `attach_source`
  unfoldable pub attach_source :
      (Report → String → String → ℕ → String) → Report → ManagedFile → Sourced
  attach_source digest report row = record {
    report = report;
    file_id = row.file_id;
    sha256 = row.sha256;
    size_bytes = row.size_bytes;
    result_sha256 = digest report row.file_id row.sha256 row.size_bytes;
  }
