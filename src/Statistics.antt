-- ===== src/Statistics.antt =====
-- data_agent/services/file_statistics.py: the column sum of one table. Decimals, the parsers of CSV and
-- JSON and Python's functions on text are parameters; the summary text is not modelled.
pub mod Table
pub mod Sums
pub mod Exact
pub mod Extremes
pub mod Column
pub mod Report
pub mod Tool
pub mod Source
pub mod Tests
use deep_data_agent.Prelude.{
  ℕ, ◌≤◌, ◌≡◌, ◌^◌, Bool, true, false, ◌&&◌, ◌||◌, not, Option, none, some, List, [], ◌∷◌, String,
  str_eq, leb, ltb, if◌then◌else◌,
}
use deep_data_agent.Prelude.Int.{ℤ, pos, negsuc, neg_part}
use deep_data_agent.Files.{Bytes}
use Prim.Native.String.{count as characters}

-- The codes of StatisticsError, without their prefix `analysis_`.
pub data StatisticsError : Type 0 where
  numeric_range non_numeric non_finite duplicate_key table_limit invalid_columns : StatisticsError
  unsafe_csv_formula unsupported_type invalid_table invalid_column : StatisticsError
  column_not_found timeout no_numeric_values : StatisticsError

-- `status_code`
unfoldable pub status_code : StatisticsError → ℕ
status_code table_limit = 413
status_code unsafe_csv_formula = 400
status_code timeout = 503
status_code _ = 422

pub data Computed (A : Type 0) : Type 0 where
  done : A → Computed A
  refused : StatisticsError → Computed A

-- A refusal ends the chain.
infix 20 ◌next◌
abbrev pub ◌next◌ : {A B : Type 0} → Computed A → (A → Computed B) → Computed B
done a next f = f a
refused e next f = refused e

abbrev pub max_bytes : ℕ
max_bytes = 5242880

abbrev pub max_rows : ℕ
max_rows = 50000

abbrev pub max_columns : ℕ
max_columns = 64

abbrev pub max_cells : ℕ
max_cells = 250000

-- `decimal.Decimal`: `add` is `+` in a context of 80 digits, `parse` is `Decimal(text)` or `none` for
-- InvalidOperation, `exponent` that of a finite number.
pub record Decimals : Type 1 where
  pub T : Type 0
  pub zero : T
  pub add : T → T → T
  pub lt : T → T → Bool
  pub eq : T → T → Bool
  pub parse : String → Option T
  pub is_finite : T → Bool
  pub digits : T → ℕ
  pub adjusted : T → ℤ
  pub exponent : T → ℤ
  pub is_zero : T → Bool
  -- `format(number, "f")`
  pub fixed : T → String

-- A cell: None, a bool, a Decimal, a str, or a list or dict.
pub data Value (d : Decimals) : Type 0 where
  null nested : Value d
  flag : Bool → Value d
  decimal : d.T → Value d
  text : String → Value d

-- A hook that the JSON parser calls: `parse_int` or `parse_float`, `parse_constant`, or
-- `object_pairs_hook` with the keys.
pub data Hook : Type 0 where
  number : String → Hook
  constant : Hook
  object : List String → Hook

-- A member of the parsed list: a dict or another value.
pub data Entry (d : Decimals) : Type 0 where
  dict : List (String × Value d) → Entry d
  other : Entry d

-- `json.loads`: the hooks that it calls, in order, and then `none` where the text is refused, or the
-- value: a list or something else.
pub record Parsed (d : Decimals) : Type 0 where
  pub hooks : List Hook
  pub result : Option (Option (List (Entry d)))

-- Python by the calls of the source. `csv` is the strict reader: its rows, and whether it raises after
-- them. `trims_off`, `rtrim_0` and `rtrim_dot` are `not name.strip()`, `rstrip("0")` and `rstrip(".")`.
pub record Python (d : Decimals) : Type 0 where
  pub decode : Bytes → Option String
  pub csv : String → List (List String) × Bool
  pub json : String → Parsed d
  pub is_number : String → Bool
  pub trims_off : String → Bool
  pub has_control : String → Bool
  pub lstrip : String → String
  pub sort : List String → List String
  pub contains : String → String → Bool
  pub rtrim_0 : String → String
  pub rtrim_dot : String → String

abbrev pub reaches_38 : ℤ → Bool
reaches_38 (pos n) = leb 38 n
reaches_38 (negsuc n) = false

module _ (d : Decimals) (y : Python d) where
  open d use {T}

  -- The range test of `_decimal`.
  unfoldable pub in_range : T → Computed T
  in_range x =
      if not (d.is_finite x)
        || ltb 38 (d.digits x)
        || reaches_38 (d.adjusted x)
        || ltb 18 (neg_part (d.exponent x))
      then refused numeric_range
      else done x

  -- `_decimal` of a str.
  unfoldable pub decimal_of_text : String → Computed T
  decimal_of_text t =
      if leb (characters t) 128 && y.is_number t
      then elim (d.parse t) [ none ↦ refused numeric_range | some x ↦ in_range x ]
      else refused non_numeric

  -- `_decimal`
  unfoldable pub decimal_of : Value d → Computed T
  decimal_of (decimal x) = in_range x
  decimal_of (text t) = decimal_of_text t
  decimal_of null = refused non_numeric
  decimal_of nested = refused non_numeric
  decimal_of (flag b) = refused non_numeric

  -- `_decimal_text`
  unfoldable pub decimal_text : T → String
  decimal_text x =
      if d.is_zero x
      then "0"
      else if y.contains "." (d.fixed x)
      then y.rtrim_dot (y.rtrim_0 (d.fixed x))
      else d.fixed x

-- `value is None or value == ""`
unfoldable pub is_missing : {d : Decimals} → Value d → Bool
is_missing null = true
is_missing (text t) = str_eq t ""
is_missing nested = false
is_missing (flag b) = false
is_missing (decimal x) = false

-- The results of `_kind` beside its error.
pub data Kind : Type 0 where
  missing boolean number string : Kind

module _ (d : Decimals) (y : Python d) where
  -- `_kind`
  unfoldable pub kind : Value d → Computed Kind
  kind null = done missing
  kind nested = refused invalid_table
  kind (flag b) = done boolean
  kind (decimal x) = done Kind.number
  kind (text t) =
      if str_eq t ""
      then done missing
      else elim (decimal_of_text d y t) [ done x ↦ done Kind.number | refused e ↦ done string ]
