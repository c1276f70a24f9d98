-- ===== src/Statistics/Tests.antt =====
-- Decimals that are whole numbers of 10^-18, one small table, and the theorems of the statistics there.
use deep_data_agent.Prelude.{
  ℕ, ◌≡◌, refl, ◌+◌, Bool, true, false, not, ◌&&◌, Option, none, some, List, [], ◌∷◌, String,
  str_eq, leb, ltb, listed, if◌then◌else◌, arith, ap, sym, ◌∙◌, ◌==◌, Bool-cases, inl, inr,
}
use deep_data_agent.Prelude.Int.{ℤ, pos, negsuc, pos_part, neg_part, ◌+ℤ◌}
use deep_data_agent.Access.{User, has_permission, is_session_permission, ensure_permission}
use deep_data_agent.Files.{Result, ok, ManagedFile}
use deep_data_agent.Files.Prepare.{normalize_file_id}
use deep_data_agent.Files.Storage.{read_bytes, record_path, check_candidate, verify_reading, verify}
use deep_data_agent.Files.Service.{
  World, read_table, get_file, find_file, content_of, authorized, is_live,
}
use deep_data_agent.Files.Service.Tests
use deep_data_agent.Statistics.{
  done, Decimals, Value, Python, decimal_of_text, in_range, is_missing, kind, reaches_38,
  decimal_of,
}
use deep_data_agent.Statistics.Table.{
  Table, row, table, csv_table, csv_rows, columns, is_name, repeats, is_formula,
}
use deep_data_agent.Statistics.Sums.{
  Sums, calculate, calculate_text, sum_table, add_rows, add_row, count_row, count_kinds, count_kind,
  add_cell, add_number, no_sums, index, cell, was_seen, same_row, same_value, least, greatest,
  is_unsafe,
}
use deep_data_agent.Statistics.Exact.{max_amount, IsSmall, ◌≤ℤ◌, IsDecimal, sum_units}
use deep_data_agent.Statistics.Extremes.{Extremes}
use deep_data_agent.Statistics.Column.{numbers_for, calculate-sum_units, calculate-Extremes}
use deep_data_agent.Statistics.Report.{Report, calculate_statistics, report_of, attach_source}
use deep_data_agent.Statistics.Tool.{
  Subjects, user_id_of, calculate_tool, file_statistics, on_read, statistics_of, tool_result,
}
use deep_data_agent.Statistics.Source.{HasSource, IsSubject, calculate_tool-HasSource}

abbrev below : ℤ → ℤ → Bool
below a b = ltb (pos_part a + neg_part b) (pos_part b + neg_part a)

abbrev place : ℤ → ℤ
place z = if leb (pos_part z) max_amount && leb (neg_part z) max_amount then pos 0 else pos 38

abbrev read_number : String → Option ℤ
read_number t = if str_eq t "5" then some (pos 5) else some (negsuc 6)

abbrev decimals : Decimals
decimals = record {
  T = ℤ;
  zero = pos 0;
  add = λ a b. a +ℤ b;
  lt = below;
  eq = λ a b. not (below a b) && not (below b a);
  parse = read_number;
  is_finite = λ a. true;
  digits = λ a. 1;
  adjusted = place;
  exponent = λ a. pos 0;
  is_zero = λ a. false;
  fixed = λ a. "1";
}

place-IsSmall : (z : ℤ) → reaches_38 (place z) ≡ false → IsSmall max_amount z
place-IsSmall z h = (ground arith, ground arith)

below-le : (a b : ℤ) → below a b ≡ true → a ≤ℤ b
below-le a b h = ground arith

not_below-le : (a b : ℤ) → below a b ≡ false → b ≤ℤ a
not_below-le a b h = ground arith

abbrev is_decimal : IsDecimal decimals
is_decimal = record {
  units = λ z. z;
  zero_units = refl;
  zero_fine = (refl, omega arith);
  small = λ z fine h. place-IsSmall z h;
  add_exact = λ a b fine fine' h. ((refl, omega arith), refl);
  lt_units = λ a b fine fine'. below-le a b;
  ge_units = λ a b fine fine'. not_below-le a b;
}

-- Python on the texts of these tests.
abbrev python : Python decimals
python = record {
  decode = λ c. some "n";
  csv = λ t. (("n" ∷ []) ∷ ("5" ∷ []) ∷ ("-7" ∷ []) ∷ ("" ∷ []) ∷ [], false);
  json = λ t. record { hooks = []; result = none };
  is_number = λ t. true;
  trims_off = λ t. false;
  has_control = λ t. false;
  lstrip = λ t. if str_eq t "-7" then "7" else t;
  sort = λ ns. ns;
  contains = λ part t. false;
  rtrim_0 = λ t. t;
  rtrim_dot = λ t. t;
}

abbrev never : ℕ → Bool
never n = false

abbrev file_bytes : List ℕ
file_bytes = 110 ∷ 10 ∷ []

abbrev finished : Table decimals × Sums decimals
finished = (
  record {
    names = "n" ∷ [];
    rows = row (Value.text "5" ∷ []) ∷ row (Value.text "-7" ∷ []) ∷ row (Value.text "" ∷ []) ∷ [];
  },
  record {
    row_count = 3;
    duplicate_count = 0;
    valid_count = 2;
    total = negsuc 1;
    minimum = some (negsuc 6);
    maximum = some (pos 5);
    tallies = record { missing = 1; boolean = false; number = true; string = false } ∷ [];
    seen = (Value.text "" ∷ []) ∷ (Value.text "-7" ∷ []) ∷ (Value.text "5" ∷ []) ∷ [];
  },
)

calculate-finished : calculate decimals python never file_bytes "text/csv" "n" ≡ done finished
unfolding calculate calculate_text table csv_table csv_rows columns is_name repeats is_formula
    sum_table add_rows add_row count_row count_kinds count_kind add_cell add_number no_sums index
    cell was_seen same_row same_value least greatest is_unsafe kind decimal_of decimal_of_text
    in_range is_missing ◌+ℤ◌ listed
calculate-finished = refl

calculate-sum_units_example :
    (finished.1.total
      ≡ sum_units decimals python is_decimal (numbers_for decimals python never "n" finished.0))
    × (finished.1.valid_count ≡ 2)
    × (finished.1.row_count ≡ 3)
unfolding cell index
calculate-sum_units_example =
    calculate-sum_units decimals python never is_decimal file_bytes "text/csv" "n" finished.0
      finished.1 calculate-finished

calculate-Extremes_example :
    (lo hi : ℤ) × (finished.1.minimum ≡ some lo)
    × (finished.1.maximum ≡ some hi)
    × Extremes decimals python is_decimal lo hi (numbers_for decimals python never "n" finished.0)
calculate-Extremes_example =
    calculate-Extremes decimals python never is_decimal file_bytes "text/csv" "n" finished.0
      finished.1 calculate-finished

-- A stored table of the user 7.
abbrev table_row : ManagedFile
table_row = record Tests.row { media_type = "text/csv" }

abbrev world : World Tests.texts Tests.disk Tests.digits Tests.session Tests.limits
world = record Tests.stored { db = (table_row ∷ [], table_row ∷ []) }

abbrev subjects : Subjects
subjects = record { is_digits = λ s. true; int = λ s. 7; str = λ n. "7" }

abbrev by_id : ℕ → Result (Option User)
by_id i = if i == 7 then ok (some Tests.actor) else ok none

by_id-id : (i : ℕ) (a : User) → by_id i ≡ ok (some a) → a.id ≡ i
by_id-id i a h = elim (Bool-cases (i == 7)) [
  | inl e ↦
      let same : Tests.actor ≡ a = ground arith in
      let seven : i ≡ 7 = ground arith in ap (λ u. u.id) (sym same) ∙ sym seven
  | inr e ↦ ground arith
]

abbrev hash : Report → String → String → ℕ → String
hash report file_id sha256 size_bytes = "h"

calculate_tool-HasSource_example :
    (i : ℕ) × (actor : User) × IsSubject subjects (some "7") i
    × (by_id i ≡ ok (some actor))
    × (actor.id ≡ i)
    × HasSource Tests.texts Tests.disk Tests.digits Tests.session Tests.limits decimals python never
        hash actor 10 "f1" "n"
        (attach_source decimals python hash (report_of decimals python "n" finished) table_row)
unfolding calculate_tool file_statistics on_read statistics_of tool_result user_id_of
    calculate_statistics read_table get_file find_file content_of authorized is_live
    ensure_permission has_permission is_session_permission normalize_file_id read_bytes record_path
    check_candidate verify_reading verify calculate calculate_text table csv_table csv_rows columns
    is_name repeats is_formula sum_table add_rows add_row count_row count_kinds count_kind add_cell
    add_number no_sums index cell was_seen same_row same_value least greatest is_unsafe kind
    decimal_of decimal_of_text in_range is_missing ◌+ℤ◌ listed
calculate_tool-HasSource_example =
    calculate_tool-HasSource Tests.texts Tests.disk Tests.digits Tests.session Tests.limits decimals
      python never hash subjects by_id by_id-id (some "7") 10 "f1" "n" world
      (attach_source decimals python hash (report_of decimals python "n" finished) table_row) refl
