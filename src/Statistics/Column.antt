-- ===== src/Statistics/Column.antt =====
-- `calculate_statistics` of data_agent/services/file_statistics.py as a whole: what a returned result says of
-- the column.
use deep_data_agent.Prelude.{
  ℕ, ◌+◌, ◌≤◌, ◌≡◌, refl, sym, ap, ◌∙◌, Bool, true, Option, none, some, List, [], ◌∷◌, String,
  str_eq, listed, ◌==◌, length, if◌then◌else◌, arith,
}
use deep_data_agent.Prelude.Int.{◌+ℤ◌, zero_+ℤ}
use deep_data_agent.Files.{Bytes}
use deep_data_agent.Statistics.{
  invalid_table, no_numeric_values, timeout, Computed, done, refused, max_bytes, Decimals, Python,
}
use deep_data_agent.Statistics.Table.{Table, table}
use deep_data_agent.Statistics.Sums.{
  Sums, no_sums, index, add_rows, sum_table, calculate_text, calculate,
}
use deep_data_agent.Statistics.Sums.Loop.{
  next-eq-done, Numbers, numbers_of, column_numbers, IsWithin, add_rows-Summed, Summed,
  length-column_numbers-le,
}
use deep_data_agent.Statistics.Exact.{IsDecimal, sum_units, take_all-valid_count, take_all-total}
use deep_data_agent.Statistics.Extremes.{Extremes, take_all-Extremes}

module _ (d : Decimals) (y : Python d) (late : ℕ → Bool) where
  open d use {T}

  -- The numbers of the selected column.
  abbrev pub numbers_for : String → Table d → List T
  numbers_for column t = column_numbers d (index t.names column) t.rows

  abbrev after_rows : Sums d → Computed (Sums d)
  after_rows s = if late (s.row_count + 1) then refused timeout else done s

  sum_table-Summed :
      (is_csv : Bool) (column : String) (t : Table d) (s : Sums d)
      → sum_table d y late is_csv column t ≡ done s
      → Summed d y (numbers_for column t) (no_sums d t.names) s
        × (s.row_count ≡ length t.rows)
        × IsWithin d y (length t.names) s.row_count
        × (listed column t.names ≡ true)
  unfolding sum_table no_sums
  sum_table-Summed is_csv column t s h =
      let (m, e, g) =
        next-eq-done
          (add_rows d y late is_csv t.names (index t.names column) t.rows (no_sums d t.names))
          after_rows {b = s} (ground arith) in
      let same : m ≡ s = ground arith in
      let (summed, n, within) =
        add_rows-Summed d y late is_csv t.names (index t.names column) t.rows (no_sums d t.names) s
          (e ∙ ap done same) (omega arith, omega arith) in
      (summed, omega arith, within, ground arith)

  abbrev last_tests : Table d → Sums d → Computed (Table d × Sums d)
  last_tests t s =
      if s.row_count == 0
      then refused invalid_table
      else if s.valid_count == 0
      then refused no_numeric_values
      else done (t, s)

  calculate_text-sum_table :
      (text media_type column : String) (t : Table d) (s : Sums d)
      → calculate_text d y late text media_type column ≡ done (t, s)
      → (sum_table d y late (str_eq media_type "text/csv") column t ≡ done s)
        × (1 ≤ s.row_count)
        × (1 ≤ s.valid_count)
  unfolding calculate_text
  calculate_text-sum_table text media_type column t s h =
      let (t', e, g) = next-eq-done (table d y text media_type) _ h in
      let (s', e', g') =
        next-eq-done (sum_table d y late (str_eq media_type "text/csv") column t') (last_tests t')
          g in
      let same : (t' ≡ t) × (s' ≡ s) = (ground arith, ground arith) in
      (
        ap (sum_table d y late (str_eq media_type "text/csv") column) (sym same.0)
            ∙ e'
            ∙ ap done same.1,
        ground arith,
        ground arith,
      )

  -- What a result has gone through.
  pub calculate-sum_table :
      (content : Bytes) (media_type column : String) (t : Table d) (s : Sums d)
      → calculate d y late content media_type column ≡ done (t, s)
      → (sum_table d y late (str_eq media_type "text/csv") column t ≡ done s)
        × (1 ≤ s.row_count)
        × (1 ≤ s.valid_count)
        × (length content ≤ max_bytes)
  unfolding calculate
  calculate-sum_table content media_type column t s h = decoded (y.decode content) (ground arith)
    where
      decoded :
          (o : Option String)
          → (elim o as (λ x. Computed (Table d × Sums d)) [
            | none ↦ refused invalid_table
            | some text ↦ calculate_text d y late text media_type column
          ])
            ≡ done (t, s)
          → (sum_table d y late (str_eq media_type "text/csv") column t ≡ done s)
            × (1 ≤ s.row_count)
            × (1 ≤ s.valid_count)
            × (length content ≤ max_bytes)
      decoded none e = cc
      decoded (some text) e =
          let (run, rows, valid) = calculate_text-sum_table text media_type column t s e in
          (run, rows, valid, ground arith)

  module _ (law : IsDecimal d) where
    open law use {units}

    -- The total of a returned result is the exact sum of the numbers in the cells of the selected column that
    -- are not empty, the valid count is how many these are, and every row of the table is counted.
    pub calculate-sum_units :
        (content : Bytes) (media_type column : String) (t : Table d) (s : Sums d)
        → calculate d y late content media_type column ≡ done (t, s)
        → (units s.total ≡ sum_units d y law (numbers_for column t))
          × (s.valid_count ≡ length (numbers_for column t))
          × (s.row_count ≡ length t.rows)
    unfolding no_sums
    calculate-sum_units content media_type column t s h =
        let (summed, n, within, found) =
          sum_table-Summed (str_eq media_type "text/csv") column t s
            (calculate-sum_table content media_type column t s h).0 in
        let start = numbers_of d (no_sums d t.names) in
        let xs = numbers_for column t in
        (
          ap (λ (m : Numbers d). units m.total) summed.0
              ∙ take_all-total d y law xs start summed.1 law.zero_fine
                  (rw law.zero_units (omega arith, omega arith))
                  (omega (arith, length-column_numbers-le d (index t.names column) t.rows))
              ∙ ap (λ z. z +ℤ sum_units d y law xs) law.zero_units
              ∙ zero_+ℤ (sum_units d y law xs),
          omega (
            arith,
            ap (λ (m : Numbers d). m.valid_count) summed.0,
            take_all-valid_count d xs start,
          ),
          n,
        )

    Summed-Extremes :
        (xs : List T) (names : List String) (s : Sums d)
        → Summed d y xs (no_sums d names) s
        → 1 ≤ length xs
        → (lo hi : T) × (s.minimum ≡ some lo) × (s.maximum ≡ some hi) × Extremes d y law lo hi xs
    unfolding no_sums
    Summed-Extremes [] names s h le = absurd (omega arith)
    Summed-Extremes (x ∷ xs) names s h le =
        let (lo, hi, low, high, ends) =
          take_all-Extremes d y law x xs (numbers_of d (no_sums d names)) h.1 refl refl in
        (
          lo,
          hi,
          ap (λ (m : Numbers d). m.minimum) h.0 ∙ low,
          ap (λ (m : Numbers d). m.maximum) h.0 ∙ high,
          ends,
        )

    -- The minimum and the maximum of a returned result are numbers of the column, and no number of the column
    -- is below the one or above the other.
    pub calculate-Extremes :
        (content : Bytes) (media_type column : String) (t : Table d) (s : Sums d)
        → calculate d y late content media_type column ≡ done (t, s)
        → (lo hi : T) × (s.minimum ≡ some lo)
          × (s.maximum ≡ some hi)
          × Extremes d y law lo hi (numbers_for column t)
    calculate-Extremes content media_type column t s h =
        let (run, rows, valid, size) = calculate-sum_table content media_type column t s h in
        Summed-Extremes (numbers_for column t) t.names s
          (sum_table-Summed (str_eq media_type "text/csv") column t s run).0
          (omega (arith, (calculate-sum_units content media_type column t s h).1))

  -- A returned result stands on a table within every limit, which has the column.
  pub calculate-IsWithin :
      (content : Bytes) (media_type column : String) (t : Table d) (s : Sums d)
      → calculate d y late content media_type column ≡ done (t, s)
      → (length content ≤ max_bytes)
        × (listed column t.names ≡ true)
        × (1 ≤ s.valid_count)
        × (s.valid_count ≤ s.row_count)
        × IsWithin d y (length t.names) s.row_count
  unfolding no_sums
  calculate-IsWithin content media_type column t s h =
      let (run, rows, valid, size) = calculate-sum_table content media_type column t s h in
      let (summed, n, within, found) =
        sum_table-Summed (str_eq media_type "text/csv") column t s run in
      (
        size,
        found,
        valid,
        omega (
          arith,
          ap (λ (m : Numbers d). m.valid_count) summed.0,
          take_all-valid_count d (numbers_for column t) (numbers_of d (no_sums d t.names)),
          length-column_numbers-le d (index t.names column) t.rows,
        ),
        within,
      )
