-- ===== src/Statistics/Sums.antt =====
-- `calculate_statistics` and `attach_source` of data_agent/services/file_statistics.py: one pass over the
-- rows of a table. `late n` is the n-th answer of the deadline's test, `digest` the hash of the result.
pub mod Loop
use deep_data_agent.Prelude.{
  ℕ, suc, ◌+◌, ◌-◌, ◌*◌, Bool, true, false, ◌&&◌, ◌||◌, not, Option, none, some, List, [], ◌∷◌,
  String, str_eq, listed, leb, ltb, ◌==◌, length, map, all, if◌then◌else◌,
}
use deep_data_agent.Files.{Bytes}
use deep_data_agent.Statistics.{
  table_limit, unsafe_csv_formula, invalid_table, invalid_column, column_not_found, timeout,
  no_numeric_values, Computed, done, refused, ◌next◌, max_bytes, max_rows, max_cells, Decimals,
  Value, null, flag, nested, decimal, text, Python, decimal_of, decimal_text, is_missing, Kind,
  kind,
}
use deep_data_agent.Statistics.Table.{Row, row, bad, Table, is_formula, table}
use Prim.Native.String.{count as characters}

-- One column's entry of `missing` and of `kinds`.
pub record Tally : Type 0 where
  pub missing : ℕ
  pub boolean : Bool
  pub number : Bool
  pub string : Bool

-- The variables of the loop.
pub record Sums (d : Decimals) : Type 0 where
  pub row_count : ℕ
  pub duplicate_count : ℕ
  pub valid_count : ℕ
  pub total : d.T
  pub minimum : Option d.T
  pub maximum : Option d.T
  pub tallies : List Tally
  pub seen : List (List (Value d))

abbrev pub no_tally : Tally
no_tally = record { missing = 0; boolean = false; number = false; string = false }

unfoldable pub count_kind : Tally → Kind → Tally
count_kind t Kind.missing = record t { missing = t.missing + 1 }
count_kind t Kind.boolean = record t { boolean = true }
count_kind t Kind.number = record t { number = true }
count_kind t Kind.string = record t { string = true }

-- `names.index(column)`
unfoldable pub index : List String → String → ℕ
index [] column = 0
index (n ∷ ns) column = if str_eq n column then 0 else suc (index ns column)

module _ (d : Decimals) where
  open d use {T}

  unfoldable pub no_sums : List String → Sums d
  no_sums names = record {
    row_count = 0;
    duplicate_count = 0;
    valid_count = 0;
    total = d.zero;
    minimum = none;
    maximum = none;
    tallies = map (λ n. no_tally) names;
    seen = [];
  }

  -- `row[selected]`
  unfoldable pub cell : List (Value d) → ℕ → Value d
  cell [] i = null
  cell (v ∷ vs) i = if i == 0 then v else cell vs (i - 1)

  -- Equality of two `(type(value), value)`.
  unfoldable pub same_value : Value d → Value d → Bool
  same_value null null = true
  same_value (flag a) (flag b) = (a && b) || not (a || b)
  same_value (decimal a) (decimal b) = d.eq a b
  same_value (text a) (text b) = str_eq a b
  same_value _ _ = false

  unfoldable pub same_row : List (Value d) → List (Value d) → Bool
  same_row [] [] = true
  same_row (a ∷ as') (b ∷ bs) = same_value a b && same_row as' bs
  same_row _ _ = false

  -- `key in seen`
  unfoldable pub was_seen : List (Value d) → List (List (Value d)) → Bool
  was_seen r [] = false
  was_seen r (s ∷ ss) = same_row r s || was_seen r ss

  -- `min` and `max` keep the first of two equal numbers.
  unfoldable pub least : Option T → T → T
  least none x = x
  least (some m) x = if d.lt x m then x else m

  unfoldable pub greatest : Option T → T → T
  greatest none x = x
  greatest (some m) x = if d.lt m x then x else m

  -- The end of the loop's body, with the number in the selected cell.
  unfoldable pub add_number : T → Sums d → Sums d
  add_number x s = record s {
    total = d.add s.total x;
    valid_count = s.valid_count + 1;
    minimum = some (least s.minimum x);
    maximum = some (greatest s.maximum x);
  }

module _ (d : Decimals) (y : Python d) where
  -- The loop over the cells of one row.
  unfoldable pub count_kinds : List Tally → List (Value d) → Computed (List Tally)
  count_kinds (t ∷ ts) (v ∷ vs) =
      kind d y v next λ k. count_kinds ts vs next λ rest. done (count_kind t k ∷ rest)
  count_kinds [] _ = done []
  count_kinds (t ∷ ts) [] = done (t ∷ ts)

  unfoldable pub is_unsafe : Value d → Bool
  is_unsafe (text t) = is_formula d y t
  is_unsafe _ = false

  unfoldable pub add_cell : Value d → Sums d → Computed (Sums d)
  add_cell v s =
      if is_missing v then done s else (decimal_of d y v next λ x. done (add_number d x s))

  -- The loop's body after the guards, from the kinds on.
  unfoldable pub count_row : ℕ → List (Value d) → Sums d → Computed (Sums d)
  count_row selected r s = count_kinds s.tallies r next λ tallies.
      add_cell (cell d r selected) (record s {
        duplicate_count = if was_seen d r s.seen then s.duplicate_count + 1 else s.duplicate_count;
        tallies = tallies;
        seen = r ∷ s.seen;
      })

  module _ (late : ℕ → Bool) (is_csv : Bool) (names : List String) (selected : ℕ) where
    unfoldable pub add_row : List (Value d) → Sums d → Computed (Sums d)
    add_row r s =
        let n = s.row_count + 1 in
        if late n
        then refused timeout
        else if ltb max_rows n || ltb max_cells (n * length names)
        then refused table_limit
        else if not (length r == length names)
        then refused invalid_table
        else if is_csv && not (all (λ v. not (is_unsafe v)) r)
        then refused unsafe_csv_formula
        else count_row selected r (record s { row_count = n })

    unfoldable pub add_rows : List (Row d) → Sums d → Computed (Sums d)
    add_rows [] s = done s
    add_rows (bad ∷ rows) s = refused invalid_table
    add_rows (row r ∷ rows) s = add_row r s next add_rows rows

  module _ (late : ℕ → Bool) where
    -- The statements under `try` after `_table`.
    unfoldable pub sum_table : Bool → String → Table d → Computed (Sums d)
    sum_table is_csv column t =
        if late 0
        then refused timeout
        else if not (listed column t.names)
        then refused column_not_found
        else (add_rows late is_csv t.names (index t.names column) t.rows (no_sums d t.names)
            next λ s. if late (s.row_count + 1) then refused timeout else done s)

    -- `calculate_statistics` from the decoded text on, up to its test of `valid_count`, with the table that
    -- it read.
    unfoldable pub calculate_text : String → String → String → Computed (Table d × Sums d)
    calculate_text t media_type column = table d y t media_type next λ rows.
        sum_table (str_eq media_type "text/csv") column rows next λ s.
        if s.row_count == 0
        then refused invalid_table
        else if s.valid_count == 0
        then refused no_numeric_values
        else done (rows, s)

    unfoldable pub calculate : Bytes → String → String → Computed (Table d × Sums d)
    calculate content media_type column =
        if ltb max_bytes (length content)
        then refused table_limit
        else if str_eq column "" || ltb 128 (characters column)
        then refused invalid_column
        else elim (y.decode content) [
          | none ↦ refused invalid_table
          | some t ↦ calculate_text t media_type column
        ]
