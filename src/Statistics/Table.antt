-- ===== src/Statistics/Table.antt =====
-- `_columns` and `_table` of data_agent/services/file_statistics.py: the names and the rows of a table.
use deep_data_agent.Prelude.{
  Bool, true, false, ◌&&◌, ◌||◌, not, Option, none, some, List, [], ◌∷◌, String, str_eq, listed,
  leb, ltb, length, map, all, if◌then◌else◌,
}
use deep_data_agent.Statistics.{
  non_finite, duplicate_key, table_limit, invalid_columns, unsafe_csv_formula, unsupported_type,
  invalid_table, Computed, done, refused, ◌next◌, max_rows, max_columns, Decimals, Value, null,
  text, Hook, number, constant, object, Entry, dict, other, Parsed, Python, decimal_of_text,
}
use Prim.Native.String.{count as characters}
use package.text.Mathlib.Text.{starts_with}

-- What the loop over the rows gets: a row, or the error of the reader or of `rows`.
pub data Row (d : Decimals) : Type 0 where
  row : List (Value d) → Row d
  bad : Row d

pub record Table (d : Decimals) : Type 0 where
  pub names : List String
  pub rows : List (Row d)

-- `len(set(names)) != len(names)`
unfoldable pub repeats : List String → Bool
repeats [] = false
repeats (n ∷ ns) = listed n ns || repeats ns

module _ (d : Decimals) (y : Python d) where
  unfoldable pub is_name : String → Bool
  is_name n = not (y.trims_off n) && leb (characters n) 128 && not (y.has_control n)

  -- `_columns`
  unfoldable pub columns : List String → Computed (List String)
  columns [] = refused table_limit
  columns (n ∷ ns) =
      if ltb max_columns (length (n ∷ ns))
      then refused table_limit
      else if not (all is_name (n ∷ ns)) || repeats (n ∷ ns)
      then refused invalid_columns
      else done (n ∷ ns)

  -- `lstrip().startswith(("=", "+", "-", "@"))`
  unfoldable pub is_formula : String → Bool
  is_formula cell =
      let t = y.lstrip cell in
      starts_with t "=" || starts_with t "+" || starts_with t "-" || starts_with t "@"

  -- The rows of the CSV reader, with its error after them.
  unfoldable pub csv_rows : List (List String) → Bool → List (Row d)
  csv_rows [] raises = if raises then bad ∷ [] else []
  csv_rows (cells ∷ rest) raises = row (map text cells) ∷ csv_rows rest raises

  unfoldable pub csv_table : List (List String) → Bool → Computed (Table d)
  csv_table [] true = refused invalid_table
  csv_table [] false = refused table_limit
  csv_table (head ∷ rest) raises = columns head next λ names.
      if all (λ n. not (is_formula n)) names
      then done (record { names = names; rows = csv_rows rest raises })
      else refused unsafe_csv_formula

  -- `_decimal`, `_reject_constant` and `_unique_object` as the parser calls them.
  unfoldable pub run_hooks : List Hook → Computed (Unit {0})
  run_hooks [] = done tt
  run_hooks (number t ∷ hooks) = decimal_of_text d y t next λ x. run_hooks hooks
  run_hooks (constant ∷ hooks) = refused non_finite
  run_hooks (object keys ∷ hooks) = if repeats keys then refused duplicate_key else run_hooks hooks

  -- `row[name]`
  unfoldable pub member : List (String × Value d) → String → Value d
  member [] name = null
  member ((k, v) ∷ pairs) name = if str_eq k name then v else member pairs name

  abbrev pub keys : List (String × Value d) → List String
  keys pairs = map (λ p. p.0) pairs

  -- `set(row) == set(names)`
  unfoldable pub same_keys : List String → List String → Bool
  same_keys ks names = all (λ k. listed k names) ks && all (λ n. listed n ks) names

  -- `rows` of a list of JSON values.
  unfoldable pub json_row : List String → Entry d → Row d
  json_row names other = bad
  json_row names (dict pairs) =
      if same_keys (keys pairs) names then row (map (member pairs) names) else bad

  -- The part of `_table` after `json.loads`.
  unfoldable pub json_table : Option (List (Entry d)) → Computed (Table d)
  json_table none = refused invalid_table
  json_table (some []) = refused invalid_table
  json_table (some (other ∷ entries)) = refused invalid_table
  json_table (some (dict pairs ∷ entries)) =
      if ltb max_rows (length (dict pairs ∷ entries))
      then refused table_limit
      else (columns (y.sort (keys pairs)) next λ names.
          done (record { names = names; rows = map (json_row names) (dict pairs ∷ entries) }))

  unfoldable pub load_json : Parsed d → Computed (Table d)
  load_json parsed = run_hooks parsed.hooks next λ u. elim parsed.result [
    | none ↦ refused invalid_table
    | some data_ ↦ json_table data_
  ]

  -- `_table`, under the handlers of `calculate_statistics`.
  unfoldable pub table : String → String → Computed (Table d)
  table t media_type =
      if str_eq media_type "text/csv"
      then csv_table (y.csv t).0 (y.csv t).1
      else if not (str_eq media_type "application/json")
      then refused unsupported_type
      else load_json (y.json t)
