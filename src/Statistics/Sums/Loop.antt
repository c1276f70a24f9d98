-- ===== src/Statistics/Sums/Loop.antt =====
-- The loop of `calculate_statistics` (data_agent/services/file_statistics.py) against a plain fold over the
-- numbers of the selected column.
use deep_data_agent.Prelude.{
  ℕ, suc, ◌+◌, ◌*◌, ◌≤◌, ◌≡◌, refl, ap, subst, ◌∙◌, Bool, true, false, inl, inr, Option, none, some,
  List, [], ◌∷◌, String, str_eq, length, if◌then◌else◌, Bool-cases, All, arith,
}
use deep_data_agent.Statistics.{
  numeric_range, Computed, done, refused, ◌next◌, max_rows, max_cells, Decimals, Value, null, flag,
  nested, decimal, text, Python, in_range, decimal_of_text, decimal_of, is_missing,
}
use deep_data_agent.Statistics.Table.{Row, row, bad}
use deep_data_agent.Statistics.Sums.{
  Sums, cell, least, greatest, add_number, count_kinds, add_cell, count_row, add_row, add_rows,
}

pub next-eq-done :
    {A B : Type 0} (m : Computed A) (f : A → Computed B) {b : B}
    → (m next f) ≡ done b
    → (a : A) × (m ≡ done a) × (f a ≡ done b)
next-eq-done (done a) f h = (a, refl, h)
next-eq-done (refused e) f h = cc

-- What the numbers of a column come to.
pub record Numbers (d : Decimals) : Type 0 where
  pub total : d.T
  pub valid_count : ℕ
  pub minimum : Option d.T
  pub maximum : Option d.T

module _ (d : Decimals) where
  open d use {T}

  abbrev pub numbers_of : Sums d → Numbers d
  numbers_of s = record {
    total = s.total;
    valid_count = s.valid_count;
    minimum = s.minimum;
    maximum = s.maximum;
  }

  abbrev pub take_in : Numbers d → T → Numbers d
  take_in n x = record {
    total = d.add n.total x;
    valid_count = n.valid_count + 1;
    minimum = some (least d n.minimum x);
    maximum = some (greatest d n.maximum x);
  }

  abbrev pub take_all : List T → Numbers d → Numbers d
  take_all [] n = n
  take_all (x ∷ xs) n = take_all xs (take_in n x)

  -- The number in a cell.
  abbrev pub amount : Value d → Option T
  amount null = none
  amount nested = none
  amount (flag b) = none
  amount (decimal x) = some x
  amount (text t) = if str_eq t "" then none else d.parse t

  abbrev pub with_amount : Option T → List T → List T
  with_amount none xs = xs
  with_amount (some x) xs = x ∷ xs

  -- The numbers of a column, from the first row to the last.
  abbrev pub column_numbers : ℕ → List (Row d) → List T
  column_numbers i [] = []
  column_numbers i (bad ∷ rows) = column_numbers i rows
  column_numbers i (row r ∷ rows) = with_amount (amount (cell d r i)) (column_numbers i rows)

  length-with_amount-le : (a : Option T) (xs : List T) → length (with_amount a xs) ≤ suc (length xs)
  length-with_amount-le none xs = omega arith
  length-with_amount-le (some x) xs = omega arith

  pub length-column_numbers-le :
      (i : ℕ) (rows : List (Row d)) → length (column_numbers i rows) ≤ length rows
  length-column_numbers-le i [] = omega arith
  length-column_numbers-le i (bad ∷ rows) = omega (arith, length-column_numbers-le i rows)
  length-column_numbers-le i (row r ∷ rows) = omega (
    arith,
    length-with_amount-le (amount (cell d r i)) (column_numbers i rows),
    length-column_numbers-le i rows,
  )

module _ (d : Decimals) (y : Python d) where
  open d use {T}

  -- A number that passes the range test.
  abbrev pub IsInRange : T → Type 0
  IsInRange x = in_range d y x ≡ done x

  in_range-done : (x z : T) → in_range d y x ≡ done z → (x ≡ z) × IsInRange z
  unfolding in_range
  in_range-done x z h =
      let e : x ≡ z = ground arith in (e, subst (λ w. in_range d y w ≡ done z) e h)

  parsed :
      (t : String) (x : T) (p : Option T)
      → d.parse t ≡ p
      → (elim p as (λ q. Computed T) [ none ↦ refused numeric_range | some z ↦ in_range d y z ])
        ≡ done x
      → (d.parse t ≡ some x) × IsInRange x
  parsed t x none e h = cc
  parsed t x (some z) e h = let (same, fits) = in_range-done z x h in (rw e (ap some same), fits)

  decimal_of_text-done :
      (t : String) (x : T) → decimal_of_text d y t ≡ done x → (d.parse t ≡ some x) × IsInRange x
  unfolding decimal_of_text
  decimal_of_text-done t x h = parsed t x (d.parse t) refl (ground arith)

  decimal_of-amount :
      (v : Value d) (x : T)
      → is_missing v ≡ false
      → decimal_of d y v ≡ done x
      → (amount d v ≡ some x) × IsInRange x
  unfolding decimal_of is_missing
  decimal_of-amount null x m h = cc
  decimal_of-amount nested x m h = cc
  decimal_of-amount (flag b) x m h = cc
  decimal_of-amount (decimal z) x m h =
      let (same, fits) = in_range-done z x h in (ap some same, fits)
  decimal_of-amount (text t) x m h = rw m (decimal_of_text-done t x h)

  missing-amount : (v : Value d) → is_missing v ≡ true → amount d v ≡ none
  unfolding is_missing
  missing-amount null h = refl
  missing-amount nested h = refl
  missing-amount (flag b) h = refl
  missing-amount (decimal x) h = cc
  missing-amount (text t) h = rw h

  -- The numbers of one cell, none or one.
  abbrev pub numbers_in : Value d → List T
  numbers_in v = with_amount d (amount d v) []

  -- A step of the loop takes in these numbers and nothing else.
  abbrev Takes : List T → Sums d → Sums d → Type 0
  Takes xs s s' =
      (numbers_of d s' ≡ take_all d xs (numbers_of d s))
      × All IsInRange xs
      × (s'.row_count ≡ s.row_count)

  add_cell-Takes :
      (v : Value d) (s s' : Sums d) → add_cell d y v s ≡ done s' → Takes (numbers_in v) s s'
  unfolding add_cell add_number
  add_cell-Takes v s s' h = elim (Bool-cases (is_missing v)) [
    | inl gone ↦ rw (missing-amount v gone) (ground arith, tt, ground arith)
    | inr there ↦
        let (x, e, same) =
          next-eq-done (decimal_of d y v) (λ x. done (add_number d x s)) {b = s'} (ground arith) in
        let (found, fits) = decimal_of-amount v x there e in
        rw found (ground arith, (fits, tt), ground arith)
  ]

  count_row-Takes :
      (i : ℕ) (r : List (Value d)) (s s' : Sums d)
      → count_row d y i r s ≡ done s'
      → Takes (numbers_in (cell d r i)) s s'
  unfolding count_row
  count_row-Takes i r s s' h =
      let (tallies, e, same) = next-eq-done (count_kinds d y s.tallies r) _ h in
      add_cell-Takes (cell d r i) _ s' same

  -- Every number of the column is within the range, and the loop has taken in these.
  abbrev pub Summed : List T → Sums d → Sums d → Type 0
  Summed xs s s' = (numbers_of d s' ≡ take_all d xs (numbers_of d s)) × All IsInRange xs

  Summed-with_amount :
      (a : Option T) (xs : List T) (s m s' : Sums d)
      → Summed (with_amount d a []) s m
      → Summed xs m s'
      → Summed (with_amount d a xs) s s'
  Summed-with_amount none xs s m s' h g = (g.0 ∙ ap (take_all d xs) h.0, g.1)
  Summed-with_amount (some x) xs s m s' h g = (g.0 ∙ ap (take_all d xs) h.0, (h.1.0, g.1))

  -- The limits on rows and cells.
  abbrev pub IsWithin : ℕ → ℕ → Type 0
  IsWithin columns n = (n ≤ max_rows) × (n * columns ≤ max_cells)

  module _ (late : ℕ → Bool) (is_csv : Bool) (names : List String) (i : ℕ) where
    add_row-Takes :
        (r : List (Value d)) (s s' : Sums d)
        → add_row d y late is_csv names i r s ≡ done s'
        → Takes (numbers_in (cell d r i)) (record s { row_count = s.row_count + 1 }) s'
          × IsWithin (length names) (s.row_count + 1)
    unfolding add_row
    add_row-Takes r s s' h = (
      count_row-Takes i r (record s { row_count = s.row_count + 1 }) s' (ground arith),
      (ground arith, ground arith),
    )

    -- Where the loop ends, no row had an error, it has counted every row, and it is within the limits.
    pub add_rows-Summed :
        (rows : List (Row d)) (s s' : Sums d)
        → add_rows d y late is_csv names i rows s ≡ done s'
        → IsWithin (length names) s.row_count
        → Summed (column_numbers d i rows) s s'
          × (s'.row_count ≡ s.row_count + length rows)
          × IsWithin (length names) s'.row_count
    unfolding add_rows
    add_rows-Summed [] s s' h w = ((ground arith, tt), ground arith, (ground arith, ground arith))
    add_rows-Summed (bad ∷ rows) s s' h w = cc
    add_rows-Summed (row r ∷ rows) s s' h w =
        let (m, e, g) = next-eq-done (add_row d y late is_csv names i r s) _ h in
        let ((now, fits, n), within) = add_row-Takes r s m e in
        let (rest, n', within') = add_rows-Summed rows m s' g (rw n within) in
        (
          Summed-with_amount (amount d (cell d r i)) (column_numbers d i rows) s m s' (now, fits)
              rest,
          omega arith,
          within',
        )
