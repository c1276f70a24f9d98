-- ===== src/Statistics/Exact.antt =====
-- What `calculate_statistics` (data_agent/services/file_statistics.py) relies on in the module decimal, and
-- the sum of a column in exact numbers.
use deep_data_agent.Prelude.{
  ℕ, ◌+◌, ◌*◌, ◌^◌, ◌≤◌, ◌≡◌, sym, ap, ◌∙◌, true, false, List, [], ◌∷◌, length, All, arith,
}
use deep_data_agent.Prelude.Int.{ℤ, pos, pos_part, neg_part, ◌+ℤ◌, +ℤ_bounds, +ℤ_assoc, +ℤ_zero}
use deep_data_agent.Statistics.{Decimals, Python, max_rows, in_range, reaches_38}
use deep_data_agent.Statistics.Sums.Loop.{Numbers, take_in, take_all, IsInRange}

abbrev pub max_amount : ℕ
max_amount = 10 ^ 56

abbrev pub max_total : ℕ
max_total = 10 ^ 80

-- A finite number with no digit below 10^-18.
abbrev pub IsFine : (d : Decimals) → d.T → Type 0
IsFine d x = (d.is_finite x ≡ true) × (neg_part (d.exponent x) ≤ 18)

abbrev pub IsSmall : ℕ → ℤ → Type 0
IsSmall bound z = (pos_part z ≤ bound) × (neg_part z ≤ bound)

infix 50 ◌≤ℤ◌
abbrev pub ◌≤ℤ◌ : ℤ → ℤ → Type 0
a ≤ℤ b = pos_part a + neg_part b ≤ pos_part b + neg_part a

-- The module decimal, as documented: `units` is a number's value in steps of 10^-18. A sum is exact where
-- it fits the 80 digits of the context, and a number whose first digit stands below place 38 is below 10^38.
pub record IsDecimal (d : Decimals) : Type 0 where
  pub units : d.T → ℤ
  pub zero_units : units d.zero ≡ pos 0
  pub zero_fine : IsFine d d.zero
  pub small :
      (x : d.T) → IsFine d x → reaches_38 (d.adjusted x) ≡ false → IsSmall max_amount (units x)
  pub add_exact :
      (a b : d.T)
      → IsFine d a
      → IsFine d b
      → IsSmall max_total (units a +ℤ units b)
      → IsFine d (d.add a b) × (units (d.add a b) ≡ units a +ℤ units b)
  pub lt_units : (a b : d.T) → IsFine d a → IsFine d b → d.lt a b ≡ true → units a ≤ℤ units b
  pub ge_units : (a b : d.T) → IsFine d a → IsFine d b → d.lt a b ≡ false → units b ≤ℤ units a

pub take_all-valid_count :
    (d : Decimals) (xs : List d.T) (n : Numbers d)
    → (take_all d xs n).valid_count ≡ n.valid_count + length xs
take_all-valid_count d [] n = omega arith
take_all-valid_count d (x ∷ xs) n = omega (arith, take_all-valid_count d xs (take_in d n x))

module _ (d : Decimals) (y : Python d) (law : IsDecimal d) where
  open d use {T}
  open law use {units}

  -- The exact sum.
  abbrev pub sum_units : List T → ℤ
  sum_units [] = pos 0
  sum_units (x ∷ xs) = units x +ℤ sum_units xs

  pub in_range-IsFine : (x : T) → IsInRange d y x → IsFine d x × (reaches_38 (d.adjusted x) ≡ false)
  unfolding in_range
  in_range-IsFine x h = ((ground arith, ground arith), ground arith)

  -- No sum loses a digit.
  pub take_all-total :
      (xs : List T) (n : Numbers d)
      → All (IsInRange d y) xs
      → IsFine d n.total
      → IsSmall (n.valid_count * max_amount) (units n.total)
      → n.valid_count + length xs ≤ max_rows
      → units (take_all d xs n).total ≡ units n.total +ℤ sum_units xs
  take_all-total [] n h fine s le = sym (+ℤ_zero (units n.total))
  take_all-total (x ∷ xs) n h fine s le =
      let (fine_x, low) = in_range-IsFine x h.0 in
      let size = law.small x fine_x low in
      let bounds = +ℤ_bounds (units n.total) (units x) in
      let (fine', same) = law.add_exact n.total x fine fine_x (omega arith, omega arith) in
      take_all-total xs (take_in d n x) h.1 fine' (rw same (omega arith, omega arith)) (omega arith)
      ∙ ap (λ z. z +ℤ sum_units xs) same
      ∙ +ℤ_assoc (units n.total) (units x) (sum_units xs)
