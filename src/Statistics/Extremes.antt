-- ===== src/Statistics/Extremes.antt =====
-- The smallest and the largest number of a column (`calculate_statistics` of
-- data_agent/services/file_statistics.py), by one fold for both.
use deep_data_agent.Prelude.{
  ◌≡◌, refl, ap, ◌∙◌, Bool, true, false, ◌⊎◌, inl, inr, none, some, List, [], ◌∷◌, if◌then◌else◌,
  Bool-cases, All, arith,
}
use deep_data_agent.Statistics.{Decimals, Python}
use deep_data_agent.Statistics.Sums.{least, greatest}
use deep_data_agent.Statistics.Sums.Loop.{Numbers, take_in, take_all, IsInRange}
use deep_data_agent.Statistics.Exact.{IsFine, ◌≤ℤ◌, IsDecimal, in_range-IsFine}

-- A value that is in a list.
abbrev pub Among : {A : Type 0} → A → List A → Type 0
Among x [] = ⊥
Among x (z ∷ zs) = (x ≡ z) ⊎ Among x zs

module _ {A : Type 0} (before : A → A → Bool) where
  abbrev keep_first : A → A → A
  keep_first m x = if before x m then x else m

  abbrev keep_firsts : List A → A → A
  keep_firsts [] m = m
  keep_firsts (x ∷ xs) m = keep_firsts xs (keep_first m x)

  keep_firsts-Among : (xs : List A) (m : A) → Among (keep_firsts xs m) (m ∷ xs)
  keep_firsts-Among [] m = inl refl
  keep_firsts-Among (x ∷ xs) m =
      from_kept (Bool-cases (before x m)) (keep_firsts-Among xs (keep_first m x))
    where
      from_kept :
          (before x m ≡ true) ⊎ (before x m ≡ false)
          → Among (keep_firsts xs (keep_first m x)) (keep_first m x ∷ xs)
          → Among (keep_firsts xs (keep_first m x)) (m ∷ x ∷ xs)
      from_kept (inl e) (inl h) = inr (inl (h ∙ ap (λ b. if b then x else m) e))
      from_kept (inr e) (inl h) = inl (h ∙ ap (λ b. if b then x else m) e)
      from_kept _ (inr h) = inr (inr h)

  module _ (le : A → A → Type 0) (P : A → Type 0) (le_refl : (a : A) → le a a)
      (le_trans : (a b c : A) → le a b → le b c → le a c)
      (first : (a b : A) → P a → P b → before a b ≡ true → le a b)
      (second : (a b : A) → P a → P b → before a b ≡ false → le b a) where
    keep_first-le :
        (m x : A) → P m → P x → P (keep_first m x) × le (keep_first m x) m × le (keep_first m x) x
    keep_first-le m x pm px = elim (Bool-cases (before x m)) [
      | inl e ↦ rw e (px, first x m px pm e, le_refl x)
      | inr e ↦ rw e (pm, le_refl m, second x m px pm e)
    ]

    keep_firsts-le :
        (xs : List A) (m : A)
        → All P xs
        → P m
        → le (keep_firsts xs m) m × All (λ x. le (keep_firsts xs m) x) xs
    keep_firsts-le [] m h pm = (le_refl m, tt)
    keep_firsts-le (x ∷ xs) m h pm =
        let (p, a, b) = keep_first-le m x pm h.0 in
        let (c, cs) = keep_firsts-le xs (keep_first m x) h.1 p in
        (
          le_trans (keep_firsts xs (keep_first m x)) (keep_first m x) m c a,
          (le_trans (keep_firsts xs (keep_first m x)) (keep_first m x) x c b, cs),
        )

module _ (d : Decimals) (y : Python d) (law : IsDecimal d) where
  open d use {T}
  open law use {units}

  take_all-minimum :
      (xs : List T) (n : Numbers d) (m : T)
      → n.minimum ≡ some m
      → (take_all d xs n).minimum ≡ some (keep_firsts d.lt xs m)
  unfolding least
  take_all-minimum [] n m e = e
  take_all-minimum (x ∷ xs) n m e =
      take_all-minimum xs (take_in d n x) (keep_first d.lt m x) (ap some (ap (λ o. least d o x) e))

  abbrev after : T → T → Bool
  after a b = d.lt b a

  take_all-maximum :
      (xs : List T) (n : Numbers d) (m : T)
      → n.maximum ≡ some m
      → (take_all d xs n).maximum ≡ some (keep_firsts after xs m)
  unfolding greatest
  take_all-maximum [] n m e = e
  take_all-maximum (x ∷ xs) n m e =
      take_all-maximum xs (take_in d n x) (keep_first after m x)
        (ap some (ap (λ o. greatest d o x) e))

  abbrev pub Extremes : T → T → List T → Type 0
  Extremes lo hi xs =
      Among lo xs
      × All (λ x. units lo ≤ℤ units x) xs
      × Among hi xs
      × All (λ x. units x ≤ℤ units hi) xs

  All-IsFine : (xs : List T) → All (IsInRange d y) xs → All (IsFine d) xs
  All-IsFine [] h = tt
  All-IsFine (x ∷ xs) h = ((in_range-IsFine d y law x h.0).0, All-IsFine xs h.1)

  -- From the start of the loop.
  pub take_all-Extremes :
      (x : T) (xs : List T) (n : Numbers d)
      → All (IsInRange d y) (x ∷ xs)
      → n.minimum ≡ none
      → n.maximum ≡ none
      → (lo hi : T) × ((take_all d (x ∷ xs) n).minimum ≡ some lo)
        × ((take_all d (x ∷ xs) n).maximum ≡ some hi)
        × Extremes lo hi (x ∷ xs)
  unfolding least greatest
  take_all-Extremes x xs n h e g =
      let (f, fs) = All-IsFine (x ∷ xs) h in
      let (low, lows) =
        keep_firsts-le d.lt (λ a b. units a ≤ℤ units b) (IsFine d) (λ a. omega arith)
          (λ a b c p q. omega arith) law.lt_units law.ge_units xs x fs f in
      let (high, highs) =
        keep_firsts-le after (λ a b. units b ≤ℤ units a) (IsFine d) (λ a. omega arith)
          (λ a b c p q. omega arith) (λ a b p q. law.lt_units b a q p)
          (λ a b p q. law.ge_units b a q p) xs x fs f in
      (
        keep_firsts d.lt xs x,
        keep_firsts after xs x,
        take_all-minimum xs (take_in d n x) x (ap some (ap (λ o. least d o x) e)),
        take_all-maximum xs (take_in d n x) x (ap some (ap (λ o. greatest d o x) g)),
        (keep_firsts-Among d.lt xs x, (low, lows), keep_firsts-Among after xs x, (high, highs)),
      )
