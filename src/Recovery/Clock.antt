-- ===== src/Recovery/Clock.antt =====
-- The Python floats that redis_recovery.py computes with, as a parameter. The laws are what the
-- backoff bounds rest on; they hold of IEEE numbers that are no NaN, rounding included.
use deep_data_agent.Prelude.{ℕ, ◌≡◌, Bool, false, not, if◌then◌else◌}
use deep_data_agent.Prelude.Int.{ℤ}

pub record Seconds : Type 1 where
  pub T : Type 0
  pub lt : T → T → Bool
  pub add : T → T → T
  pub sub : T → T → T
  pub mul : T → T → T
  pub of_ℕ : ℕ → T
  -- `math.ceil`
  pub ceil : T → ℤ
  pub lt_irrefl : (a : T) → lt a a ≡ false
  pub add_mono : (a b c : T) → lt b a ≡ false → lt (add c b) (add c a) ≡ false

module _ (s : Seconds) where
  open s use {T, lt}

  -- Python's `min(a, b)` and `max(a, b)`, which keep `a` unless `b` is beyond it.
  unfoldable pub min_seconds : T → T → T
  min_seconds a b = if lt b a then b else a

  unfoldable pub max_seconds : T → T → T
  max_seconds a b = if lt a b then b else a

  -- `a <= b`
  abbrev pub at_most : T → T → Bool
  at_most a b = not (lt b a)
