-- ===== src/Base/Decimals.antt =====
-- Amounts as callers hand them over, and their rounding to four places.
use Prim.Native.Nat.{ℕ, suc, ◌*◌, ◌^◌, ◌≤◌, ◌<◌}
use mathlib.Core.Path.{◌≡◌}
use native.Mathlib.Omega.{arith}
use beba_sacco_backend.Base.Int.{ℤ, pos, negsuc, ◌-ℤ◌}

-- The decimal library's division, rounded to a neighbouring whole number of units. Whatever the
-- rounding mode, a quotient that lies above or below a whole number does so after rounding.
pub record Rounding : Type 0 where
  pub round_div : ℕ → ℕ → ℕ
  pub above : (a b k : ℕ) → 0 < b → k * b ≤ a → k ≤ round_div a b
  pub below : (a b k : ℕ) → 0 < b → a ≤ k * b → round_div a b ≤ k

-- The finite decimal `numerator / 10 ^ (4 + excess)`.
pub record Decimal : Type 0 where
  pub numerator : ℤ
  pub excess : ℕ

-- What a caller may pass as an amount: `isFinite()` fails for NaN and the infinities.
pub data Amount : Type 0 where
  finite : Decimal → Amount
  not_finite : Amount

-- A decimal of four places.
abbrev pub exact : ℤ → Decimal
exact a = record { numerator = a; excess = 0 }

module _ (r : Rounding) where
  -- The quotient of a signed number of units, rounded by its magnitude.
  unfoldable pub quotient : ℤ → ℕ → ℤ
  quotient (pos n) b = pos (r.round_div n b)
  quotient (negsuc n) b = pos 0 -ℤ pos (r.round_div (suc n) b)

  -- `d.toDecimalPlaces(4)`
  unfoldable pub round4 : Decimal → ℤ
  unfolding quotient
  round4 d = quotient d.numerator (10 ^ d.excess)

  round_div_one : (n : ℕ) → r.round_div n 1 ≡ n
  round_div_one n = omega (arith, r.above n 1 n (omega arith), r.below n 1 n (omega arith))

  pub round4-exact : (a : ℤ) → round4 (exact a) ≡ a
  unfolding round4 ◌-ℤ◌
  round4-exact (pos n) = rw round_div_one
  round4-exact (negsuc n) = rw round_div_one (ground arith)
