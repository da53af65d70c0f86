-- ===== src/Scenarios/Round.antt =====
-- A rounding: to the nearest whole number, halves upwards.
use Prim.Native.Nat.{ℕ, suc, ◌*◌, ◌+◌, ◌≤◌, ◌<◌, ◌/◌}
use native.Mathlib.Omega.{arith}
use native.Mathlib.Nat.{mul_left_comm, le-div_iff_mul-le, div-lt_iff_lt-mul}
use mathlib.Core.Path.{◌≡◌, sym, subst}
use beba_sacco_backend.Base.{Rounding}

abbrev pub half_up : ℕ → ℕ → ℕ
half_up a b = (2 * a + b) / (2 * b)

twice : (k b : ℕ) → k * (2 * b) ≡ 2 * (k * b)
twice k b = mul_left_comm k 2 b

le_of_lt_suc : {a k : ℕ} → a < suc k → a ≤ k
le_of_lt_suc h = omega arith

pub half_up-above : (a b k : ℕ) → 0 < b → k * b ≤ a → k ≤ half_up a b
half_up-above a b k h e =
    (le-div_iff_mul-le (omega arith)).1 (subst (λ x. x ≤ 2 * a + b) (sym (twice k b)) (omega arith))

pub half_up-below : (a b k : ℕ) → 0 < b → a ≤ k * b → half_up a b ≤ k
half_up-below a b k h e = le_of_lt_suc (
    (div-lt_iff_lt-mul (omega arith)).1
      (subst (λ x. 2 * a + b < x) (sym (twice (suc k) b)) (omega arith)))

abbrev pub rounding : Rounding
rounding = record { round_div = half_up; above = half_up-above; below = half_up-below }
