-- ===== src/Base/Int.antt =====
-- Signed integers over the native numbers: amounts of money in units of a ten-thousandth of a
-- shilling (`toDecimalPlaces(4)`), with the order tests and the smaller and larger of two.
use Prim.Native.Nat.{ℕ, suc, ◌+◌, ◌-◌, ◌≤◌}
use mathlib.Core.Path.{◌≡◌}
use mathlib.Core.Logic.{◌⊎◌}
use mathlib.Core.Bool.{Bool, true, false}
use native.Mathlib.Omega.{arith}
use beba_sacco_backend.Base.Tests.{ltb, leb, ◌==◌, if◌then◌else◌}

-- `negsuc n` is -(n + 1).
pub data ℤ : Type 0 where
  pos : ℕ → ℤ
  negsuc : ℕ → ℤ

abbrev pub pos_part : ℤ → ℕ
pos_part (pos n) = n
pos_part (negsuc n) = 0

abbrev pub neg_part : ℤ → ℕ
neg_part (pos n) = 0
neg_part (negsuc n) = suc n

abbrev pub sub_ℕ : ℕ → ℕ → ℤ
sub_ℕ a b = if leb b a then pos (a - b) else negsuc (b - a - 1)

infixl 65 ◌+ℤ◌ ◌-ℤ◌
infix 50 ◌≤ℤ◌
unfoldable pub ◌+ℤ◌ : ℤ → ℤ → ℤ
a +ℤ b = sub_ℕ (pos_part a + pos_part b) (neg_part a + neg_part b)

unfoldable pub ◌-ℤ◌ : ℤ → ℤ → ℤ
a -ℤ b = sub_ℕ (pos_part a + neg_part b) (neg_part a + pos_part b)

abbrev pub ◌≤ℤ◌ : ℤ → ℤ → Type 0
a ≤ℤ b = pos_part a + neg_part b ≤ pos_part b + neg_part a

abbrev pub ltb_ℤ : ℤ → ℤ → Bool
ltb_ℤ a b = ltb (pos_part a + neg_part b) (pos_part b + neg_part a)

abbrev pub leb_ℤ : ℤ → ℤ → Bool
leb_ℤ a b = leb (pos_part a + neg_part b) (pos_part b + neg_part a)

abbrev pub eqb_ℤ : ℤ → ℤ → Bool
eqb_ℤ a b = pos_part a + neg_part b == pos_part b + neg_part a

unfoldable pub min_ℤ : ℤ → ℤ → ℤ
min_ℤ a b = if leb_ℤ a b then a else b

unfoldable pub max_ℤ : ℤ → ℤ → ℤ
max_ℤ a b = if leb_ℤ a b then b else a

-- One lemma for each operation, so that `omega` works with the operations shut.
pub +ℤ_parts :
    (a b : ℤ)
    → pos_part (a +ℤ b) + neg_part a + neg_part b ≡ neg_part (a +ℤ b) + pos_part a + pos_part b
unfolding ◌+ℤ◌
+ℤ_parts a b = ground arith

pub -ℤ_parts :
    (a b : ℤ)
    → pos_part (a -ℤ b) + neg_part a + pos_part b ≡ neg_part (a -ℤ b) + pos_part a + neg_part b
unfolding ◌-ℤ◌
-ℤ_parts a b = ground arith

pub eq_of_parts : (a b : ℤ) → pos_part a + neg_part b ≡ pos_part b + neg_part a → a ≡ b
eq_of_parts a b h = ground arith

-- The smaller of two is below both, and is one of them.
pub min_ℤ_bounds : (a b : ℤ) → (min_ℤ a b ≤ℤ a) × (min_ℤ a b ≤ℤ b)
unfolding min_ℤ
min_ℤ_bounds a b = ground arith

pub min_ℤ_cases : (a b : ℤ) → ((a ≤ℤ b) × (min_ℤ a b ≡ a)) ⊎ ((b ≤ℤ a) × (min_ℤ a b ≡ b))
unfolding min_ℤ
min_ℤ_cases a b = ground arith

pub max_ℤ_cases : (a b : ℤ) → ((a ≤ℤ b) × (max_ℤ a b ≡ b)) ⊎ ((b ≤ℤ a) × (max_ℤ a b ≡ a))
unfolding max_ℤ
max_ℤ_cases a b = ground arith

-- The same in parts, for `omega`.
pub min_ℤ_parts :
    (a b : ℤ)
    → ((a ≤ℤ b) × (pos_part (min_ℤ a b) + neg_part a ≡ neg_part (min_ℤ a b) + pos_part a))
      ⊎ ((b ≤ℤ a) × (pos_part (min_ℤ a b) + neg_part b ≡ neg_part (min_ℤ a b) + pos_part b))
unfolding min_ℤ
min_ℤ_parts a b = ground arith

pub max_ℤ_parts :
    (a b : ℤ)
    → ((a ≤ℤ b) × (pos_part (max_ℤ a b) + neg_part b ≡ neg_part (max_ℤ a b) + pos_part b))
      ⊎ ((b ≤ℤ a) × (pos_part (max_ℤ a b) + neg_part a ≡ neg_part (max_ℤ a b) + pos_part a))
unfolding max_ℤ
max_ℤ_parts a b = ground arith

pub ltb_ℤ→lt :
    (a b : ℤ) → ltb_ℤ a b ≡ true → suc (pos_part a + neg_part b) ≤ pos_part b + neg_part a
ltb_ℤ→lt a b h = ground arith

pub ltb_ℤ→ge : (a b : ℤ) → ltb_ℤ a b ≡ false → b ≤ℤ a
ltb_ℤ→ge a b h = ground arith

pub leb_ℤ→le : (a b : ℤ) → leb_ℤ a b ≡ true → a ≤ℤ b
leb_ℤ→le a b h = ground arith

pub leb_ℤ→gt :
    (a b : ℤ) → leb_ℤ a b ≡ false → suc (pos_part b + neg_part a) ≤ pos_part a + neg_part b
leb_ℤ→gt a b h = ground arith

pub ruleset int_laws = (arith, +ℤ_parts, -ℤ_parts, eq_of_parts)

pub ruleset int_order = (arith, +ℤ_parts, -ℤ_parts, min_ℤ_parts, max_ℤ_parts, eq_of_parts)

-- `a.lessThanOrEqualTo(0)` fails.
pub leb_ℤ→positive : (a : ℤ) → leb_ℤ a (pos 0) ≡ false → pos 1 ≤ℤ a
leb_ℤ→positive a h = ground arith

pub positive→leb_ℤ : (a : ℤ) → pos 1 ≤ℤ a → leb_ℤ a (pos 0) ≡ false
positive→leb_ℤ a h = ground arith

-- An equation of integers as two orders, which `omega` reads.
pub both_≤ℤ : {a b : ℤ} → a ≡ b → (a ≤ℤ b) × (b ≤ℤ a)
both_≤ℤ e = rw e (omega arith, omega arith)

pub max_ℤ-zero : (a : ℤ) → pos 0 ≤ℤ a → max_ℤ a (pos 0) ≡ a
unfolding max_ℤ
max_ℤ-zero a h = ground arith

pub le→leb_ℤ : (a b : ℤ) → a ≤ℤ b → leb_ℤ a b ≡ true
le→leb_ℤ a b h = ground arith
