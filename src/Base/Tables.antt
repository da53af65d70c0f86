-- ===== src/Base/Tables.antt =====
-- A table is the list of its rows. A `where` clause is a test on a row: `findFirst` gives the first
-- row that passes, `updateMany` rewrites every row that passes and counts them.
pub mod Laws
pub mod Selections
use Prim.Native.Nat.{ℕ, zero, suc, ◌+◌, ◌≤◌, ◌<◌}
use mathlib.Core.Path.{◌≡◌, refl}
use mathlib.Core.Logic.{◌⊎◌, inl, inr}
use mathlib.Core.Bool.{Bool, true, false}
use mathlib.Core.Option.{Option, none, some}
use mathlib.Core.List.{List, [], ◌∷◌, ◌++◌}
use native.Mathlib.Omega.{arith}
use beba_sacco_backend.Base.Tests.{if◌then◌else◌, Bool-cases}
use beba_sacco_backend.Base.Int.{ℤ, pos, ◌+ℤ◌, int_laws}
use beba_sacco_backend.Base.Keys.{Key, same, same→≡, same_refl}

module _ {ℓ} {A : Type ℓ} where
  abbrev pub All {κ} : (A → Type κ) → List A → Type κ
  All P [] = Unit
  All P (x ∷ xs) = P x × All P xs

  unfoldable pub length : List A → ℕ
  length [] = 0
  length (x ∷ xs) = suc (length xs)

  unfoldable pub find_first : (A → Bool) → List A → Option A
  find_first p [] = none
  find_first p (x ∷ xs) = if p x then some x else find_first p xs

  unfoldable pub rows_where : (A → Bool) → List A → List A
  rows_where p [] = []
  rows_where p (x ∷ xs) = let rest = rows_where p xs in if p x then x ∷ rest else rest

  unfoldable pub count_where : (A → Bool) → List A → ℕ
  count_where p [] = 0
  count_where p (x ∷ xs) = (if p x then 1 else 0) + count_where p xs

  unfoldable pub update_many : (A → Bool) → (A → A) → List A → List A
  update_many p f [] = []
  update_many p f (x ∷ xs) = (if p x then f x else x) ∷ update_many p f xs

  unfoldable pub all_rows : (A → Bool) → List A → Bool
  all_rows p [] = true
  all_rows p (x ∷ xs) = if p x then all_rows p xs else false

  unfoldable pub some_row : (A → Bool) → List A → Bool
  some_row p [] = false
  some_row p (x ∷ xs) = if p x then true else some_row p xs

  unfoldable pub total : (A → ℤ) → List A → ℤ
  total g [] = pos 0
  total g (x ∷ xs) = g x +ℤ total g xs

  -- No two rows have one key.
  abbrev pub Unique : (A → Key) → List A → Type 0
  Unique key [] = Unit
  Unique key (x ∷ xs) = All (λ y. same (key y) (key x) ≡ false) xs × Unique key xs
