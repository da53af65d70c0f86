-- ===== src/Base/Tables/Selections.antt =====
-- What an added row and an update leave of the rows that a `where` selects.
use mathlib.Core.Path.{◌≡◌, refl}
use mathlib.Core.Logic.{inl, inr}
use mathlib.Core.Bool.{Bool, true, false}
use mathlib.Core.Option.{none, some}
use mathlib.Core.List.{List, [], ◌∷◌, ◌++◌}
use native.Mathlib.Omega.{arith}
use beba_sacco_backend.Base.Tests.{Bool-cases}
use beba_sacco_backend.Base.Tables.{All, find_first, rows_where, some_row, update_many}

module _ {ℓ} {A : Type ℓ} (p : A → Bool) where
  pub rows_where-append :
      (xs : List A) (y : A) → p y ≡ true → rows_where p (xs ++ y ∷ []) ≡ rows_where p xs ++ y ∷ []
  unfolding rows_where
  rows_where-append [] y h = rw h refl
  rows_where-append (x ∷ xs) y h = elim (Bool-cases (p x)) [
    | inl e ↦ rw (e, rows_where-append xs y h) refl
    | inr e ↦ rw (e, rows_where-append xs y h) refl
  ]

  pub rows_where-append_other :
      (xs : List A) (y : A) → p y ≡ false → rows_where p (xs ++ y ∷ []) ≡ rows_where p xs
  unfolding rows_where
  rows_where-append_other [] y h = rw h refl
  rows_where-append_other (x ∷ xs) y h = rw (rows_where-append_other xs y h) refl

  pub find_first-append_other :
      (xs : List A) (y : A) → p y ≡ false → find_first p (xs ++ y ∷ []) ≡ find_first p xs
  unfolding find_first
  find_first-append_other [] y h = rw h refl
  find_first-append_other (x ∷ xs) y h = rw (find_first-append_other xs y h) refl

  pub find_first-update_others :
      (q : A → Bool) (f : A → A)
      → ((a : A) → q a ≡ true → (p a ≡ false) × (p (f a) ≡ false))
      → (xs : List A) → find_first p (update_many q f xs) ≡ find_first p xs
  unfolding find_first update_many
  find_first-update_others q f other [] = refl
  find_first-update_others q f other (x ∷ xs) = elim (Bool-cases (q x)) [
    | inl e ↦ rw (e, (other x e).0, (other x e).1) (find_first-update_others q f other xs)
    | inr e ↦ rw (e, find_first-update_others q f other xs) refl
  ]

  -- The rows that a test selects pass it, and what holds of passing rows holds of them.
  pub All-rows_where {κ} :
      (P : A → Type κ) (xs : List A) → All (λ a. p a ≡ true → P a) xs → All P (rows_where p xs)
  unfolding rows_where
  All-rows_where P [] h = tt
  All-rows_where P (x ∷ xs) h = elim (Bool-cases (p x)) [
    | inl e ↦ rw e (h.0 e, All-rows_where P xs h.1)
    | inr e ↦ rw e (All-rows_where P xs h.1)
  ]

  pub some_row-find_first :
      (xs : List A) → some_row p xs ≡ true → (a : A) × (find_first p xs ≡ some a)
  unfolding some_row find_first
  some_row-find_first [] h = absurd (ground arith)
  some_row-find_first (x ∷ xs) h = elim (Bool-cases (p x)) [
    | inl e ↦ (x, rw e refl)
    | inr e ↦ let (a, found) = some_row-find_first xs (ground arith) in (a, rw (e, found) refl)
  ]

  pub some_row-find_none : (xs : List A) → some_row p xs ≡ false → find_first p xs ≡ none
  unfolding some_row find_first
  some_row-find_none [] h = refl
  some_row-find_none (x ∷ xs) h = ground (arith, some_row-find_none xs)

  pub some_row-append_last : (xs : List A) (y : A) → p y ≡ true → some_row p (xs ++ y ∷ []) ≡ true
  unfolding some_row
  some_row-append_last [] y h = rw h refl
  some_row-append_last (x ∷ xs) y h = ground (arith, some_row-append_last xs y)

pub All-weaken {ℓ κ} :
    {A : Type ℓ} (P Q : A → Type κ) → ((a : A) → P a → Q a) → (xs : List A) → All P xs → All Q xs
All-weaken P Q f [] h = tt
All-weaken P Q f (x ∷ xs) h = (f x h.0, All-weaken P Q f xs h.1)
