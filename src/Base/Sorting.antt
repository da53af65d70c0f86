-- ===== src/Base/Sorting.antt =====
-- `Array.prototype.sort` and `ORDER BY`: insertion by a test `before`.
use mathlib.Core.Path.{◌≡◌, refl, ap}
use mathlib.Core.Logic.{inl, inr}
use mathlib.Core.Bool.{Bool, true, false}
use mathlib.Core.List.{List, [], ◌∷◌, ◌++◌}
use beba_sacco_backend.Base.Tests.{if◌then◌else◌, Bool-cases}
use beba_sacco_backend.Base.Tables.{All}

module _ {ℓ} {A : Type ℓ} (before : A → A → Bool) where
  unfoldable pub insert : A → List A → List A
  insert x [] = x ∷ []
  insert x (y ∷ ys) = let rest = insert x ys in if before x y then x ∷ y ∷ ys else y ∷ rest

  unfoldable pub sort : List A → List A
  unfolding insert
  sort [] = []
  sort (x ∷ xs) = insert x (sort xs)

  insert-last :
      (x n : A) (ys : List A) → before x n ≡ true → insert x (ys ++ n ∷ []) ≡ insert x ys ++ n ∷ []
  unfolding insert
  insert-last x n [] h = rw h refl
  insert-last x n (y ∷ ys) h = elim (Bool-cases (before x y)) [
    | inl e ↦ rw e refl
    | inr e ↦ rw (e, insert-last x n ys h) refl
  ]

  -- A row that no other row stands behind is the last of the sorted rows.
  pub sort-last :
      (n : A) (xs : List A)
      → All (λ x. before x n ≡ true) xs
      → sort (xs ++ n ∷ []) ≡ sort xs ++ n ∷ []
  unfolding sort insert
  sort-last n [] h = refl
  sort-last n (x ∷ xs) h = rw (sort-last n xs h.1) (insert-last x n (sort xs) h.0)

  -- Two rows that `before` tells apart may be inserted in either order.
  pub insert-swap :
      ((a b : A) → before a b ≡ false → before b a ≡ true)
      → ((a b c : A) → before a b ≡ true → before b c ≡ true → before a c ≡ true)
      → (x y : A) → before x y ≡ true
      → before y x ≡ false
      → (l : List A) → insert x (insert y l) ≡ insert y (insert x l)
  unfolding insert
  insert-swap connex transitive x y h k [] = rw (h, k) refl
  insert-swap connex transitive x y h k (z ∷ l) = elim (Bool-cases (before y z)) [
    | inl e ↦ rw (e, h, transitive x y z h e, k, e) refl
    | inr e ↦ elim (Bool-cases (before x z)) [
      | inl f ↦ rw (e, f, k, e) refl
      | inr f ↦ rw (e, f, e) (ap (λ t. z ∷ t) (insert-swap connex transitive x y h k l))
    ]
  ]
