-- ===== src/Base/Tables/Laws.antt =====
-- Lemmas on tables: what an update keeps, how it moves a total, and what a key finds.
use Prim.Native.Nat.{◌≤◌}
use mathlib.Core.Path.{◌≡◌, refl, subst, sym}
use mathlib.Core.Logic.{inl, inr}
use mathlib.Core.Bool.{Bool, true, false}
use mathlib.Core.Option.{none, some}
use mathlib.Core.List.{List, [], ◌∷◌, ◌++◌}
use native.Mathlib.Omega.{arith}
use beba_sacco_backend.Base.Tests.{if◌then◌else◌, Bool-cases}
use beba_sacco_backend.Base.Int.{ℤ, ◌+ℤ◌, int_laws}
use beba_sacco_backend.Base.Keys.{Key, same, same→≡}
use beba_sacco_backend.Base.Tables.{All, find_first, count_where, update_many, total, Unique}

module _ {ℓ} {A : Type ℓ} where
  pub All-update_many {κ} :
      (P : A → Type κ) (p : A → Bool) (f : A → A)
      → ((a : A) → P a → p a ≡ true → P (f a))
      → (xs : List A) → All P xs
      → All P (update_many p f xs)
  unfolding update_many
  All-update_many P p f keep [] h = tt
  All-update_many P p f keep (x ∷ xs) h = elim (Bool-cases (p x)) [
    | inl e ↦ rw e (keep x h.0 e, All-update_many P p f keep xs h.1)
    | inr e ↦ rw e (h.0, All-update_many P p f keep xs h.1)
  ]

  pub All-append {κ} :
      (P : A → Type κ) (xs : List A) (y : A) → All P xs → P y → All P (xs ++ y ∷ [])
  All-append P [] y h k = (k, tt)
  All-append P (x ∷ xs) y h k = (h.0, All-append P xs y h.1 k)

  pub find_first-All {κ} :
      (P : A → Type κ) (p : A → Bool) {a : A} (xs : List A)
      → All P xs
      → find_first p xs ≡ some a
      → P a
  unfolding find_first
  find_first-All P p [] h e = cc
  find_first-All P p {a} (x ∷ xs) h e = elim (Bool-cases (p x)) [
    | inl t ↦ subst P (cc) h.0
    | inr f ↦ find_first-All P p xs h.1 (ground (arith))
  ]

  -- What `findFirst` gives passes the test.
  pub find_first_passes :
      (p : A → Bool) {a : A} (xs : List A) → find_first p xs ≡ some a → p a ≡ true
  unfolding find_first
  find_first_passes p [] e = cc
  find_first_passes p {a} (x ∷ xs) e = ground (arith, find_first_passes p {a = a} xs)

  pub find_first-append_new :
      (p : A → Bool) (xs : List A) (y : A)
      → find_first p xs ≡ none
      → p y ≡ true
      → find_first p (xs ++ y ∷ []) ≡ some y
  unfolding find_first
  find_first-append_new p [] y e h = rw h
  find_first-append_new p (x ∷ xs) y e h = ground (arith, find_first-append_new p xs y)

  pub count_where_none :
      (key : A → Key) (k : Key) (p : A → Bool)
      → ((a : A) → p a ≡ true → same (key a) k ≡ true)
      → (xs : List A) → All (λ y. same (key y) k ≡ false) xs
      → count_where p xs ≡ 0
  unfolding count_where
  count_where_none key k p asks [] h = refl
  count_where_none key k p asks (x ∷ xs) h =
      ground (arith, asks x, count_where_none key k p asks xs h.1)

  -- A test that asks for a unique key passes on one row at most.
  pub count_where-Unique :
      (key : A → Key) (k : Key) (p : A → Bool)
      → ((a : A) → p a ≡ true → same (key a) k ≡ true)
      → (xs : List A) → Unique key xs
      → count_where p xs ≤ 1
  unfolding count_where
  count_where-Unique key k p asks [] u = omega arith
  count_where-Unique key k p asks (x ∷ xs) u = elim (Bool-cases (p x)) [
    | inl e ↦
        let k_is : key x ≡ k = same→≡ (key x) k (asks x e) in
        let none_left : count_where p xs ≡ 0 =
          count_where_none key k p asks xs
            (subst (λ c. All (λ y. same (key y) c ≡ false) xs) k_is u.0) in
        rw (e, none_left) (omega arith)
    | inr e ↦ rw e (omega (arith, count_where-Unique key k p asks xs u.1))
  ]

  pub update_many_none :
      (p : A → Bool) (f : A → A) (xs : List A) → count_where p xs ≡ 0 → update_many p f xs ≡ xs
  unfolding count_where update_many
  update_many_none p f [] h = refl
  update_many_none p f (x ∷ xs) h = ground (arith, update_many_none p f xs)

  -- An update of one row that moves its measure by `d` moves the total by `d`.
  pub total-update_many_one :
      (g : A → ℤ) (p : A → Bool) (f : A → A) (d : ℤ)
      → ((a : A) → p a ≡ true → g (f a) ≡ g a +ℤ d)
      → (xs : List A) → count_where p xs ≡ 1
      → total g (update_many p f xs) ≡ total g xs +ℤ d
  unfolding total update_many count_where
  total-update_many_one g p f d moves [] h = absurd (omega arith)
  total-update_many_one g p f d moves (x ∷ xs) h = elim (Bool-cases (p x)) [
    | inl e ↦
        let rest : update_many p f xs ≡ xs = update_many_none p f xs (ground arith) in
        rw (e, rest, moves x e) (omega int_laws)
    | inr e ↦ rw (e, total-update_many_one g p f d moves xs (ground arith)) (omega int_laws)
  ]

  pub total-append : (g : A → ℤ) (xs : List A) (y : A) → total g (xs ++ y ∷ []) ≡ total g xs +ℤ g y
  unfolding total
  total-append g [] y = omega int_laws
  total-append g (x ∷ xs) y = rw (total-append g xs y) (omega int_laws)

  -- An update that changes no row's measure keeps the total.
  pub total-update_many_same :
      (g : A → ℤ) (p : A → Bool) (f : A → A)
      → ((a : A) → g (f a) ≡ g a)
      → (xs : List A) → total g (update_many p f xs) ≡ total g xs
  unfolding total update_many
  total-update_many_same g p f keep [] = refl
  total-update_many_same g p f keep (x ∷ xs) = elim (Bool-cases (p x)) [
    | inl e ↦ rw (e, keep x, total-update_many_same g p f keep xs) refl
    | inr e ↦ rw (e, total-update_many_same g p f keep xs) refl
  ]

  none_passes :
      (key : A → Key) (k : Key) (p : A → Bool)
      → ((a : A) → p a ≡ true → same (key a) k ≡ true)
      → (b : A) (xs : List A) → All (λ y. same (key y) k ≡ false) xs
      → All (λ a. p a ≡ true → a ≡ b) xs
  none_passes key k p asks b [] h = tt
  none_passes key k p asks b (x ∷ xs) h =
      ((λ e. cc (asks x e, h.0)), none_passes key k p asks b xs h.1)

  -- The row that `findFirst` gives for a unique key is the only one that passes.
  pub find_first_only :
      (key : A → Key) (k : Key) (p : A → Bool)
      → ((a : A) → p a ≡ true → same (key a) k ≡ true)
      → (xs : List A) {b : A} → Unique key xs
      → find_first p xs ≡ some b
      → All (λ a. p a ≡ true → a ≡ b) xs
  unfolding find_first
  find_first_only key k p asks [] u e = tt
  find_first_only key k p asks (x ∷ xs) {b} u e = elim (Bool-cases (p x)) [
    | inl passes ↦
        let k_is : key x ≡ k = same→≡ (key x) k (asks x passes) in
        let x_is : x ≡ b = ground arith in
        (
          (λ _. x_is),
          none_passes key k p asks b xs
              (subst (λ c. All (λ y. same (key y) c ≡ false) xs) k_is u.0),
        )
    | inr fails ↦ ((λ passes. cc), find_first_only key k p asks xs u.1 (ground arith))
  ]

  -- An update that keeps the keys keeps them unique.
  All-update_many_key :
      (key : A → Key) (k : Key) (p : A → Bool) (f : A → A)
      → ((a : A) → key (f a) ≡ key a)
      → (xs : List A) → All (λ y. same (key y) k ≡ false) xs
      → All (λ y. same (key y) k ≡ false) (update_many p f xs)
  All-update_many_key key k p f keep xs h =
      All-update_many (λ y. same (key y) k ≡ false) p f (λ a e _. rw (keep a) e) xs h

  pub Unique-update_many :
      (key : A → Key) (p : A → Bool) (f : A → A)
      → ((a : A) → key (f a) ≡ key a)
      → (xs : List A) → Unique key xs
      → Unique key (update_many p f xs)
  unfolding update_many
  Unique-update_many key p f keep [] u = tt
  Unique-update_many key p f keep (x ∷ xs) u = elim (Bool-cases (p x)) [
    | inl e ↦
        rw (e, keep x)
          (All-update_many_key key (key x) p f keep xs u.0, Unique-update_many key p f keep xs u.1)
    | inr e ↦
        rw e
          (All-update_many_key key (key x) p f keep xs u.0, Unique-update_many key p f keep xs u.1)
  ]

module _ {ℓ κ} {A : Type ℓ} (P : A → Type κ) (key : A → Key) (k : Key) (p q : A → Bool) (f : A → A)
    (asks : (a : A) → p a ≡ true → same (key a) k ≡ true)
    (narrower : (a : A) → q a ≡ true → p a ≡ true) where
  update_only :
      {b : A} (xs : List A)
      → (P b → q b ≡ true → P (f b))
      → All (λ a. p a ≡ true → a ≡ b) xs
      → All P xs
      → All P (update_many q f xs)
  unfolding update_many
  update_only [] keep only h = tt
  update_only {b} (x ∷ xs) keep only h = elim (Bool-cases (q x)) [
    | inl e ↦
        let x_is : x ≡ b = only.0 (narrower x e) in
        rw e (
          subst (λ c. P (f c)) (sym x_is)
              (keep (subst P x_is h.0) (subst (λ c. q c ≡ true) x_is e)),
          update_only xs keep only.1 h.1,
        )
    | inr e ↦ rw e (h.0, update_only xs keep only.1 h.1)
  ]

  -- Where the row that was read is the only one that an update can reach, it is enough that the
  -- update keeps the property of that row.
  pub All-update_found :
      (xs : List A) {b : A}
      → find_first p xs ≡ some b
      → (P b → q b ≡ true → P (f b))
      → Unique key xs
      → All P xs
      → All P (update_many q f xs)
  All-update_found xs found keep u h =
      update_only xs keep (find_first_only key k p asks xs u found) h

module _ {ℓ} {A : Type ℓ} (p : A → Bool) where
  pub find_first-append :
      (xs ys : List A) {a : A} → find_first p xs ≡ some a → find_first p (xs ++ ys) ≡ some a
  unfolding find_first
  find_first-append [] ys e = cc
  find_first-append (x ∷ xs) ys {a} e = ground (arith, find_first-append xs ys {a = a})

  -- An update that changes no test's outcome is seen in the row that the test finds.
  pub find_first-update_many :
      (q : A → Bool) (f : A → A)
      → ((a : A) → p (f a) ≡ p a)
      → (xs : List A) {a : A} → find_first p xs ≡ some a
      → find_first p (update_many q f xs) ≡ some (if q a then f a else a)
  unfolding find_first update_many
  find_first-update_many q f keep [] e = cc
  find_first-update_many q f keep (x ∷ xs) {a} e = elim (Bool-cases (q x)) [
    | inl yes_q ↦ ground (arith, keep x, find_first-update_many q f keep xs {a = a})
    | inr no_q ↦ ground (arith, find_first-update_many q f keep xs {a = a})
  ]
