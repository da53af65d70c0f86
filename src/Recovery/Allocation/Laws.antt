-- ===== src/Recovery/Allocation/Laws.antt =====
-- The bounds of the deductions.
use beba_sacco_backend.Base.{
  max_ℤ, ℤ, pos, ◌+ℤ◌, ◌-ℤ◌, ◌≤ℤ◌, min_ℤ, List, [], ◌∷◌, total, inl, inr, Bool-cases, int_laws,
  int_order,
}
use beba_sacco_backend.Recovery.Allocation.{
  Division, Capacity, RecoveryItem, is_skipped, deduction_of, spread,
}

-- Each guarantor pays at most their capacity, where that is not below zero.
abbrev pub Within : List Capacity → List RecoveryItem → Type 0
Within [] [] = Unit
Within (c ∷ cs) (i ∷ is) = (i.deduction ≤ℤ max_ℤ c.capacity (pos 0)) × Within cs is
Within _ _ = ⊥

min-within :
    (c s debt : ℤ) → (min_ℤ c (min_ℤ s debt) ≤ℤ debt) × (min_ℤ c (min_ℤ s debt) ≤ℤ max_ℤ c (pos 0))
min-within c s debt = (omega int_order, omega int_order)

max-positive : (c : ℤ) → pos 0 ≤ℤ max_ℤ c (pos 0)
max-positive c = omega int_order

add-within : (d t debt : ℤ) → t ≤ℤ debt -ℤ d → d +ℤ t ≤ℤ debt
add-within d t debt h = omega int_laws

sub-positive : (d debt : ℤ) → d ≤ℤ debt → pos 0 ≤ℤ debt -ℤ d
sub-positive d debt h = omega int_laws

zero_add-within : (t debt : ℤ) → t ≤ℤ debt → pos 0 +ℤ t ≤ℤ debt
zero_add-within t debt h = omega int_laws

module _ (division : Division) where
  -- For a debt that is not negative, and whatever the division gives, the deductions come to at
  -- most the debt; there is one for each guarantor, in their order, and none is above what its
  -- guarantor can pay.
  pub spread-bounds :
      (debt left : ℤ) (items : List Capacity)
      → pos 0 ≤ℤ debt
      → (total (λ (i : RecoveryItem). i.deduction) (spread division debt left items) ≤ℤ debt)
        × Within items (spread division debt left items)
  unfolding spread total
  spread-bounds debt left [] h = (h, tt)
  spread-bounds debt left (c ∷ cs) h = elim (Bool-cases (is_skipped division debt left c)) [
    | inl e ↦
        let rest : _ = spread-bounds debt left cs h in
        rw (e, spread) (zero_add-within _ debt rest.0, (max-positive c.capacity, rest.1))
    | inr e ↦
        let d : ℤ = deduction_of division debt left c.capacity in
        let bounds : _ = min-within c.capacity (division.share debt c.capacity left) debt in
        let rest : _ =
          spread-bounds (debt -ℤ d) (left -ℤ c.capacity) cs (sub-positive d debt bounds.0) in
        rw (e, spread) (add-within d _ debt rest.0, (bounds.1, rest.1))
  ]
