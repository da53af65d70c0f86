-- ===== src/Repayment/Installments/Laws.antt =====
-- What a repayment does to the schedule.
use beba_sacco_backend.Base.{
  both_≤ℤ, ℕ, ℤ, pos, ◌+ℤ◌, ◌-ℤ◌, ◌≤ℤ◌, int_laws, int_order, min_ℤ, max_ℤ, leb_ℤ, ◌≡◌, refl, inl,
  inr, Bool, true, false, List, [], ◌∷◌, total, rows_where, arith, Bool-cases, leb_ℤ→le, Key,
}
use beba_sacco_backend.Store.{Installment, InstallmentStatus}
use beba_sacco_backend.Repayment.Installments.{
  Pot, pot_total, is_open_installment, principal_due_of, shares, take_from, pay_installment, settle,
  apply_installments,
}

abbrev overdue_status : InstallmentStatus → Bool
overdue_status InstallmentStatus.overdue = true
overdue_status _ = false

abbrev pub is_overdue : Installment → Bool
is_overdue i = overdue_status i.status

abbrev pub paid_of : Installment → ℤ
paid_of i = i.penalty_paid +ℤ i.interest_paid +ℤ i.principal_paid

-- The parts of a pot are not negative.
pub record IsPot (p : Pot) : Type 0 where
  pub penalty : pos 0 ≤ℤ p.penalty
  pub interest : pos 0 ≤ℤ p.interest
  pub principal : pos 0 ≤ℤ p.principal

share-within :
    (a d : ℤ) → pos 0 ≤ℤ a → (pos 0 ≤ℤ min_ℤ a (max_ℤ d (pos 0))) × (min_ℤ a (max_ℤ d (pos 0)) ≤ℤ a)
share-within a d h = (omega int_order, omega int_order)

shares-IsPot : (p : Pot) (i : Installment) → IsPot p → IsPot (shares p i)
unfolding shares
shares-IsPot p i h = record {
  penalty = (share-within p.penalty (i.penalty_due -ℤ i.penalty_paid) h.penalty).0;
  interest = (share-within p.interest (i.interest_due -ℤ i.interest_paid) h.interest).0;
  principal = (share-within p.principal (principal_due_of i -ℤ i.principal_paid) h.principal).0;
}

take_from-IsPot : (p : Pot) (i : Installment) → IsPot p → IsPot (take_from p (shares p i))
unfolding shares take_from
take_from-IsPot p i h =
    let a : _ = share-within p.penalty (i.penalty_due -ℤ i.penalty_paid) h.penalty in
    let b : _ = share-within p.interest (i.interest_due -ℤ i.interest_paid) h.interest in
    let c : _ = share-within p.principal (principal_due_of i -ℤ i.principal_paid) h.principal in
    record { penalty = omega int_laws; interest = omega int_laws; principal = omega int_laws }

-- A turn adds to the row what the pot gives up, except that it gives up nothing by less than zero.
settle-paid :
    (now : ℕ) (p : Pot) (i : Installment)
    → IsPot p
    → paid_of (settle now p i) ≡ paid_of i +ℤ pot_total (shares p i)
unfolding settle
settle-paid now p i h = elim (Bool-cases (leb_ℤ (pot_total (shares p i)) (pos 0))) [
  | inl e ↦
      let none_taken : _ = leb_ℤ→le (pot_total (shares p i)) (pos 0) e in
      let s : IsPot (shares p i) = shares-IsPot p i h in rw e (omega int_laws)
  | inr e ↦ rw e (unfold pay_installment in (omega int_laws))
]

open-not_overdue :
    (tenant loan : Key) (i : Installment)
    → is_open_installment tenant loan i ≡ true
    → is_overdue i ≡ false
unfolding is_open_installment
open-not_overdue tenant loan i h = ground arith

settle-not_overdue :
    (now : ℕ) (p : Pot) (i : Installment)
    → is_overdue i ≡ false
    → is_overdue (settle now p i) ≡ false
unfolding settle pay_installment
settle-not_overdue now p i h = ground arith

take_from-total : (p s : Pot) → pot_total (take_from p s) +ℤ pot_total s ≡ pot_total p
unfolding take_from
take_from-total p s = omega int_laws

regroup : (x a b c d : ℤ) → a +ℤ b ≡ c +ℤ d → x +ℤ a +ℤ b ≡ x +ℤ c +ℤ d
regroup x a b c d e = let b : _ = both_≤ℤ e in omega int_laws

regroup_taken :
    (x y s a b c d p : ℤ) → x ≡ y +ℤ s → d +ℤ s ≡ p → a +ℤ b ≡ c +ℤ d → x +ℤ a +ℤ b ≡ y +ℤ c +ℤ p
regroup_taken x y s a b c d p e f g =
    let eb : _ = both_≤ℤ e in let fb : _ = both_≤ℤ f in let gb : _ = both_≤ℤ g in omega int_laws

module _ (now : ℕ) (tenant loan : Key) where
  -- What stays in the pot after the loop.
  pub left_over : Pot → List Installment → Pot
  left_over p [] = p
  left_over p (i ∷ rows) = elim (is_open_installment tenant loan i) [
    | false ↦ left_over p rows
    | true ↦ elim (leb_ℤ (pot_total p) (pos 0)) [
      | true ↦ p
      | false ↦ left_over (take_from p (shares p i)) rows
    ]
  ]

  -- For a pot without a negative part, nothing is lost or made up in the schedule: what the
  -- installments have received more is what the pot has given up, and what is left over has no
  -- negative part.
  pub apply_installments-paid :
      (p : Pot) (rows : List Installment)
      → IsPot p
      → (total paid_of (apply_installments now tenant loan p rows) +ℤ pot_total (left_over p rows)
          ≡ total paid_of rows +ℤ pot_total p)
        × IsPot (left_over p rows)
  unfolding total apply_installments left_over
  apply_installments-paid p [] h = (omega int_laws, h)
  apply_installments-paid p (i ∷ rows) h = elim (Bool-cases (is_open_installment tenant loan i)) [
    | inr other ↦
        let rest : _ = apply_installments-paid p rows h in
        rw (other, apply_installments, left_over) (regroup (paid_of i) _ _ _ _ rest.0, rest.1)
    | inl opened ↦ elim (Bool-cases (leb_ℤ (pot_total p) (pos 0))) [
      | inl empty ↦
          rw (opened, apply_installments, left_over)
            (rw (empty, apply_installments, left_over) (refl, h))
      | inr full ↦
          let rest : _ =
            apply_installments-paid (take_from p (shares p i)) rows (take_from-IsPot p i h) in
          rw (opened, apply_installments, left_over)
            (rw (full, apply_installments, left_over)
              (
                regroup_taken _ _ _ _ _ _ _ _ (settle-paid now p i h)
                    (take_from-total p (shares p i)) rest.0,
                rest.1,
              ))
    ]
  ]

  -- An overdue installment is no open one: the loop leaves the overdue rows, all of them, as they
  -- were, however large the repayment is.
  pub apply_installments-overdue :
      (p : Pot) (rows : List Installment)
      → rows_where is_overdue (apply_installments now tenant loan p rows)
        ≡ rows_where is_overdue rows
  unfolding apply_installments rows_where
  apply_installments-overdue p [] = refl
  apply_installments-overdue p (i ∷ rows) = elim (Bool-cases (is_open_installment tenant loan i)) [
    | inr other ↦ rw (other, apply_installments, apply_installments-overdue p rows) refl
    | inl opened ↦ elim (Bool-cases (leb_ℤ (pot_total p) (pos 0))) [
      | inl empty ↦ rw (opened, apply_installments) (rw (empty, apply_installments) refl)
      | inr full ↦
          rw (opened, apply_installments)
            (rw (full, apply_installments)
              (rw
                (
                  settle-not_overdue now p i (open-not_overdue tenant loan i opened),
                  open-not_overdue tenant loan i opened,
                  apply_installments-overdue (take_from p (shares p i)) rows,
                )
                refl))
    ]
  ]
