-- ===== src/Repayment/Waterfall/Status.antt =====
-- When a repayment marks a loan fully paid (`processRepayment` in
-- src/modules/loans/loan-repayment.service.ts).
use beba_sacco_backend.Repayment.Waterfall.Laws.{IsOwing, IsSplit, owed, split-IsSplit}
use beba_sacco_backend.Base.{
  ◌&&◌, leb_ℤ→positive, le→leb_ℤ, ◌≢◌, both_≤ℤ, ℤ, pos, ◌+ℤ◌, ◌-ℤ◌, ◌≤ℤ◌, int_laws, int_order,
  max_ℤ, ltb_ℤ, leb_ℤ, ◌≡◌, ◌⊎◌, inl, inr, Bool, true, false, Bool-cases, leb_ℤ→le, if◌then◌else◌,
}
use beba_sacco_backend.Store.{Loan, fully_paid, active, defaulted}
use beba_sacco_backend.Repayment.Waterfall.{is_defaulted, Waterfall, split, status_after, pay_loan}

pub no_principal :
    (loan : Loan) (w : Waterfall)
    → loan.outstanding_balance -ℤ w.to_principal ≤ℤ pos 0
    → status_after loan w ≡ fully_paid
unfolding status_after
no_principal loan w h = rw (le→leb_ℤ (loan.outstanding_balance -ℤ w.to_principal) (pos 0) h)

some_principal :
    (loan : Loan) (w : Waterfall)
    → (status_after loan w ≡ fully_paid) ⊎ (pos 1 ≤ℤ loan.outstanding_balance -ℤ w.to_principal)
some_principal loan w =
    elim (Bool-cases (leb_ℤ (loan.outstanding_balance -ℤ w.to_principal) (pos 0))) [
      | inl e ↦
          inl
            (no_principal loan w (leb_ℤ→le (loan.outstanding_balance -ℤ w.to_principal) (pos 0) e))
      | inr e ↦ inr (leb_ℤ→positive (loan.outstanding_balance -ℤ w.to_principal) e)
    ]

fully_paid-principal :
    (loan : Loan) (w : Waterfall)
    → status_after loan w ≡ fully_paid
    → loan.outstanding_balance -ℤ w.to_principal ≤ℤ pos 0
unfolding status_after
fully_paid-principal loan w h =
    elim (Bool-cases (leb_ℤ (loan.outstanding_balance -ℤ w.to_principal) (pos 0))) [
      | inl e ↦ leb_ℤ→le (loan.outstanding_balance -ℤ w.to_principal) (pos 0) e
      | inr e ↦ absurd (
          other_status (is_defaulted loan.status)
            (ltb_ℤ (pos 0) (
              loan.arrears_amount
              -ℤ w.to_penalty
              +ℤ (loan.accrued_interest -ℤ w.to_interest)
              +ℤ (loan.outstanding_balance -ℤ w.to_principal)))
            (rw e at h))
    ]
  where
    other_status : (b c : Bool) → (if b && c then defaulted else active) ≡ fully_paid → ⊥
    other_status true true e = cc
    other_status true false e = cc
    other_status false c e = cc

penalty_left :
    (amount : ℤ) (loan : Loan) (w : Waterfall)
    → IsSplit amount loan w
    → amount +ℤ pos 1 ≤ℤ loan.arrears_amount
    → pos 1 ≤ℤ max_ℤ (loan.arrears_amount -ℤ w.to_penalty) (pos 0)
penalty_left amount loan w s more =
    let whole : _ = both_≤ℤ s.nothing_lost in
    omega (int_order, s.interest_nonneg, s.principal_nonneg, s.overpayment_nonneg)

still_owing :
    (amount : ℤ) (loan : Loan) (w : Waterfall)
    → IsSplit amount loan w
    → status_after loan w ≢ fully_paid
    → pos 1 ≤ℤ max_ℤ (loan.outstanding_balance -ℤ w.to_principal) (pos 0)
still_owing amount loan w s other = elim (some_principal loan w) [
  | inl e ↦ absurd (other e)
  | inr more ↦ omega int_order
]

fully_paid-owed :
    (amount : ℤ) (loan : Loan) (w : Waterfall)
    → IsSplit amount loan w
    → pos 1 ≤ℤ loan.outstanding_balance
    → status_after loan w ≡ fully_paid
    → owed (pay_loan w loan loan) ≡ pos 0
unfolding pay_loan
fully_paid-owed amount loan w s principal e =
    let cleared : _ = fully_paid-principal loan w e in
    let i : w.to_interest ≡ loan.accrued_interest = elim s.interest_next [
      | inl (unpaid, _) ↦ absurd (not_cleared unpaid cleared principal)
      | inr covered ↦ covered
    ] in
    let p : w.to_penalty ≡ loan.arrears_amount = elim s.penalty_first [
      | inl (_, unpaid, _) ↦ absurd (not_cleared unpaid cleared principal)
      | inr covered ↦ covered
    ] in
    let ib : _ = both_≤ℤ i in let pb : _ = both_≤ℤ p in omega (int_order, s.principal_owed)
  where
    not_cleared :
        {x : ℤ}
        → x ≡ pos 0
        → loan.outstanding_balance -ℤ x ≤ℤ pos 0
        → pos 1 ≤ℤ loan.outstanding_balance
        → ⊥
    not_cleared x_is h k = let b : _ = both_≤ℤ x_is in omega int_laws

-- Take a loan with principal outstanding that owes nothing the wrong way round, and an amount
-- that is not negative: if the repayment marks it fully paid it owes nothing any more, and if
-- not it still owes principal.
pub status_after-fully_paid :
    (amount : ℤ) (loan : Loan)
    → pos 0 ≤ℤ amount
    → IsOwing loan
    → pos 1 ≤ℤ loan.outstanding_balance
    → let paid = pay_loan (split amount loan) loan loan in
      (paid.status ≡ fully_paid → owed paid ≡ pos 0)
      × (paid.status ≢ fully_paid → pos 1 ≤ℤ paid.outstanding_balance)
unfolding pay_loan status_after
status_after-fully_paid amount loan positive owing principal =
    let s : IsSplit amount loan (split amount loan) = split-IsSplit amount loan positive owing in
    (
      fully_paid-owed amount loan (split amount loan) s principal,
      still_owing amount loan (split amount loan) s,
    )

-- A loan with no principal outstanding that owes nothing the wrong way round is marked fully
-- paid by a repayment, not negative, that is below its penalty, and a part of the penalty is
-- left unpaid.
pub status_after-ignores_penalty :
    (amount : ℤ) (loan : Loan)
    → pos 0 ≤ℤ amount
    → IsOwing loan
    → loan.outstanding_balance ≡ pos 0
    → amount +ℤ pos 1 ≤ℤ loan.arrears_amount
    → let paid = pay_loan (split amount loan) loan loan in
      (paid.status ≡ fully_paid) × (pos 1 ≤ℤ paid.arrears_amount)
unfolding pay_loan status_after
status_after-ignores_penalty amount loan positive owing none_left more =
    let s : IsSplit amount loan (split amount loan) = split-IsSplit amount loan positive owing in
    let level : _ = both_≤ℤ none_left in
    (
      no_principal loan (split amount loan) (omega (int_laws, s.principal_nonneg)),
      penalty_left amount loan (split amount loan) s more,
    )
