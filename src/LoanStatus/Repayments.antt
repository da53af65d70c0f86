-- ===== src/LoanStatus/Repayments.antt =====
-- Repayments against the table of transitions: `processRepayment`
-- (src/modules/loans/loan-repayment.service.ts) sets a status without asking the table.
use beba_sacco_backend.Base.{
  ℤ, pos, ◌≤ℤ◌, ◌-ℤ◌, both_≤ℤ, int_laws, ◌≡◌, refl, inl, inr, false, same, some_row,
}
use beba_sacco_backend.Store.{Loan, defaulted, fully_paid}
use beba_sacco_backend.Repayment.Waterfall.{Waterfall, split, pay_loan, status_after}
use beba_sacco_backend.Repayment.Waterfall.Laws.{IsOwing, IsSplit, owed, split-IsSplit}
use beba_sacco_backend.Repayment.Waterfall.Status.{no_principal}
use beba_sacco_backend.LoanStatus.{can_transition, can_transition_to, loan_transitions, name_of}

cleared :
    (amount : ℤ) (loan : Loan) (w : Waterfall)
    → IsSplit amount loan w
    → owed loan ≤ℤ amount
    → loan.outstanding_balance -ℤ w.to_principal ≤ℤ pos 0
cleared amount loan w s enough =
    let whole : _ = both_≤ℤ s.nothing_lost in
    elim s.rest_last [
      | inl none_over ↦
          let b : _ = both_≤ℤ none_over in
          omega (int_laws, s.penalty_owed, s.interest_owed, s.principal_owed)
      | inr all_paid ↦ let b : _ = both_≤ℤ all_paid in omega int_laws
    ]

off_table : can_transition defaulted fully_paid ≡ false
unfolding can_transition can_transition_to loan_transitions name_of same some_row
off_table = refl

-- A repayment that covers all that a loan in default owes, where it owes nothing the wrong way
-- round, marks the loan fully paid, a transition that the table does not allow.
pub pay_loan-off_table :
    (amount : ℤ) (loan : Loan)
    → pos 0 ≤ℤ amount
    → IsOwing loan
    → loan.status ≡ defaulted
    → owed loan ≤ℤ amount
    → let paid = pay_loan (split amount loan) loan loan in
      (paid.status ≡ fully_paid) × (can_transition loan.status paid.status ≡ false)
unfolding pay_loan
pay_loan-off_table amount loan positive owing in_default enough =
    let w : Waterfall = split amount loan in
    let paid : status_after loan w ≡ fully_paid =
      no_principal loan w
        (cleared amount loan w (split-IsSplit amount loan positive owing) enough) in
    (paid, rw (paid, in_default) off_table)
