-- ===== src/Repayment/Waterfall.antt =====
-- The split of a repayment over penalty, interest and principal, and what is left of the loan
-- (src/modules/loans/loan-repayment.service.ts, in `processRepayment`).
pub mod Laws
pub mod Status
use beba_sacco_backend.Base.{
  ℤ, pos, ◌+ℤ◌, ◌-ℤ◌, min_ℤ, max_ℤ, ltb_ℤ, leb_ℤ, Bool, true, false, ◌&&◌, if◌then◌else◌,
}
use beba_sacco_backend.Store.{Loan, LoanStatus, defaulted, fully_paid, active}

pub record Waterfall : Type 0 where
  pub to_penalty : ℤ
  pub to_interest : ℤ
  pub to_principal : ℤ
  pub overpayment : ℤ

-- Penalty first, then interest, then principal; the rest is an overpayment.
unfoldable pub split : ℤ → Loan → Waterfall
split amount loan =
    let to_penalty = min_ℤ amount loan.arrears_amount in
    let after_penalty = amount -ℤ to_penalty in
    let to_interest = min_ℤ after_penalty loan.accrued_interest in
    let after_interest = after_penalty -ℤ to_interest in
    let to_principal = min_ℤ after_interest loan.outstanding_balance in
    let remaining = after_interest -ℤ to_principal in
    record {
      to_penalty = to_penalty;
      to_interest = to_interest;
      to_principal = to_principal;
      overpayment = if ltb_ℤ (pos 0) remaining then remaining else pos 0;
    }

abbrev pub is_defaulted : LoanStatus → Bool
is_defaulted LoanStatus.defaulted = true
is_defaulted _ = false

unfoldable pub status_after : Loan → Waterfall → LoanStatus
status_after loan w =
    let new_penalty = loan.arrears_amount -ℤ w.to_penalty in
    let new_interest = loan.accrued_interest -ℤ w.to_interest in
    let new_principal = loan.outstanding_balance -ℤ w.to_principal in
    let residual = new_penalty +ℤ new_interest +ℤ new_principal in
    if leb_ℤ new_principal (pos 0)
    then fully_paid
    else if is_defaulted loan.status && ltb_ℤ (pos 0) residual
    then defaulted
    else active

-- The `data` of the loan's update.
unfoldable pub pay_loan : Waterfall → Loan → Loan → Loan
unfolding status_after
pay_loan w loan row = record row {
  arrears_amount = max_ℤ (loan.arrears_amount -ℤ w.to_penalty) (pos 0);
  accrued_interest = max_ℤ (loan.accrued_interest -ℤ w.to_interest) (pos 0);
  outstanding_balance = max_ℤ (loan.outstanding_balance -ℤ w.to_principal) (pos 0);
  total_repaid = loan.total_repaid +ℤ w.to_penalty +ℤ w.to_interest +ℤ w.to_principal;
  status = status_after loan w;
}
