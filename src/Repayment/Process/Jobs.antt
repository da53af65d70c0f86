-- ===== src/Repayment/Process/Jobs.antt =====
-- `validateLoanForRepayment` and `cancelDelayedGuarantorDebit`
-- (src/modules/loans/loan-repayment.service.ts).
use beba_sacco_backend.Base.{
  if◌then◌else◌, Key, same, strip_prefix, Bool, true, false, ◌&&◌, List, rows_where, M, ◌>>=◌, ◌>>◌,
  pure, gets, or_throw, throw_if, not_found, not_repayable, find_first,
}
use beba_sacco_backend.Store.{Db, Loan, LoanStatus}

abbrev pub is_running : LoanStatus → Bool
is_running LoanStatus.disbursed = true
is_running LoanStatus.active = true
is_running _ = false

-- The check before a repayment is asked for.
unfoldable pub validate_loan_for_repayment : Key → Key → M Db (Key × LoanStatus)
unfolding strip_prefix
validate_loan_for_repayment reference tenant = do
  found ← gets (λ (db : Db).
      find_first
        (λ (l : Loan). same l.loan_number (strip_prefix "LOAN-" reference) && same l.tenant tenant)
        db.loans)
  loan ← or_throw found not_found
  throw_if (if is_running loan.status then false else true) not_repayable
  pure (loan.id, loan.status)

-- A job that waits in the recovery queue; `is_debit` is `job.name === GUARANTOR_DEBIT_JOB`.
pub record DelayedJob : Type 0 where
  pub tenant : Key
  pub loan : Key
  pub is_debit : Bool

abbrev pub is_debit_of : Key → Key → DelayedJob → Bool
is_debit_of tenant loan j = same j.tenant tenant && (same j.loan loan && j.is_debit)

-- The jobs that are left in the queue.
unfoldable pub cancel_delayed_debit : Key → Key → List DelayedJob → List DelayedJob
cancel_delayed_debit tenant loan jobs =
    rows_where (λ (j : DelayedJob). if is_debit_of tenant loan j then false else true) jobs

abbrev stays_defaulted : LoanStatus → Bool
stays_defaulted LoanStatus.defaulted = true
stays_defaulted _ = false

-- What `processRepayment` does to the queue once its transaction has returned.
unfoldable pub jobs_after : Key → Key → LoanStatus → List DelayedJob → List DelayedJob
unfolding cancel_delayed_debit
jobs_after tenant loan status jobs =
    if stays_defaulted status then jobs else cancel_delayed_debit tenant loan jobs
