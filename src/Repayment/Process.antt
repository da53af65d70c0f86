-- ===== src/Repayment/Process.antt =====
-- `processRepayment` and its helpers (src/modules/loans/loan-repayment.service.ts).
pub mod Laws
pub mod Fresh
pub mod Jobs
use beba_sacco_backend.Repayment.Legs.{
  Repay, Summary, LegIds, RepayIds, by_loan_id, lock_target_loan, lock_fosa_account, pay_leg,
  pay_overpayment,
}
use mathlib.Core.Option
use beba_sacco_backend.Base.{
  if◌then◌else◌, ℕ, ℤ, pos, ltb_ℤ, leb_ℤ, Key, same, same_opt, join, strip_prefix, truthy, or_else,
  Bool, true, false, ◌&&◌, Option, none, some, [], ◌∷◌, ◌++◌, List, M, ◌>>=◌, ◌>>◌, pure, gets,
  modify, throw, or_throw, throw_if, not_found, not_repayable, invalid_amount, find_first,
  count_where, update_many, Rounding, Decimal, Amount, finite, not_finite, exact, round4, ◌==◌,
}
use beba_sacco_backend.Store.{
  Db, Account, AccountType, fosa, Loan, LoanStatus, Transaction, TransactionType, TransactionStatus,
  JournalType, MpesaTransaction,
}
use beba_sacco_backend.Ledger.Balance.{Direction}
use beba_sacco_backend.Ledger.Gl.{Leg, post_loan_repayment_leg}
use beba_sacco_backend.Ledger.Entry.{EntryParams, NewIds, Posted, has_reference, post_entry}
use beba_sacco_backend.Repayment.Waterfall.{Waterfall, split, pay_loan, status_after}
use beba_sacco_backend.Repayment.Installments.{apply_installments}

abbrev first_id : List Key → Option Key
first_id [] = none
first_id (id ∷ _) = some id

-- A value `undefined` leaves the column as it is.
abbrev pub settle_mpesa : List Key → Key → Option Key → MpesaTransaction → MpesaTransaction
settle_mpesa ids loan receipt row = record row {
  transaction = or_else (first_id ids) row.transaction;
  loan = some loan;
  status = TransactionStatus.completed;
  receipt = or_else receipt row.receipt;
}

unfoldable pub write_mpesa : Option Key → List Key → Key → Option Key → M Db (Unit {0})
write_mpesa none ids loan receipt = pure tt
write_mpesa (some id) ids loan receipt = do
  let test = λ (row : MpesaTransaction). same row.id id
  found ← gets (λ (db : Db). count_where test db.mpesa)
  throw_if (found == 0) not_found
  modify
      (λ (db : Db). record db { mpesa = update_many test (settle_mpesa ids loan receipt) db.mpesa })

-- The legs in their order; the ids of all rows written.
unfoldable pub pay_all : List (M Db (List Key)) → M Db (List Key)
pay_all [] = pure []
pay_all (leg ∷ legs) = do first ← leg; others ← pay_all legs; pure (first ++ others)

abbrev pub pay_schedule : ℕ → Key → Key → Waterfall → Db → Db
pay_schedule now tenant loan w db = record db {
  installments =
      apply_installments now tenant loan
        (record { penalty = w.to_penalty; interest = w.to_interest; principal = w.to_principal })
        db.installments;
}

abbrev pub write_loan : Loan → Waterfall → Db → Db
write_loan loan w db = record db {
  loans = update_many (λ (l : Loan). same l.id loan.id) (pay_loan w loan) db.loans;
}

-- The updates after the legs, and the summary.
unfoldable pub finish : Repay → Loan → Waterfall → List Key → M Db Summary
unfolding pay_loan write_mpesa status_after
finish p loan w rows = do
  modify (write_loan loan w)
  done ← write_mpesa (truthy p.mpesa) rows loan.id p.receipt
  pure (record {
    loan = loan.id;
    loan_number = loan.loan_number;
    allocated = w;
    outstanding_balance = (pay_loan w loan loan).outstanding_balance;
    status = status_after loan w;
  })

abbrev pub legs : Rounding → RepayIds → Repay → Loan → Account → Waterfall → List (M Db (List Key))
legs r ids p loan account w =
    pay_leg ids.penalty p account loan.id Leg.penalty w.to_penalty
    ∷ pay_leg ids.interest p account loan.id Leg.interest w.to_interest
    ∷ pay_leg ids.principal p account loan.id Leg.principal w.to_principal
    ∷ pay_overpayment r ids.overpay p account loan.id w.overpayment
    ∷ []

unfoldable pub allocate_to :
    Rounding → ℕ → RepayIds → Repay → Loan → Account → Waterfall → M Db Summary
unfolding apply_installments pay_leg pay_overpayment pay_all finish
allocate_to r now ids p loan account w = do
  modify (pay_schedule now p.tenant loan.id w)
  rows ← pay_all (legs r ids p loan account w)
  finish p loan w rows

-- The transaction's body for a reference that is new.
unfoldable pub allocate : Rounding → ℕ → RepayIds → Repay → ℤ → M Db Summary
unfolding lock_target_loan lock_fosa_account split allocate_to
allocate r now ids p amount = do
  loan ← lock_target_loan p
  account ← lock_fosa_account p.tenant loan.member
  allocate_to r now ids p loan account (split amount loan)

-- The answer for a reference that some row of the ledger already has.
unfoldable pub repeat_summary : Key → Transaction → Key → M Db Summary
repeat_summary tenant t id = do
  found ← gets (λ (db : Db). find_first (by_loan_id tenant id) db.loans)
  loan ← or_throw found not_found
  pure (record {
    loan = loan.id;
    loan_number = loan.loan_number;
    allocated = record {
      to_penalty = pos 0;
      to_interest = pos 0;
      to_principal = t.amount;
      overpayment = pos 0;
    };
    outstanding_balance = loan.outstanding_balance;
    status = loan.status;
  })

abbrev loan_of : Option Transaction → Option (Transaction × Key)
loan_of none = none
loan_of (some t) = Option.map (λ (id : Key). (t, id)) (truthy t.loan)

abbrev pub repeat_or_allocate : Key → M Db Summary → Option (Transaction × Key) → M Db Summary
repeat_or_allocate tenant m (some (t, id)) = repeat_summary tenant t id
repeat_or_allocate tenant m none = m

unfoldable pub repay_units : Rounding → ℕ → RepayIds → Repay → ℤ → M Db Summary
unfolding allocate
repay_units r now ids p amount = do
  duplicate ← gets (λ (db : Db). find_first (has_reference p.tenant p.reference) db.transactions)
  repeat_or_allocate p.tenant (allocate r now ids p amount) (loan_of duplicate)

abbrev pub repay_amount : Rounding → ℕ → RepayIds → Repay → Amount → M Db Summary
repay_amount r now ids p not_finite = throw invalid_amount
repay_amount r now ids p (finite d) = do
  throw_if (leb_ℤ d.numerator (pos 0)) invalid_amount
  repay_units r now ids p (round4 r d)

unfoldable pub process_repayment : Rounding → ℕ → RepayIds → Repay → M Db Summary
unfolding repay_units round4
process_repayment r now ids p = repay_amount r now ids p p.amount
