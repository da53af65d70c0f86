-- ===== src/Repayment/Legs.antt =====
-- What a repayment asks for, the loan it is for, and the legs that it posts (`processRepayment`
-- in src/modules/loans/loan-repayment.service.ts).
use mathlib.Core.Option
use beba_sacco_backend.Base.{
  if◌then◌else◌, ℤ, pos, ltb_ℤ, Key, same, same_opt, join, strip_prefix, truthy, or_else, Bool,
  true, false, ◌&&◌, Option, none, some, [], ◌∷◌, ◌++◌, List, M, ◌>>=◌, ◌>>◌, pure, gets, modify,
  or_throw, throw_if, not_found, not_repayable, find_first, Rounding, Amount, exact,
}
use beba_sacco_backend.Store.{
  Db, Account, AccountType, Loan, LoanStatus, Transaction, TransactionType, TransactionStatus,
  JournalType,
}
use beba_sacco_backend.Ledger.Balance.{Direction}
use beba_sacco_backend.Ledger.Gl.{Leg, post_loan_repayment_leg}
use beba_sacco_backend.Ledger.Entry.{EntryParams, NewIds, post_entry}
use beba_sacco_backend.Repayment.Waterfall.{Waterfall}

-- `ProcessRepaymentInput`
pub record Repay : Type 0 where
  pub tenant : Key
  pub amount : Amount
  pub reference : Key
  pub processed_by : Key
  pub member : Option Key
  pub loan : Option Key
  pub loan_number : Option Key
  pub account_reference : Option Key
  pub mpesa : Option Key
  pub receipt : Option Key

-- `RepaymentAllocationSummary`
pub record Summary : Type 0 where
  pub loan : Key
  pub loan_number : Key
  pub allocated : Waterfall
  pub outstanding_balance : ℤ
  pub status : LoanStatus

-- The ids of the rows of one leg, and the random part of its reference.
pub record LegIds : Type 0 where
  pub transaction : Key
  pub token : Key
  pub entry : Key

pub record RepayIds : Type 0 where
  pub penalty : LegIds
  pub interest : LegIds
  pub principal : LegIds
  pub overpay : NewIds

abbrev pub is_repayable : LoanStatus → Bool
is_repayable LoanStatus.active = true
is_repayable LoanStatus.disbursed = true
is_repayable LoanStatus.defaulted = true
is_repayable _ = false

abbrev by_number : Key → Key → Loan → Bool
by_number tenant number l = same l.loan_number number && same l.tenant tenant

abbrev pub by_loan_id : Key → Key → Loan → Bool
by_loan_id tenant id l = same l.id id && same l.tenant tenant

abbrev pub by_member : Key → Option Key → Loan → Bool
by_member tenant member l =
    same_opt member l.member && (same l.tenant tenant && is_repayable l.status)

abbrev pub target_number : Repay → Option Key
target_number p =
    truthy (or_else p.loan_number (Option.map (strip_prefix "LOAN-") p.account_reference))

-- The `where` of the three queries for the loan.
abbrev pub target_where : Key → Option Key → Option Key → Option Key → Loan → Bool
target_where tenant (some id) number member = by_loan_id tenant id
target_where tenant none (some number) member = by_number tenant number
target_where tenant none none member = by_member tenant member

-- The table lists the loans by the time of their disbursement.
unfoldable pub lock_target_loan : Repay → M Db Loan
lock_target_loan p = do
  found ← gets (λ (db : Db).
      find_first (target_where p.tenant (truthy p.loan) (target_number p) p.member) db.loans)
  loan ← or_throw found not_found
  throw_if (if is_repayable loan.status then false else true) not_repayable
  pure loan

abbrev is_fosa : AccountType → Bool
is_fosa AccountType.fosa = true
is_fosa AccountType.bosa = false

abbrev pub is_fosa_of : Key → Key → Account → Bool
is_fosa_of tenant member a =
    same a.tenant tenant && (same a.member member && (is_fosa a.account_type && a.is_active))

unfoldable pub lock_fosa_account : Key → Key → M Db Account
lock_fosa_account tenant member = do
  found ← gets (λ (db : Db). find_first (is_fosa_of tenant member) db.accounts)
  or_throw found not_found

-- The row of `createAllocationTransaction`; `label` is the upper-case label between dashes.
abbrev pub allocation_row : LegIds → Repay → Key → Key → ℤ → ℤ → TransactionType → Key → Transaction
allocation_row ids p account loan amount balance kind label = record {
  id = ids.transaction;
  tenant = p.tenant;
  account = account;
  loan = some loan;
  kind = kind;
  status = TransactionStatus.completed;
  amount = amount;
  balance_before = balance;
  balance_after = balance;
  reference = join p.reference (join label ids.token);
  processed_by = p.processed_by;
  linked = none;
}

-- What differs between the legs.
abbrev pub kind_of_leg : Leg → TransactionType
kind_of_leg Leg.penalty = TransactionType.penalty
kind_of_leg Leg.interest = TransactionType.interest_earned
kind_of_leg Leg.principal = TransactionType.loan_repayment

abbrev pub label_of_leg : Leg → Key
label_of_leg Leg.penalty = "-PENALTY_ALLOCATION-"
label_of_leg Leg.interest = "-INTEREST_ALLOCATION-"
label_of_leg Leg.principal = "-PRINCIPAL_ALLOCATION-"

abbrev pub suffix_of_leg : Leg → Key
suffix_of_leg Leg.penalty = "-PENALTY"
suffix_of_leg Leg.interest = "-INTEREST"
suffix_of_leg Leg.principal = "-PRINCIPAL"

abbrev pub leg_row : LegIds → Repay → Account → Key → Leg → ℤ → Transaction
leg_row ids p account loan leg amount =
    allocation_row ids p account.id loan amount account.balance (kind_of_leg leg) (label_of_leg leg)

abbrev pub add_row : Transaction → Db → Db
add_row row db = record db { transactions = db.transactions ++ row ∷ [] }

-- A leg's transaction row and journal entry; the ids of the rows written.
unfoldable pub write_leg : LegIds → Repay → Account → Key → Leg → ℤ → M Db (List Key)
unfolding post_loan_repayment_leg
write_leg ids p account loan leg amount = do
  modify (add_row (leg_row ids p account loan leg amount))
  posted ←
      post_loan_repayment_leg ids.entry p.tenant (join p.reference (suffix_of_leg leg)) amount
        ids.transaction p.processed_by leg
  pure (ids.transaction ∷ [])

abbrev pub when : Bool → M Db (List Key) → M Db (List Key)
when true m = m
when false m = pure []

unfoldable pub pay_leg : LegIds → Repay → Account → Key → Leg → ℤ → M Db (List Key)
unfolding write_leg
pay_leg ids p account loan leg amount =
    when (ltb_ℤ (pos 0) amount) (write_leg ids p account loan leg amount)

abbrev pub overpay_params : Repay → Account → Key → ℤ → EntryParams
overpay_params p account loan amount = record {
  tenant = p.tenant;
  reference = join p.reference "-OVERPAY";
  kind = JournalType.deposit;
  account = account.id;
  amount = amount;
  direction = Direction.credit;
  actor = p.processed_by;
  linked = none;
  loan = some loan;
}

unfoldable pub write_overpayment : Rounding → NewIds → Repay → Account → Key → ℤ → M Db (List Key)
unfolding post_entry
write_overpayment r ids p account loan amount = do
  posted ← post_entry r ids (overpay_params p account loan amount) (exact amount)
  pure (posted.transaction.id ∷ [])

unfoldable pub pay_overpayment : Rounding → NewIds → Repay → Account → Key → ℤ → M Db (List Key)
unfolding write_overpayment
pay_overpayment r ids p account loan amount =
    when (ltb_ℤ (pos 0) amount) (write_overpayment r ids p account loan amount)
