-- ===== src/Store.antt =====
-- The rows that the services of src/modules keep in the database, with the columns that the code
-- reads or writes, and the store of all tables. Money is in ten-thousandths of a shilling.
-- Free text (descriptions, notes) is left out.
use beba_sacco_backend.Base.{ℕ, ℤ, Key, Bool, Option, List}

pub data AccountType : Type 0 where
  fosa bosa : AccountType

pub data LoanStatus : Type 0 where
  draft pending_guarantors pending_review pending_approval approved disbursed : LoanStatus
  active defaulted rejected rejected_guarantor_decline fully_paid written_off : LoanStatus

pub data TransactionType : Type 0 where
  deposit withdrawal transfer dividend_payout fee_charge loan_disbursement : TransactionType
  loan_repayment interest_earned interest_accrual penalty reversal : TransactionType

pub data TransactionStatus : Type 0 where
  pending completed failed reversed recon_pending : TransactionStatus

pub data JournalType : Type 0 where
  deposit mpesa_deposit withdrawal transfer dividend_payout fee_charge : JournalType
  loan_disbursement loan_repayment interest_accrual reversal manual fee_reversal : JournalType

pub record Account : Type 0 where
  pub id : Key
  pub tenant : Key
  pub member : Key
  pub account_type : AccountType
  pub balance : ℤ
  pub minimum_balance : ℤ
  pub allows_negative : Bool
  pub locked_balance : ℤ
  pub frozen_savings : ℤ
  pub is_active : Bool
  pub version : ℕ

pub record Transaction : Type 0 where
  pub id : Key
  pub tenant : Key
  pub account : Key
  pub loan : Option Key
  pub kind : TransactionType
  pub status : TransactionStatus
  pub amount : ℤ
  pub balance_before : ℤ
  pub balance_after : ℤ
  pub reference : Key
  pub processed_by : Key
  pub linked : Option Key

pub record Posting : Type 0 where
  pub debit_account : Key
  pub credit_account : Key
  pub amount : ℤ

-- `about_transaction` is `referenceType: 'TRANSACTION'`; other writers may use other words.
pub record JournalEntry : Type 0 where
  pub id : Key
  pub tenant : Key
  pub entry_number : Key
  pub kind : JournalType
  pub about_transaction : Bool
  pub reference_id : Key
  pub total_amount : ℤ
  pub created_by : Key
  pub reversal_of : Option Key
  pub postings : List Posting

pub record GlAccount : Type 0 where
  pub id : Key
  pub tenant : Key
  pub code : ℕ
  pub is_active : Bool

-- A product's `guarantorCoverageRatio` as `numerator / 10 ^ digits`.
pub record Ratio : Type 0 where
  pub numerator : ℕ
  pub digits : ℕ

-- The columns of `LoanProduct` that a loan is joined with.
pub record Product : Type 0 where
  pub min_guarantors : ℕ
  pub max_guarantors : ℕ
  pub coverage_ratio : Option Ratio
  pub required_account_type : Option AccountType

pub record Loan : Type 0 where
  pub id : Key
  pub tenant : Key
  pub loan_number : Key
  pub member : Key
  pub status : LoanStatus
  pub principal_amount : ℕ
  pub product : Product
  pub outstanding_balance : ℤ
  pub accrued_interest : ℤ
  pub arrears_amount : ℤ
  pub total_repaid : ℤ

pub data InstallmentStatus : Type 0 where
  pending partial paid overdue waived : InstallmentStatus

-- A row of `LoanRepayment`, the repayment schedule.
pub record Installment : Type 0 where
  pub id : Key
  pub tenant : Key
  pub loan : Key
  pub status : InstallmentStatus
  pub day_number : ℕ
  pub due_date : ℕ
  pub last_penalty_accrual : Option ℕ
  pub penalty_due : ℤ
  pub interest_due : ℤ
  pub principal_due : ℤ
  pub penalty_paid : ℤ
  pub interest_paid : ℤ
  pub principal_paid : ℤ
  pub amount_paid : ℤ
  pub paid_at : Option ℕ

pub data GuarantorStatus : Type 0 where
  pending accepted rejected expired released : GuarantorStatus

pub record Guarantor : Type 0 where
  pub id : Key
  pub tenant : Key
  pub loan : Key
  pub member : Key
  pub status : GuarantorStatus
  pub guaranteed_amount : ℤ
  pub invited_at : ℕ
  pub recovered_amount : ℤ
  pub recovery_date : Option ℕ
  pub hold_released_at : Option ℕ

-- A row of `MpesaTransaction`: its link to the ledger and to the loan, its outcome, what is known of
-- the provider, and the columns of the reconciliation. `is_b2c` is `type: 'B2C'`.
pub record MpesaTransaction : Type 0 where
  pub id : Key
  pub tenant : Key
  pub transaction : Option Key
  pub loan : Option Key
  pub status : TransactionStatus
  pub receipt : Option Key
  pub is_b2c : Bool
  pub reference_type : Option Key
  pub phone : Key
  pub amount : ℤ
  pub conversation : Option Key
  pub reference : Key
  pub submission : Option Key
  pub sent_at : Option ℕ
  pub checked_at : Option ℕ
  pub failure_reason : Option Key
  pub created_at : ℕ
  pub due_at : Option ℕ
  pub attempt_count : ℕ
  pub next_retry : Option ℕ
  pub locked_at : Option ℕ
  pub locked_by : Option Key
  pub review_required : Bool
  pub review_reason : Option Key
  pub last_reason : Option Key

-- A row of `MpesaWithdrawalReconciliationAttempt`
pub record ReconAttempt : Type 0 where
  pub id : Key
  pub tenant : Key
  pub withdrawal : Key
  pub number : ℕ
  pub trigger : Key
  pub completed_at : Option ℕ
  pub new_status : Option TransactionStatus
  pub reason : Option Key

-- A row of `User`; `is_system` is `role: SYSTEM`.
pub record User : Type 0 where
  pub id : Key
  pub tenant : Key
  pub is_system : Bool

-- The tables. `sent` is not one of them: it lists the payout orders that the payment provider has
-- been asked to carry out.
pub record Db : Type 0 where
  pub accounts : List Account
  pub transactions : List Transaction
  pub entries : List JournalEntry
  pub gl_accounts : List GlAccount
  pub loans : List Loan
  pub installments : List Installment
  pub guarantors : List Guarantor
  pub mpesa : List MpesaTransaction
  pub attempts : List ReconAttempt
  pub users : List User
  pub sent : List Key
