-- ===== src/Scenarios.antt =====
-- A small savings society: two members with an account each, their GL accounts and a loan.
pub mod Payouts
mod Orders
pub mod Overdue
pub mod PinText
pub mod Pins
pub mod Redis
pub mod SavedText
pub mod Requests
pub mod Responses
pub mod Round
pub mod TextOrder
pub mod Books
pub mod Loans
pub mod Approvals
pub mod Audits
use beba_sacco_backend.Base.{
  Result, ok, err, ℕ, pos, true, false, none, some, Bool, Key, List, [], ◌∷◌, same,
}
use beba_sacco_backend.Store.{
  Product, Db, Account, AccountType, fosa, bosa, GlAccount, Loan, LoanStatus, Installment,
  InstallmentStatus,
}

-- What a run gives, where it does not throw.
abbrev pub value_of : {S A : Type 0} → A → Result (A × S) → A
value_of a (ok (b, _)) = b
value_of a (err _) = a

abbrev pub state_of : {S A : Type 0} → S → Result (A × S) → S
state_of s (ok (_, t)) = t
state_of s (err _) = s

abbrev pub account : Key → Key → Account
account id member = record {
  id = id;
  tenant = "sacco";
  member = member;
  account_type = fosa;
  balance = pos 1000;
  minimum_balance = pos 100;
  allows_negative = false;
  locked_balance = pos 200;
  frozen_savings = pos 0;
  is_active = true;
  version = 0;
}

abbrev pub gl : Key → ℕ → GlAccount
gl id code = record { id = id; tenant = "sacco"; code = code; is_active = true }

abbrev pub savings_loan : Product
savings_loan = record {
  min_guarantors = 1;
  max_guarantors = 2;
  coverage_ratio = none;
  required_account_type = none;
}

abbrev pub owing : Loan
owing = record {
  id = "loan";
  tenant = "sacco";
  loan_number = "L-1";
  member = "ann";
  status = LoanStatus.defaulted;
  principal_amount = 800;
  product = savings_loan;
  outstanding_balance = pos 500;
  accrued_interest = pos 60;
  arrears_amount = pos 40;
  total_repaid = pos 0;
}

abbrev pub society : Db
society = record {
  accounts = account "a" "ann" ∷ account "b" "ben" ∷ [];
  transactions = [];
  entries = [];
  gl_accounts = gl "cash" 1000 ∷ gl "deposits" 2300 ∷ gl "fees" 4300 ∷ gl "receivable" 1300 ∷ [];
  loans = owing ∷ [];
  installments = [];
  guarantors = [];
  mpesa = [];
  attempts = [];
  users = record { id = "robot"; tenant = "sacco"; is_system = true } ∷ [];
  sent = [];
}

-- The GL accounts of the members' deposits.
abbrev pub is_liability : Key → Bool
is_liability id = same id "deposits"
