-- ===== src/Arrears.antt =====
-- The penalties of overdue installments and the arrears of a loan
-- (`applyOverdueInstallmentsAndArrears` and `classifyStaging` of
-- src/modules/financial/financial.service.ts). Times are in milliseconds.
pub mod Daily
pub mod Postings
pub mod Returns
pub mod Interest
use beba_sacco_backend.Base.{
  ◌*◌, ℕ, ◌+◌, ◌-◌, ◌/◌, ltb, leb, not, if◌then◌else◌, ℤ, pos, ◌+ℤ◌, ◌-ℤ◌, max_ℤ, leb_ℤ, Bool, true,
  false, ◌&&◌, Key, same, join, Option, none, some, List, [], ◌∷◌, ◌++◌, M, ◌>>=◌, ◌>>◌, pure, gets,
  modify, find_first, rows_where, count_where, some_row, update_many, total, throw_if, Error, ◌==◌,
  Rounding, quotient,
}
use beba_sacco_backend.Store.{
  Db, Account, Loan, Transaction, TransactionType, TransactionStatus, Installment,
  InstallmentStatus, JournalEntry,
}
use beba_sacco_backend.Ledger.Gl.{post_penalty_receivable, resolve_system_actor}

-- What one run is called with: the loan, its member's FOSA account, the day and its text, and the
-- ids of the rows that an installment's penalty writes.
pub record AccrualCall : Type 0 where
  pub tenant : Key
  pub loan : Key
  pub account : Key
  pub date : ℕ
  pub date_text : Key
  pub transaction_id : Key → Key
  pub entry_id : Key → Key

abbrev pub ms_per_day : ℕ
ms_per_day = 86400000

abbrev pub penalty_grace_days : ℕ
penalty_grace_days = 3

abbrev pub is_paid : InstallmentStatus → Bool
is_paid InstallmentStatus.paid = true
is_paid _ = false

-- `OR: [{ lastPenaltyAccrualDate: null }, { lastPenaltyAccrualDate: { lt: accrualDate } }]`
abbrev pub not_since : ℕ → Option ℕ → Bool
not_since date none = true
not_since date (some last) = ltb last date

-- The `where` of `penaltyEligible`; the cutoff is the day less the days of grace.
abbrev pub is_eligible : AccrualCall → Installment → Bool
is_eligible c i =
    same i.tenant c.tenant
    && (same i.loan c.loan
        && (not (is_paid i.status)
            && (ltb (i.due_date + penalty_grace_days * ms_per_day) c.date
                && not_since c.date i.last_penalty_accrual)))

-- The `where` of the conditional update
abbrev pub penalty_where : AccrualCall → Key → Installment → Bool
penalty_where c id i =
    same i.id id && (same i.tenant c.tenant && not_since c.date i.last_penalty_accrual)

abbrev pub add_penalty : AccrualCall → ℤ → Installment → Installment
add_penalty c amount i = record i {
  penalty_due = i.penalty_due +ℤ amount;
  last_penalty_accrual = some c.date;
  status = InstallmentStatus.overdue;
}

abbrev pub penalty_reference : AccrualCall → Installment → Key
penalty_reference c i =
    join "PENALTY-"
      (join c.tenant (join "-" (join c.loan (join "-" (join i.id (join "-" c.date_text))))))

abbrev pub has_reference_in : Key → Key → Transaction → Bool
has_reference_in tenant reference t = same t.tenant tenant && same t.reference reference

abbrev pub balance_or_zero : Option Account → ℤ
balance_or_zero none = pos 0
balance_or_zero (some a) = a.balance

abbrev pub penalty_row : AccrualCall → Installment → ℤ → ℤ → Transaction
penalty_row c i amount balance = record {
  id = c.transaction_id i.id;
  tenant = c.tenant;
  account = c.account;
  loan = some c.loan;
  kind = TransactionType.penalty;
  status = TransactionStatus.completed;
  amount = amount;
  balance_before = balance;
  balance_after = balance;
  reference = penalty_reference c i;
  processed_by = "SYSTEM";
  linked = none;
}

-- The foreign keys of the new row are not all there.
abbrev pub lacks_rows : AccrualCall → Db → Bool
lacks_rows c db = not (
    some_row (λ (a : Account). same a.id c.account) db.accounts
    && some_row (λ (l : Loan). same l.id c.loan) db.loans)

-- The transaction and its journal entry, which do not move the account's balance
unfoldable pub write_penalty : AccrualCall → Installment → ℤ → Option Transaction → M Db (Unit {0})
unfolding post_penalty_receivable resolve_system_actor some_row
write_penalty c i amount (some earlier) = pure tt
write_penalty c i amount none = do
  found ← gets (λ (db : Db). find_first (λ (a : Account). same a.id c.account) db.accounts)
  broken ← gets (lacks_rows c)
  throw_if broken Error.foreign_key
  modify (λ (db : Db). record db {
    transactions = db.transactions ++ penalty_row c i amount (balance_or_zero found) ∷ [];
  })
  actor ← resolve_system_actor c.tenant
  posted ←
      post_penalty_receivable (c.entry_id i.id) c.tenant (penalty_reference c i) amount
        (c.transaction_id i.id) actor
  pure tt

unfoldable pub write_unless_lost : AccrualCall → Installment → ℤ → Bool → M Db (Unit {0})
unfolding write_penalty
write_unless_lost c i amount true = pure tt
write_unless_lost c i amount false = do
  existing ←
      gets (λ (db : Db).
        find_first (has_reference_in c.tenant (penalty_reference c i)) db.transactions)
  write_penalty c i amount existing

-- One installment whose penalty is positive
unfoldable pub charge : AccrualCall → Installment → ℤ → M Db (Unit {0})
unfolding write_unless_lost
charge c i amount = do
  updated ← gets (λ (db : Db). count_where (penalty_where c i.id) db.installments)
  modify (λ (db : Db). record db {
    installments = update_many (penalty_where c i.id) (add_penalty c amount) db.installments;
  })
  write_unless_lost c i amount (updated == 0)

-- `classifyStaging`
pub data Staging : Type 0 where
  performing watchlist npl : Staging

unfoldable pub classify_staging : ℕ → Staging
classify_staging days = if leb 90 days then npl else if leb 30 days then watchlist else performing

module _ (r : Rounding) where
  -- One percent of the principal and the interest, at four places
  unfoldable pub penalty_of : Installment → ℤ
  unfolding quotient ◌+ℤ◌
  penalty_of i = quotient r (i.principal_due +ℤ i.interest_due) 100

  unfoldable pub is_due : Installment → Bool
  unfolding penalty_of
  is_due i = not (leb_ℤ (penalty_of i) (pos 0))

  unfoldable pub charge_if : AccrualCall → Installment → Bool → M Db (Unit {0})
  unfolding charge
  charge_if c i false = pure tt
  charge_if c i true = charge c i (penalty_of i)

  unfoldable pub charge_all : AccrualCall → List Installment → M Db (Unit {0})
  unfolding charge_if is_due
  charge_all c [] = pure tt
  charge_all c (i ∷ more) = do charged ← charge_if c i (is_due i); charge_all c more

  -- The first part of `applyOverdueInstallmentsAndArrears`
  unfoldable pub accrue_penalties : AccrualCall → M Db (Unit {0})
  unfolding charge_all
  accrue_penalties c = do
    eligible ← gets (λ (db : Db). rows_where (is_eligible c) db.installments)
    charge_all c eligible

-- The `where` of `overdueInstallments`
abbrev pub is_overdue_row : AccrualCall → Installment → Bool
is_overdue_row c i =
    same i.tenant c.tenant
    && (same i.loan c.loan && (not (is_paid i.status) && ltb i.due_date c.date))

abbrev pub owed : Installment → ℤ
owed i =
    max_ℤ
      (i.principal_due
        +ℤ i.interest_due
        +ℤ i.penalty_due
        -ℤ (i.principal_paid +ℤ i.interest_paid +ℤ i.penalty_paid))
      (pos 0)

pub record Arrears : Type 0 where
  pub days : ℕ
  pub amount : ℤ
  pub staging : Staging

-- The table lists the installments by their due dates.
unfoldable pub arrears_of : AccrualCall → List Installment → Arrears
unfolding classify_staging total
arrears_of c [] = record { days = 0; amount = pos 0; staging = classify_staging 0 }
arrears_of c (first ∷ more) =
    let days = (c.date - first.due_date) / ms_per_day in
    record { days = days; amount = total owed (first ∷ more); staging = classify_staging days }

-- `applyOverdueInstallmentsAndArrears`
unfoldable pub apply_overdue : Rounding → AccrualCall → M Db Arrears
unfolding accrue_penalties arrears_of
apply_overdue r c = do
  charged ← accrue_penalties r c
  overdue ← gets (λ (db : Db). rows_where (is_overdue_row c) db.installments)
  pure (arrears_of c overdue)
