-- ===== src/Recovery.antt =====
-- `LoanRecoveryService` (src/modules/loans/loan-recovery.service.ts): a defaulted loan is paid from
-- the savings of its guarantors.
pub mod Allocation
use beba_sacco_backend.Base.{
  not, if◌then◌else◌, ℕ, ℤ, pos, ◌+ℤ◌, ◌-ℤ◌, min_ℤ, max_ℤ, ltb_ℤ, leb_ℤ, eqb_ℤ, Key, same, join,
  Bool, true, false, ◌&&◌, Option, none, some, List, [], ◌∷◌, ◌++◌, M, ◌>>=◌, ◌>>◌, pure, gets,
  modify, throw, or_throw, throw_if, find_first, count_where, rows_where, update_many, ◌==◌, ◌+◌,
  length, conflict, invalid_amount, not_found, forfeiture_locked, no_accepted_guarantors,
  recovery_update_failed,
}
use beba_sacco_backend.Store.{
  Db, Account, AccountType, Guarantor, GuarantorStatus, Loan, Transaction, TransactionType,
  TransactionStatus,
}
use beba_sacco_backend.Ledger.Gl.{post_guarantor_forfeiture}
use beba_sacco_backend.Ledger.Entry.{NewIds, has_reference}
use beba_sacco_backend.Guarantors.{resolve_account_type}
use beba_sacco_backend.Recovery.Allocation.{Division, RecoveryItem, allocate_recovery}

-- `guarantorForfeitureReference` (src/modules/queue/queue.constants.ts)
unfoldable pub forfeiture_reference : Key → Key → Key → Key → Key
unfolding join
forfeiture_reference tenant loan account attempt =
    join "GUAR_FORFEIT-"
      (join tenant (join "-" (join loan (join "-" (join account (join "-" attempt))))))

-- What one recovery is called with; `ids` gives the ids of the rows written for a guarantor.
pub record RecoveryCall : Type 0 where
  pub tenant : Key
  pub loan : Key
  pub actor : Key
  pub attempt : Key
  pub now : ℕ
  pub kind : Option AccountType
  pub ids : Key → NewIds

abbrev pub take_savings : ℤ → Account → Account → Account
take_savings amount locked a = record a {
  balance = locked.balance -ℤ amount;
  frozen_savings = a.frozen_savings -ℤ amount;
  version = a.version + 1;
}

abbrev pub savings_where : Key → Account → Account → Bool
savings_where tenant locked a =
    same a.id locked.id && (same a.tenant tenant && (a.is_active && a.version == locked.version))

abbrev is_accepted : GuarantorStatus → Bool
is_accepted GuarantorStatus.accepted = true
is_accepted _ = false

abbrev pub guarantor_where : Key → Key → Guarantor → Bool
guarantor_where tenant id g = same g.id id && (same g.tenant tenant && is_accepted g.status)

-- The hold counts as released once nothing of the account's frozen savings is left.
abbrev pub mark_recovered : ℕ → ℤ → ℤ → Guarantor → Guarantor
mark_recovered now amount left g = record g {
  recovered_amount = g.recovered_amount +ℤ amount;
  recovery_date = some now;
  hold_released_at = if leb_ℤ left (pos 0) then some now else g.hold_released_at;
}

abbrev pub recovery_row : RecoveryCall → Key → Account → Key → ℤ → Transaction
recovery_row c id locked reference amount = record {
  id = id;
  tenant = c.tenant;
  account = locked.id;
  loan = some c.loan;
  kind = TransactionType.loan_repayment;
  status = TransactionStatus.completed;
  amount = amount;
  balance_before = locked.balance;
  balance_after = locked.balance -ℤ amount;
  reference = reference;
  processed_by = c.actor;
  linked = none;
}

-- The writes of one deduction; `locked` is the account's row as locked.
unfoldable pub write_recovery : RecoveryCall → Guarantor → Account → Key → ℤ → M Db ℤ
unfolding post_guarantor_forfeiture
write_recovery c g locked reference amount = do
  let savings = savings_where c.tenant locked
  accounts ← gets (λ (db : Db). count_where savings db.accounts)
  throw_if (not (accounts == 1)) conflict
  modify (λ (db : Db). record db {
    accounts = update_many savings (take_savings amount locked) db.accounts;
  })
  let row_of = guarantor_where c.tenant g.id
  guarantors ← gets (λ (db : Db). count_where row_of db.guarantors)
  throw_if (not (guarantors == 1)) recovery_update_failed
  modify (λ (db : Db). record db {
    guarantors =
        update_many row_of (mark_recovered c.now amount (locked.frozen_savings -ℤ amount))
          db.guarantors;
  })
  let ids = c.ids g.id
  let row = recovery_row c ids.transaction locked reference amount
  modify (λ (db : Db). record db { transactions = db.transactions ++ row ∷ [] })
  posted ←
      post_guarantor_forfeiture ids.entry c.tenant reference amount ids.transaction c.actor
        (resolve_account_type c.kind)
  pure amount

unfoldable pub recover_if : Bool → M Db ℤ → M Db ℤ
recover_if true m = m
recover_if false m = pure (pos 0)

-- What is taken is at most the balance and the frozen savings as locked.
unfoldable pub recover_locked : RecoveryCall → Guarantor → Account → Key → ℤ → M Db ℤ
unfolding write_recovery recover_if
recover_locked c g locked reference deduction =
    let amount = min_ℤ deduction (min_ℤ locked.balance locked.frozen_savings) in
    recover_if (not (leb_ℤ amount (pos 0))) (write_recovery c g locked reference amount)

abbrev known : Option Transaction → Bool
known none = false
known (some _) = true

unfoldable pub recover_account : RecoveryCall → Guarantor → Account → ℤ → M Db ℤ
unfolding forfeiture_reference recover_locked has_reference
recover_account c g account deduction = do
  let reference = forfeiture_reference c.tenant c.loan account.id c.attempt
  existing ← gets (λ (db : Db). find_first (has_reference c.tenant reference) db.transactions)
  found ← gets (λ (db : Db). find_first (λ (a : Account). same a.id account.id) db.accounts)
  recover_if (not (known existing))
      do locked ← or_throw found conflict; recover_locked c g locked reference deduction

abbrev recover_item : RecoveryCall → RecoveryItem → M Db ℤ
unfolding recover_account recover_if
recover_item c item = elim item.account [
  | none ↦ pure (pos 0)
  | some account ↦
      recover_if (not (eqb_ℤ item.deduction (pos 0)))
        (recover_account c item.guarantor account item.deduction)
]

-- The loop over the allocations; it gives the total recovered.
unfoldable pub recover_all : RecoveryCall → List RecoveryItem → M Db ℤ
unfolding recover_account recover_if
recover_all c [] = pure (pos 0)
recover_all c (item ∷ more) = do
  first ← recover_item c item
  others ← recover_all c more
  pure (first +ℤ others)

abbrev released : Option ℕ → Bool
released none = false
released (some _) = true

-- The loan's guarantors that the recovery may ask; the table lists them by their creation.
abbrev pub may_recover : Key → Key → Guarantor → Bool
may_recover tenant loan g =
    same g.loan loan
    && (same g.tenant tenant && (is_accepted g.status && not (released g.hold_released_at)))

abbrev pub loan_where : Key → Key → Loan → Bool
loan_where tenant id l = same l.id id && same l.tenant tenant

abbrev pub reduce_debt : ℤ → Loan → Loan
reduce_debt amount l = record l { outstanding_balance = l.outstanding_balance -ℤ amount }

-- `recoverFromGuarantorsLocked`; it gives `totalRecovered` and `remainingDebt`.
unfoldable pub recover_from_guarantors_locked : Division → RecoveryCall → ℤ → M Db (ℤ × ℤ)
unfolding allocate_recovery recover_all
recover_from_guarantors_locked division c amount = do
  found ← gets (λ (db : Db). find_first (loan_where c.tenant c.loan) db.loans)
  loan ← or_throw found not_found
  guarantors ← gets (λ (db : Db). rows_where (may_recover c.tenant c.loan) db.guarantors)
  throw_if (length guarantors == 0) no_accepted_guarantors
  items ← gets (λ (db : Db).
      allocate_recovery division c.tenant guarantors (resolve_account_type c.kind) amount
        loan.outstanding_balance db.accounts)
  recovered ← recover_all c items
  modify (λ (db : Db). record db {
    loans =
        if ltb_ℤ (pos 0) recovered
        then update_many (loan_where c.tenant c.loan)
            (reduce_debt (min_ℤ loan.outstanding_balance recovered)) db.loans
        else db.loans;
  })
  pure (recovered, max_ℤ (amount -ℤ recovered) (pos 0))

-- `recoverFromGuarantors`; `is_locked` is the answer of the lock service, and an amount that is not
-- finite is none.
unfoldable pub recover_from_guarantors : Division → Bool → RecoveryCall → Option ℤ → M Db (ℤ × ℤ)
unfolding recover_from_guarantors_locked
recover_from_guarantors division is_locked c given = do
  amount ← or_throw given invalid_amount
  throw_if (leb_ℤ amount (pos 0)) invalid_amount
  throw_if is_locked forfeiture_locked
  recover_from_guarantors_locked division c amount
