-- ===== src/Ledger/Entry.antt =====
-- `postEntry` and `postEntryBody` of src/modules/accounting/ledger.service.ts: one movement of one
-- account, with its transaction row and its journal entry.
pub mod Laws
use beba_sacco_backend.Base.{
  ℤ, pos, leb_ℤ, Key, same, join, Bool, true, false, ◌&&◌, Option, none, some, [], ◌∷◌, ◌++◌,
  Result, ok, err, M, ◌>>=◌, ◌>>◌, pure, gets, modify, or_throw, throw_if, conflict,
  no_type_mapping, amount_not_positive, find_first, gl_not_configured, Rounding, Decimal, round4,
}
use beba_sacco_backend.Store.{
  Db, JournalType, JournalEntry, GlAccount, Transaction, TransactionType, TransactionStatus,
}
use beba_sacco_backend.Ledger.Balance.{Direction, BalanceChange, apply_balance_change}
use beba_sacco_backend.Ledger.Gl.{resolve_gl_codes, find_gl_account_pair}

-- `JOURNAL_TO_TRANSACTION_TYPE`
unfoldable pub transaction_type_of : JournalType → Option TransactionType
transaction_type_of JournalType.deposit = some TransactionType.deposit
transaction_type_of JournalType.mpesa_deposit = some TransactionType.deposit
transaction_type_of JournalType.withdrawal = some TransactionType.withdrawal
transaction_type_of JournalType.transfer = some TransactionType.transfer
transaction_type_of JournalType.dividend_payout = some TransactionType.dividend_payout
transaction_type_of JournalType.fee_charge = some TransactionType.fee_charge
transaction_type_of JournalType.loan_disbursement = some TransactionType.loan_disbursement
transaction_type_of _ = none

-- The ids that the database gives to the two new rows.
pub record NewIds : Type 0 where
  pub transaction : Key
  pub entry : Key

pub record EntryParams : Type 0 where
  pub tenant : Key
  pub reference : Key
  pub kind : JournalType
  pub account : Key
  pub amount : ℤ
  pub direction : Direction
  pub actor : Key
  pub linked : Option Key
  pub loan : Option Key

pub record Posted : Type 0 where
  pub transaction : Transaction
  pub entry : JournalEntry
  pub replayed : Bool

-- `where: { tenantId, reference }`
unfoldable pub has_reference : Key → Key → Transaction → Bool
has_reference tenant reference t = same t.tenant tenant && same t.reference reference

-- `where: { tenantId, referenceType: 'TRANSACTION', referenceId }`
unfoldable pub is_entry_of : Key → Key → JournalEntry → Bool
is_entry_of tenant id e = same e.tenant tenant && (e.about_transaction && same e.reference_id id)

abbrev pub new_transaction : NewIds → EntryParams → TransactionType → BalanceChange → Transaction
new_transaction ids p kind change = record {
  id = ids.transaction;
  tenant = p.tenant;
  account = p.account;
  loan = p.loan;
  kind = kind;
  status = TransactionStatus.completed;
  amount = p.amount;
  balance_before = change.balance_before;
  balance_after = change.balance_after;
  reference = p.reference;
  processed_by = p.actor;
  linked = p.linked;
}

abbrev pub new_entry : NewIds → EntryParams → GlAccount → GlAccount → JournalEntry
new_entry ids p d c = record {
  id = ids.entry;
  tenant = p.tenant;
  entry_number = join "JE-LEDGER-" p.reference;
  kind = p.kind;
  about_transaction = true;
  reference_id = ids.transaction;
  total_amount = p.amount;
  created_by = p.actor;
  reversal_of = none;
  postings = record { debit_account = d.id; credit_account = c.id; amount = p.amount } ∷ [];
}

abbrev pub of_result : {A : Type 0} → Result A → M Db A
of_result (ok a) db = ok (a, db)
of_result (err e) db = err e

-- Steps 3 and 4 of `postEntryBody`: the transaction row, and the journal entry.
unfoldable pub write_rows : NewIds → EntryParams → TransactionType → BalanceChange → M Db Posted
unfolding find_gl_account_pair resolve_gl_codes
write_rows ids p kind change = do
  let transaction = new_transaction ids p kind change
  modify (λ (db : Db). record db { transactions = db.transactions ++ transaction ∷ [] })
  codes ← of_result (resolve_gl_codes change.account_type p.kind p.direction none)
  pair ←
      gets (λ (db : Db).
        find_gl_account_pair p.tenant codes.debit_code codes.credit_code db.gl_accounts)
  (d, c) ← or_throw pair gl_not_configured
  let entry = new_entry ids p d c
  modify (λ (db : Db). record db { entries = db.entries ++ entry ∷ [] })
  pure (record { transaction = transaction; entry = entry; replayed = false })

-- Steps 2 to 4, for a reference that is new.
unfoldable pub write_entry : NewIds → EntryParams → M Db Posted
unfolding apply_balance_change write_rows transaction_type_of
write_entry ids p = do
  change ← apply_balance_change p.tenant p.account p.amount p.direction
  kind ← or_throw (transaction_type_of p.kind) no_type_mapping
  write_rows ids p kind change

-- Step 1: a reference that is known gives back what it wrote.
unfoldable pub replay_entry : Key → Transaction → M Db Posted
replay_entry tenant t = do
  found ← gets (λ (db : Db). find_first (is_entry_of tenant t.id) db.entries)
  entry ← or_throw found conflict
  pure (record { transaction = t; entry = entry; replayed = true })

abbrev pub replay_or_write : NewIds → EntryParams → Option Transaction → M Db Posted
replay_or_write ids p (some t) = replay_entry p.tenant t
replay_or_write ids p none = write_entry ids p

unfoldable pub post_entry_body : NewIds → EntryParams → M Db Posted
unfolding replay_entry write_entry
post_entry_body ids p = do
  existing ← gets (λ (db : Db). find_first (has_reference p.tenant p.reference) db.transactions)
  replay_or_write ids p existing

-- `postEntry` inside a transaction; the amount comes as the caller wrote it.
unfoldable pub post_entry : Rounding → NewIds → EntryParams → Decimal → M Db Posted
unfolding post_entry_body round4
post_entry r ids p given = do
  throw_if (leb_ℤ (round4 r given) (pos 0)) amount_not_positive
  post_entry_body ids (record p { amount = round4 r given })
