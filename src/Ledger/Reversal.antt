-- ===== src/Ledger/Reversal.antt =====
-- `reverseTransaction` and `reverseTransactionBody` of src/modules/accounting/ledger.service.ts.
pub mod Laws
use beba_sacco_backend.Base.{
  leb_ℤ, Key, same, same_opt, join, Bool, true, false, ◌&&◌, Option, none, some, List, [], ◌∷◌,
  ◌++◌, M, ◌>>=◌, ◌>>◌, pure, gets, modify, or_throw, throw_if, not_found, already_reversed,
  no_linked_entry, not_single_posting, find_first, update_many, if◌then◌else◌,
}
use beba_sacco_backend.Store.{
  Db, JournalType, JournalEntry, Posting, Transaction, TransactionType, TransactionStatus,
}
use beba_sacco_backend.Ledger.Balance.{
  Direction, debit, credit, BalanceChange, apply_balance_change,
}
use beba_sacco_backend.Ledger.Entry.{NewIds, is_entry_of}

-- `where: { id, tenantId }`
unfoldable pub is_transaction : Key → Key → Transaction → Bool
is_transaction tenant id t = same t.id id && same t.tenant tenant

abbrev pub is_reversed : TransactionStatus → Bool
is_reversed TransactionStatus.reversed = true
is_reversed _ = false

abbrev pub is_reversal_of : Key → Key → JournalEntry → Bool
is_reversal_of tenant entry e = same e.tenant tenant && same_opt e.reversal_of entry

abbrev pub is_some : {A : Type 0} → Option A → Bool
is_some none = false
is_some (some _) = true

-- The one posting of an entry, as long as it has one.
abbrev pub single_posting : List Posting → Option Posting
single_posting (q ∷ []) = some q
single_posting _ = none

-- The original raised the balance, or left it as it was: the reversal debits.
unfoldable pub reverse_direction : Transaction → Direction
reverse_direction t = if leb_ℤ t.balance_before t.balance_after then debit else credit

abbrev pub reversal_transaction : NewIds → Key → Key → Transaction → BalanceChange → Transaction
reversal_transaction ids tenant actor t change = record {
  id = ids.transaction;
  tenant = tenant;
  account = t.account;
  loan = none;
  kind = TransactionType.reversal;
  status = TransactionStatus.completed;
  amount = t.amount;
  balance_before = change.balance_before;
  balance_after = change.balance_after;
  reference = join t.reference "-REVERSAL";
  processed_by = actor;
  linked = some t.id;
}

-- Debits become credits and credits become debits.
abbrev pub reversal_entry : NewIds → Key → Key → Transaction → JournalEntry → Posting → JournalEntry
reversal_entry ids tenant actor t e q = record {
  id = ids.entry;
  tenant = tenant;
  entry_number = join "JE-REVERSAL-" t.reference;
  kind = JournalType.reversal;
  about_transaction = true;
  reference_id = ids.transaction;
  total_amount = e.total_amount;
  created_by = actor;
  reversal_of = some e.id;
  postings =
      record {
        debit_account = q.credit_account;
        credit_account = q.debit_account;
        amount = q.amount;
      }
      ∷ [];
}

abbrev pub is_transaction_id : Key → Transaction → Bool
is_transaction_id id t = same t.id id

abbrev pub mark_reversed : Transaction → Transaction
mark_reversed t = record t { status = TransactionStatus.reversed }

-- The rows of a reversal whose balance has changed.
unfoldable pub write_reversal_rows :
    NewIds
    → Key
    → Key
    → Transaction
    → JournalEntry
    → Posting
    → BalanceChange
    → M Db (Transaction × JournalEntry)
write_reversal_rows ids tenant actor original original_entry posting change = do
  let transaction = reversal_transaction ids tenant actor original change
  modify (λ (db : Db). record db { transactions = db.transactions ++ transaction ∷ [] })
  let entry = reversal_entry ids tenant actor original original_entry posting
  modify (λ (db : Db). record db { entries = db.entries ++ entry ∷ [] })
  modify (λ (db : Db). record db {
    transactions = update_many (is_transaction_id original.id) mark_reversed db.transactions;
  })
  pure (transaction, entry)

-- What follows the checks.
unfoldable pub write_reversal :
    NewIds → Key → Key → Transaction → JournalEntry → Posting → M Db (Transaction × JournalEntry)
unfolding reverse_direction apply_balance_change write_reversal_rows
write_reversal ids tenant actor original original_entry posting = do
  change ← apply_balance_change tenant original.account original.amount (reverse_direction original)
  write_reversal_rows ids tenant actor original original_entry posting change

-- From the check of the postings on.
unfoldable pub reverse_entry :
    NewIds → Key → Key → Transaction → JournalEntry → M Db (Transaction × JournalEntry)
unfolding write_reversal
reverse_entry ids tenant actor original original_entry = do
  posting ← or_throw (single_posting original_entry.postings) not_single_posting
  existing ← gets (λ (db : Db). find_first (is_reversal_of tenant original_entry.id) db.entries)
  throw_if (is_some existing) already_reversed
  write_reversal ids tenant actor original original_entry posting

unfoldable pub reverse_transaction : NewIds → Key → Key → Key → M Db (Transaction × JournalEntry)
unfolding is_transaction is_entry_of reverse_entry
reverse_transaction ids tenant actor id = do
  found ← gets (λ (db : Db). find_first (is_transaction tenant id) db.transactions)
  original ← or_throw found not_found
  throw_if (is_reversed original.status) already_reversed
  entry_found ← gets (λ (db : Db). find_first (is_entry_of tenant original.id) db.entries)
  original_entry ← or_throw entry_found no_linked_entry
  reverse_entry ids tenant actor original original_entry
