-- ===== src/Ledger/Transfer.antt =====
-- `postInternalTransfer` of src/modules/accounting/ledger.service.ts.
pub mod Laws
use beba_sacco_backend.Base.{
  ℤ, pos, leb_ℤ, Key, same, join, Bool, true, false, Option, none, some, [], ◌∷◌, ◌++◌, M, ◌>>=◌,
  ◌>>◌, pure, gets, modify, or_throw, throw_if, amount_not_positive, same_account, partial_transfer,
  find_first, gl_not_configured, update_many, Rounding, Decimal, round4,
}
use beba_sacco_backend.Store.{
  Db, JournalType, JournalEntry, GlAccount, Transaction, TransactionType, TransactionStatus,
}
use beba_sacco_backend.Ledger.Balance.{debit, credit, BalanceChange, apply_balance_change}
use beba_sacco_backend.Ledger.Gl.{resolve_gl_codes, find_gl_account_pair}
use beba_sacco_backend.Ledger.Entry.{has_reference, is_entry_of, of_result}

pub record TransferIds : Type 0 where
  pub source : Key
  pub destination : Key
  pub entry : Key

pub record TransferParams : Type 0 where
  pub tenant : Key
  pub from_account : Key
  pub to_account : Key
  pub reference : Key
  pub actor : Key

pub record Transferred : Type 0 where
  pub source : Transaction
  pub destination : Transaction
  pub entry : JournalEntry
  pub replayed : Bool

abbrev pub transfer_row :
    Key → TransferParams → Key → Key → ℤ → BalanceChange → Option Key → Transaction
transfer_row id p account reference amount change linked = record {
  id = id;
  tenant = p.tenant;
  account = account;
  loan = none;
  kind = TransactionType.transfer;
  status = TransactionStatus.completed;
  amount = amount;
  balance_before = change.balance_before;
  balance_after = change.balance_after;
  reference = reference;
  processed_by = p.actor;
  linked = linked;
}

abbrev pub transfer_entry : TransferIds → TransferParams → ℤ → GlAccount → GlAccount → JournalEntry
transfer_entry ids p amount d c = record {
  id = ids.entry;
  tenant = p.tenant;
  entry_number = join "JE-LEDGER-" p.reference;
  kind = JournalType.transfer;
  about_transaction = true;
  reference_id = ids.source;
  total_amount = amount;
  created_by = p.actor;
  reversal_of = none;
  postings = record { debit_account = d.id; credit_account = c.id; amount = amount } ∷ [];
}

abbrev pub has_id : Key → Transaction → Bool
has_id id t = same t.id id

abbrev pub link_to : Key → Transaction → Transaction
link_to other t = record t { linked = some other }

-- The rows of a transfer whose two balances have changed.
unfoldable pub write_transfer_rows :
    TransferIds → TransferParams → ℤ → BalanceChange → BalanceChange → M Db Transferred
unfolding find_gl_account_pair resolve_gl_codes
write_transfer_rows ids p amount from_change to_change = do
  let source =
      transfer_row ids.source p p.from_account (join p.reference "-SRC") amount from_change none
  modify (λ (db : Db). record db { transactions = db.transactions ++ source ∷ [] })
  let destination =
      transfer_row ids.destination p p.to_account (join p.reference "-DST") amount to_change
        (some ids.source)
  modify (λ (db : Db). record db { transactions = db.transactions ++ destination ∷ [] })
  modify (λ (db : Db). record db {
    transactions = update_many (has_id ids.source) (link_to ids.destination) db.transactions;
  })
  codes ← of_result (
      resolve_gl_codes from_change.account_type JournalType.transfer debit
        (some to_change.account_type))
  pair ←
      gets (λ (db : Db).
        find_gl_account_pair p.tenant codes.debit_code codes.credit_code db.gl_accounts)
  (d, c) ← or_throw pair gl_not_configured
  let entry = transfer_entry ids p amount d c
  modify (λ (db : Db). record db { entries = db.entries ++ entry ∷ [] })
  pure (record {
    source = link_to ids.destination source;
    destination = destination;
    entry = entry;
    replayed = false;
  })

-- Both legs and the one journal entry.
unfoldable pub write_transfer : TransferIds → TransferParams → ℤ → M Db Transferred
unfolding apply_balance_change write_transfer_rows
write_transfer ids p amount = do
  from_change ← apply_balance_change p.tenant p.from_account amount debit
  to_change ← apply_balance_change p.tenant p.to_account amount credit
  write_transfer_rows ids p amount from_change to_change

unfoldable pub replay_transfer : TransferParams → Transaction → M Db Transferred
replay_transfer p source = do
  found ←
      gets
        (λ (db : Db). find_first (has_reference p.tenant (join p.reference "-DST")) db.transactions)
  entry_found ← gets (λ (db : Db). find_first (is_entry_of p.tenant source.id) db.entries)
  destination ← or_throw found partial_transfer
  entry ← or_throw entry_found partial_transfer
  pure (record { source = source; destination = destination; entry = entry; replayed = true })

abbrev pub replay_or_transfer :
    TransferIds → TransferParams → ℤ → Option Transaction → M Db Transferred
replay_or_transfer ids p amount (some t) = replay_transfer p t
replay_or_transfer ids p amount none = write_transfer ids p amount

unfoldable pub post_internal_transfer :
    Rounding → TransferIds → TransferParams → Decimal → M Db Transferred
unfolding write_transfer replay_transfer round4
post_internal_transfer r ids p given = do
  throw_if (leb_ℤ (round4 r given) (pos 0)) amount_not_positive
  throw_if (same p.from_account p.to_account) same_account
  existing ←
      gets
        (λ (db : Db). find_first (has_reference p.tenant (join p.reference "-SRC")) db.transactions)
  replay_or_transfer ids p (round4 r given) existing
