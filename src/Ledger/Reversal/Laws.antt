-- ===== src/Ledger/Reversal/Laws.antt =====
-- What a reversal that goes through has found and written.
use beba_sacco_backend.Base.{
  Key, ◌≡◌, refl, ◌⊎◌, inl, inr, false, none, some, List, [], ◌∷◌, ◌++◌, ok, arith, find_first,
  update_many, Option-cases,
}
use beba_sacco_backend.Base.Results.Inversion.{>>=-ok}
use beba_sacco_backend.Store.{Db, JournalEntry, Posting, Transaction}
use beba_sacco_backend.Ledger.Balance.{BalanceChange, apply_balance_change}
use beba_sacco_backend.Ledger.Balance.Laws.{Applied, apply_balance_change-Applied}
use beba_sacco_backend.Ledger.Entry.{NewIds, is_entry_of}
use beba_sacco_backend.Ledger.Reversal.{
  is_transaction, is_reversed, single_posting, reverse_direction, reversal_transaction,
  reversal_entry, is_transaction_id, mark_reversed, write_reversal, write_reversal_rows,
  reverse_entry, reverse_transaction,
}

pub record Reversed (ids : NewIds) (tenant actor : Key) (t : Transaction) (e : JournalEntry)
    (q : Posting) (db db' : Db) : Type 0 where
  pub change : BalanceChange
  pub changed : Db
  pub applied : Applied tenant t.account t.amount (reverse_direction t) db changed change
  pub written : db' ≡ record changed {
    transactions =
        update_many
          (is_transaction_id t.id)
          mark_reversed
          (changed.transactions ++ reversal_transaction ids tenant actor t change ∷ []);
    entries = changed.entries ++ reversal_entry ids tenant actor t e q ∷ [];
  }

write_reversal_rows-ok :
    (ids : NewIds) (tenant actor : Key) (t : Transaction) (e : JournalEntry) (q : Posting)
    (change : BalanceChange) (db db' : Db) {made : Transaction × JournalEntry}
    → write_reversal_rows ids tenant actor t e q change db ≡ ok (made, db')
    → db' ≡ record db {
      transactions =
          update_many
            (is_transaction_id t.id)
            mark_reversed
            (db.transactions ++ reversal_transaction ids tenant actor t change ∷ []);
      entries = db.entries ++ reversal_entry ids tenant actor t e q ∷ [];
    }
unfolding write_reversal_rows
write_reversal_rows-ok ids tenant actor t e q change db db' h = ground arith

pub write_reversal-Reversed :
    (ids : NewIds) (tenant actor : Key) (t : Transaction) (e : JournalEntry) (q : Posting)
    (db db' : Db) {made : Transaction × JournalEntry}
    → write_reversal ids tenant actor t e q db ≡ ok (made, db')
    → Reversed ids tenant actor t e q db db'
unfolding write_reversal
write_reversal-Reversed ids tenant actor t e q db db' h =
    let (change, changed, e1, h1) =
      >>=-ok (apply_balance_change tenant t.account t.amount (reverse_direction t))
        (write_reversal_rows ids tenant actor t e q) h in
    record {
      change = change;
      changed = changed;
      applied = apply_balance_change-Applied _ _ _ _ db changed change e1;
      written = write_reversal_rows-ok ids tenant actor t e q change changed db' h1;
    }

posting-cases : (qs : List Posting) → (single_posting qs ≡ none) ⊎ ((q : Posting) × (qs ≡ q ∷ []))
posting-cases [] = inl refl
posting-cases (q ∷ []) = inr (q, refl)
posting-cases (q ∷ r ∷ qs) = inl refl

reverse_entry-ok :
    (ids : NewIds) (tenant actor : Key) (t : Transaction) (e : JournalEntry) (db db' : Db)
    {made : Transaction × JournalEntry}
    → reverse_entry ids tenant actor t e db ≡ ok (made, db')
    → (q : Posting) × (e.postings ≡ q ∷ []) × Reversed ids tenant actor t e q db db'
unfolding reverse_entry
reverse_entry-ok ids tenant actor t e db db' {made} h = elim (posting-cases e.postings) [
  | inl other ↦ absurd (ground arith)
  | inr (q, one) ↦
      (q, one, write_reversal-Reversed ids tenant actor t e q db db' {made = made} (ground arith))
]

-- A reversal that goes through found the transaction, not yet reversed, and its journal entry, with
-- one posting; it moved the account and wrote the inverse rows.
pub reverse_transaction-ok :
    (ids : NewIds) (tenant actor id : Key) (db db' : Db) {made : Transaction × JournalEntry}
    → reverse_transaction ids tenant actor id db ≡ ok (made, db')
    → (t : Transaction) × (e : JournalEntry) × (q : Posting) × (find_first
          (is_transaction tenant id)
          db.transactions
        ≡ some t)
      × (is_reversed t.status ≡ false)
      × (find_first (is_entry_of tenant t.id) db.entries ≡ some e)
      × (e.postings ≡ q ∷ [])
      × Reversed ids tenant actor t e q db db'
unfolding reverse_transaction
reverse_transaction-ok ids tenant actor id db db' {made} h =
    elim (Option-cases (find_first (is_transaction tenant id) db.transactions)) [
      | inl missing ↦ absurd (ground arith)
      | inr (t, found) ↦ elim (Option-cases (find_first (is_entry_of tenant t.id) db.entries)) [
        | inl missing ↦ absurd (ground arith)
        | inr (e, entry_found) ↦
            let (q, one, reversed) =
              reverse_entry-ok ids tenant actor t e db db' {made = made} (ground arith) in
            (t, e, q, found, ground arith, entry_found, one, reversed)
      ]
    ]
