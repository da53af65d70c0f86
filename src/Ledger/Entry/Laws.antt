-- ===== src/Ledger/Entry/Laws.antt =====
-- What a posting that goes through has written.
use beba_sacco_backend.Base.{
  err, Result, leb_ℤ→positive, inr, inl, amount_not_positive, leb_ℤ, find_first, throw_if,
  Option-cases, ◌≤ℤ◌, round4, ◌⊎◌, pos, Key, true, Decimal, Rounding, ◌≡◌, none, some, [], ◌∷◌,
  ◌++◌, ok, arith, or_throw, no_type_mapping, false,
}
use beba_sacco_backend.Base.Results.Inversion.{throw_if-ok, >>=-ok, or_throw-ok}
use beba_sacco_backend.Store.{Db, GlAccount, TransactionType}
use beba_sacco_backend.Ledger.Balance.{BalanceChange, apply_balance_change}
use beba_sacco_backend.Ledger.Balance.Laws.{Applied, apply_balance_change-Applied}
use beba_sacco_backend.Ledger.Gl.{CodePair, resolve_gl_codes, find_gl_account_pair}
use beba_sacco_backend.Ledger.Entry.{
  of_result, has_reference, Transaction, replay_entry, post_entry, post_entry_body, NewIds,
  EntryParams, Posted, transaction_type_of, new_transaction, new_entry, write_rows, write_entry,
}

pub record Wrote (ids : NewIds) (p : EntryParams) (db db' : Db) (posted : Posted) : Type 0 where
  pub change : BalanceChange
  pub changed : Db
  pub kind : TransactionType
  pub codes : CodePair
  pub pair : GlAccount × GlAccount
  pub applied : Applied p.tenant p.account p.amount p.direction db changed change
  pub kind_is : transaction_type_of p.kind ≡ some kind
  pub codes_are : resolve_gl_codes change.account_type p.kind p.direction none ≡ ok codes
  pub pair_is :
      find_gl_account_pair p.tenant codes.debit_code codes.credit_code changed.gl_accounts
      ≡ some pair
  pub posted_is : posted ≡ record {
    transaction = new_transaction ids p kind change;
    entry = new_entry ids p pair.0 pair.1;
    replayed = false;
  }
  pub written : db' ≡ record changed {
    transactions = changed.transactions ++ new_transaction ids p kind change ∷ [];
    entries = changed.entries ++ new_entry ids p pair.0 pair.1 ∷ [];
  }

pub write_rows-ok :
    (ids : NewIds) (p : EntryParams) (kind : TransactionType) (change : BalanceChange) (db db' : Db)
    (posted : Posted)
    → write_rows ids p kind change db ≡ ok (posted, db')
    → (codes : CodePair) × (pair : GlAccount × GlAccount) × (resolve_gl_codes change.account_type
          p.kind p.direction none
        ≡ ok codes)
      × (find_gl_account_pair p.tenant codes.debit_code codes.credit_code db.gl_accounts
          ≡ some pair)
      × (posted ≡ record {
        transaction = new_transaction ids p kind change;
        entry = new_entry ids p pair.0 pair.1;
        replayed = false;
      })
      × (db' ≡ record db {
        transactions = db.transactions ++ new_transaction ids p kind change ∷ [];
        entries = db.entries ++ new_entry ids p pair.0 pair.1 ∷ [];
      })
unfolding write_rows
write_rows-ok ids p kind change db db' posted h = ground arith

pub write_entry-Wrote :
    (ids : NewIds) (p : EntryParams) (db db' : Db) (posted : Posted)
    → write_entry ids p db ≡ ok (posted, db')
    → Wrote ids p db db' posted
unfolding write_entry
write_entry-Wrote ids p db db' posted h =
    let (change, changed, e1, h1) =
      >>=-ok (apply_balance_change p.tenant p.account p.amount p.direction) _ h in
    let (kind, db2, e2, h2) =
      >>=-ok (or_throw (transaction_type_of p.kind) no_type_mapping)
        (λ kind. write_rows ids p kind change) h1 in
    let (kind_is, same_db) = or_throw-ok _ _ e2 in
    let (codes, pair, codes_are, pair_is, posted_is, written) =
      write_rows-ok ids p kind change changed db' posted (rw same_db at h2) in
    record {
      change = change;
      changed = changed;
      kind = kind;
      codes = codes;
      pair = pair;
      applied = apply_balance_change-Applied _ _ _ _ db changed change e1;
      kind_is = kind_is;
      codes_are = codes_are;
      pair_is = pair_is;
      posted_is = posted_is;
      written = written;
    }

pub replay_entry-ok :
    (tenant : Key) (t : Transaction) (db db' : Db) (posted : Posted)
    → replay_entry tenant t db ≡ ok (posted, db')
    → (posted.replayed ≡ true) × (db' ≡ db)
unfolding replay_entry
replay_entry-ok tenant t db db' posted h = ground arith

post_entry_body-outcome :
    (ids : NewIds) (p : EntryParams) (db db' : Db) (posted : Posted)
    → post_entry_body ids p db ≡ ok (posted, db')
    → ((posted.replayed ≡ true) × (db' ≡ db)) ⊎ Wrote ids p db db' posted
unfolding post_entry_body
post_entry_body-outcome ids p db db' posted h =
    elim (Option-cases (find_first (has_reference p.tenant p.reference) db.transactions)) [
      | inl e ↦ inr (write_entry-Wrote ids p db db' posted (rw e at h))
      | inr (t, e) ↦ inl (replay_entry-ok p.tenant t db db' posted (rw e at h))
    ]

abbrev pub rounded : Rounding → EntryParams → Decimal → EntryParams
rounded r p given = record p { amount = round4 r given }

-- A posting that goes through has a positive amount, and either found its reference and wrote
-- nothing, or wrote one movement, one transaction row and one journal entry.
pub post_entry-outcome :
    (r : Rounding) (ids : NewIds) (p : EntryParams) (given : Decimal) (db db' : Db)
    (posted : Posted)
    → post_entry r ids p given db ≡ ok (posted, db')
    → (pos 1 ≤ℤ round4 r given)
      × (((posted.replayed ≡ true) × (db' ≡ db)) ⊎ Wrote ids (rounded r p given) db db' posted)
unfolding post_entry
post_entry-outcome r ids p given db db' posted h =
    let (u, db1, e, k) =
      >>=-ok (throw_if (leb_ℤ (round4 r given) (pos 0)) amount_not_positive)
        (λ _. post_entry_body ids (rounded r p given)) h in
    let (positive, same_db) = throw_if-ok _ _ e in
    (
      leb_ℤ→positive (round4 r given) positive,
      post_entry_body-outcome ids (rounded r p given) db db' posted (rw same_db at k),
    )

pub of_result-ok :
    {A : Type 0} (x : Result A) {a : A} {db db' : Db}
    → of_result x db ≡ ok (a, db')
    → (x ≡ ok a) × (db' ≡ db)
of_result-ok (ok a) h = (ground arith, ground arith)
of_result-ok (err e) h = cc
