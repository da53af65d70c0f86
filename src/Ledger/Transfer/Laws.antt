-- ===== src/Ledger/Transfer/Laws.antt =====
-- What an internal transfer that goes through has written.
use beba_sacco_backend.Base.Results.Inversion.{Result-cases}
use beba_sacco_backend.Base.{
  Option-cases, update_many, ℤ, pos, ◌≤ℤ◌, same, join, ◌≡◌, ◌⊎◌, inl, inr, Option, none, some, List,
  [], ◌∷◌, ◌++◌, ok, arith, true, throw_if, amount_not_positive, same_account, find_first, Rounding,
  Decimal, round4, leb_ℤ, leb_ℤ→positive,
}
use beba_sacco_backend.Base.Results.Inversion.{>>=-ok, throw_if-ok}
use beba_sacco_backend.Store.{Db, GlAccount, JournalType, Transaction}
use beba_sacco_backend.Ledger.Balance.{debit, credit, BalanceChange, apply_balance_change}
use beba_sacco_backend.Ledger.Balance.Laws.{Applied, apply_balance_change-Applied}
use beba_sacco_backend.Ledger.Gl.{CodePair, resolve_gl_codes, find_gl_account_pair}
use beba_sacco_backend.Ledger.Entry.{has_reference}
use beba_sacco_backend.Ledger.Transfer.{
  transfer_row, link_to, has_id, TransferIds, TransferParams, Transferred, transfer_entry,
  write_transfer_rows, write_transfer, replay_transfer, replay_or_transfer, post_internal_transfer,
}

-- The transactions after a transfer: both legs added, and the first linked to the second.
abbrev moved_rows :
    TransferIds
    → TransferParams
    → ℤ
    → BalanceChange
    → BalanceChange
    → List Transaction
    → List Transaction
moved_rows ids p amount from_change to_change rows =
    update_many (has_id ids.source) (link_to ids.destination) (
      (rows
        ++ transfer_row ids.source p p.from_account (join p.reference "-SRC") amount from_change
            none
          ∷ [])
      ++ transfer_row ids.destination p p.to_account (join p.reference "-DST") amount to_change
          (some ids.source)
        ∷ [])

pub record Moved (ids : TransferIds) (p : TransferParams) (amount : ℤ) (db db' : Db) : Type 0 where
  pub from_change : BalanceChange
  pub to_change : BalanceChange
  pub debited : Db
  pub credited : Db
  pub codes : CodePair
  pub pair : GlAccount × GlAccount
  pub taken : Applied p.tenant p.from_account amount debit db debited from_change
  pub given : Applied p.tenant p.to_account amount credit debited credited to_change
  pub codes_are :
      resolve_gl_codes from_change.account_type JournalType.transfer debit
        (some to_change.account_type)
      ≡ ok codes
  pub pair_is :
      find_gl_account_pair p.tenant codes.debit_code codes.credit_code credited.gl_accounts
      ≡ some pair
  pub written : db' ≡ record credited {
    transactions = moved_rows ids p amount from_change to_change credited.transactions;
    entries = credited.entries ++ transfer_entry ids p amount pair.0 pair.1 ∷ [];
  }

write_transfer_rows-ok :
    (ids : TransferIds) (p : TransferParams) (amount : ℤ) (from_change to_change : BalanceChange)
    (db db' : Db) (done : Transferred)
    → write_transfer_rows ids p amount from_change to_change db ≡ ok (done, db')
    → (codes : CodePair) × (pair : GlAccount × GlAccount) × (resolve_gl_codes
          from_change.account_type JournalType.transfer debit
          (some to_change.account_type)
        ≡ ok codes)
      × (find_gl_account_pair p.tenant codes.debit_code codes.credit_code db.gl_accounts
          ≡ some pair)
      × (db' ≡ record db {
        transactions = moved_rows ids p amount from_change to_change db.transactions;
        entries = db.entries ++ transfer_entry ids p amount pair.0 pair.1 ∷ [];
      })
unfolding write_transfer_rows
write_transfer_rows-ok ids p amount from_change to_change db db' done h =
    elim (Result-cases (
      resolve_gl_codes from_change.account_type JournalType.transfer debit
        (some to_change.account_type))) [
          | inr (e, thrown) ↦ absurd (ground arith)
          | inl (codes, codes_are) ↦
              elim (Option-cases
                (find_gl_account_pair p.tenant codes.debit_code codes.credit_code db.gl_accounts)) [
                  | inl missing ↦ absurd (ground arith)
                  | inr (pair, pair_is) ↦ (codes, pair, codes_are, pair_is, ground arith)
                ]
        ]

write_transfer-Moved :
    (ids : TransferIds) (p : TransferParams) (amount : ℤ) (db db' : Db) (done : Transferred)
    → write_transfer ids p amount db ≡ ok (done, db')
    → Moved ids p amount db db'
unfolding write_transfer
write_transfer-Moved ids p amount db db' done h =
    let (from_change, debited, e1, h1) =
      >>=-ok (apply_balance_change p.tenant p.from_account amount debit) _ h in
    let (to_change, credited, e2, h2) =
      >>=-ok (apply_balance_change p.tenant p.to_account amount credit)
        (λ c. write_transfer_rows ids p amount from_change c) h1 in
    let (codes, pair, codes_are, pair_is, written) =
      write_transfer_rows-ok ids p amount from_change to_change credited db' done h2 in
    record {
      from_change = from_change;
      to_change = to_change;
      debited = debited;
      credited = credited;
      codes = codes;
      pair = pair;
      taken = apply_balance_change-Applied _ _ _ _ db debited from_change e1;
      given = apply_balance_change-Applied _ _ _ _ debited credited to_change e2;
      codes_are = codes_are;
      pair_is = pair_is;
      written = written;
    }

replay_transfer-ok :
    (p : TransferParams) (t : Transaction) (db db' : Db) (done : Transferred)
    → replay_transfer p t db ≡ ok (done, db')
    → (done.replayed ≡ true) × (db' ≡ db)
unfolding replay_transfer
replay_transfer-ok p t db db' done h = ground arith

replay_or_transfer-outcome :
    (ids : TransferIds) (p : TransferParams) (amount : ℤ) (found : Option Transaction) (db db' : Db)
    (done : Transferred)
    → replay_or_transfer ids p amount found db ≡ ok (done, db')
    → ((done.replayed ≡ true) × (db' ≡ db)) ⊎ Moved ids p amount db db'
replay_or_transfer-outcome ids p amount none db db' done h =
    inr (write_transfer-Moved ids p amount db db' done h)
replay_or_transfer-outcome ids p amount (some t) db db' done h =
    inl (replay_transfer-ok p t db db' done h)

pub post_internal_transfer-outcome :
    (r : Rounding) (ids : TransferIds) (p : TransferParams) (given : Decimal) (db db' : Db)
    (done : Transferred)
    → post_internal_transfer r ids p given db ≡ ok (done, db')
    → (pos 1 ≤ℤ round4 r given)
      × (((done.replayed ≡ true) × (db' ≡ db)) ⊎ Moved ids p (round4 r given) db db')
unfolding post_internal_transfer
post_internal_transfer-outcome r ids p given db db' done h =
    let amount : ℤ = round4 r given in
    let (u, db1, e, k) = >>=-ok (throw_if (leb_ℤ amount (pos 0)) amount_not_positive) _ h in
    let (positive, same_db) = throw_if-ok _ _ e in
    let (v, db2, e2, k2) =
      >>=-ok (throw_if (same p.from_account p.to_account) same_account) _ (rw same_db at k) in
    let (differ, same_db2) = throw_if-ok _ _ e2 in
    (
      leb_ℤ→positive amount positive,
      replay_or_transfer-outcome ids p amount
          (find_first (has_reference p.tenant (join p.reference "-SRC")) db.transactions) db db'
          done (rw same_db2 at k2),
    )
