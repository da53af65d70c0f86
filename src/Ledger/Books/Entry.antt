-- ===== src/Ledger/Books/Entry.antt =====
-- `postEntry` keeps the two books in step, keeps every account covered and is replayed harmlessly.
use beba_sacco_backend.Base.{
  int_laws, inr, inl, ok, All, Unique, Decimal, Rounding, ◌∙◌, ℤ, ◌+ℤ◌, ◌≡◌, Key, Bool, some, [],
  ◌∷◌, ◌++◌, total,
}
use beba_sacco_backend.Base.Tables.Laws.{total-append}
use beba_sacco_backend.Store.{Db, JournalEntry}
use beba_sacco_backend.Ledger.Balance.{Direction, signed, BalanceChange}
use beba_sacco_backend.Ledger.Balance.Laws.{
  Applied-IsCovered, Applied-Unique, IsCovered, Applied-total, account_key, Applied,
}
use beba_sacco_backend.Ledger.Entry.{post_entry, NewIds, EntryParams, Posted, new_entry}
use beba_sacco_backend.Ledger.Entry.Laws.{post_entry-outcome, Wrote}
use beba_sacco_backend.Ledger.Books.{
  gap, balances, expected_direction, entry_effect, deposits, IsChart,
}
use beba_sacco_backend.Ledger.Books.Effects.{posting_effect-signed, entry_effect-single}

module _ (liability : Key → Bool) {tenant id : Key} {amount : ℤ} {direction : Direction}
    {db db' : Db} {change : BalanceChange}
    (applied : Applied tenant id amount direction db db' change) where
  -- A balance change leaves the chart and the entries alone.
  pub Applied-IsChart : IsChart liability db.gl_accounts → IsChart liability db'.gl_accounts
  Applied-IsChart h = rw applied.written h

  pub Applied-deposits : deposits liability db' ≡ deposits liability db
  unfolding deposits
  Applied-deposits = rw applied.written

module _ (liability : Key → Bool) where
  pub deposits-append :
      (db : Db) (e : JournalEntry)
      → total (entry_effect liability) (db.entries ++ e ∷ [])
        ≡ deposits liability db +ℤ entry_effect liability e
  unfolding deposits
  deposits-append db e = total-append (entry_effect liability) db.entries e

  module _ {ids : NewIds} {p : EntryParams} {db db' : Db} {posted : Posted}
      (wrote : Wrote ids p db db' posted) (chart : IsChart liability db.gl_accounts)
      (expected : expected_direction p.kind ≡ some p.direction) where
    -- The new entry moves the deposits as the account was moved.
    new_entry-effect :
        entry_effect liability (new_entry ids p wrote.pair.0 wrote.pair.1)
        ≡ signed p.direction p.amount
    unfolding entry_effect
    new_entry-effect =
        entry_effect-single liability _
        ∙ posting_effect-signed liability wrote.change.account_type p.kind p.direction p.tenant
            wrote.changed.gl_accounts wrote.codes wrote.pair p.amount
            (Applied-IsChart liability wrote.applied chart) expected wrote.codes_are wrote.pair_is

    pub Wrote-deposits :
        deposits liability db' ≡ deposits liability db +ℤ signed p.direction p.amount
    unfolding deposits
    Wrote-deposits =
        rw (wrote.written, deposits-append wrote.changed, new_entry-effect)
          (rw (Applied-deposits liability wrote.applied))

pub Wrote-balances :
    {ids : NewIds} {p : EntryParams} {db db' : Db} {posted : Posted}
    → Wrote ids p db db' posted
    → Unique account_key db.accounts
    → balances db' ≡ balances db +ℤ signed p.direction p.amount
unfolding balances
Wrote-balances wrote u = rw wrote.written (Applied-total wrote.applied u)

-- Where the accounts have different ids and `liability` is right about the chart, a posting of a
-- kind that goes its expected way, once it goes through, leaves the difference between the
-- members' deposits in the GL and the sum of their balances as it was.
pub post_entry-gap :
    (liability : Key → Bool) (r : Rounding) (ids : NewIds) (p : EntryParams) (given : Decimal)
    (db db' : Db) (posted : Posted)
    → Unique account_key db.accounts
    → IsChart liability db.gl_accounts
    → expected_direction p.kind ≡ some p.direction
    → post_entry r ids p given db ≡ ok (posted, db')
    → gap liability db' ≡ gap liability db
unfolding gap
post_entry-gap liability r ids p given db db' posted u chart expected h =
    elim (post_entry-outcome r ids p given db db' posted h).1 [
      | inl (_, same_db) ↦ rw same_db
      | inr wrote ↦
          rw (Wrote-deposits liability wrote chart expected, Wrote-balances wrote u)
            (omega int_laws)
    ]

-- Where the accounts have different ids and each is covered, no posting that goes through, of
-- any kind and in any direction, uncovers one: the committed funds stay there, and the minimum
-- balance unless the account may go below it; and the ids stay different.
pub post_entry-IsCovered :
    (r : Rounding) (ids : NewIds) (p : EntryParams) (given : Decimal) (db db' : Db)
    (posted : Posted)
    → Unique account_key db.accounts
    → All IsCovered db.accounts
    → post_entry r ids p given db ≡ ok (posted, db')
    → Unique account_key db'.accounts × All IsCovered db'.accounts
post_entry-IsCovered r ids p given db db' posted u covered h =
    let (positive, outcome) = post_entry-outcome r ids p given db db' posted h in
    elim outcome [
      | inl (_, same_db) ↦ rw same_db (u, covered)
      | inr wrote ↦
          rw wrote.written
            (Applied-Unique wrote.applied u, Applied-IsCovered wrote.applied positive u covered)
    ]
