-- ===== src/Ledger/Replay.antt =====
-- `postEntry` under repetition, and the kinds of posting that it refuses.
use beba_sacco_backend.Base.Results.Inversion.{Result-cases}
use beba_sacco_backend.Ledger.Balance.{Direction}
use beba_sacco_backend.Ledger.Gl.{CodePair, resolve_gl_codes}
use beba_sacco_backend.Ledger.Entry.{transaction_type_of}
use beba_sacco_backend.Ledger.Entry.Laws.{write_entry-Wrote}
use beba_sacco_backend.Store.{AccountType, TransactionType, JournalType}
use beba_sacco_backend.Base.{
  ap, sym, ◌∙◌, positive→leb_ℤ, pos, ◌≤ℤ◌, leb_ℤ, ◌≡◌, inl, inr, same_refl, Bool, true, false, none,
  some, ok, err, arith, find_first, Rounding, Decimal, round4, Error, Option-cases,
}
use beba_sacco_backend.Base.Tables.Laws.{find_first-append_new}
use beba_sacco_backend.Store.{Db, Transaction, JournalEntry, JournalType}
use beba_sacco_backend.Ledger.Entry.{
  NewIds, EntryParams, Posted, has_reference, is_entry_of, post_entry_body, post_entry,
  replay_entry,
}
use beba_sacco_backend.Ledger.Entry.Laws.{replay_entry-ok, Wrote, post_entry-outcome, rounded}
use beba_sacco_backend.Ledger.Books.{expected_direction}

module _ {ids : NewIds} {p : EntryParams} {db db' : Db} {posted : Posted}
    (wrote : Wrote ids p db db' posted) where
  reference_found :
      find_first (has_reference p.tenant p.reference) db.transactions ≡ none
      → find_first (has_reference p.tenant p.reference) db'.transactions ≡ some posted.transaction
  unfolding has_reference
  reference_found fresh =
      rw (wrote.written, wrote.posted_is)
        (find_first-append_new (has_reference p.tenant p.reference) wrote.changed.transactions _
          (rw wrote.applied.written fresh) (rw (same_refl p.tenant, same_refl p.reference)))

  entry_found :
      find_first (is_entry_of p.tenant ids.transaction) db.entries ≡ none
      → find_first (is_entry_of p.tenant ids.transaction) db'.entries ≡ some posted.entry
  unfolding is_entry_of
  entry_found fresh =
      rw (wrote.written, wrote.posted_is)
        (find_first-append_new (is_entry_of p.tenant ids.transaction) wrote.changed.entries _
          (rw wrote.applied.written fresh) (rw (same_refl p.tenant, same_refl ids.transaction)))

post_entry_body-fresh :
    (ids : NewIds) (p : EntryParams) (db db' : Db) (posted : Posted)
    → post_entry_body ids p db ≡ ok (posted, db')
    → posted.replayed ≡ false
    → find_first (has_reference p.tenant p.reference) db.transactions ≡ none
unfolding post_entry_body
post_entry_body-fresh ids p db db' posted h new =
    elim (Option-cases (find_first (has_reference p.tenant p.reference) db.transactions)) [
      | inl none_found ↦ none_found
      | inr (t, e) ↦ absurd (not_new (replay_entry-ok p.tenant t db db' posted (rw e at h)).0 new)
    ]
  where
    not_new : posted.replayed ≡ true → posted.replayed ≡ false → ⊥
    not_new a b = cc

true_and_false : {b : Bool} → b ≡ true → b ≡ false → ⊥
true_and_false p q = cc

post_entry_body-finds :
    (ids : NewIds) (p : EntryParams) (db : Db) {t : Transaction} {e : JournalEntry}
    → find_first (has_reference p.tenant p.reference) db.transactions ≡ some t
    → find_first (is_entry_of p.tenant t.id) db.entries ≡ some e
    → post_entry_body ids p db ≡ ok (record { transaction = t; entry = e; replayed = true }, db)
unfolding post_entry_body replay_entry
post_entry_body-finds ids p db f g = rw f (rw g)

-- From the outside, a positive amount leads to the body.
post_entry-body :
    (r : Rounding) (ids : NewIds) (p : EntryParams) (given : Decimal) (db : Db)
    → pos 1 ≤ℤ round4 r given
    → post_entry r ids p given db ≡ post_entry_body ids (rounded r p given) db
unfolding post_entry
post_entry-body r ids p given db positive =
    let tested : leb_ℤ (round4 r given) (pos 0) ≡ false =
      positive→leb_ℤ (round4 r given) positive in
    rw tested

-- Posting the same reference again, whatever else the second call asks for in amount, account or
-- direction, gives back the transaction and the entry of the first and changes nothing. The first
-- call wrote rows; the database gave its transaction an id that no earlier entry speaks of.
pub post_entry-replays :
    (r : Rounding) (ids ids' : NewIds) (p p' : EntryParams) (given given' : Decimal) (db db' : Db)
    (posted : Posted)
    → find_first (is_entry_of p.tenant ids.transaction) db.entries ≡ none
    → post_entry r ids p given db ≡ ok (posted, db')
    → posted.replayed ≡ false
    → p'.tenant ≡ p.tenant
    → p'.reference ≡ p.reference
    → pos 1 ≤ℤ round4 r given'
    → post_entry r ids' p' given' db' ≡ ok (record posted { replayed = true }, db')
post_entry-replays r ids ids' p p' given given' db db' posted fresh h new same_tenant same_reference
      positive =
    let (amount_positive, outcome) = post_entry-outcome r ids p given db db' posted h in
    let body : post_entry_body ids (rounded r p given) db ≡ ok (posted, db') =
      sym (post_entry-body r ids p given db amount_positive) ∙ h in
    elim outcome [
      | inl (again, _) ↦ absurd (true_and_false again new)
      | inr wrote ↦
          let none_before : find_first (has_reference p.tenant p.reference) db.transactions ≡ none =
            post_entry_body-fresh ids (rounded r p given) db db' posted body new in
          post_entry-body r ids' p' given' db' positive
          ∙ post_entry_body-finds ids' (rounded r p' given') db'
              (rw (same_tenant, same_reference) (reference_found wrote none_before))
              (rw (same_tenant, ap (λ (x : Posted). x.transaction.id) wrote.posted_is)
                (entry_found wrote fresh))
    ]

unexpected_kind :
    (t : AccountType) (kind : JournalType) (direction : Direction) {k : TransactionType}
    {codes : CodePair}
    → expected_direction kind ≡ none
    → transaction_type_of kind ≡ some k
    → resolve_gl_codes t kind direction none ≡ ok codes
    → ⊥
unfolding transaction_type_of resolve_gl_codes
unexpected_kind t kind direction e k c = ground arith

post_entry_body-new :
    (ids : NewIds) (p : EntryParams) (db db' : Db) (posted : Posted)
    → find_first (has_reference p.tenant p.reference) db.transactions ≡ none
    → post_entry_body ids p db ≡ ok (posted, db')
    → Wrote ids p db db' posted
unfolding post_entry_body
post_entry_body-new ids p db db' posted new h = write_entry-Wrote ids p db db' posted (rw new at h)

-- A dividend payout, a transfer and every kind that has no operational transaction type are refused
-- by `postEntry` under a reference that is new: it never writes them.
post_entry-refuses :
    (r : Rounding) (ids : NewIds) (p : EntryParams) (given : Decimal) (db : Db)
    → expected_direction p.kind ≡ none
    → find_first (has_reference p.tenant p.reference) db.transactions ≡ none
    → (e : Error) × (post_entry r ids p given db ≡ err e)
post_entry-refuses r ids p given db unexpected new =
    elim (Result-cases (post_entry r ids p given db)) [
      | inr (e, thrown) ↦ (e, thrown)
      | inl ((posted, db'), h) ↦
          let (positive, outcome) = post_entry-outcome r ids p given db db' posted h in
          let wrote : Wrote ids (rounded r p given) db db' posted =
            post_entry_body-new ids (rounded r p given) db db' posted new
              (sym (post_entry-body r ids p given db positive) ∙ h) in
          absurd (
            unexpected_kind wrote.change.account_type p.kind p.direction unexpected wrote.kind_is
              wrote.codes_are)
    ]
