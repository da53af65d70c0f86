-- ===== src/Ledger/Books/Reversal.antt =====
-- `reverseTransaction`: what it takes back, that it does so once, and what it does to a transaction
-- that had moved no balance.
use beba_sacco_backend.Base.{
  ap, Bool-cases, ◌∙◌, ℤ, pos, ◌+ℤ◌, ◌-ℤ◌, int_laws, leb_ℤ, ◌≡◌, refl, inl, inr, Key, same_refl,
  Bool, some, List, [], ◌∷◌, ◌++◌, total, Unique, ok, err, arith, find_first, update_many,
  already_reversed, if◌then◌else◌,
}
use beba_sacco_backend.Base.Tables.Laws.{find_first-append, find_first-update_many}
use beba_sacco_backend.Store.{Db, JournalEntry, Posting, Transaction}
use beba_sacco_backend.Ledger.Balance.{signed}
use beba_sacco_backend.Ledger.Balance.Laws.{account_key, Applied-total}
use beba_sacco_backend.Ledger.Entry.{NewIds, is_entry_of}
use beba_sacco_backend.Ledger.Reversal.{
  is_transaction, reverse_direction, reversal_entry, reverse_transaction, is_transaction_id,
  mark_reversed,
}
use beba_sacco_backend.Ledger.Reversal.Laws.{Reversed, reverse_transaction-ok}
use beba_sacco_backend.Ledger.Books.{posting_effect, entry_effect, deposits, balances}
use beba_sacco_backend.Ledger.Books.Entry.{Applied-deposits, deposits-append}

module _ (liability : Key → Bool) {ids : NewIds} {tenant actor : Key} {t : Transaction}
    {e : JournalEntry} {q : Posting} {db db' : Db}
    (reversed : Reversed ids tenant actor t e q db db') where
  swapped-effect :
      entry_effect liability (reversal_entry ids tenant actor t e q)
      ≡ pos 0 -ℤ posting_effect liability q
  unfolding entry_effect posting_effect total
  swapped-effect = omega int_laws

  Reversed-deposits : deposits liability db' ≡ deposits liability db -ℤ posting_effect liability q
  unfolding deposits
  Reversed-deposits =
      rw (reversed.written, deposits-append liability reversed.changed, swapped-effect)
        (rw (Applied-deposits liability reversed.applied) (omega int_laws))

Reversed-balances :
    {ids : NewIds} {tenant actor : Key} {t : Transaction} {e : JournalEntry} {q : Posting}
    {db db' : Db}
    → Reversed ids tenant actor t e q db db'
    → Unique account_key db.accounts
    → balances db' ≡ balances db +ℤ signed (reverse_direction t) t.amount
unfolding balances
Reversed-balances reversed u = rw reversed.written (Applied-total reversed.applied u)

against :
    (t : Transaction) (b : ℤ)
    → b +ℤ signed (reverse_direction t) t.amount
      ≡ (if leb_ℤ t.balance_before t.balance_after then b -ℤ t.amount else b +ℤ t.amount)
unfolding reverse_direction
against t b = elim (Bool-cases (leb_ℤ t.balance_before t.balance_after)) [
  | inl e ↦ rw e (omega int_laws)
  | inr e ↦ rw e
]

-- Where the accounts have different ids, a reversal that goes through takes the effect of the
-- original's one posting back out of the deposits, and moves the sum of the balances against the
-- way the original's two recorded balances went: by minus the amount where the balance had not
-- fallen, by plus the amount where it had.
pub reverse_transaction-takes_back :
    (liability : Key → Bool) (ids : NewIds) (tenant actor id : Key) (db db' : Db)
    (made : Transaction × JournalEntry)
    → Unique account_key db.accounts
    → reverse_transaction ids tenant actor id db ≡ ok (made, db')
    → (t : Transaction) × (e : JournalEntry) × (q : Posting) × (find_first
          (is_transaction tenant id)
          db.transactions
        ≡ some t)
      × (find_first (is_entry_of tenant t.id) db.entries ≡ some e)
      × (e.postings ≡ q ∷ [])
      × (deposits liability db' ≡ deposits liability db -ℤ posting_effect liability q)
      × (balances db' ≡ (
          if leb_ℤ t.balance_before t.balance_after
          then balances db -ℤ t.amount
          else balances db +ℤ t.amount))
reverse_transaction-takes_back liability ids tenant actor id db db' made u h =
    let (t, e, q, found, fresh, entry_found, one, reversed) =
      reverse_transaction-ok ids tenant actor id db db' {made = made} h in
    (
      t,
      e,
      q,
      found,
      entry_found,
      one,
      Reversed-deposits liability reversed,
      Reversed-balances reversed u ∙ against t (balances db),
    )

even :
    (t : Transaction) (b : ℤ)
    → t.balance_before ≡ t.balance_after
    → (if leb_ℤ t.balance_before t.balance_after then b -ℤ t.amount else b +ℤ t.amount)
      ≡ b -ℤ t.amount
even t b e = rw e (ground arith)

nothing_back : (d : ℤ) {x : ℤ} → x ≡ pos 0 → d -ℤ x ≡ d
nothing_back d e = rw e (omega int_laws)

found_marked :
    (tenant id : Key) (rows : List Transaction) (t r : Transaction)
    → find_first (is_transaction tenant id) rows ≡ some t
    → find_first
        (is_transaction tenant id)
        (update_many (is_transaction_id t.id) mark_reversed (rows ++ r ∷ []))
      ≡ some (mark_reversed t)
unfolding is_transaction
found_marked tenant id rows t r found =
    find_first-update_many (is_transaction tenant id) (is_transaction_id t.id) mark_reversed
      (λ a. refl) (rows ++ r ∷ [])
      (find_first-append (is_transaction tenant id) rows (r ∷ []) found)
    ∙ rw (same_refl t.id)

still_found :
    (id : Key) {ids : NewIds} {tenant actor : Key} {t : Transaction} {e : JournalEntry}
    {q : Posting} {db db' : Db}
    → Reversed ids tenant actor t e q db db'
    → find_first (is_transaction tenant id) db.transactions ≡ some t
    → find_first (is_transaction tenant id) db'.transactions ≡ some (mark_reversed t)
still_found id {tenant = tenant} {t = t} reversed found =
    rw reversed.written
      (found_marked tenant id reversed.changed.transactions t _ (rw reversed.applied.written found))

-- Where the accounts have different ids: a transaction whose recorded balances are equal, as
-- those of the rows of a repayment's penalty, interest and principal are, and whose one posting
-- leaves the deposits alone, moved no member's money. Its reversal, where it goes through, still
-- takes the amount from the member's account, and the deposits in the GL stay: the two books
-- part by the amount.
pub reverse_transaction-parts_books :
    (liability : Key → Bool) (ids : NewIds) (tenant actor id : Key) (db db' : Db)
    (made : Transaction × JournalEntry) (t : Transaction) (e : JournalEntry) (q : Posting)
    → Unique account_key db.accounts
    → find_first (is_transaction tenant id) db.transactions ≡ some t
    → t.balance_before ≡ t.balance_after
    → find_first (is_entry_of tenant t.id) db.entries ≡ some e
    → e.postings ≡ q ∷ []
    → posting_effect liability q ≡ pos 0
    → reverse_transaction ids tenant actor id db ≡ ok (made, db')
    → (balances db' ≡ balances db -ℤ t.amount) × (deposits liability db' ≡ deposits liability db)
reverse_transaction-parts_books liability ids tenant actor id db db' made t e q u found level
      entry_found one none_moved h =
    let (t', e', q', found', entry_found', one', taken, moved) =
      reverse_transaction-takes_back liability ids tenant actor id db db' made u h in
    let t_is : t' ≡ t = cc in
    let e_is : e' ≡ e = cc in
    let q_is : q' ≡ q = cc in
    (
      moved ∙ even t' (balances db) (cc) ∙ ap (λ (x : Transaction). balances db -ℤ x.amount) t_is,
      taken
          ∙ nothing_back (deposits liability db) (ap (posting_effect liability) q_is ∙ none_moved),
    )

-- A transaction is reversed at most once: after a reversal that goes through, another one of the
-- same transaction is refused, whoever asks for it.
pub reverse_transaction-once :
    (ids ids' : NewIds) (tenant actor actor' id : Key) (db db' : Db)
    (made : Transaction × JournalEntry)
    → reverse_transaction ids tenant actor id db ≡ ok (made, db')
    → reverse_transaction ids' tenant actor' id db' ≡ err already_reversed
unfolding reverse_transaction
reverse_transaction-once ids ids' tenant actor actor' id db db' made h =
    let (t, e, q, found, fresh, entry_found, one, reversed) =
      reverse_transaction-ok ids tenant actor id db db' {made = made} h in
    let still : find_first (is_transaction tenant id) db'.transactions ≡ some (mark_reversed t) =
      still_found id reversed found in
    rw still
