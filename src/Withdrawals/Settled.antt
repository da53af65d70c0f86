-- ===== src/Withdrawals/Settled.antt =====
-- What each operation on withdrawals keeps of one that has been paid out
-- (src/modules/mpesa/withdrawal-reconciliation.service.ts and src/modules/mpesa/mpesa.service.ts).
use beba_sacco_backend.Base.Results.Keeps.{Keeps}
use beba_sacco_backend.Base.{
  ◌∙◌, Key, same, same_opt, same→≡, Bool, true, false, some, List, [], ◌∷◌, ◌++◌, All, ◌≡◌, refl,
  sym, subst, arith, find_first, update_many, Bool-cases, inl, inr,
}
use beba_sacco_backend.Base.Tables.Laws.{
  All-update_many, find_first_passes, find_first-append, find_first-update_many,
}
use beba_sacco_backend.Store.{
  Posting, Db, MpesaTransaction, Transaction, TransactionStatus, JournalEntry, Posting,
}
use beba_sacco_backend.Ledger.Entry.{NewIds}
use beba_sacco_backend.Ledger.Reversal.{
  is_transaction, is_reversed, reverse_transaction, is_transaction_id, mark_reversed,
}
use beba_sacco_backend.Ledger.Reversal.Laws.{reverse_transaction-ok, Reversed}
use beba_sacco_backend.Withdrawals.{is_open, update_withdrawals}

pub closed_now : false ≡ true → ⊥
closed_now e = cc

pub same_apart : (a b c : Key) → same a c ≡ true → same b c ≡ false → same a b ≡ false
same_apart a b c here there = elim (Bool-cases (same a b)) [
  | inl e ↦ absurd (closed_now (sym there ∙ subst (λ k. same k c ≡ true) (same→≡ a b e) here))
  | inr e ↦ e
]

-- The withdrawal `w`, whose debit is the transaction `t` of the tenant
module _ (w tenant t : Key) where
  -- The row of `w` is paid out, and only it has the debit.
  pub record IsSettled (m : MpesaTransaction) : Type 0 where
    pub paid : same m.id w ≡ true → m.status ≡ TransactionStatus.completed
    pub own : same_opt m.transaction t ≡ true → same m.id w ≡ true

  abbrev pub HasDebit : List Transaction → Type 0
  HasDebit rows =
      (x : Transaction) × (find_first (is_transaction tenant t) rows ≡ some x)
      × (is_reversed x.status ≡ false)

  -- So it is in the whole store, and the debit has not been reversed.
  abbrev pub IsPaid : Db → Type 0
  IsPaid db = All IsSettled db.mpesa × HasDebit db.transactions

  pub still-IsSettled :
      (m n : MpesaTransaction)
      → n.id ≡ m.id
      → n.transaction ≡ m.transaction
      → n.status ≡ m.status
      → IsSettled m
      → IsSettled n
  still-IsSettled m n id link status h = record {
    paid = λ e. status ∙ h.paid (subst (λ k. same k w ≡ true) id e);
    own = λ e.
        subst (λ k. same k w ≡ true) (sym id) (h.own (subst (λ o. same_opt o t ≡ true) link e));
  }

  pub IsSettled-open :
      (m n : MpesaTransaction)
      → n.id ≡ m.id
      → n.transaction ≡ m.transaction
      → is_open m.status ≡ true
      → IsSettled m
      → IsSettled n
  IsSettled-open m n id link open_now h = record {
    paid = λ e. absurd (
        closed_now
          (subst (λ k. is_open k ≡ true) (h.paid (subst (λ k. same k w ≡ true) id e)) open_now));
    own = λ e.
        subst (λ k. same k w ≡ true) (sym id) (h.own (subst (λ o. same_opt o t ≡ true) link e));
  }

  pub update-Keeps :
      (test : MpesaTransaction → Bool) (change : MpesaTransaction → MpesaTransaction)
      → ((m : MpesaTransaction) → IsSettled m → test m ≡ true → IsSettled (change m))
      → Keeps IsPaid (update_withdrawals test change)
  unfolding update_withdrawals
  update-Keeps test change keep s s' a h e =
      let stored : s' ≡ record s { mpesa = update_many test change s.mpesa } = ground arith in
      subst IsPaid (sym stored) (All-update_many IsSettled test change keep s.mpesa h.0, h.1)

  other_debit :
      (x : Transaction) (rows : List Transaction) (o made : Transaction)
      → find_first (is_transaction tenant t) rows ≡ some x
      → same o.id t ≡ false
      → find_first
          (is_transaction tenant t)
          (update_many (is_transaction_id o.id) mark_reversed (rows ++ made ∷ []))
        ≡ some x
  unfolding is_transaction
  other_debit x rows o made found other =
      let passes = find_first_passes (is_transaction tenant t) rows found in
      let named : same x.id t ≡ true = ground arith in
      find_first-update_many (is_transaction tenant t) (is_transaction_id o.id) mark_reversed
        (λ a. refl) (rows ++ made ∷ [])
        (find_first-append (is_transaction tenant t) rows (made ∷ []) found)
      ∙ rw (same_apart x.id o.id t named other) refl

  Reversed-IsPaid :
      {ids : NewIds} {of actor : Key} {o : Transaction} {e : JournalEntry} {q : Posting} {s s' : Db}
      → Reversed ids of actor o e q s s'
      → same o.id t ≡ false
      → IsPaid s
      → IsPaid s'
  Reversed-IsPaid {o = o} {s = s} reversed other (settled, (x, found, standing)) =
      rw (reversed.written, reversed.applied.written)
        (settled, (x, other_debit x s.transactions o _ found other, standing))

  pub reverse_transaction-Keeps :
      (ids : NewIds) (of actor id : Key)
      → same id t ≡ false
      → Keeps IsPaid (reverse_transaction ids of actor id)
  unfolding is_transaction
  reverse_transaction-Keeps ids of actor id other s s' made h e =
      let (o, entry, q, o_found, fresh, entry_found, one, reversed) =
        reverse_transaction-ok ids of actor id s s' {made = made} e in
      let passes = find_first_passes (is_transaction of id) s.transactions o_found in
      let named : same o.id id ≡ true = ground arith in
      let apart : same o.id t ≡ false =
        subst (λ k. same k t ≡ false) (sym (same→≡ o.id id named)) other in
      Reversed-IsPaid reversed apart h
