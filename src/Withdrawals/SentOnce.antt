-- ===== src/Withdrawals/SentOnce.antt =====
-- No payout order is sent to the provider twice (`submitMwaloniMobilePayout` and its callers in
-- src/modules/mpesa/mpesa.service.ts): what is kept of one order.
use beba_sacco_backend.Base.Results.Keeps.{Keeps}
use beba_sacco_backend.Base.{
  ℕ, Key, same, Bool, true, false, some, List, [], ◌∷◌, All, Unique, ◌≡◌, refl, sym, ◌∙◌, subst,
  arith, some_row, count_where, update_many, Bool-cases, inl, inr, ◌⊎◌,
}
use beba_sacco_backend.Base.Tables.Laws.{All-update_many, Unique-update_many}
use beba_sacco_backend.Store.{Db, MpesaTransaction}
use beba_sacco_backend.Ledger.Entry.{NewIds}
use beba_sacco_backend.Ledger.Reversal.{reverse_transaction}
use beba_sacco_backend.Ledger.Reversal.Laws.{reverse_transaction-ok}
use beba_sacco_backend.Withdrawals.{update_withdrawals}
use beba_sacco_backend.Withdrawals.Settled.{closed_now}
use beba_sacco_backend.Withdrawals.Interrupted.{withdrawal_key}
use beba_sacco_backend.Withdrawals.Benign.{IsBenign}
use beba_sacco_backend.Withdrawals.Payout.{is_local}
use beba_sacco_backend.Withdrawals.Disburse.{reference_of, is_reference}

abbrev pub sends_of : Key → List Key → ℕ
sends_of o sent = count_where (λ (k : Key). same k o) sent

-- A row that is ready to be sent has the reference of its order.
abbrev pub IsBuilt : MpesaTransaction → Type 0
IsBuilt m = is_local m ≡ true → (c : Key) → m.conversation ≡ some c → m.reference ≡ reference_of c

-- The order has a row, and none of its rows is ready to be sent.
abbrev pub IsUsed : Key → List MpesaTransaction → Type 0
IsUsed o rows =
    (some_row (is_reference (reference_of o)) rows ≡ true)
    × All (λ m. same m.reference (reference_of o) ≡ true → is_local m ≡ false) rows

abbrev pub IsOwned : Key → List MpesaTransaction → Type 0
IsOwned o rows =
    (i : Key) × All (λ m. same m.reference (reference_of o) ≡ true → same m.id i ≡ true) rows

-- The order `o` was not sent yet, or once, and then it is used up.
abbrev pub IsOrderly : Key → List MpesaTransaction → List Key → Type 0
IsOrderly o rows sent =
    Unique withdrawal_key rows
    × All IsBuilt rows
    × IsOwned o rows
    × ((sends_of o sent ≡ 0) ⊎ ((sends_of o sent ≡ 1) × IsUsed o rows))

abbrev pub Orderly : Key → Db → Type 0
Orderly o db = IsOrderly o db.mpesa db.sent

pub some_row-update_many :
    (p q : MpesaTransaction → Bool) (f : MpesaTransaction → MpesaTransaction)
    → ((a : MpesaTransaction) → p (f a) ≡ p a)
    → (xs : List MpesaTransaction) → some_row p (update_many q f xs) ≡ some_row p xs
unfolding some_row update_many
some_row-update_many p q f keep [] = refl
some_row-update_many p q f keep (x ∷ xs) = elim (Bool-cases (q x)) [
  | inl e ↦ rw (e, keep x, some_row-update_many p q f keep xs) refl
  | inr e ↦ rw (e, some_row-update_many p q f keep xs) refl
]

module _ (o : Key) where
  not_local :
      (change : MpesaTransaction → MpesaTransaction)
      → IsBenign change
      → (m : MpesaTransaction) → is_local m ≡ false
      → is_local (change m) ≡ false
  not_local change benign m h = elim (Bool-cases (is_local (change m))) [
    | inl e ↦ absurd (closed_now (sym h ∙ benign.local m e))
    | inr e ↦ e
  ]

  benign-IsUsed :
      (test : MpesaTransaction → Bool) (change : MpesaTransaction → MpesaTransaction)
      (rows : List MpesaTransaction)
      → IsBenign change
      → IsUsed o rows
      → IsUsed o (update_many test change rows)
  benign-IsUsed test change rows benign (there, used) = (
    some_row-update_many (is_reference (reference_of o)) test change
          (λ a. rw (benign.reference a) refl) rows
        ∙ there,
    All-update_many (λ m. same m.reference (reference_of o) ≡ true → is_local m ≡ false) test change
        (λ m k passes e.
          not_local change benign m
            (k (subst (λ r. same r (reference_of o) ≡ true) (benign.reference m) e)))
        rows used,
  )

  benign-state :
      (test : MpesaTransaction → Bool) (change : MpesaTransaction → MpesaTransaction)
      (rows : List MpesaTransaction) (sent : List Key)
      → IsBenign change
      → (sends_of o sent ≡ 0) ⊎ ((sends_of o sent ≡ 1) × IsUsed o rows)
      → (sends_of o sent ≡ 0) ⊎ ((sends_of o sent ≡ 1) × IsUsed o (update_many test change rows))
  benign-state test change rows sent benign (inl fresh) = inl fresh
  benign-state test change rows sent benign (inr (once, used)) =
      inr (once, benign-IsUsed test change rows benign used)

  pub benign-IsOrderly :
      (test : MpesaTransaction → Bool) (change : MpesaTransaction → MpesaTransaction)
      (rows : List MpesaTransaction) (sent : List Key)
      → IsBenign change
      → IsOrderly o rows sent
      → IsOrderly o (update_many test change rows) sent
  benign-IsOrderly test change rows sent benign (unique, built, (i, owned), state) = (
    Unique-update_many withdrawal_key test change (benign.id) rows unique,
    All-update_many IsBuilt test change
        (λ m k passes local c conv.
          benign.reference m ∙ k (benign.local m local) c (sym (benign.conversation m) ∙ conv))
        rows built,
    (
      i,
      All-update_many (λ m. same m.reference (reference_of o) ≡ true → same m.id i ≡ true) test
          change
          (λ m k passes e.
            subst (λ d. same d i ≡ true) (sym (benign.id m))
              (k (subst (λ r. same r (reference_of o) ≡ true) (benign.reference m) e)))
          rows owned,
    ),
    benign-state test change rows sent benign state,
  )

  pub update-Orderly :
      (test : MpesaTransaction → Bool) (change : MpesaTransaction → MpesaTransaction)
      → IsBenign change
      → Keeps (Orderly o) (update_withdrawals test change)
  unfolding update_withdrawals
  update-Orderly test change benign s s' a h e =
      let stored : s' ≡ record s { mpesa = update_many test change s.mpesa } = ground arith in
      rw stored (benign-IsOrderly test change s.mpesa s.sent benign h)

  pub reverse-Orderly :
      (ids : NewIds) (tenant actor id : Key)
      → Keeps (Orderly o) (reverse_transaction ids tenant actor id)
  reverse-Orderly ids tenant actor id s s' made h e =
      let (t, entry, q, found, fresh, entry_found, one, reversed) =
        reverse_transaction-ok ids tenant actor id s s' {made = made} e in
      rw (reversed.written, reversed.applied.written) h
