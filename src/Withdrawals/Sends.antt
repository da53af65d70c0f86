-- ===== src/Withdrawals/Sends.antt =====
-- The first request for a payout leaves for the provider (`executeB2cDisbursement` and what it
-- calls in src/modules/mpesa/mpesa.service.ts).
use beba_sacco_backend.Withdrawals.Settled.{closed_now}
use beba_sacco_backend.Base.{◌∙◌, Error, if◌then◌else◌, ap}
use beba_sacco_backend.Base.Results.Keeps.{Keeps}
use beba_sacco_backend.Ledger.Entry.{NewIds}
use beba_sacco_backend.Ledger.Reversal.{reverse_transaction}
use beba_sacco_backend.Ledger.Reversal.Laws.{reverse_transaction-ok}
use beba_sacco_backend.Base.Tables.Selections.{All-weaken}
use beba_sacco_backend.Base.{
  truthy, same_refl, none, ℕ, zero, suc, ◌≤◌, Key, same, same_opt, Bool, true, false, Option, some,
  List, [], ◌∷◌, ◌++◌, ◌≡◌, refl, arith, find_first, some_row, count_where, update_many, Bool-cases,
  inl, inr,
}
use beba_sacco_backend.Store.{Account, Db, MpesaTransaction}
use beba_sacco_backend.Withdrawals.{Site, update_withdrawals}
use beba_sacco_backend.Withdrawals.Benign.{IsBenign}
use beba_sacco_backend.Withdrawals.Steps.{Step, then_do-kept, give}
use beba_sacco_backend.Withdrawals.Run.{Run}
use beba_sacco_backend.Withdrawals.Payout.{
  Sent, Payout, is_sendable, send_attempted, request_out, send_order, send_claimed, submit, sent_as,
}
use beba_sacco_backend.Withdrawals.Disburse.{
  fail_with, is_source, pay_enabled, create_payout, pay_found, pay_order, pay_source, pay_mobile,
  build_order, pay_account, clashes, new_payout, execute, reference_of, is_reference,
}
use beba_sacco_backend.Withdrawals.Run.{Answer, replied, unavailable, not_sent}
use beba_sacco_backend.Withdrawals.Answered.{await_answer-benign}
use beba_sacco_backend.Withdrawals.Created.{all_false, none_found}

abbrev HasSent : List Key → Db → Type 0
HasSent sent db = db.sent ≡ sent

module _ (sent : List Key) where
  update-HasSent :
      (test : MpesaTransaction → Bool) (change : MpesaTransaction → MpesaTransaction)
      → IsBenign change
      → Keeps (HasSent sent) (update_withdrawals test change)
  unfolding update_withdrawals
  update-HasSent test change benign s s' a h e =
      let stored : s' ≡ record s { mpesa = update_many test change s.mpesa } = ground arith in
      rw stored h

  reverse-HasSent :
      (ids : NewIds) (tenant actor id : Key)
      → Keeps (HasSent sent) (reverse_transaction ids tenant actor id)
  reverse-HasSent ids tenant actor id s s' made h e =
      let (t, entry, q, found, fresh, entry_found, one, reversed) =
        reverse_transaction-ok ids tenant actor id s s' {made = made} e in
      rw (reversed.written, reversed.applied.written) h

-- Whether a request left for the provider.
abbrev leaves : Answer → Bool
leaves not_sent = false
leaves _ = true

abbrev pub sent_after : Answer → Key → List Key → List Key
sent_after answer order sent = if leaves answer then sent ++ order ∷ [] else sent

requested :
    (answer : Answer) (order : Key) (s : Db)
    → HasSent (sent_after answer order s.sent) (request_out answer order s)
requested not_sent order s = refl
requested unavailable order s = refl
requested (replied reply) order s = refl

send_claimed-sends :
    (site : Site) (run : Run) (id order : Key) (n : ℕ) (s : Db)
    → 1 ≤ n
    → (send_claimed site run id order n s).1.sent ≡ sent_after run.answer order s.sent
unfolding send_claimed send_order
send_claimed-sends site run id order zero s some_claimed = absurd (omega (arith, some_claimed))
send_claimed-sends site run id order (suc n) s some_claimed =
    let now_sent = sent_after run.answer order s.sent in
    await_answer-benign (HasSent now_sent) (update-HasSent now_sent) (reverse-HasSent now_sent) site
      run id order (request_out run.answer order s) (requested run.answer order s)

submit-sends :
    (site : Site) (run : Run) (id order : Key) (s : Db)
    → 1 ≤ count_where (is_sendable id) s.mpesa
    → (submit site run id order s).1.sent ≡ sent_after run.answer order s.sent
unfolding submit update_withdrawals
submit-sends site run id order s some_claimed =
    send_claimed-sends site run id order (count_where (is_sendable id) s.mpesa)
      (record s { mpesa = update_many (is_sendable id) (send_attempted run.now) s.mpesa })
      some_claimed

count-append_last :
    (p : MpesaTransaction → Bool) (rows : List MpesaTransaction) (y : MpesaTransaction)
    → p y ≡ true
    → 1 ≤ count_where p (rows ++ y ∷ [])
unfolding count_where
count-append_last p [] y h = rw h (omega arith)
count-append_last p (x ∷ rows) y h =
    let rest = count-append_last p rows y h in
    elim (Bool-cases (p x)) [ inl e ↦ rw e (omega arith) | inr e ↦ rw e (omega arith) ]

new-IsSendable :
    (p : Payout) (source : Option Key) (order : Key)
    → is_sendable p.row (new_payout p source order) ≡ true
unfolding same_opt same
new-IsSendable p source order = rw (same_refl p.row) refl

no_row :
    (q p : MpesaTransaction → Bool) (rows : List MpesaTransaction)
    → ((a : MpesaTransaction) → p a ≡ false → q a ≡ false)
    → some_row p rows ≡ false
    → find_first q rows ≡ none
no_row q p rows f free =
    none_found q rows
      (All-weaken (λ a. p a ≡ false) (λ a. q a ≡ false) f rows (all_false p rows free))

if_true : {A : Type 0} (b : Bool) (f g : Step A) → b ≡ true → (if b then f else g) ≡ f
if_true true f g e = refl
if_true false f g e = absurd (closed_now e)

module _ (site : Site) (p : Payout) (source : Key) (s : Db)
    (free : some_row (clashes p.row (some source) (build_order p (some source))) s.mpesa
      ≡ false) where
  order-sends :
      (pay_order site p (some source) (build_order p (some source)) none s).1.sent
      ≡ sent_after p.run.answer (build_order p (some source)) s.sent
  unfolding pay_order create_payout
  order-sends =
      let made = build_order p (some source) in
      let row = new_payout p (some source) made in
      let created : Db = record s { mpesa = s.mpesa ++ row ∷ [] } in
      rw free (
        then_do-kept (HasSent (sent_after p.run.answer made s.sent)) (submit site p.run p.row made)
          (λ _. give (sent_as made p.row)) created
          (submit-sends site p.run p.row made created (
            count-append_last (is_sendable p.row) s.mpesa row
              (new-IsSendable p (some source) made)))
          (λ _ t k. k))

  mobile-sends :
      (pay_mobile site p (some source) s).1.sent
      ≡ sent_after p.run.answer (build_order p (some source)) s.sent
  unfolding pay_mobile
  mobile-sends =
      let made = build_order p (some source) in
      rw
        (no_row (is_reference (reference_of made)) (clashes p.row (some source) made) s.mpesa
          (λ a k. ground arith) free)
        order-sends

  source-sends :
      site.provider_enabled ≡ true
      → (pay_source site p (some source) s).1.sent
        ≡ sent_after p.run.answer (build_order p (some source)) s.sent
  unfolding pay_source pay_found pay_enabled
  source-sends enabled =
      let made = build_order p (some source) in
      rw
        (no_row (is_source source) (clashes p.row (some source) made) s.mpesa (λ a k. ground arith)
          free)
        (ap (λ (step : Step Sent). (step s).1.sent)
            (if_true site.provider_enabled (pay_mobile site p (some source))
              (fail_with Error.provider_unavailable) enabled)
          ∙ mobile-sends)

-- The first request for the payout of a withdrawal from an account that is there, with the
-- provider enabled and no row with its id, source, conversation or reference: the order of the
-- payout, and no other one, leaves for the provider, whatever it answers or does not answer, unless
-- the client throws before its request, and then nothing leaves.
pub execute-sends :
    (site : Site) (p : Payout) (source : Key) (account : Account) (s : Db)
    → p.for_withdrawal ≡ true
    → find_first (λ (a : Account). same a.id p.reference_id) s.accounts ≡ some account
    → truthy p.source ≡ some source
    → site.provider_enabled ≡ true
    → some_row (clashes p.row (some source) (build_order p (some source))) s.mpesa ≡ false
    → (execute site p s).1.sent ≡ sent_after p.run.answer (build_order p (some source)) s.sent
unfolding execute pay_account
execute-sends site p source account s withdrawal found named enabled free =
    rw (withdrawal, found, named) (source-sends site p source s free enabled)
