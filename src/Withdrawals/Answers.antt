-- ===== src/Withdrawals/Answers.antt =====
-- What the provider's answer leaves of a withdrawal that has been paid out
-- (`applyMwaloniStatus` of src/modules/mpesa/mpesa.service.ts).
use beba_sacco_backend.Base.Results.Keeps.{Keeps, >>=-Keeps, pure-Keeps, gets-Keeps, or_throw-Keeps}
use beba_sacco_backend.Base.{
  ◌&&◌, ℕ, Key, same, same_opt, same→≡, truthy, Bool, true, false, Option, none, some, ◌≡◌, refl,
  sym, ◌∙◌, subst, arith, ◌>>=◌, gets, pure, or_throw, find_first, Bool-cases, Option-cases, inl,
  inr, not_found,
}
use beba_sacco_backend.Base.Tables.Laws.{find_first-All}
use beba_sacco_backend.Store.{Db, MpesaTransaction, TransactionStatus}
use beba_sacco_backend.Ledger.Entry.{NewIds}
use beba_sacco_backend.Ledger.Reversal.{reverse_transaction}
use beba_sacco_backend.Withdrawals.{
  Site, Reply, is_open, is_open_id, is_withdrawal_id, is_fosa_withdrawal, update_withdrawals,
}
use beba_sacco_backend.Withdrawals.Settled.{
  closed_now, IsSettled, IsPaid, still-IsSettled, IsSettled-open, update-Keeps,
  reverse_transaction-Keeps,
}
use beba_sacco_backend.Withdrawals.Provider.{
  verdict_of, mark_mismatch, mark_outcome_unknown, outcome_unknown, paid_out, checked, refund,
  fail_open, payout_failed, fail_transaction, Verdict, mismatch, success, running, failure,
  verdict_of, carry_out, apply_status, status_reason, still_running, decided,
}

module _ (w tenant t : Key) where
  abbrev Paid : Db → Type 0
  Paid = IsPaid w tenant t

  pub open_and : (a b : Bool) → (a && b) ≡ true → b ≡ true
  open_and a b h = ground arith

  -- An update of rows that are open
  pub open_update-Keeps :
      (id : Key) (change : MpesaTransaction → MpesaTransaction)
      → ((m : MpesaTransaction) → (change m).id ≡ m.id)
      → ((m : MpesaTransaction) → (change m).transaction ≡ m.transaction)
      → Keeps Paid (update_withdrawals (is_open_id id) change)
  open_update-Keeps id change ids links =
      update-Keeps w tenant t (is_open_id id) change (λ m h passes.
        IsSettled-open w tenant t m (change m) (ids m) (links m)
          (open_and (same m.id id) (is_open m.status) passes) h)

  mark_mismatch-Keeps : (id : Key) (now : ℕ) → Keeps Paid (mark_mismatch id now)
  unfolding mark_mismatch
  mark_mismatch-Keeps id now =
      >>=-Keeps Paid
        (update_withdrawals (is_open_id id)
          (outcome_unknown "MWALONI_PROVIDER_RESPONSE_MISMATCH" now))
        (λ claim. pure tt)
        (open_update-Keeps id (outcome_unknown "MWALONI_PROVIDER_RESPONSE_MISMATCH" now) (λ m. refl)
          (λ m. refl))
        (λ claim. pure-Keeps Paid tt)

  pub mark_outcome_unknown-Keeps : (id : Key) (now : ℕ) → Keeps Paid (mark_outcome_unknown id now)
  unfolding mark_outcome_unknown
  mark_outcome_unknown-Keeps id now =
      >>=-Keeps Paid
        (update_withdrawals (is_open_id id)
          (outcome_unknown "MWALONI_PROVIDER_SEND_OUTCOME_UNKNOWN" now))
        (λ claim. pure tt)
        (open_update-Keeps id (outcome_unknown "MWALONI_PROVIDER_SEND_OUTCOME_UNKNOWN" now)
          (λ m. refl) (λ m. refl))
        (λ claim. pure-Keeps Paid tt)

  pub truthy-some : (o : Option Key) {a : Key} → truthy o ≡ some a → o ≡ some a
  unfolding truthy
  truthy-some none e = ground arith
  truthy-some (some s) e = elim (Bool-cases (same s "")) [
    | inl b ↦ ground arith
    | inr b ↦ ground arith
  ]

  -- The row `m` is not that of `w`, so its debit is another one.
  pub other_link :
      (m : MpesaTransaction) (a : Key)
      → IsSettled w tenant t m
      → same m.id w ≡ false
      → truthy m.transaction ≡ some a
      → same a t ≡ false
  unfolding same_opt same
  other_link m a h other link = elim (Bool-cases (same a t)) [
    | inl e ↦ absurd (
        closed_now (
          sym other
          ∙ h.own (subst (λ o. same_opt o t ≡ true) (sym (truthy-some m.transaction link)) e)))
    | inr e ↦ e
  ]

  refund-Keeps :
      (ids : NewIds) (actor : Key) (m : MpesaTransaction) (b : Bool) (o : Option Key)
      → IsSettled w tenant t m
      → same m.id w ≡ false
      → truthy m.transaction ≡ o
      → Keeps Paid (refund ids m.tenant actor b o)
  unfolding refund
  refund-Keeps ids actor m false none h other link = pure-Keeps Paid tt
  refund-Keeps ids actor m false (some a) h other link = pure-Keeps Paid tt
  refund-Keeps ids actor m true none h other link = pure-Keeps Paid tt
  refund-Keeps ids actor m true (some a) h other link =
      >>=-Keeps Paid (reverse_transaction ids m.tenant actor a) (λ made. pure tt)
        (reverse_transaction-Keeps w tenant t ids m.tenant actor a (other_link m a h other link))
        (λ made. pure-Keeps Paid tt)

  -- A row that is open is not that of `w`.
  pub open-other :
      (m : MpesaTransaction)
      → IsSettled w tenant t m
      → is_open m.status ≡ true
      → same m.id w ≡ false
  open-other m h e = elim (Bool-cases (same m.id w)) [
    | inl here ↦ absurd (closed_now (subst (λ k. is_open k ≡ true) (h.paid here) e))
    | inr there ↦ there
  ]

  -- A change of the rows with the id of another row
  other_row :
      (id : Key) (m n : MpesaTransaction)
      → n.id ≡ m.id
      → n.transaction ≡ m.transaction
      → same id w ≡ false
      → same m.id id ≡ true
      → IsSettled w tenant t m
      → IsSettled w tenant t n
  other_row id m n ids link other passes h = record {
    paid = λ e. absurd (
        closed_now (
          sym other
          ∙ subst (λ k. same k w ≡ true) (sym (sym (same→≡ m.id id passes) ∙ sym ids)) e));
    own = λ e.
        subst (λ k. same k w ≡ true) (sym ids) (h.own (subst (λ o. same_opt o t ≡ true) link e));
  }

  fail_open-Keeps :
      (ids : NewIds) (actor reason : Key) (now : ℕ) (m : MpesaTransaction) (b : Bool)
      → is_open m.status ≡ b
      → IsSettled w tenant t m
      → Keeps Paid (fail_open ids actor reason now m b)
  unfolding fail_open
  fail_open-Keeps ids actor reason now m false e h = pure-Keeps Paid tt
  fail_open-Keeps ids actor reason now m true e h =
      >>=-Keeps Paid (update_withdrawals (is_withdrawal_id m.id) (payout_failed reason now))
        (λ updated. refund ids m.tenant actor (is_fosa_withdrawal m) (truthy m.transaction))
        (update-Keeps w tenant t (is_withdrawal_id m.id) (payout_failed reason now) (λ a k passes.
          other_row m.id a (payout_failed reason now a) refl refl (open-other m h e) passes k))
        (λ updated.
          refund-Keeps ids actor m (is_fosa_withdrawal m) (truthy m.transaction) h
            (open-other m h e) refl)

  fail_transaction-Keeps :
      (ids : NewIds) (actor id reason : Key) (now : ℕ)
      → Keeps Paid (fail_transaction ids actor id reason now)
  unfolding fail_transaction
  fail_transaction-Keeps ids actor id reason now s s' a h e =
      elim (Option-cases (find_first (is_withdrawal_id id) s.mpesa)) [
        | inl missing ↦ absurd (ground arith)
        | inr (m, found) ↦
            fail_open-Keeps ids actor reason now m (is_open m.status) refl
              (find_first-All (IsSettled w tenant t) (is_withdrawal_id id) s.mpesa h.0 found) s s' a
              h (ground arith)
      ]

  carry_out-Keeps :
      (ids : NewIds) (actor : Key) (now : ℕ) (id status : Key) (v : Verdict)
      → Keeps Paid (carry_out ids actor now id status v)
  unfolding carry_out
  carry_out-Keeps ids actor now id status mismatch =
      >>=-Keeps Paid (mark_mismatch id now)
        (λ marked. pure (still_running TransactionStatus.recon_pending))
        (mark_mismatch-Keeps id now)
        (λ marked. pure-Keeps Paid (still_running TransactionStatus.recon_pending))
  carry_out-Keeps ids actor now id status success =
      >>=-Keeps Paid (update_withdrawals (is_open_id id) (paid_out now))
        (λ claim. pure (decided TransactionStatus.completed))
        (open_update-Keeps id (paid_out now) (λ m. refl) (λ m. refl))
        (λ claim. pure-Keeps Paid (decided TransactionStatus.completed))
  carry_out-Keeps ids actor now id status running =
      >>=-Keeps Paid (update_withdrawals (is_withdrawal_id id) (checked now))
        (λ updated. pure (still_running TransactionStatus.pending))
        (update-Keeps w tenant t (is_withdrawal_id id) (checked now)
          (λ m h passes. still-IsSettled w tenant t m (checked now m) refl refl refl h))
        (λ updated. pure-Keeps Paid (still_running TransactionStatus.pending))
  carry_out-Keeps ids actor now id status failure =
      >>=-Keeps Paid (fail_transaction ids actor id (status_reason status) now)
        (λ failed. pure (decided TransactionStatus.failed))
        (fail_transaction-Keeps ids actor id (status_reason status) now)
        (λ failed. pure-Keeps Paid (decided TransactionStatus.failed))

  pub apply_status-Keeps :
      (site : Site) (ids : NewIds) (actor : Key) (now : ℕ) (id : Key) (reply : Reply)
      → Keeps Paid (apply_status site ids actor now id reply)
  unfolding apply_status
  apply_status-Keeps site ids actor now id reply =
      let existing : Db → Option MpesaTransaction =
        λ (db : Db). find_first (is_withdrawal_id id) db.mpesa in
      >>=-Keeps Paid (gets existing)
        (λ found. or_throw found not_found >>= λ current.
          carry_out ids actor now id reply.status (verdict_of site current reply))
        (gets-Keeps Paid existing)
        (λ found.
          >>=-Keeps Paid (or_throw found not_found)
            (λ current. carry_out ids actor now id reply.status (verdict_of site current reply))
            (or_throw-Keeps Paid found not_found)
            (λ current.
              carry_out-Keeps ids actor now id reply.status (verdict_of site current reply)))
