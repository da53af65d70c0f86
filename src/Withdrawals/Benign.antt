-- ===== src/Withdrawals/Benign.antt =====
-- What the provider's answers keep of the payouts: the keys of their rows, and that no row becomes
-- ready to be sent (src/modules/mpesa/mpesa.service.ts).
use beba_sacco_backend.Base.Results.Keeps.{Keeps, >>=-Keeps, pure-Keeps, gets-Keeps, or_throw-Keeps}
use beba_sacco_backend.Base.{
  ℕ, Key, same, same_opt, truthy, Bool, true, false, ◌&&◌, Option, none, some, ◌≡◌, refl, arith, M,
  ◌>>=◌, gets, pure, or_throw, find_first, not_found, if◌then◌else◌,
}
use beba_sacco_backend.Store.{Db, MpesaTransaction, TransactionStatus}
use beba_sacco_backend.Ledger.Entry.{NewIds}
use beba_sacco_backend.Ledger.Reversal.{reverse_transaction, is_some}
use beba_sacco_backend.Withdrawals.{
  Site, Reply, is_open, is_open_id, is_withdrawal_id, is_fosa_withdrawal, update_withdrawals,
}
use beba_sacco_backend.Withdrawals.Provider.{
  mark_mismatch, mark_outcome_unknown, outcome_unknown, paid_out, checked, refund, fail_open,
  payout_failed, fail_transaction, Verdict, mismatch, success, running, failure, verdict_of,
  carry_out, apply_status, status_reason, still_running, decided,
}
use beba_sacco_backend.Withdrawals.Steps.{
  Step, committed, then_do, give, StepKeeps, committed-StepKeeps, then_do-StepKeeps,
}
use beba_sacco_backend.Withdrawals.Run.{
  Answer, replied, unavailable, not_sent, Run, ask, ask_open, ask_about, unknown, already,
  refresh_status,
}
use beba_sacco_backend.Withdrawals.Payout.{is_local}

-- The change keeps the keys of a row and does not make it ready to be sent.
pub record IsBenign (change : MpesaTransaction → MpesaTransaction) : Type 0 where
  pub id : (m : MpesaTransaction) → (change m).id ≡ m.id
  pub conversation : (m : MpesaTransaction) → (change m).conversation ≡ m.conversation
  pub reference : (m : MpesaTransaction) → (change m).reference ≡ m.reference
  pub local : (m : MpesaTransaction) → is_local (change m) ≡ true → is_local m ≡ true

module _ (P : Db → Type 0)
    (update : (test : MpesaTransaction → Bool) (change : MpesaTransaction → MpesaTransaction)
      → IsBenign change
      → Keeps P (update_withdrawals test change))
    (reverse : (ids : NewIds) (tenant actor id : Key)
      → Keeps P (reverse_transaction ids tenant actor id)) where
  marked : (reason : Key) (now : ℕ) → IsBenign (outcome_unknown reason now)
  unfolding same_opt same
  marked reason now = record {
    id = λ m. refl;
    conversation = λ m. refl;
    reference = λ m. refl;
    local = λ m e. absurd (ground arith);
  }

  paid : (now : ℕ) → IsBenign (paid_out now)
  unfolding same_opt same
  paid now = record {
    id = λ m. refl;
    conversation = λ m. refl;
    reference = λ m. refl;
    local = λ m e. absurd (ground arith);
  }

  failed : (reason : Key) (now : ℕ) → IsBenign (payout_failed reason now)
  unfolding same_opt same
  failed reason now = record {
    id = λ m. refl;
    conversation = λ m. refl;
    reference = λ m. refl;
    local = λ m e. absurd (ground arith);
  }

  looked : (now : ℕ) → IsBenign (checked now)
  looked now = record {
    id = λ m. refl;
    conversation = λ m. refl;
    reference = λ m. refl;
    local = λ m e. e;
  }

  unknown-Keeps :
      (reason id : Key) (now : ℕ)
      → Keeps P
          (update_withdrawals (is_open_id id) (outcome_unknown reason now) >>= λ claim. pure tt)
  unknown-Keeps reason id now =
      >>=-Keeps P (update_withdrawals (is_open_id id) (outcome_unknown reason now))
        (λ claim. pure tt) (update (is_open_id id) (outcome_unknown reason now) (marked reason now))
        (λ claim. pure-Keeps P tt)

  pub mark_outcome_unknown-benign : (id : Key) (now : ℕ) → Keeps P (mark_outcome_unknown id now)
  unfolding mark_outcome_unknown
  mark_outcome_unknown-benign id now = unknown-Keeps "MWALONI_PROVIDER_SEND_OUTCOME_UNKNOWN" id now

  mark_mismatch-benign : (id : Key) (now : ℕ) → Keeps P (mark_mismatch id now)
  unfolding mark_mismatch
  mark_mismatch-benign id now = unknown-Keeps "MWALONI_PROVIDER_RESPONSE_MISMATCH" id now

  refund-benign :
      (ids : NewIds) (tenant actor : Key) (b : Bool) (o : Option Key)
      → Keeps P (refund ids tenant actor b o)
  unfolding refund
  refund-benign ids tenant actor false none = pure-Keeps P tt
  refund-benign ids tenant actor false (some a) = pure-Keeps P tt
  refund-benign ids tenant actor true none = pure-Keeps P tt
  refund-benign ids tenant actor true (some a) =
      >>=-Keeps P (reverse_transaction ids tenant actor a) (λ made. pure tt)
        (reverse ids tenant actor a) (λ made. pure-Keeps P tt)

  fail_open-benign :
      (ids : NewIds) (actor reason : Key) (now : ℕ) (m : MpesaTransaction) (b : Bool)
      → Keeps P (fail_open ids actor reason now m b)
  unfolding fail_open
  fail_open-benign ids actor reason now m false = pure-Keeps P tt
  fail_open-benign ids actor reason now m true =
      >>=-Keeps P (update_withdrawals (is_withdrawal_id m.id) (payout_failed reason now))
        (λ updated. refund ids m.tenant actor (is_fosa_withdrawal m) (truthy m.transaction))
        (update (is_withdrawal_id m.id) (payout_failed reason now) (failed reason now))
        (λ updated. refund-benign ids m.tenant actor (is_fosa_withdrawal m) (truthy m.transaction))

  -- A body that works on the row with an id
  row-benign :
      {A : Type 0} (id : Key) (body : MpesaTransaction → M Db A)
      → ((m : MpesaTransaction) → Keeps P (body m))
      → Keeps P (
          gets (λ (db : Db). find_first (is_withdrawal_id id) db.mpesa) >>= λ found.
          or_throw found not_found >>= body)
  row-benign id body keep =
      let existing : Db → Option MpesaTransaction =
        λ (db : Db). find_first (is_withdrawal_id id) db.mpesa in
      >>=-Keeps P (gets existing) (λ found. or_throw found not_found >>= body)
        (gets-Keeps P existing)
        (λ found.
          >>=-Keeps P (or_throw found not_found) body (or_throw-Keeps P found not_found) keep)

  fail_transaction-benign :
      (ids : NewIds) (actor id reason : Key) (now : ℕ)
      → Keeps P (fail_transaction ids actor id reason now)
  unfolding fail_transaction
  fail_transaction-benign ids actor id reason now =
      row-benign id (λ m. fail_open ids actor reason now m (is_open m.status))
        (λ m. fail_open-benign ids actor reason now m (is_open m.status))

  carry_out-benign :
      (ids : NewIds) (actor : Key) (now : ℕ) (id status : Key) (v : Verdict)
      → Keeps P (carry_out ids actor now id status v)
  unfolding carry_out
  carry_out-benign ids actor now id status mismatch =
      >>=-Keeps P (mark_mismatch id now)
        (λ marked. pure (still_running TransactionStatus.recon_pending))
        (mark_mismatch-benign id now)
        (λ marked. pure-Keeps P (still_running TransactionStatus.recon_pending))
  carry_out-benign ids actor now id status success =
      >>=-Keeps P (update_withdrawals (is_open_id id) (paid_out now))
        (λ claim. pure (decided TransactionStatus.completed))
        (update (is_open_id id) (paid_out now) (paid now))
        (λ claim. pure-Keeps P (decided TransactionStatus.completed))
  carry_out-benign ids actor now id status running =
      >>=-Keeps P (update_withdrawals (is_withdrawal_id id) (checked now))
        (λ updated. pure (still_running TransactionStatus.pending))
        (update (is_withdrawal_id id) (checked now) (looked now))
        (λ updated. pure-Keeps P (still_running TransactionStatus.pending))
  carry_out-benign ids actor now id status failure =
      >>=-Keeps P (fail_transaction ids actor id (status_reason status) now)
        (λ failed. pure (decided TransactionStatus.failed))
        (fail_transaction-benign ids actor id (status_reason status) now)
        (λ failed. pure-Keeps P (decided TransactionStatus.failed))

  pub apply_status-benign :
      (site : Site) (ids : NewIds) (actor : Key) (now : ℕ) (id : Key) (reply : Reply)
      → Keeps P (apply_status site ids actor now id reply)
  unfolding apply_status
  apply_status-benign site ids actor now id reply =
      row-benign id (λ m. carry_out ids actor now id reply.status (verdict_of site m reply))
        (λ m. carry_out-benign ids actor now id reply.status (verdict_of site m reply))

  ask-benign :
      (site : Site) (run : Run) (id : Key) (answer : Answer) → StepKeeps P (ask site run id answer)
  ask-benign site run id (replied reply) =
      committed-StepKeeps P (apply_status site run.ids run.actor run.now id reply)
        (apply_status-benign site run.ids run.actor run.now id reply)
  ask-benign site run id unavailable = λ s h. h
  ask-benign site run id not_sent = λ s h. h

  pub if-benign :
      {A : Type 0} (b : Bool) (f g : Step A)
      → StepKeeps P f
      → StepKeeps P g
      → StepKeeps P (if b then f else g)
  if-benign true f g hf hg = hf
  if-benign false f g hf hg = hg

  ask_about-benign :
      (site : Site) (run : Run) (o : Option MpesaTransaction) → StepKeeps P (ask_about site run o)
  ask_about-benign site run none = λ s h. h
  ask_about-benign site run (some m) =
      if-benign (m.is_b2c && is_some (truthy m.conversation)) (ask_open site run m) (give unknown)
        (if-benign (is_open m.status) (ask site run m.id run.answer) (give (already m.status))
          (ask-benign site run m.id run.answer) (λ s h. h))
        (λ s h. h)

  pub refresh_status-benign :
      (site : Site) (run : Run) (id : Key) → StepKeeps P (refresh_status site run id)
  unfolding refresh_status
  refresh_status-benign site run id =
      let existing : Db → Option MpesaTransaction =
        λ (db : Db). find_first (is_withdrawal_id id) db.mpesa in
      if-benign site.provider_enabled (then_do (committed (gets existing)) (ask_about site run))
        (give unknown)
        (then_do-StepKeeps P (committed (gets existing)) (ask_about site run)
          (committed-StepKeeps P (gets existing) (gets-Keeps P existing))
          (ask_about-benign site run))
        (λ s h. h)
