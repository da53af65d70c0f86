-- ===== src/Withdrawals/Answered.antt =====
-- What the answer to a request keeps (`submitMwaloniMobilePayout` in
-- src/modules/mpesa/mpesa.service.ts, after the request).
use beba_sacco_backend.Base.{Bool, ℕ, Key, same, same_opt, refl, arith}
use beba_sacco_backend.Base.Results.Keeps.{Keeps}
use beba_sacco_backend.Store.{Db, MpesaTransaction}
use beba_sacco_backend.Ledger.Entry.{NewIds}
use beba_sacco_backend.Ledger.Reversal.{reverse_transaction}
use beba_sacco_backend.Withdrawals.{Site, is_withdrawal_id, update_withdrawals}
use beba_sacco_backend.Withdrawals.Provider.{mark_outcome_unknown, apply_status}
use beba_sacco_backend.Withdrawals.Steps.{
  committed, then_do, give, StepKeeps, committed-StepKeeps, then_do-StepKeeps, or_catch-StepKeeps,
}
use beba_sacco_backend.Withdrawals.Run.{Answer, replied, unavailable, not_sent, Run}
use beba_sacco_backend.Withdrawals.Payout.{accepted, take_answer, await_answer, sent_as}
use beba_sacco_backend.Withdrawals.Benign.{
  IsBenign, mark_outcome_unknown-benign, apply_status-benign,
}

accepting : (now : ℕ) → IsBenign (accepted now)
unfolding same_opt same
accepting now = record {
  id = λ m. refl;
  conversation = λ m. refl;
  reference = λ m. refl;
  local = λ m e. absurd (ground arith);
}

module _ (P : Db → Type 0)
    (update : (test : MpesaTransaction → Bool) (change : MpesaTransaction → MpesaTransaction)
      → IsBenign change
      → Keeps P (update_withdrawals test change))
    (reverse : (ids : NewIds) (tenant actor id : Key)
      → Keeps P (reverse_transaction ids tenant actor id)) where
  take_answer-benign :
      (site : Site) (run : Run) (id : Key) (answer : Answer)
      → StepKeeps P (take_answer site run id answer)
  unfolding take_answer
  take_answer-benign site run id (replied reply) =
      then_do-StepKeeps P (committed (update_withdrawals (is_withdrawal_id id) (accepted run.now)))
        (λ count. committed (apply_status site run.ids run.actor run.now id reply))
        (committed-StepKeeps P (update_withdrawals (is_withdrawal_id id) (accepted run.now))
          (update (is_withdrawal_id id) (accepted run.now) (accepting run.now)))
        (λ count.
          committed-StepKeeps P (apply_status site run.ids run.actor run.now id reply)
            (apply_status-benign P update reverse site run.ids run.actor run.now id reply))
  take_answer-benign site run id unavailable = λ s h. h
  take_answer-benign site run id not_sent = λ s h. h

  pub await_answer-benign :
      (site : Site) (run : Run) (id order : Key) → StepKeeps P (await_answer site run id order)
  unfolding await_answer
  await_answer-benign site run id order =
      or_catch-StepKeeps P
        (then_do (take_answer site run id run.answer) (λ _. give (sent_as order id)))
        (then_do (committed (mark_outcome_unknown id run.now)) (λ _. give (sent_as order id)))
        (then_do-StepKeeps P (take_answer site run id run.answer) (λ _. give (sent_as order id))
          (take_answer-benign site run id run.answer) (λ _ s h. h))
        (then_do-StepKeeps P (committed (mark_outcome_unknown id run.now))
          (λ _. give (sent_as order id))
          (committed-StepKeeps P (mark_outcome_unknown id run.now)
            (mark_outcome_unknown-benign P update reverse id run.now))
          (λ _ s h. h))
