-- ===== src/Withdrawals/Paid.antt =====
-- Histories of the withdrawals, and what they leave of one that has been paid out
-- (src/modules/mpesa/withdrawal-reconciliation.service.ts, src/modules/mpesa/mpesa.service.ts).
use beba_sacco_backend.Withdrawals.Steps.{
  Step, committed, then_do, or_catch, give, StepKeeps, committed-StepKeeps, then_do-StepKeeps,
  or_catch-StepKeeps,
}
use beba_sacco_backend.Base.Results.Keeps.{Keeps, >>=-Keeps, pure-Keeps, gets-Keeps, or_throw-Keeps}
use beba_sacco_backend.Base.{
  ℕ, zero, suc, Key, Bool, true, false, ◌&&◌, Option, none, some, ◌≡◌, refl, arith, ok, ◌>>=◌, gets,
  pure, or_throw, find_first, truthy, not_found, if◌then◌else◌,
}
use beba_sacco_backend.Store.{Db, MpesaTransaction}
use beba_sacco_backend.Ledger.Entry.{NewIds}
use beba_sacco_backend.Ledger.Reversal.{is_some}
use beba_sacco_backend.Withdrawals.{
  Site, Reply, is_open, is_withdrawal_id, withdrawal_row, update_withdrawals,
}
use beba_sacco_backend.Withdrawals.Settled.{IsPaid, still-IsSettled, update-Keeps}
use beba_sacco_backend.Withdrawals.Answers.{mark_outcome_unknown-Keeps, apply_status-Keeps}
use beba_sacco_backend.Withdrawals.Moves.{
  create_attempt-Keeps, close_attempt-Keeps, mark_completed-Keeps, reverse_failed-Keeps,
}
use beba_sacco_backend.Withdrawals.Provider.{Refresh, mark_outcome_unknown, apply_status}
use beba_sacco_backend.Withdrawals.Manual.{
  Evidence, create_attempt, close_attempt, mark_completed, reverse_failed,
}
use beba_sacco_backend.Withdrawals.Reconcile.{
  is_claimable, locked, claimed_row, claim, was_contacted, Outcome, classify_outcome, scheduled,
  finish_attempt,
}
use beba_sacco_backend.Withdrawals.Run.{
  Answer, replied, unavailable, not_sent, Run, ask, ask_open, ask_about, refresh_status, unknown,
  already, manual_review, refreshed_as, retry_scheduled, not_contacted, provider_failed, conclude,
  try_refresh, on_failure, reconcile_claimed, reconcile,
}

-- One thing that happens to the withdrawals
pub data Move (site : Site) : Db → Db → Type 0 where
  completes :
      {db db' : Db} (attempt id tenant : Key) (now : ℕ) (evidence : Evidence)
      → mark_completed attempt id tenant now evidence db ≡ ok (tt, db')
      → Move site db db'
  reverses :
      {db db' : Db} (ids : NewIds) (attempt id tenant actor : Key) (now : ℕ) (evidence : Evidence)
      → reverse_failed ids attempt id tenant actor now evidence db ≡ ok (tt, db')
      → Move site db db'
  answers :
      {db db' : Db} (ids : NewIds) (actor : Key) (now : ℕ) (id : Key) (reply : Reply)
      (refresh : Refresh)
      → apply_status site ids actor now id reply db ≡ ok (refresh, db')
      → Move site db db'
  loses_answer :
      {db db' : Db} (id : Key) (now : ℕ)
      → mark_outcome_unknown id now db ≡ ok (tt, db')
      → Move site db db'
  reconciles : {db : Db} (run : Run) → Move site db (reconcile site run db).1

pub data Reaches (site : Site) : Db → Db → Type 0 where
  here : {db : Db} → Reaches site db db
  later : {db db1 db2 : Db} → Reaches site db db1 → Move site db1 db2 → Reaches site db db2

module _ (site : Site) (w tenant t : Key) where
  abbrev Paid : Db → Type 0
  Paid = IsPaid w tenant t

  withdrawal_row-Keeps : (id : Key) → Keeps Paid (withdrawal_row id)
  withdrawal_row-Keeps id =
      let existing : Db → Option MpesaTransaction =
        λ (db : Db). find_first (is_withdrawal_id id) db.mpesa in
      >>=-Keeps Paid (gets existing) (λ found. or_throw found not_found) (gets-Keeps Paid existing)
        (λ found. or_throw-Keeps Paid found not_found)

  claimable_open :
      (now : ℕ) (id : Key) (m : MpesaTransaction)
      → is_claimable site now id m ≡ true
      → is_open m.status ≡ true
  claimable_open now id m h = ground arith

  claimed_row-Keeps : (id : Key) (n : ℕ) → Keeps Paid (claimed_row id n)
  claimed_row-Keeps id zero = pure-Keeps Paid none
  claimed_row-Keeps id (suc n) =
      >>=-Keeps Paid (withdrawal_row id) (λ m. pure (some m)) (withdrawal_row-Keeps id)
        (λ m. pure-Keeps Paid (some m))

  claim-Keeps : (now : ℕ) (id holder : Key) → Keeps Paid (claim site now id holder)
  unfolding claim
  claim-Keeps now id holder =
      >>=-Keeps Paid (update_withdrawals (is_claimable site now id) (locked now holder))
        (claimed_row id)
        (update-Keeps w tenant t (is_claimable site now id) (locked now holder)
          (λ m h passes. still-IsSettled w tenant t m (locked now holder m) refl refl refl h))
        (claimed_row-Keeps id)

  finish_attempt-Keeps :
      (now : ℕ) (attempt : Key) (before : MpesaTransaction) (outcome : Outcome)
      → Keeps Paid (finish_attempt site now attempt before outcome)
  unfolding finish_attempt
  finish_attempt-Keeps now attempt before outcome =
      >>=-Keeps Paid (withdrawal_row before.id)
        (λ after.
          update_withdrawals (is_withdrawal_id before.id)
            (scheduled site now before outcome after.status)
          >>= λ count. close_attempt attempt now after.status outcome.reason)
        (withdrawal_row-Keeps before.id)
        (λ after.
          >>=-Keeps Paid
            (update_withdrawals (is_withdrawal_id before.id)
              (scheduled site now before outcome after.status))
            (λ count. close_attempt attempt now after.status outcome.reason)
            (update-Keeps w tenant t (is_withdrawal_id before.id)
              (scheduled site now before outcome after.status)
              (λ m h passes.
                still-IsSettled w tenant t m (scheduled site now before outcome after.status m) refl
                  refl refl h))
            (λ count. close_attempt-Keeps w tenant t attempt now after.status outcome.reason))

  finish-StepKeeps :
      (run : Run) (m : MpesaTransaction) (outcome : Outcome)
      → StepKeeps Paid (committed (finish_attempt site run.now run.attempt m outcome))
  finish-StepKeeps run m outcome =
      committed-StepKeeps Paid (finish_attempt site run.now run.attempt m outcome)
        (finish_attempt-Keeps run.now run.attempt m outcome)

  ask-StepKeeps : (run : Run) (id : Key) (answer : Answer) → StepKeeps Paid (ask site run id answer)
  ask-StepKeeps run id (replied reply) =
      committed-StepKeeps Paid (apply_status site run.ids run.actor run.now id reply)
        (apply_status-Keeps w tenant t site run.ids run.actor run.now id reply)
  ask-StepKeeps run id unavailable = λ s h. h
  ask-StepKeeps run id not_sent = λ s h. h

  if-StepKeeps :
      {A : Type 0} (b : Bool) (f g : Step A)
      → StepKeeps Paid f
      → StepKeeps Paid g
      → StepKeeps Paid (if b then f else g)
  if-StepKeeps true f g hf hg = hf
  if-StepKeeps false f g hf hg = hg

  ask_about-StepKeeps :
      (run : Run) (o : Option MpesaTransaction) → StepKeeps Paid (ask_about site run o)
  ask_about-StepKeeps run none = λ s h. h
  ask_about-StepKeeps run (some m) =
      if-StepKeeps (m.is_b2c && is_some (truthy m.conversation)) (ask_open site run m)
        (give unknown)
        (if-StepKeeps (is_open m.status) (ask site run m.id run.answer) (give (already m.status))
          (ask-StepKeeps run m.id run.answer) (λ s h. h))
        (λ s h. h)

  refresh_status-StepKeeps : (run : Run) (id : Key) → StepKeeps Paid (refresh_status site run id)
  unfolding refresh_status
  refresh_status-StepKeeps run id =
      let existing : Db → Option MpesaTransaction =
        λ (db : Db). find_first (is_withdrawal_id id) db.mpesa in
      if-StepKeeps site.provider_enabled (then_do (committed (gets existing)) (ask_about site run))
        (give unknown)
        (then_do-StepKeeps Paid (committed (gets existing)) (ask_about site run)
          (committed-StepKeeps Paid (gets existing) (gets-Keeps Paid existing))
          (ask_about-StepKeeps run))
        (λ s h. h)

  conclude-StepKeeps :
      (run : Run) (m : MpesaTransaction) (refresh : Refresh)
      → StepKeeps Paid (conclude site run m refresh)
  unfolding conclude
  conclude-StepKeeps run m refresh =
      then_do-StepKeeps Paid (committed (withdrawal_row m.id)) _
        (committed-StepKeeps Paid (withdrawal_row m.id) (withdrawal_row-Keeps m.id))
        (λ after.
          then_do-StepKeeps Paid
            (committed (
              finish_attempt site run.now run.attempt m
                (classify_outcome site run.now after refresh (suc m.attempt_count))))
            (λ _. give (refreshed_as after.status))
            (finish-StepKeeps run m
              (classify_outcome site run.now after refresh (suc m.attempt_count)))
            (λ _ s h. h))

  try_refresh-StepKeeps :
      (run : Run) (m : MpesaTransaction) (b : Bool) → StepKeeps Paid (try_refresh site run m b)
  unfolding try_refresh
  try_refresh-StepKeeps run m false =
      then_do-StepKeeps Paid
        (committed (finish_attempt site run.now run.attempt m (not_contacted site run.now m)))
        (λ _. give manual_review) (finish-StepKeeps run m (not_contacted site run.now m))
        (λ _ s h. h)
  try_refresh-StepKeeps run m true =
      then_do-StepKeeps Paid (refresh_status site run m.id) (conclude site run m)
        (refresh_status-StepKeeps run m.id) (conclude-StepKeeps run m)

  on_failure-StepKeeps : (run : Run) (m : MpesaTransaction) → StepKeeps Paid (on_failure site run m)
  unfolding on_failure
  on_failure-StepKeeps run m =
      then_do-StepKeeps Paid
        (committed (finish_attempt site run.now run.attempt m (provider_failed site run.now m)))
        (λ _. give (retry_scheduled m.status))
        (finish-StepKeeps run m (provider_failed site run.now m)) (λ _ s h. h)

  reconcile_claimed-StepKeeps :
      (run : Run) (o : Option MpesaTransaction) → StepKeeps Paid (reconcile_claimed site run o)
  unfolding reconcile_claimed
  reconcile_claimed-StepKeeps run none = λ s h. h
  reconcile_claimed-StepKeeps run (some m) =
      then_do-StepKeeps Paid (committed (create_attempt run.attempt m run.trigger))
        (λ _. or_catch (try_refresh site run m (was_contacted m)) (on_failure site run m))
        (committed-StepKeeps Paid (create_attempt run.attempt m run.trigger)
          (create_attempt-Keeps w tenant t run.attempt m run.trigger))
        (λ _.
          or_catch-StepKeeps Paid (try_refresh site run m (was_contacted m)) (on_failure site run m)
            (try_refresh-StepKeeps run m (was_contacted m)) (on_failure-StepKeeps run m))

  reconcile-StepKeeps : (run : Run) → StepKeeps Paid (reconcile site run)
  unfolding reconcile
  reconcile-StepKeeps run =
      then_do-StepKeeps Paid (committed (claim site run.now run.withdrawal run.holder))
        (reconcile_claimed site run)
        (committed-StepKeeps Paid (claim site run.now run.withdrawal run.holder)
          (claim-Keeps run.now run.withdrawal run.holder))
        (reconcile_claimed-StepKeeps run)

  Move-IsPaid : {db db' : Db} → Move site db db' → Paid db → Paid db'
  Move-IsPaid {db} {db'} (completes attempt id of now evidence e) h =
      mark_completed-Keeps w tenant t attempt id of now evidence db db' tt h e
  Move-IsPaid {db} {db'} (reverses ids attempt id of actor now evidence e) h =
      reverse_failed-Keeps w tenant t ids attempt id of actor now evidence db db' tt h e
  Move-IsPaid {db} {db'} (answers ids actor now id reply refresh e) h =
      apply_status-Keeps w tenant t site ids actor now id reply db db' refresh h e
  Move-IsPaid {db} {db'} (loses_answer id now e) h =
      mark_outcome_unknown-Keeps w tenant t id now db db' tt h e
  Move-IsPaid {db} (reconciles run) h = reconcile-StepKeeps run db h

  -- When each row of the withdrawal `w` is paid out (COMPLETED), no other row carries its debit
  -- `t`, and the debit is not reversed: it is so after every history of manual completions and
  -- reversals, answers of the provider, lost answers and reconciliation runs. A withdrawal that
  -- was paid out is never refunded.
  pub Reaches-IsPaid : {db db' : Db} → Reaches site db db' → Paid db → Paid db'
  Reaches-IsPaid here h = h
  Reaches-IsPaid (later before last) h = Move-IsPaid last (Reaches-IsPaid before h)
