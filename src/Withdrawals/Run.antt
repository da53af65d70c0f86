-- ===== src/Withdrawals/Run.antt =====
-- `reconcileTransaction` and `selectEligibleProviderTransactions` of
-- src/modules/mpesa/withdrawal-reconciliation.service.ts, and `refreshMwaloniB2cStatus` of
-- src/modules/mpesa/mpesa.service.ts. Each transaction is committed by itself. The audit rows are
-- left out, and with them what happens when one cannot be written.
use beba_sacco_backend.Withdrawals.Steps.{Step, committed, then_do, or_catch, give}
use beba_sacco_backend.Base.{
  ℕ, suc, ◌+◌, leb, Key, Bool, true, false, ◌&&◌, ◌||◌, not, Option, none, some, err, Error, gets,
  find_first, truthy, if◌then◌else◌,
}
use beba_sacco_backend.Store.{Db, MpesaTransaction, TransactionStatus}
use beba_sacco_backend.Ledger.Entry.{NewIds}
use beba_sacco_backend.Ledger.Reversal.{is_some}
use beba_sacco_backend.Withdrawals.{
  Site, Reply, is_open, is_withdrawal_id, is_fosa_withdrawal, withdrawal_row,
}
use beba_sacco_backend.Withdrawals.Provider.{Refresh, apply_status}
use beba_sacco_backend.Withdrawals.Manual.{create_attempt}
use beba_sacco_backend.Withdrawals.Reconcile.{
  is_unlocked, claim, was_contacted, retry_time, should_review, Outcome, classify_outcome,
  finish_attempt,
}

-- What the client of the provider gives: a reply, an exception after the request has left, or an
-- exception before (no configuration, no token)
pub data Answer : Type 0 where
  replied : Reply → Answer
  unavailable : Answer
  not_sent : Answer

-- One run: who and when, the ids of the rows that it writes, and what the provider answers
pub record Run : Type 0 where
  pub withdrawal : Key
  pub trigger : Key
  pub holder : Key
  pub now : ℕ
  pub attempt : Key
  pub ids : NewIds
  pub actor : Key
  pub answer : Answer

abbrev pub unknown : Refresh
unknown = record { refreshed = false; terminal = false; status = none }

abbrev pub already : TransactionStatus → Refresh
already status = record { refreshed = false; terminal = true; status = some status }

abbrev pub ask : Site → Run → Key → Answer → Step Refresh
ask site run id (replied reply) = committed (apply_status site run.ids run.actor run.now id reply)
ask site run id unavailable = λ db. (err Error.provider_unavailable, db)
ask site run id not_sent = λ db. (err Error.provider_unavailable, db)

abbrev pub ask_open : Site → Run → MpesaTransaction → Step Refresh
ask_open site run m =
    if is_open m.status then ask site run m.id run.answer else give (already m.status)

abbrev pub ask_about : Site → Run → Option MpesaTransaction → Step Refresh
ask_about site run none = give unknown
ask_about site run (some m) =
    if m.is_b2c && is_some (truthy m.conversation) then ask_open site run m else give unknown

-- `refreshMwaloniB2cStatus`
unfoldable pub refresh_status : Site → Run → Key → Step Refresh
unfolding apply_status
refresh_status site run id =
    if site.provider_enabled
    then then_do (committed (gets (λ (db : Db). find_first (is_withdrawal_id id) db.mpesa)))
        (ask_about site run)
    else give unknown

-- `{ action, status }` of the answers
pub data Done : Type 0 where
  skipped : Done
  manual_review : Done
  refreshed_as : TransactionStatus → Done
  retry_scheduled : TransactionStatus → Done

abbrev pub not_contacted : Site → ℕ → MpesaTransaction → Outcome
not_contacted site now m = record {
  reason = "PROVIDER_NOT_CONTACTED_OR_UNKNOWN_LOCAL_STATE";
  next_retry = some (retry_time site now (suc m.attempt_count));
  review = some true;
  review_reason =
      some
        "Provider submission was not durably attempted; inspect payout intent/outbox before action";
}

abbrev pub provider_failed : Site → ℕ → MpesaTransaction → Outcome
provider_failed site now m = record {
  reason = "PROVIDER_STATUS_UNAVAILABLE";
  next_retry = some (retry_time site now (suc m.attempt_count));
  review = some (should_review site now m (suc m.attempt_count));
  review_reason = some "Provider status unavailable beyond automated retry policy";
}

-- From the answer of the refresh on
unfoldable pub conclude : Site → Run → MpesaTransaction → Refresh → Step Done
unfolding classify_outcome finish_attempt
conclude site run m refresh = then_do (committed (withdrawal_row m.id)) (λ after.
    then_do
      (committed (
        finish_attempt site run.now run.attempt m
          (classify_outcome site run.now after refresh (suc m.attempt_count))))
      (λ _. give (refreshed_as after.status)))

-- The body of the `try`
unfoldable pub try_refresh : Site → Run → MpesaTransaction → Bool → Step Done
unfolding refresh_status conclude finish_attempt
try_refresh site run m false =
    then_do (committed (finish_attempt site run.now run.attempt m (not_contacted site run.now m)))
      (λ _. give manual_review)
try_refresh site run m true = then_do (refresh_status site run m.id) (conclude site run m)

-- The handler of the `catch`
unfoldable pub on_failure : Site → Run → MpesaTransaction → Step Done
unfolding finish_attempt
on_failure site run m =
    then_do (committed (finish_attempt site run.now run.attempt m (provider_failed site run.now m)))
      (λ _. give (retry_scheduled m.status))

unfoldable pub reconcile_claimed : Site → Run → Option MpesaTransaction → Step Done
unfolding create_attempt try_refresh on_failure was_contacted
reconcile_claimed site run none = give skipped
reconcile_claimed site run (some m) =
    then_do (committed (create_attempt run.attempt m run.trigger))
      (λ _. or_catch (try_refresh site run m (was_contacted m)) (on_failure site run m))

-- `reconcileTransaction`
unfoldable pub reconcile : Site → Run → Step Done
unfolding claim reconcile_claimed
reconcile site run =
    then_do (committed (claim site run.now run.withdrawal run.holder)) (reconcile_claimed site run)

abbrev pub is_past : ℕ → Option ℕ → Bool
is_past now none = false
is_past now (some at) = leb at now

-- The `where` of `selectEligibleProviderTransactions`
unfoldable pub is_eligible : Site → ℕ → MpesaTransaction → Bool
is_eligible site now m =
    m.is_b2c
    && (is_fosa_withdrawal m
        && (is_open m.status
            && (not m.review_required
                && ((is_past now m.next_retry
                      || (not (is_some m.next_retry)
                          && (is_past now m.due_at
                              || (not (is_some m.due_at)
                                  && leb (m.created_at + site.pending_threshold) now))))
                    && is_unlocked site now m.locked_at))))
