-- ===== src/Withdrawals/Reconcile.antt =====
-- The steps of a reconciliation, `claim`, `classifyOutcome` and `completeAttemptAndSchedule` of
-- src/modules/mpesa/withdrawal-reconciliation.service.ts, with what they call.
use text.Mathlib.Text.{find?}
use beba_sacco_backend.Base.{
  ℕ, zero, suc, ◌+◌, ◌-◌, ◌*◌, ◌^◌, ltb, leb, Key, same, Bool, true, false, ◌&&◌, ◌||◌, not,
  if◌then◌else◌, Option, none, some, M, ◌>>=◌, pure, truthy,
}
use beba_sacco_backend.Store.{Db, MpesaTransaction, TransactionStatus}
use beba_sacco_backend.Ledger.Reversal.{is_some}
use beba_sacco_backend.Withdrawals.{
  Site, is_open, is_withdrawal_id, withdrawal_row, update_withdrawals,
}
use beba_sacco_backend.Withdrawals.Provider.{Refresh}
use beba_sacco_backend.Withdrawals.Manual.{close_attempt}

-- `reconciliationLockedAt` is null or before the cutoff.
abbrev pub is_unlocked : Site → ℕ → Option ℕ → Bool
is_unlocked site now none = true
is_unlocked site now (some at) = ltb (at + site.lock_lifetime) now

-- The `where` of `claim`
abbrev pub is_claimable : Site → ℕ → Key → MpesaTransaction → Bool
is_claimable site now id m = same m.id id && (is_open m.status && is_unlocked site now m.locked_at)

abbrev pub locked : ℕ → Key → MpesaTransaction → MpesaTransaction
locked now holder m = record m { locked_at = some now; locked_by = some holder }

abbrev pub claimed_row : Key → ℕ → M Db (Option MpesaTransaction)
claimed_row id zero = pure none
claimed_row id (suc n) = do m ← withdrawal_row id; pure (some m)

-- `claim`; the holder is `${trigger}:${actorId}`.
unfoldable pub claim : Site → ℕ → Key → Key → M Db (Option MpesaTransaction)
unfolding update_withdrawals
claim site now id holder = do
  count ← update_withdrawals (is_claimable site now id) (locked now holder)
  claimed_row id count

abbrev pub is_contact_state : Key → Bool
is_contact_state state =
    same state "PROVIDER_SEND_ATTEMPTED"
    || (same state "PROVIDER_ACCEPTED"
        || (same state "PROVIDER_OUTCOME_UNKNOWN"
            || (same state "COMPLETED" || same state "FAILED")))

abbrev pub text_of : Option Key → Key
text_of none = ""
text_of (some s) = s

-- `wasProviderContacted`
unfoldable pub was_contacted : MpesaTransaction → Bool
unfolding truthy
was_contacted m =
    is_some m.sent_at
    || (is_contact_state (text_of m.submission) || is_some (truthy m.conversation))

abbrev pub at_most_8 : ℕ → ℕ
at_most_8 n = if leb n 8 then n else 8

-- `nextRetry`
unfoldable pub retry_time : Site → ℕ → ℕ → ℕ
retry_time site now count = now + site.retry_interval * at_most_8 (2 ^ (count - 1))

-- `shouldManualReview`
unfoldable pub should_review : Site → ℕ → MpesaTransaction → ℕ → Bool
should_review site now m count =
    leb site.max_attempts count || leb (m.created_at + site.review_after) now

-- What `classifyOutcome` gives; a missing key is none.
pub record Outcome : Type 0 where
  pub reason : Key
  pub next_retry : Option ℕ
  pub review : Option Bool
  pub review_reason : Option Key

abbrev pub mentions_mismatch : Option Key → Bool
mentions_mismatch none = false
mentions_mismatch (some s) = is_some (find? s "MISMATCH")

abbrev pub is_pending_status : Option TransactionStatus → Bool
is_pending_status (some TransactionStatus.pending) = true
is_pending_status _ = false

abbrev pub review_text : Bool → Option Key
review_text true = some "Automated reconciliation exhausted or exceeded manual review SLA"
review_text false = none

-- The branches for a row that is still open
unfoldable pub classify_open : Site → ℕ → MpesaTransaction → Refresh → ℕ → Outcome
unfolding should_review retry_time
classify_open site now m refresh count =
    if mentions_mismatch m.failure_reason
    then record {
      reason = "PROVIDER_RESPONSE_MISMATCH";
      next_retry = none;
      review = some true;
      review_reason = m.failure_reason;
    }
    else if not refresh.refreshed
    then record {
      reason = "PROVIDER_STATUS_NOT_REFRESHED";
      next_retry = some (retry_time site now count);
      review = some (should_review site now m count);
      review_reason = none;
    }
    else record {
      reason =
          if is_pending_status refresh.status
          then "PROVIDER_STILL_PENDING"
          else "PROVIDER_OUTCOME_UNKNOWN";
      next_retry = some (retry_time site now count);
      review = some (should_review site now m count);
      review_reason = review_text (should_review site now m count);
    }

abbrev pub confirmed : Key → Outcome
confirmed reason = record {
  reason = reason;
  next_retry = none;
  review = none;
  review_reason = none;
}

unfoldable pub classify_status :
    Site → ℕ → MpesaTransaction → Refresh → ℕ → TransactionStatus → Outcome
unfolding classify_open
classify_status site now m refresh count TransactionStatus.completed =
    confirmed "PROVIDER_CONFIRMED_SUCCESS"
classify_status site now m refresh count TransactionStatus.failed =
    confirmed "PROVIDER_CONFIRMED_FAILURE_REVERSED"
classify_status site now m refresh count _ = classify_open site now m refresh count

-- `classifyOutcome`
unfoldable pub classify_outcome : Site → ℕ → MpesaTransaction → Refresh → ℕ → Outcome
unfolding classify_status
classify_outcome site now m refresh count = classify_status site now m refresh count m.status

abbrev pub or_value : {A : Type 0} → Option A → A → A
or_value none b = b
or_value (some a) b = a

-- `manualReviewRequired` of `completeAttemptAndSchedule`
unfoldable pub review_of : Site → ℕ → MpesaTransaction → Outcome → Bool
unfolding should_review
review_of site now before outcome =
    or_value outcome.review (should_review site now before (suc before.attempt_count))

-- `nextRetryAt` of `completeAttemptAndSchedule`
unfoldable pub retry_of : Site → ℕ → MpesaTransaction → Outcome → TransactionStatus → Option ℕ
unfolding review_of retry_time
retry_of site now before outcome status =
    if is_open status
    then if review_of site now before outcome
      then none
      else some (or_value outcome.next_retry (retry_time site now (suc before.attempt_count)))
    else none

abbrev pub scheduled :
    Site → ℕ → MpesaTransaction → Outcome → TransactionStatus → MpesaTransaction → MpesaTransaction
scheduled site now before outcome status m = record m {
  attempt_count = suc before.attempt_count;
  next_retry = retry_of site now before outcome status;
  locked_at = none;
  locked_by = none;
  review_required = review_of site now before outcome;
  review_reason =
      if review_of site now before outcome
      then some (or_value outcome.review_reason outcome.reason)
      else none;
  last_reason = some outcome.reason;
}

-- `completeAttemptAndSchedule`
unfoldable pub finish_attempt : Site → ℕ → Key → MpesaTransaction → Outcome → M Db (Unit {0})
unfolding update_withdrawals close_attempt retry_of
finish_attempt site now attempt before outcome = do
  after ← withdrawal_row before.id
  count ←
      update_withdrawals (is_withdrawal_id before.id)
        (scheduled site now before outcome after.status)
  close_attempt attempt now after.status outcome.reason
