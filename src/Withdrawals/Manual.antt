-- ===== src/Withdrawals/Manual.antt =====
-- What an administrator decides with evidence: `markCompletedWithEvidence`,
-- `reverseConfirmedFailure` and `controlledResend` of
-- src/modules/mpesa/withdrawal-reconciliation.service.ts, with `requireWithdrawal` and
-- `createAttempt`.
use beba_sacco_backend.Base.{
  ℕ, suc, Key, same, Bool, false, ◌&&◌, ◌||◌, ◌==◌, none, some, [], ◌∷◌, ◌++◌, M, ◌>>=◌, ◌>>◌, gets,
  modify, throw, throw_if, or_throw, find_first, some_row, update_many, truthy, not_found, conflict,
  no_evidence, no_ledger_debit, resend_blocked, attempt_exists,
}
use beba_sacco_backend.Store.{Db, MpesaTransaction, TransactionStatus, ReconAttempt}
use beba_sacco_backend.Ledger.Entry.{NewIds}
use beba_sacco_backend.Ledger.Reversal.{reverse_transaction}
use beba_sacco_backend.Withdrawals.{is_open, is_fosa_withdrawal, update_withdrawals}

-- The reason and the reference of the evidence, without blanks around them
pub record Evidence : Type 0 where
  pub reason : Key
  pub reference : Key

abbrev pub lacks_evidence : Evidence → Bool
lacks_evidence e = same e.reason "" || same e.reference ""

-- The `where` of `requireWithdrawal`
abbrev pub is_required : Key → Key → MpesaTransaction → Bool
is_required id tenant m =
    same m.id id && (same m.tenant tenant && (is_fosa_withdrawal m && m.is_b2c))

unfoldable pub require_withdrawal : Key → Key → M Db MpesaTransaction
require_withdrawal id tenant = do
  found ← gets (λ (db : Db). find_first (is_required id tenant) db.mpesa)
  or_throw found not_found

-- `@@unique([mpesaTransactionId, attemptNumber])`
abbrev pub is_attempt : Key → ℕ → ReconAttempt → Bool
is_attempt withdrawal number a = same a.withdrawal withdrawal && (a.number == number)

abbrev pub new_attempt : Key → MpesaTransaction → Key → ReconAttempt
new_attempt id m trigger = record {
  id = id;
  tenant = m.tenant;
  withdrawal = m.id;
  number = suc m.attempt_count;
  trigger = trigger;
  completed_at = none;
  new_status = none;
  reason = none;
}

-- `createAttempt`
unfoldable pub create_attempt : Key → MpesaTransaction → Key → M Db (Unit {0})
unfolding some_row
create_attempt id m trigger = do
  taken ← gets (λ (db : Db). some_row (is_attempt m.id (suc m.attempt_count)) db.attempts)
  throw_if taken attempt_exists
  modify (λ (db : Db). record db { attempts = db.attempts ++ new_attempt id m trigger ∷ [] })

abbrev pub is_attempt_id : Key → ReconAttempt → Bool
is_attempt_id id a = same a.id id

abbrev pub closed_attempt : ℕ → TransactionStatus → Key → ReconAttempt → ReconAttempt
closed_attempt now status reason a = record a {
  completed_at = some now;
  new_status = some status;
  reason = some reason;
}

unfoldable pub close_attempt : Key → ℕ → TransactionStatus → Key → M Db (Unit {0})
unfolding update_many
close_attempt id now status reason = modify (λ (db : Db). record db {
  attempts = update_many (is_attempt_id id) (closed_attempt now status reason) db.attempts;
})

-- The `where` of both claims
abbrev pub is_undecided : Key → Key → MpesaTransaction → Bool
is_undecided id tenant m = same m.id id && (same m.tenant tenant && is_open m.status)

abbrev pub completed_reason : Key
completed_reason = "MANUAL_COMPLETED_WITH_EVIDENCE"

abbrev pub failure_reason : Key
failure_reason = "MANUAL_CONFIRMED_PROVIDER_FAILURE"

abbrev pub unlocked : ℕ → Key → MpesaTransaction → MpesaTransaction
unlocked now reason m = record m {
  review_required = false;
  review_reason = none;
  next_retry = none;
  locked_at = none;
  locked_by = none;
  last_reason = some reason;
  checked_at = some now;
}

abbrev pub completed_by_hand : ℕ → MpesaTransaction → MpesaTransaction
completed_by_hand now m = record (unlocked now completed_reason m) {
  status = TransactionStatus.completed;
}

abbrev pub failed_by_hand : ℕ → MpesaTransaction → MpesaTransaction
failed_by_hand now m = record (unlocked now failure_reason m) {
  status = TransactionStatus.failed;
  failure_reason = some failure_reason;
}

-- The transaction of `markCompletedWithEvidence`
unfoldable pub complete_row : Key → Key → ℕ → MpesaTransaction → M Db (Unit {0})
unfolding create_attempt update_withdrawals close_attempt
complete_row attempt tenant now m = do
  created ← create_attempt attempt m "MANUAL_COMPLETE"
  claim ← update_withdrawals (is_undecided m.id tenant) (completed_by_hand now)
  throw_if (claim == 0) conflict
  close_attempt attempt now TransactionStatus.completed completed_reason

unfoldable pub mark_completed : Key → Key → Key → ℕ → Evidence → M Db (Unit {0})
unfolding require_withdrawal complete_row
mark_completed attempt id tenant now evidence = do
  m ← require_withdrawal id tenant
  throw_if (lacks_evidence evidence) no_evidence
  complete_row attempt tenant now m

-- The transaction of `reverseConfirmedFailure`
unfoldable pub reverse_row : NewIds → Key → Key → Key → ℕ → MpesaTransaction → Key → M Db (Unit {0})
unfolding create_attempt update_withdrawals reverse_transaction close_attempt
reverse_row ids attempt tenant actor now m original = do
  created ← create_attempt attempt m "MANUAL_REVERSE"
  claim ← update_withdrawals (is_undecided m.id tenant) (failed_by_hand now)
  throw_if (claim == 0) conflict
  reversal ← reverse_transaction ids tenant actor original
  close_attempt attempt now TransactionStatus.failed failure_reason

unfoldable pub reverse_failed : NewIds → Key → Key → Key → Key → ℕ → Evidence → M Db (Unit {0})
unfolding require_withdrawal reverse_row
reverse_failed ids attempt id tenant actor now evidence = do
  m ← require_withdrawal id tenant
  throw_if (lacks_evidence evidence) no_evidence
  original ← or_throw (truthy m.transaction) no_ledger_debit
  reverse_row ids attempt tenant actor now m original

-- `controlledResend` refuses every request that reaches its end.
unfoldable pub controlled_resend : Key → Key → Evidence → M Db (Unit {0})
unfolding require_withdrawal
controlled_resend id tenant evidence = do
  m ← require_withdrawal id tenant
  throw_if (lacks_evidence evidence) no_evidence
  throw resend_blocked
