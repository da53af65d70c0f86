-- ===== src/Withdrawals/Provider.antt =====
-- What the provider's answer does to a withdrawal: `refreshMwaloniB2cStatus`,
-- `applyMwaloniStatus` and what they call in src/modules/mpesa/mpesa.service.ts.
use beba_sacco_backend.Base.{
  ℕ, ℤ, Key, same, join, Bool, true, false, ◌&&◌, ◌||◌, not, if◌then◌else◌, Option, none, some, M,
  ◌>>=◌, pure, gets, or_throw, not_found, find_first, leb_ℤ, truthy,
}
use beba_sacco_backend.Store.{Db, MpesaTransaction, TransactionStatus}
use beba_sacco_backend.Ledger.Entry.{NewIds}
use beba_sacco_backend.Ledger.Reversal.{reverse_transaction}
use beba_sacco_backend.Withdrawals.{
  Site, Reply, is_open, is_withdrawal_id, is_open_id, is_fosa_withdrawal, update_withdrawals,
}

-- `{ refreshed, terminal, status }`
pub record Refresh : Type 0 where
  pub refreshed : Bool
  pub terminal : Bool
  pub status : Option TransactionStatus

abbrev pub is_success : Key → Bool
is_success status = same status "00"

abbrev pub is_still_pending : Site → Key → Bool
is_still_pending site status =
    same (site.upper status) "02"
    || (same (site.upper status) "03"
        || (same (site.upper status) "PENDING"
            || (same (site.upper status) "PROCESSING"
                || (same (site.upper status) "QUEUED" || same (site.upper status) "IN_PROGRESS"))))

-- Both texts are there, and they differ.
abbrev pub texts_differ : Option Key → Option Key → Bool
texts_differ (some a) (some b) = not (same a b)
texts_differ _ _ = false

abbrev pub amounts_differ : Option ℤ → ℤ → Bool
amounts_differ none b = false
amounts_differ (some a) b = not (leb_ℤ a b && leb_ℤ b a)

abbrev pub normalized : Site → Option Key → Option Key
normalized site none = none
normalized site (some phone) = truthy (site.normalize phone)

-- `findMwaloniResponseMismatches(…).length > 0`
unfoldable pub is_mismatch : Site → MpesaTransaction → Reply → Bool
unfolding truthy
is_mismatch site m reply =
    texts_differ (truthy reply.order) (truthy m.conversation)
    || (amounts_differ reply.amount m.amount
        || texts_differ (normalized site (truthy reply.phone)) (normalized site (some m.phone)))

abbrev pub outcome_unknown : Key → ℕ → MpesaTransaction → MpesaTransaction
outcome_unknown reason now m = record m {
  status = TransactionStatus.recon_pending;
  submission = some "PROVIDER_OUTCOME_UNKNOWN";
  checked_at = some now;
  failure_reason = some reason;
}

-- `markMwaloniMismatchReconciliation`
unfoldable pub mark_mismatch : Key → ℕ → M Db (Unit {0})
unfolding update_withdrawals
mark_mismatch id now = do
  claim ←
      update_withdrawals (is_open_id id) (outcome_unknown "MWALONI_PROVIDER_RESPONSE_MISMATCH" now)
  pure tt

-- `markMwaloniOutcomeUnknown`
unfoldable pub mark_outcome_unknown : Key → ℕ → M Db (Unit {0})
unfolding update_withdrawals
mark_outcome_unknown id now = do
  claim ←
      update_withdrawals (is_open_id id)
        (outcome_unknown "MWALONI_PROVIDER_SEND_OUTCOME_UNKNOWN" now)
  pure tt

abbrev pub paid_out : ℕ → MpesaTransaction → MpesaTransaction
paid_out now m = record m {
  status = TransactionStatus.completed;
  submission = some "COMPLETED";
  checked_at = some now;
}

abbrev pub payout_failed : Key → ℕ → MpesaTransaction → MpesaTransaction
payout_failed reason now m = record m {
  status = TransactionStatus.failed;
  submission = some "FAILED";
  checked_at = some now;
  failure_reason = some reason;
}

-- The debit of a withdrawal goes back to the member's account.
unfoldable pub refund : NewIds → Key → Key → Bool → Option Key → M Db (Unit {0})
unfolding reverse_transaction
refund ids tenant actor true (some transaction) = do
  made ← reverse_transaction ids tenant actor transaction
  pure tt
refund ids tenant actor _ _ = pure tt

unfoldable pub fail_open : NewIds → Key → Key → ℕ → MpesaTransaction → Bool → M Db (Unit {0})
unfolding refund update_withdrawals
fail_open ids actor reason now m false = pure tt
fail_open ids actor reason now m true = do
  updated ← update_withdrawals (is_withdrawal_id m.id) (payout_failed reason now)
  refund ids m.tenant actor (is_fosa_withdrawal m) (truthy m.transaction)

-- `failMwaloniTransaction`; the actor of the reversal is the system's user.
unfoldable pub fail_transaction : NewIds → Key → Key → Key → ℕ → M Db (Unit {0})
unfolding fail_open
fail_transaction ids actor id reason now = do
  found ← gets (λ (db : Db). find_first (is_withdrawal_id id) db.mpesa)
  m ← or_throw found not_found
  fail_open ids actor reason now m (is_open m.status)

abbrev pub status_reason : Key → Key
status_reason status =
    if same status "" then "MWALONI_STATUS_UNKNOWN" else join "MWALONI_STATUS_" status

abbrev pub checked : ℕ → MpesaTransaction → MpesaTransaction
checked now m = record m { checked_at = some now }

abbrev pub still_running : TransactionStatus → Refresh
still_running status = record { refreshed = true; terminal = false; status = some status }

abbrev pub decided : TransactionStatus → Refresh
decided status = record { refreshed = true; terminal = true; status = some status }

-- What a reply means: the tests of `applyMwaloniStatus`, in their order.
pub data Verdict : Type 0 where
  mismatch success running failure : Verdict

unfoldable pub verdict_of : Site → MpesaTransaction → Reply → Verdict
unfolding is_mismatch
verdict_of site m reply =
    if is_mismatch site m reply
    then mismatch
    else if is_success reply.status
    then success
    else if is_still_pending site reply.status
    then running
    else failure

unfoldable pub carry_out : NewIds → Key → ℕ → Key → Key → Verdict → M Db Refresh
unfolding mark_mismatch fail_transaction update_withdrawals
carry_out ids actor now id status mismatch = do
  marked ← mark_mismatch id now
  pure (still_running TransactionStatus.recon_pending)
carry_out ids actor now id status success = do
  claim ← update_withdrawals (is_open_id id) (paid_out now)
  pure (decided TransactionStatus.completed)
carry_out ids actor now id status running = do
  updated ← update_withdrawals (is_withdrawal_id id) (checked now)
  pure (still_running TransactionStatus.pending)
carry_out ids actor now id status failure = do
  failed ← fail_transaction ids actor id (status_reason status) now
  pure (decided TransactionStatus.failed)

-- `applyMwaloniStatus`
unfoldable pub apply_status : Site → NewIds → Key → ℕ → Key → Reply → M Db Refresh
unfolding carry_out verdict_of
apply_status site ids actor now id reply = do
  found ← gets (λ (db : Db). find_first (is_withdrawal_id id) db.mpesa)
  current ← or_throw found not_found
  carry_out ids actor now id reply.status (verdict_of site current reply)
