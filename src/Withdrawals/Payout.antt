-- ===== src/Withdrawals/Payout.antt =====
-- A payout, and the request for it: `submitMwaloniMobilePayout` of
-- src/modules/mpesa/mpesa.service.ts. The check of an unknown outcome after a timeout is a job of
-- another queue, and left out.
use beba_sacco_backend.Base.{
  ℕ, ℤ, zero, suc, Key, same, same_opt, Bool, ◌&&◌, Option, none, some, [], ◌∷◌, ◌++◌, err, Error,
  modify,
}
use beba_sacco_backend.Store.{Db, MpesaTransaction}
use beba_sacco_backend.Withdrawals.{
  Site, is_open, is_withdrawal_id, withdrawal_row, update_withdrawals,
}
use beba_sacco_backend.Withdrawals.Provider.{Refresh, apply_status, mark_outcome_unknown}
use beba_sacco_backend.Withdrawals.Steps.{Step, committed, then_do, or_catch, give}
use beba_sacco_backend.Withdrawals.Run.{Answer, replied, unavailable, not_sent, Run}

-- A payout that is asked for. `for_withdrawal` is `referenceType === 'FOSA_WITHDRAWAL'`, the other
-- reference type being that of a loan's disbursement; `row` is the id of a new row and `time_text`
-- the text of the time. `run` holds the time, the ids and what the provider answers.
pub record Payout : Type 0 where
  pub for_withdrawal : Bool
  pub reference_id : Key
  pub tenant : Key
  pub phone : Key
  pub amount : ℤ
  pub source : Option Key
  pub row : Key
  pub time_text : Key
  pub run : Run

-- `{ conversationId, mpesaTxId }`
pub record Sent : Type 0 where
  pub conversation : Key
  pub withdrawal : Key

abbrev pub local_created : Key
local_created = "LOCAL_CREATED"

abbrev pub is_local : MpesaTransaction → Bool
is_local m = same_opt m.submission local_created

-- The `where` of the claim in front of the request
abbrev pub is_sendable : Key → MpesaTransaction → Bool
is_sendable id m = same m.id id && (is_open m.status && is_local m)

abbrev pub send_attempted : ℕ → MpesaTransaction → MpesaTransaction
send_attempted now m = record m {
  submission = some "PROVIDER_SEND_ATTEMPTED";
  sent_at = some now;
  checked_at = some now;
}

abbrev pub accepted : ℕ → MpesaTransaction → MpesaTransaction
accepted now m = record m { submission = some "PROVIDER_ACCEPTED"; checked_at = some now }

-- The request of `sendMobile`, which leaves unless the client throws before it
abbrev pub request_out : Answer → Key → Db → Db
request_out not_sent order db = db
request_out unavailable order db = record db { sent = db.sent ++ order ∷ [] }
request_out (replied reply) order db = record db { sent = db.sent ++ order ∷ [] }

-- What follows the request
unfoldable pub take_answer : Site → Run → Key → Answer → Step Refresh
unfolding update_withdrawals apply_status
take_answer site run id (replied reply) =
    then_do (committed (update_withdrawals (is_withdrawal_id id) (accepted run.now)))
      (λ count. committed (apply_status site run.ids run.actor run.now id reply))
take_answer site run id unavailable = λ db. (err Error.provider_unavailable, db)
take_answer site run id not_sent = λ db. (err Error.provider_unavailable, db)

abbrev pub sent_as : Key → Key → Sent
sent_as order id = record { conversation = order; withdrawal = id }

-- The `try` and the `catch` around the answer
unfoldable pub await_answer : Site → Run → Key → Key → Step Sent
unfolding take_answer mark_outcome_unknown
await_answer site run id order =
    or_catch (then_do (take_answer site run id run.answer) (λ _. give (sent_as order id)))
      (then_do (committed (mark_outcome_unknown id run.now)) (λ _. give (sent_as order id)))

unfoldable pub send_order : Site → Run → Key → Key → Step Sent
unfolding await_answer
send_order site run id order =
    then_do (committed (modify (request_out run.answer order)))
      (λ _. await_answer site run id order)

abbrev pub or_text : Option Key → Key → Key
or_text none b = b
or_text (some a) b = a

-- Nothing is sent where the claim was lost.
unfoldable pub send_claimed : Site → Run → Key → Key → ℕ → Step Sent
unfolding send_order
send_claimed site run id order zero =
    then_do (committed (withdrawal_row id)) (λ m. give (sent_as (or_text m.conversation order) id))
send_claimed site run id order (suc n) = send_order site run id order

-- `submitMwaloniMobilePayout`
unfoldable pub submit : Site → Run → Key → Key → Step Sent
unfolding update_withdrawals send_claimed
submit site run id order =
    then_do (committed (update_withdrawals (is_sendable id) (send_attempted run.now)))
      (send_claimed site run id order)
