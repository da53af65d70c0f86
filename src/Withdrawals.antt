-- ===== src/Withdrawals.antt =====
-- Withdrawals that are paid out over mobile money: the settings, the provider's answer and the
-- tests on rows that src/modules/mpesa/mpesa.service.ts and
-- src/modules/mpesa/withdrawal-reconciliation.service.ts share. Times are in milliseconds.
pub mod Provider
pub mod Manual
pub mod Reconcile
pub mod Run
pub mod Steps
pub mod Payout
pub mod Disburse
pub mod Benign
pub mod SentOnce
pub mod Answered
pub mod Claims
pub mod Created
pub mod Payouts
pub mod Once
pub mod Sends
pub mod Settled
pub mod Answers
pub mod Moves
pub mod Paid
pub mod Stuck
pub mod Interrupted
pub mod Exhausted
use beba_sacco_backend.Base.{
  ℕ, ℤ, Key, same, same_opt, Bool, true, false, ◌&&◌, Option, none, some, List, [], ◌∷◌, ltb, not,
  count_where, find_first, update_many, M, gets, modify, ◌>>=◌, ◌>>◌, or_throw, not_found, pure,
}
use beba_sacco_backend.Store.{Db, MpesaTransaction, TransactionStatus}

-- The configuration, and the two text functions that are applied to the provider's words
pub record Site : Type 0 where
  pub provider_enabled : Bool
  pub retry_interval : ℕ
  pub review_after : ℕ
  pub lock_lifetime : ℕ
  pub pending_threshold : ℕ
  pub max_attempts : ℕ
  pub upper : Key → Key
  pub normalize : Key → Option Key

-- The provider's answer: its status without blanks around it, and what it says of the order, the
-- amount (at four places) and the phone
pub record Reply : Type 0 where
  pub status : Key
  pub order : Option Key
  pub amount : Option ℤ
  pub phone : Option Key

-- `status: { in: [PENDING, RECON_PENDING] }`
abbrev pub is_open : TransactionStatus → Bool
is_open TransactionStatus.pending = true
is_open TransactionStatus.recon_pending = true
is_open _ = false

abbrev pub is_withdrawal_id : Key → MpesaTransaction → Bool
is_withdrawal_id id m = same m.id id

abbrev pub is_open_id : Key → MpesaTransaction → Bool
is_open_id id m = same m.id id && is_open m.status

abbrev pub fosa_withdrawal : Key
fosa_withdrawal = "FOSA_WITHDRAWAL"

abbrev pub is_fosa_withdrawal : MpesaTransaction → Bool
is_fosa_withdrawal m = same_opt m.reference_type fosa_withdrawal

-- `findUniqueOrThrow({ where: { id } })`
abbrev pub withdrawal_row : Key → M Db MpesaTransaction
withdrawal_row id = do
  found ← gets (λ (db : Db). find_first (is_withdrawal_id id) db.mpesa)
  or_throw found not_found

-- `updateMany`, and how many rows it has rewritten
unfoldable pub update_withdrawals :
    (MpesaTransaction → Bool) → (MpesaTransaction → MpesaTransaction) → M Db ℕ
unfolding count_where update_many
update_withdrawals test change = do
  count ← gets (λ (db : Db). count_where test db.mpesa)
  modify (λ (db : Db). record db { mpesa = update_many test change db.mpesa })
  pure count
