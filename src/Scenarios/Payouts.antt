-- ===== src/Scenarios/Payouts.antt =====
-- Withdrawals of the sample society that are paid out over mobile money.
use beba_sacco_backend.Base.{Error, err, ℕ, Unique, same_opt, arith, ◌≢◌}
use beba_sacco_backend.Ledger.Reversal.{is_transaction}
use beba_sacco_backend.Withdrawals.{is_withdrawal_id}
use beba_sacco_backend.Withdrawals.Manual.{reverse_failed, create_attempt}
use beba_sacco_backend.Withdrawals.Reconcile.{claim}
use beba_sacco_backend.Withdrawals.Run.{unavailable, skipped, refreshed_as, is_eligible}
use beba_sacco_backend.Withdrawals.Stuck.{after_runs}
use beba_sacco_backend.Withdrawals.Interrupted.{withdrawal_key, claim-interrupted}
use beba_sacco_backend.Withdrawals.Exhausted.{reconcile-exhausted}
use beba_sacco_backend.Base.{
  same_opt, ok, ◌≡◌, refl, ◌∷◌, [], Key, some, none, true, false, pos, ℕ, find_first, update_many,
  count_where, some_row, same, arith,
}
use beba_sacco_backend.Store.{Db, MpesaTransaction, Transaction, TransactionType, TransactionStatus}
use beba_sacco_backend.Ledger.Entry.{NewIds}
use beba_sacco_backend.Withdrawals.{Site, Reply}
use beba_sacco_backend.Withdrawals.Manual.{Evidence, mark_completed}
use beba_sacco_backend.Withdrawals.Run.{Run, Answer, replied, reconcile}
use beba_sacco_backend.Withdrawals.Settled.{IsPaid}
use beba_sacco_backend.Withdrawals.Paid.{
  completes, reconciles, Reaches, here, later, Reaches-IsPaid,
}
use beba_sacco_backend.Scenarios.{society, state_of}

abbrev pub site : Site
site = record {
  provider_enabled = true;
  retry_interval = 900000;
  review_after = 7200000;
  lock_lifetime = 300000;
  pending_threshold = 1800000;
  max_attempts = 5;
  upper = λ s. s;
  normalize = λ s. some s;
}

abbrev payout : Key → Key → TransactionStatus → MpesaTransaction
payout id transaction status = record {
  id = id;
  tenant = "sacco";
  transaction = some transaction;
  loan = none;
  status = status;
  receipt = none;
  is_b2c = true;
  reference_type = some "FOSA_WITHDRAWAL";
  phone = "254712345678";
  amount = pos 500;
  conversation = some transaction;
  reference = transaction;
  submission = some "PROVIDER_ACCEPTED";
  sent_at = some 0;
  checked_at = none;
  failure_reason = none;
  created_at = 0;
  due_at = none;
  attempt_count = 0;
  next_retry = none;
  locked_at = none;
  locked_by = none;
  review_required = false;
  review_reason = none;
  last_reason = none;
}

abbrev debit_row : Key → Transaction
debit_row id = record {
  id = id;
  tenant = "sacco";
  account = "a";
  loan = none;
  kind = TransactionType.withdrawal;
  status = TransactionStatus.completed;
  amount = pos 500;
  balance_before = pos 1000;
  balance_after = pos 500;
  reference = id;
  processed_by = "clerk";
  linked = none;
}

abbrev evidence : Evidence
evidence = record { reason = "statement of the provider"; reference = "E-1" }

abbrev new_ids : NewIds
new_ids = record { transaction = "r1"; entry = "re1" }

abbrev success_reply : Reply
success_reply = record { status = "00"; order = none; amount = some (pos 500); phone = none }

abbrev failure_reply : Reply
failure_reply = record { status = "99"; order = none; amount = none; phone = none }

abbrev pub run_of : Key → Key → Answer → Run
run_of withdrawal attempt answer = record {
  withdrawal = withdrawal;
  trigger = "AUTOMATED";
  holder = "AUTOMATED:SYSTEM";
  now = 1000000;
  attempt = attempt;
  ids = new_ids;
  actor = "system";
  answer = answer;
}

-- One withdrawal is paid out, the other one waits for its outcome.
abbrev pub two_payouts : Db
two_payouts = record society {
  transactions = debit_row "t1" ∷ debit_row "t2" ∷ [];
  mpesa =
      payout "w1" "t1" TransactionStatus.completed
      ∷ payout "w2" "t2" TransactionStatus.pending
      ∷ [];
}

-- The provider does not answer, and the outcome is entered by hand.
unfoldable retried : Db
unfolding reconcile
retried = (reconcile site (run_of "w2" "x0" unavailable) two_payouts).1

unfoldable by_hand : Db
unfolding retried mark_completed reconcile same find_first count_where update_many some_row
by_hand = state_of retried (mark_completed "x1" "w2" "sacco" 2000000 evidence retried)

by_hand_done : mark_completed "x1" "w2" "sacco" 2000000 evidence retried ≡ ok (tt, by_hand)
unfolding by_hand retried mark_completed reconcile same find_first count_where update_many some_row
    same_opt
by_hand_done = refl

history : Reaches site two_payouts by_hand
unfolding retried
history =
    later (later here (reconciles (run_of "w2" "x0" unavailable)))
      (completes "x1" "w2" "sacco" 2000000 evidence by_hand_done)

starts-IsPaid : IsPaid "w1" "sacco" "t1" two_payouts
unfolding same same_opt is_transaction find_first
starts-IsPaid = (
  (
    record { paid = λ _. refl; own = λ _. refl },
    (record { paid = λ e. absurd (ground arith); own = λ e. absurd (ground arith) }, tt),
  ),
  (debit_row "t1", refl, refl),
)

Reaches-IsPaid_example : IsPaid "w1" "sacco" "t1" by_hand
Reaches-IsPaid_example = Reaches-IsPaid site "w1" "sacco" "t1" history starts-IsPaid

abbrev waiting : ℕ → Db
waiting count = record society {
  transactions = debit_row "t2" ∷ [];
  mpesa = record (payout "w2" "t2" TransactionStatus.pending) { attempt_count = count } ∷ [];
}

one_payout : Unique withdrawal_key (waiting 0).mpesa
one_payout = (tt, tt)

abbrev claimed_row : MpesaTransaction
claimed_row = record (payout "w2" "t2" TransactionStatus.pending) {
  locked_at = some 1000000;
  locked_by = some "AUTOMATED:SYSTEM";
}

abbrev claimed : Db
claimed = record (waiting 0) { mpesa = claimed_row ∷ [] }

claim_done : claim site 1000000 "w2" "AUTOMATED:SYSTEM" (waiting 0) ≡ ok (some claimed_row, claimed)
unfolding claim same find_first count_where update_many
claim_done = refl

unfoldable attempted : Db
unfolding create_attempt some_row
attempted = state_of claimed (create_attempt "x1" claimed_row "AUTOMATED" claimed)

attempt_done : create_attempt "x1" claimed_row "AUTOMATED" claimed ≡ ok (tt, attempted)
unfolding attempted create_attempt some_row
attempt_done = refl

abbrev tomorrow : Run
tomorrow = record (run_of "w2" "x2" (replied success_reply)) { now = 90000000 }

abbrev relocked : MpesaTransaction
relocked = record claimed_row { locked_at = some 90000000 }

-- The run of the next day takes the lock, and nothing else changes.
still_pending :
    find_first (is_withdrawal_id "w2") (after_runs "w2" site (tomorrow ∷ []) attempted).mpesa
    ≡ some relocked
unfolding after_runs reconcile attempted same find_first count_where update_many some_row
still_pending = refl

claim-interrupted_example :
    (relocked.status ≡ claimed_row.status)
    × ((e : Error) × (mark_completed "x3" "w2" "sacco" 95000000 evidence
            (after_runs "w2" site (tomorrow ∷ []) attempted)
          ≡ err e))
    × ((e : Error) × (reverse_failed new_ids "x3" "w2" "sacco" "admin" 95000000 evidence
            (after_runs "w2" site (tomorrow ∷ []) attempted)
          ≡ err e))
claim-interrupted_example =
    claim-interrupted site "w2" "AUTOMATED:SYSTEM" "x1" "AUTOMATED" 1000000 (waiting 0) claimed
      attempted claimed_row relocked (tomorrow ∷ []) one_payout claim_done attempt_done
      still_pending new_ids "x3" "sacco" "admin" 95000000 evidence

abbrev fifth : Run
fifth = run_of "w2" "x5" (replied success_reply)

-- The provider confirms the payment at the fifth attempt: the row is completed and asks for a
-- review.
abbrev confirmed_row : MpesaTransaction
confirmed_row = record (payout "w2" "t2" TransactionStatus.completed) {
  submission = some "COMPLETED";
  checked_at = some 1000000;
  attempt_count = 5;
  review_required = true;
  review_reason = some "PROVIDER_CONFIRMED_SUCCESS";
  last_reason = some "PROVIDER_CONFIRMED_SUCCESS";
}

fifth_done : (reconcile site fifth (waiting 4)).0 ≡ ok (refreshed_as TransactionStatus.completed)
unfolding reconcile same find_first count_where update_many some_row
fifth_done = refl

fifth_row :
    find_first (is_withdrawal_id "w2") (reconcile site fifth (waiting 4)).1.mpesa
    ≡ some confirmed_row
unfolding reconcile same find_first count_where update_many some_row
fifth_row = refl

waits_fifth :
    find_first (is_withdrawal_id "w2") (waiting 4).mpesa
    ≡ some (record (payout "w2" "t2" TransactionStatus.pending) { attempt_count = 4 })
unfolding same find_first
waits_fifth = refl

refreshed_ne : refreshed_as TransactionStatus.completed ≢ skipped
refreshed_ne e = cc

reconcile-exhausted_example :
    (confirmed_row.review_required ≡ true) × (is_eligible site 9000000 confirmed_row ≡ false)
reconcile-exhausted_example =
    reconcile-exhausted site fifth (waiting 4)
      (record (payout "w2" "t2" TransactionStatus.pending) { attempt_count = 4 }) confirmed_row
      (refreshed_as TransactionStatus.completed) 9000000 (tt, tt) waits_fifth (omega arith)
      fifth_done refreshed_ne fifth_row
