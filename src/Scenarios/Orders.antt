-- ===== src/Scenarios/Orders.antt =====
-- A withdrawal of the sample society whose payout is asked for twice.
use beba_sacco_backend.Base.{
  false, some_row, truthy, Key, same, same_opt, join, true, some, List, [], ◌∷◌, All, Unique, ◌≡◌,
  ◌≤◌, refl, arith, pos, find_first, count_where,
}
use beba_sacco_backend.Withdrawals.Interrupted.{withdrawal_key}
use beba_sacco_backend.Withdrawals.Run.{unavailable}
use beba_sacco_backend.Withdrawals.Payout.{Payout}
use beba_sacco_backend.Withdrawals.Disburse.{clashes, execute, build_order}
use beba_sacco_backend.Withdrawals.SentOnce.{sends_of, IsBuilt, IsOwned}
use beba_sacco_backend.Withdrawals.Sends.{execute-sends}
use beba_sacco_backend.Withdrawals.Once.{payouts, payouts-sends_of}
use beba_sacco_backend.Scenarios.{Account, account}
use beba_sacco_backend.Scenarios.Payouts.{site, run_of, two_payouts}

abbrev asked : Key → Payout
asked row = record {
  for_withdrawal = true;
  reference_id = "a";
  tenant = "sacco";
  phone = "254712345678";
  amount = pos 500;
  source = some "t3";
  row = row;
  time_text = "1000000";
  run = run_of row "x" unavailable;
}

asked_order : build_order (asked "w3") (some "t3") ≡ "MWD-t3"
unfolding build_order join
asked_order = refl

-- The provider does not answer the first request, and the payout is asked for again.
abbrev twice : List Payout
twice = asked "w3" ∷ asked "w4" ∷ []

sent_once : sends_of "MWD-t3" (payouts site twice two_payouts).sent ≡ 1
unfolding payouts execute count_where same find_first same_opt
sent_once = refl

rows-IsBuilt : All IsBuilt two_payouts.mpesa
unfolding same_opt same
rows-IsBuilt = ((λ e. absurd (ground arith)), ((λ e. absurd (ground arith)), tt))

order-IsOwned : IsOwned "MWD-t3" two_payouts.mpesa
unfolding same join
order-IsOwned = ("w3", ((λ e. absurd (ground arith)), ((λ e. absurd (ground arith)), tt)))

two_withdrawals : Unique withdrawal_key two_payouts.mpesa
unfolding same
two_withdrawals = ((refl, tt), (tt, tt))

unsent : sends_of "MWD-t3" two_payouts.sent ≡ 0
unfolding count_where
unsent = refl

payouts-sends_of_example : sends_of "MWD-t3" (payouts site twice two_payouts).sent ≤ 1
payouts-sends_of_example =
    payouts-sends_of "MWD-t3" site twice two_payouts two_withdrawals rows-IsBuilt order-IsOwned
      unsent

account_found :
    find_first (λ (a : Account). same a.id (asked "w3").reference_id) two_payouts.accounts
    ≡ some (account "a" "ann")
unfolding same find_first
account_found = refl

no_clash :
    some_row (clashes "w3" (some "t3") (build_order (asked "w3") (some "t3"))) two_payouts.mpesa
    ≡ false
unfolding some_row same same_opt build_order join
no_clash = refl

named_source : truthy (asked "w3").source ≡ some "t3"
unfolding truthy same
named_source = refl

execute-sends_example :
    (execute site (asked "w3") two_payouts).1.sent ≡ build_order (asked "w3") (some "t3") ∷ []
execute-sends_example =
    execute-sends site (asked "w3") "t3" (account "a" "ann") two_payouts refl account_found
      named_source refl no_clash
