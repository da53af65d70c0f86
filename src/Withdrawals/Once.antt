-- ===== src/Withdrawals/Once.antt =====
-- No payout order is sent to the provider twice (`executeB2cDisbursement` and what it calls in
-- src/modules/mpesa/mpesa.service.ts).
use beba_sacco_backend.Base.{◌≤◌, Key, List, [], ◌∷◌, All, Unique, ◌≡◌, arith, inl, inr}
use beba_sacco_backend.Store.{Db, MpesaTransaction}
use beba_sacco_backend.Withdrawals.{Site}
use beba_sacco_backend.Withdrawals.Interrupted.{withdrawal_key}
use beba_sacco_backend.Withdrawals.Payout.{Payout}
use beba_sacco_backend.Withdrawals.Disburse.{execute}
use beba_sacco_backend.Withdrawals.SentOnce.{sends_of, IsBuilt, IsOwned, IsOrderly, Orderly}
use beba_sacco_backend.Withdrawals.Payouts.{execute-Orderly}

-- Payouts that are asked for one after the other; each may throw.
unfoldable pub payouts : Site → List Payout → Db → Db
unfolding execute
payouts site [] db = db
payouts site (p ∷ ps) db = payouts site ps (execute site p db).1

payouts-Orderly :
    (o : Key) (site : Site) (ps : List Payout) (db : Db)
    → Orderly o db
    → Orderly o (payouts site ps db)
unfolding payouts
payouts-Orderly o site [] db h = h
payouts-Orderly o site (p ∷ ps) db h =
    payouts-Orderly o site ps (execute site p db).1 (execute-Orderly o site p db h)

at_most_once :
    (o : Key) (rows : List MpesaTransaction) (sent : List Key)
    → IsOrderly o rows sent
    → sends_of o sent ≤ 1
at_most_once o rows sent (unique, built, owned, inl fresh) = omega (arith, fresh)
at_most_once o rows sent (unique, built, owned, inr (once, used)) = omega (arith, once)

-- No payout order is sent to the provider twice: where the ids of the withdrawals differ, a row
-- that is ready to be sent has the reference of its conversation, all rows with the reference of
-- the order `o` are one row, and `o` was not sent yet, then however often payouts are asked for,
-- one after the other, and whatever the provider answers or does not answer, `o` is sent at most
-- once.
pub payouts-sends_of :
    (o : Key) (site : Site) (ps : List Payout) (db : Db)
    → Unique withdrawal_key db.mpesa
    → All IsBuilt db.mpesa
    → IsOwned o db.mpesa
    → sends_of o db.sent ≡ 0
    → sends_of o (payouts site ps db).sent ≤ 1
payouts-sends_of o site ps db unique built owned fresh =
    let kept = payouts-Orderly o site ps db (unique, built, owned, inl fresh) in
    at_most_once o (payouts site ps db).mpesa (payouts site ps db).sent kept
