-- ===== src/DisbursementGate.antt =====
-- The gate in front of a disbursement (src/loans/disbursement-gate.service.ts).
use beba_sacco_backend.Base.{
  ◌++◌, not, ltb, Bool, true, false, ◌&&◌, Key, List, [], ◌∷◌, M, ◌>>=◌, pure, gets, or_throw,
  throw_if, find_first, rows_where, all_rows, length, ◌==◌, not_found, gate_blocked,
}
use beba_sacco_backend.Store.{Db, Loan, Guarantor}
use beba_sacco_backend.GuarantorResponse.{is_accepted, backs, is_loan, accepted_of, pledged, covers}

pub data BlockingReason : Type 0 where
  min_guarantors guarantors_pending accepted_count coverage : BlockingReason

abbrev pub reason_if : Bool → BlockingReason → List BlockingReason
reason_if true reason = reason ∷ []
reason_if false reason = []

-- `blockingReasons`, for the rows of the loan's guarantors
unfoldable pub blocking_reasons : Loan → List Guarantor → List BlockingReason
unfolding length rows_where all_rows covers
blocking_reasons l gs =
    let asks = ltb 0 l.product.min_guarantors in
    reason_if (asks && ltb (length gs) l.product.min_guarantors) min_guarantors
    ++ reason_if (asks && not (all_rows (λ (g : Guarantor). is_accepted g.status) gs))
        guarantors_pending
    ++ reason_if (asks && ltb (length (accepted_of gs)) l.product.min_guarantors) accepted_count
    ++ reason_if (asks && not (covers (pledged gs) l)) coverage

unfoldable pub evaluate : Key → Key → M Db (List BlockingReason)
unfolding blocking_reasons
evaluate tenant loan = do
  found ← gets (λ (db : Db). find_first (is_loan tenant loan) db.loans)
  l ← or_throw found not_found
  gs ← gets (λ (db : Db). rows_where (backs tenant loan) db.guarantors)
  pure (blocking_reasons l gs)

-- `gatePassed`
abbrev pub gate_passed : List BlockingReason → Bool
gate_passed reasons = length reasons == 0

unfoldable pub assert_passed : Key → Key → M Db (Unit {0})
unfolding evaluate
assert_passed tenant loan = do
  reasons ← evaluate tenant loan
  throw_if (not (gate_passed reasons)) gate_blocked
