-- ===== src/GuarantorResponse/Gate.antt =====
-- Which loans that have their guarantors the gate lets through
-- (src/loans/guarantor-response.service.ts and src/loans/disbursement-gate.service.ts).
use beba_sacco_backend.Base.{
  ℕ, ◌≤◌, leb, ltb, not, if◌then◌else◌, Bool, true, false, ◌&&◌, Bool-cases, inl, inr, List, [],
  ◌∷◌, ◌++◌, length, rows_where, all_rows, ◌==◌, zero, suc, leb→le, ◌≡◌, refl, arith,
}
use beba_sacco_backend.Store.{Loan, Guarantor}
use beba_sacco_backend.GuarantorResponse.{
  is_accepted, accepted_of, pending_of, pledged, covers, criteria_met,
}
use beba_sacco_backend.DisbursementGate.{
  blocking_reasons, gate_passed, BlockingReason, reason_if, min_guarantors, guarantors_pending,
  accepted_count, coverage,
}

length-rows_where :
    (p : Guarantor → Bool) (gs : List Guarantor) → length (rows_where p gs) ≤ length gs
unfolding length rows_where
length-rows_where p [] = omega arith
length-rows_where p (g ∷ gs) = elim (Bool-cases (p g)) [
  | inl e ↦ rw e (omega (arith, length-rows_where p gs))
  | inr e ↦ rw e (omega (arith, length-rows_where p gs))
]

not_less : (m n : ℕ) → m ≤ n → ltb n m ≡ false
not_less m n h = ground arith

met_parts : (a b c : Bool) → (a && (b && c)) ≡ true → (a ≡ true) × (b ≡ true) × (c ≡ true)
met_parts true true true h = (refl, refl, refl)
met_parts true true false h = absurd (ground arith)
met_parts true false c h = absurd (ground arith)
met_parts false b c h = absurd (ground arith)

some_asked : (n : ℕ) → ltb 0 (suc n) ≡ true
some_asked n = ground arith

not_none : (n : ℕ) → (suc n == 0) ≡ false
not_none n = ground arith

-- The reasons that are left when there are guarantors and coverage enough.
abbrev left_reasons : ℕ → Bool → List BlockingReason
left_reasons least all =
    let asks = ltb 0 least in
    reason_if (asks && false) min_guarantors
    ++ reason_if (asks && not all) guarantors_pending
    ++ reason_if (asks && false) accepted_count
    ++ reason_if (asks && false) coverage

left_passed :
    (least : ℕ) (all : Bool)
    → gate_passed (left_reasons least all) ≡ (if least == 0 then true else all)
unfolding length
left_passed zero true = refl
left_passed zero false = refl
left_passed (suc n) true = rw (some_asked n, not_none n) refl
left_passed (suc n) false = rw (some_asked n, not_none n) refl

-- A loan that meets the criteria of its guarantors passes the gate of the disbursement just where its
-- product asks for no guarantor or every guarantor that was ever asked has accepted.
pub criteria_met-gate_passed :
    (l : Loan) (gs : List Guarantor)
    → criteria_met l gs ≡ true
    → gate_passed (blocking_reasons l gs) ≡ (
        if l.product.min_guarantors == 0
        then true
        else all_rows (λ (g : Guarantor). is_accepted g.status) gs)
unfolding criteria_met blocking_reasons
criteria_met-gate_passed l gs met =
    let (none_pending, enough, covered) =
      met_parts (length (pending_of gs) == 0)
        (leb l.product.min_guarantors (length (accepted_of gs))) (covers (pledged gs) l) met in
    let least = leb→le l.product.min_guarantors (length (accepted_of gs)) enough in
    rw
      (
        not_less l.product.min_guarantors (length (accepted_of gs)) least,
        not_less l.product.min_guarantors (length gs)
            (omega (arith, least, length-rows_where (λ (g : Guarantor). is_accepted g.status) gs)),
        covered,
      )
      (left_passed l.product.min_guarantors (all_rows (λ (g : Guarantor). is_accepted g.status) gs))
