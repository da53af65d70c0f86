-- ===== src/Scenarios/Responses.antt =====
-- A guarantor's answer in the sample society, and the gate after it.
use beba_sacco_backend.Base.{
  false, ◌+ℤ◌, find_first, same, same, find_first, ◌+ℤ◌, true, none, some, [], ◌∷◌, Result, ◌≡◌,
  refl, pos, List, all_rows, if◌then◌else◌, ◌==◌,
}
use beba_sacco_backend.Store.{Db, Loan, Guarantor, GuarantorStatus, LoanStatus, pending_guarantors}
use beba_sacco_backend.Scenarios.{society, owing}
use beba_sacco_backend.GuarantorResponse.{
  member, admin_override, DecisionCall, by_member, by_id_or_member, accept, decline, Standing,
  criteria_met, is_accepted,
}
use beba_sacco_backend.GuarantorResponse.Decision.{apply_decision}
use beba_sacco_backend.GuarantorResponse.Gate.{criteria_met-gate_passed}
use beba_sacco_backend.DisbursementGate.{blocking_reasons, gate_passed}

abbrev backing : Guarantor
backing = record {
  id = "g";
  tenant = "sacco";
  loan = "loan";
  member = "ben";
  status = GuarantorStatus.pending;
  guaranteed_amount = pos 600;
  invited_at = 0;
  recovered_amount = pos 0;
  recovery_date = none;
  hold_released_at = none;
}

abbrev small_loan : Loan
small_loan = record owing { status = pending_guarantors; principal_amount = 600 }

abbrev asking : Db
asking = record society { guarantors = backing ∷ []; loans = small_loan ∷ [] }

abbrev in_standing : Standing
in_standing m = some true

abbrev yes_call : DecisionCall
yes_call = record {
  tenant = "sacco";
  loan = "loan";
  matcher = by_member "ben";
  action = some accept;
  acknowledged = true;
  source = member;
  now = 10;
}

abbrev answered : Result ((GuarantorStatus × LoanStatus) × Db)
answered = apply_decision in_standing yes_call asking

-- An administrator declines the request that the member accepted.
abbrev override_call : DecisionCall
override_call = record {
  tenant = "sacco";
  loan = "loan";
  matcher = by_id_or_member "g";
  action = some decline;
  acknowledged = false;
  source = admin_override;
  now = 20;
}

-- One guarantor accepted and another one declined.
abbrev replaced : List Guarantor
replaced =
    record backing { status = GuarantorStatus.accepted }
    ∷ record backing { id = "h"; member = "ann"; status = GuarantorStatus.rejected }
    ∷ []

replaced_met : criteria_met small_loan replaced ≡ true
unfolding criteria_met ◌+ℤ◌
replaced_met = refl

criteria_met-gate_passed_example : gate_passed (blocking_reasons small_loan replaced) ≡ (
    if small_loan.product.min_guarantors == 0
    then true
    else all_rows (λ (g : Guarantor). is_accepted g.status) replaced)
criteria_met-gate_passed_example = criteria_met-gate_passed small_loan replaced replaced_met
