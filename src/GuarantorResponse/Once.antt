-- ===== src/GuarantorResponse/Once.antt =====
-- A guarantor's request is answered once (src/loans/guarantor-response.service.ts).
use beba_sacco_backend.Base.{
  not, if◌then◌else◌, ◌&&◌, some, conflict, no_action, not_acknowledged, Error, Option, none,
}
use beba_sacco_backend.GuarantorResponse.{Action, DecisionCall}
use beba_sacco_backend.GuarantorResponse.Decision.{is_accept, is_member}

-- The error of an answer that comes too late: a call without an action and a member's acceptance
-- without the acknowledgment are refused before the guarantor's row is read.
abbrev pub refusal : DecisionCall → Option Action → Error
refusal c none = no_action
refusal c (some action) =
    if is_accept action && (is_member c.source && not c.acknowledged)
    then not_acknowledged
    else conflict
