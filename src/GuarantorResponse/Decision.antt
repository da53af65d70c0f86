-- ===== src/GuarantorResponse/Decision.antt =====
-- `applyDecision` (src/loans/guarantor-response.service.ts): one guarantor's answer.
use beba_sacco_backend.Base.{
  ℕ, ◌+◌, ltb, not, if◌then◌else◌, Bool, true, false, ◌&&◌, ◌||◌, Key, same, some, [], ◌∷◌, M,
  ◌>>=◌, ◌>>◌, pure, gets, modify, or_throw, throw_if, find_first, update_many, not_found, conflict,
  no_action, not_acknowledged, guarantor_not_active, kyc_not_verified,
}
use beba_sacco_backend.Store.{Db, Loan, LoanStatus, Guarantor, GuarantorStatus}
use beba_sacco_backend.Guarantors.{resolve_account_type, place_guarantor_holds}
use beba_sacco_backend.GuarantorResponse.{
  Action, accept, decline, Source, member, system_expiry, Standing, DecisionCall, is_accepted,
  is_pending, asked, is_loan, apply_loan_state,
}

abbrev pub is_accept : Action → Bool
is_accept accept = true
is_accept decline = false

abbrev pub is_member : Source → Bool
is_member member = true
is_member _ = false

abbrev pub is_expiry : Source → Bool
is_expiry system_expiry = true
is_expiry _ = false

-- 72 hours, in milliseconds
abbrev pub consent_window : ℕ
consent_window = 259200000

-- `nextStatus`
unfoldable pub next_status : DecisionCall → Action → Guarantor → GuarantorStatus
next_status c action g =
    if is_expiry c.source || ltb (g.invited_at + consent_window) c.now
    then GuarantorStatus.expired
    else if is_accept action
    then GuarantorStatus.accepted
    else GuarantorStatus.rejected

-- `assertGuarantorCanAccept` and the hold, which only an acceptance asks for
unfoldable pub hold_if_accepted : Standing → Key → Loan → Guarantor → Bool → M Db (Unit {0})
hold_if_accepted standing tenant l g false = pure tt
hold_if_accepted standing tenant l g true = do
  approved ← or_throw (standing g.member) guarantor_not_active
  throw_if (not approved) kyc_not_verified
  place_guarantor_holds tenant (record { member = g.member; given = some g.guaranteed_amount } ∷ [])
      (resolve_account_type l.product.required_account_type)

abbrev pub answer : GuarantorStatus → Guarantor → Guarantor
answer status g = record g { status = status }

-- The `where` of the update of the guarantor
abbrev pub waiting_row : Key → Key → Guarantor → Bool
waiting_row tenant id g = same g.id id && (same g.tenant tenant && is_pending g.status)

-- The writes of a decision, once the rows are read
unfoldable pub carry_out :
    Standing → DecisionCall → Guarantor → Loan → GuarantorStatus → M Db LoanStatus
unfolding hold_if_accepted
carry_out standing c g l next = do
  held ← hold_if_accepted standing c.tenant l g (is_accepted next)
  modify (λ (db : Db). record db {
    guarantors = update_many (waiting_row c.tenant g.id) (answer next) db.guarantors;
  })
  apply_loan_state c.tenant c.now l next

unfoldable pub decide_pending :
    Standing → DecisionCall → Action → Guarantor → M Db (GuarantorStatus × LoanStatus)
unfolding carry_out next_status
decide_pending standing c action g = do
  throw_if (not (is_pending g.status)) conflict
  found ← gets (λ (db : Db). find_first (is_loan c.tenant c.loan) db.loans)
  l ← or_throw found not_found
  status ← carry_out standing c g l (next_status c action g)
  pure (next_status c action g, status)

unfoldable pub apply_decision : Standing → DecisionCall → M Db (GuarantorStatus × LoanStatus)
unfolding decide_pending
apply_decision standing c = do
  action ← or_throw c.action no_action
  throw_if (is_accept action && (is_member c.source && not c.acknowledged)) not_acknowledged
  found ← gets (λ (db : Db). find_first (asked c) db.guarantors)
  g ← or_throw found not_found
  decide_pending standing c action g
