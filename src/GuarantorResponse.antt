-- ===== src/GuarantorResponse.antt =====
-- The answers of the guarantors of a loan (src/loans/guarantor-response.service.ts).
pub mod Answered
pub mod Decision
pub mod Gate
pub mod Once
use beba_sacco_backend.Base.{
  ℕ, ◌+◌, ◌*◌, ◌-◌, ◌^◌, leb, ltb, not, if◌then◌else◌, ℤ, pos, negsuc, ◌-ℤ◌, leb_ℤ, Bool, true,
  false, ◌&&◌, ◌||◌, Key, same, Option, none, some, List, [], ◌∷◌, M, ◌>>=◌, ◌>>◌, pure, gets,
  modify, or_throw, throw_if, find_first, rows_where, some_row, update_many, length, total, ◌==◌,
  not_found, conflict, no_action, not_acknowledged, guarantor_not_active, kyc_not_verified,
}
use beba_sacco_backend.Store.{
  Ratio, Db, Loan, LoanStatus, pending_guarantors, pending_approval, rejected_guarantor_decline,
  Guarantor, GuarantorStatus, AccountType, Product,
}
use beba_sacco_backend.Guarantors.{
  Nominee, resolve_account_type, ratio_or_one, place_guarantor_holds, release_guarantor_holds,
}

pub data Action : Type 0 where
  accept decline : Action

pub data Source : Type 0 where
  member admin_override system_expiry : Source

pub data Matcher : Type 0 where
  by_member by_id_or_member : Key → Matcher

-- What `assertGuarantorCanAccept` reads of a member: none where no active member with an active
-- user is found, and else whether the KYC status is APPROVED.
abbrev pub Standing : Type 0
Standing = Key → Option Bool

pub record DecisionCall : Type 0 where
  pub tenant : Key
  pub loan : Key
  pub matcher : Matcher
  pub action : Option Action
  pub acknowledged : Bool
  pub source : Source
  pub now : ℕ

abbrev pub is_accepted : GuarantorStatus → Bool
is_accepted GuarantorStatus.accepted = true
is_accepted _ = false

abbrev pub is_pending : GuarantorStatus → Bool
is_pending GuarantorStatus.pending = true
is_pending _ = false

abbrev pub is_declined : GuarantorStatus → Bool
is_declined GuarantorStatus.rejected = true
is_declined GuarantorStatus.expired = true
is_declined _ = false

-- The `where` of the guarantors of a loan
abbrev pub backs : Key → Key → Guarantor → Bool
backs tenant loan g = same g.tenant tenant && same g.loan loan

abbrev pub matches : Matcher → Guarantor → Bool
matches (by_member m) g = same g.member m
matches (by_id_or_member k) g = same g.id k || same g.member k

-- The `where` of `lockGuarantor`
abbrev pub asked : DecisionCall → Guarantor → Bool
asked c g = backs c.tenant c.loan g && matches c.matcher g

abbrev pub is_loan : Key → Key → Loan → Bool
is_loan tenant loan l = same l.id loan && same l.tenant tenant

-- A signed number of units, times a number
unfoldable pub times : ℤ → ℕ → ℤ
times (pos n) k = pos (n * k)
times (negsuc n) k = pos 0 -ℤ pos ((n + 1) * k)

-- `totalAccepted >= principal * ratio`, in whole numbers
unfoldable pub covers : ℤ → Loan → Bool
unfolding times
covers amount l =
    let q = ratio_or_one l.product.coverage_ratio in
    leb_ℤ (pos (l.principal_amount * q.numerator)) (times amount (10 ^ q.digits))

abbrev pub accepted_of : List Guarantor → List Guarantor
accepted_of gs = rows_where (λ (g : Guarantor). is_accepted g.status) gs

abbrev pub pending_of : List Guarantor → List Guarantor
pending_of gs = rows_where (λ (g : Guarantor). is_pending g.status) gs

abbrev pub pledged : List Guarantor → ℤ
pledged gs = total (λ (g : Guarantor). g.guaranteed_amount) (accepted_of gs)

-- `criteriaMet`
unfoldable pub criteria_met : Loan → List Guarantor → Bool
unfolding length rows_where total covers
criteria_met l gs =
    length (pending_of gs) == 0
    && (leb l.product.min_guarantors (length (accepted_of gs)) && covers (pledged gs) l)

-- `replacementStillFeasible`: `-` on ℕ is the `Math.max(0, ...)`
unfoldable pub replacement_feasible : Loan → List Guarantor → Bool
unfolding length rows_where
replacement_feasible l gs =
    let active = length (accepted_of gs) + length (pending_of gs) in
    leb l.product.min_guarantors (active + (l.product.max_guarantors - active))

abbrev pub is_expired : GuarantorStatus → Bool
is_expired GuarantorStatus.expired = true
is_expired _ = false

-- `shouldTerminallyReject`
unfoldable pub terminal : Loan → List Guarantor → GuarantorStatus → Bool
unfolding replacement_feasible some_row length rows_where
terminal l gs latest =
    is_expired latest
    || (length (pending_of gs) == 0
        && not (some_row (λ (g : Guarantor). is_declined g.status) gs && replacement_feasible l gs))

abbrev pub is_released : Option ℕ → Bool
is_released none = false
is_released (some at) = true

abbrev pub mark_released : ℕ → Guarantor → Guarantor
mark_released now g = record g { hold_released_at = some now }

abbrev pub nominee_of : Guarantor → Nominee
nominee_of g = record { member = g.member; given = some g.guaranteed_amount }

-- One guarantor in `releaseAcceptedHolds`, unless the hold was released before
unfoldable pub release_one : Key → AccountType → ℕ → Guarantor → Bool → M Db (Unit {0})
release_one tenant kind now g true = pure tt
release_one tenant kind now g false = do
  done ← release_guarantor_holds tenant (nominee_of g ∷ []) kind
  modify (λ (db : Db). record db {
    guarantors =
        update_many (λ (x : Guarantor). same x.id g.id && same x.tenant tenant) (mark_released now)
          db.guarantors;
  })

-- `releaseAcceptedHolds`
unfoldable pub release_accepted : Key → AccountType → ℕ → List Guarantor → M Db (Unit {0})
unfolding release_one
release_accepted tenant kind now [] = pure tt
release_accepted tenant kind now (g ∷ more) = do
  done ← release_one tenant kind now g (is_released g.hold_released_at)
  release_accepted tenant kind now more

abbrev pub waits : LoanStatus → Bool
waits pending_guarantors = true
waits _ = false

-- The conditional update of the loan's status
unfoldable pub set_loan_status : Key → Key → LoanStatus → M Db (Unit {0})
set_loan_status tenant loan status = modify (λ (db : Db). record db {
  loans =
      update_many (λ (l : Loan). is_loan tenant loan l && waits l.status)
        (λ (l : Loan). record l { status = status }) db.loans;
})

unfoldable pub reject_loan : Key → ℕ → Loan → List Guarantor → M Db LoanStatus
unfolding release_accepted set_loan_status
reject_loan tenant now l gs = do
  released ←
      release_accepted tenant (resolve_account_type l.product.required_account_type) now
        (accepted_of gs)
  changed ← set_loan_status tenant l.id rejected_guarantor_decline
  pure rejected_guarantor_decline

unfoldable pub approve_loan : Key → Loan → M Db LoanStatus
unfolding set_loan_status
approve_loan tenant l = do
  changed ← set_loan_status tenant l.id pending_approval
  pure pending_approval

-- `applyLoanState` for a loan that waits for its guarantors
unfoldable pub settle : Key → ℕ → Loan → GuarantorStatus → List Guarantor → M Db LoanStatus
unfolding criteria_met terminal reject_loan approve_loan
settle tenant now l latest gs =
    if criteria_met l gs
    then approve_loan tenant l
    else if terminal l gs latest
    then reject_loan tenant now l gs
    else pure l.status

-- `applyLoanState`
unfoldable pub apply_loan_state : Key → ℕ → Loan → GuarantorStatus → M Db LoanStatus
unfolding settle
apply_loan_state tenant now l latest = do
  gs ← gets (λ (db : Db). rows_where (backs tenant l.id) db.guarantors)
  if waits l.status then settle tenant now l latest gs else pure l.status
