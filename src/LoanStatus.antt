-- ===== src/LoanStatus.antt =====
-- The life of a loan: src/core/state-machine.ts, and the guard of
-- src/modules/loans/guards/loan-state-transition.guard.ts, which asks it before a request changes
-- a loan's status.
pub mod Laws
pub mod Repayments
use beba_sacco_backend.Base.{
  if◌then◌else◌, not, some_row, Key, same, same_opt, truthy, or_else, Bool, true, false, ◌&&◌,
  Option, none, some, List, [], ◌∷◌, M, ◌>>=◌, ◌>>◌, pure, gets, or_throw, throw_if, find_first,
  not_found, invalid_transition, loan_id_required, tenant_required,
}
use beba_sacco_backend.Store.{
  Db, Loan, LoanStatus, draft, pending_guarantors, pending_review, pending_approval, approved,
  disbursed, active, defaulted, rejected, rejected_guarantor_decline, fully_paid, written_off,
}

-- `LOAN_TRANSITIONS`
unfoldable pub loan_transitions : LoanStatus → List LoanStatus
loan_transitions draft = pending_guarantors ∷ pending_approval ∷ rejected ∷ []
loan_transitions pending_guarantors =
    pending_review ∷ pending_approval ∷ rejected_guarantor_decline ∷ rejected ∷ []
loan_transitions pending_review = approved ∷ rejected ∷ []
loan_transitions pending_approval = approved ∷ rejected ∷ []
loan_transitions approved = disbursed ∷ active ∷ []
loan_transitions disbursed = active ∷ []
loan_transitions active = fully_paid ∷ defaulted ∷ []
loan_transitions defaulted = written_off ∷ active ∷ []
loan_transitions _ = []

-- The names of the statuses, as requests and the database write them.
unfoldable pub name_of : LoanStatus → Key
name_of draft = "DRAFT"
name_of pending_guarantors = "PENDING_GUARANTORS"
name_of pending_review = "PENDING_REVIEW"
name_of pending_approval = "PENDING_APPROVAL"
name_of approved = "APPROVED"
name_of disbursed = "DISBURSED"
name_of active = "ACTIVE"
name_of defaulted = "DEFAULTED"
name_of rejected = "REJECTED"
name_of rejected_guarantor_decline = "REJECTED_GUARANTOR_DECLINE"
name_of fully_paid = "FULLY_PAID"
name_of written_off = "WRITTEN_OFF"

-- `canTransition`; the target may be any text.
unfoldable pub can_transition_to : LoanStatus → Key → Bool
unfolding loan_transitions name_of
can_transition_to from to =
    some_row (λ (s : LoanStatus). same (name_of s) to) (loan_transitions from)

unfoldable pub can_transition : LoanStatus → LoanStatus → Bool
unfolding can_transition_to name_of
can_transition from to = can_transition_to from (name_of to)

-- `assertTransition`
unfoldable pub assert_transition : {S : Type 0} → LoanStatus → LoanStatus → M S (Unit {0})
unfolding can_transition
assert_transition from to = throw_if (not (can_transition from to)) invalid_transition

-- What the guard reads of a request: the loan's id and the tenant's, the status asked for, and the
-- route's map from the words of its body to statuses.
pub record Request : Type 0 where
  pub loan : Option Key
  pub tenant : Option Key
  pub target : Option Key
  pub target_map : List (Key × Key)

unfoldable pub mapped : List (Key × Key) → Key → Key
mapped [] raw = raw
mapped ((word, status) ∷ rest) raw = if same word raw then status else mapped rest raw

abbrev pub by_id : Key → Key → Loan → Bool
by_id id tenant l = same l.id id && same l.tenant tenant

-- The part of `canActivate` for a request that names a status.
unfoldable pub check_target : Key → Key → Key → M Db Bool
unfolding can_transition_to
check_target id tenant target = do
  found ← gets (λ (db : Db). find_first (by_id id tenant) db.loans)
  loan ← or_throw found not_found
  throw_if (not (can_transition_to loan.status target)) invalid_transition
  pure true

abbrev check_if_named : Key → Key → List (Key × Key) → Option Key → M Db Bool
unfolding check_target
check_if_named id tenant words none = pure true
check_if_named id tenant words (some raw) = check_target id tenant (mapped words raw)

-- `canActivate` on a route that the guard's decorator marks.
unfoldable pub can_activate : Request → M Db Bool
unfolding check_target mapped
can_activate q = do
  id ← or_throw (truthy q.loan) loan_id_required
  tenant ← or_throw (truthy q.tenant) tenant_required
  check_if_named id tenant q.target_map (truthy q.target)
