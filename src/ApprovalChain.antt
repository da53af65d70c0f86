-- ===== src/ApprovalChain.antt =====
-- The two signatures that a large disbursement needs
-- (src/modules/fraud/approval-chain.service.ts).
pub mod Laws
pub mod Started
use beba_sacco_backend.Base.{
  not, if◌then◌else◌, ℤ, pos, leb_ℤ, Key, same, Bool, true, false, ◌&&◌, ◌||◌, List, [], ◌∷◌, ◌++◌,
  M, ◌>>=◌, ◌>>◌, pure, gets, modify, or_throw, throw_if, find_first, rows_where, count_where,
  all_rows, some_row, update_many, length, ◌==◌, not_found, no_pending_slot, already_signed,
}
use beba_sacco_backend.Store.{Loan, LoanStatus}

pub data ApprovalStatus : Type 0 where
  pending approved rejected : ApprovalStatus

-- A row of `LoanApprovalChain`.
pub record Slot : Type 0 where
  pub id : Key
  pub tenant : Key
  pub loan : Key
  pub approver : Key
  pub role : Key
  pub status : ApprovalStatus

-- The two tables that the chain works on.
pub record Desk : Type 0 where
  pub slots : List Slot
  pub loans : List Loan

-- `DUAL_APPROVAL_THRESHOLD`, in ten-thousandths of a shilling
abbrev pub dual_approval_threshold : ℤ
dual_approval_threshold = pos 5000000000

unfoldable pub requires_dual_approval : ℤ → Bool
requires_dual_approval principal = leb_ℤ dual_approval_threshold principal

abbrev pub is_pending : ApprovalStatus → Bool
is_pending ApprovalStatus.pending = true
is_pending _ = false

abbrev pub is_approved : ApprovalStatus → Bool
is_approved ApprovalStatus.approved = true
is_approved _ = false

abbrev pub is_rejected : ApprovalStatus → Bool
is_rejected ApprovalStatus.rejected = true
is_rejected _ = false

-- `where: { loanId, tenantId }`
abbrev pub is_of : Key → Key → Slot → Bool
is_of loan tenant c = same c.loan loan && same c.tenant tenant

abbrev pub new_slot : Key → Key → Key → Key → Slot
new_slot id loan tenant role = record {
  id = id;
  tenant = tenant;
  loan = loan;
  approver = "";
  role = role;
  status = ApprovalStatus.pending;
}

-- `initApprovalChain`; the first two keys are the ids that the database gives.
unfoldable pub init_approval_chain : Key → Key → Key → Key → M Desk (Unit {0})
init_approval_chain first second loan tenant = do
  existing ← gets (λ (d : Desk). count_where (is_of loan tenant) d.slots)
  modify (λ (d : Desk). record d {
    slots =
        if existing == 0
        then d.slots
          ++ new_slot first loan tenant "MANAGER" ∷ new_slot second loan tenant "TELLER" ∷ []
        else d.slots;
  })

abbrev pub decide : Key → Bool → Slot → Slot
decide approver approve c = record c {
  approver = approver;
  status = if approve then ApprovalStatus.approved else ApprovalStatus.rejected;
}

abbrev pub waits_for : Key → Slot → Bool
waits_for role c = same c.role role && is_pending c.status

abbrev pub signed_by : Key → Slot → Bool
signed_by approver c = same c.approver approver && not (is_pending c.status)

abbrev is_approved_loan : LoanStatus → Bool
is_approved_loan LoanStatus.approved = true
is_approved_loan _ = false

abbrev pub can_close : Key → Key → Loan → Bool
can_close loan tenant l = same l.id loan && (same l.tenant tenant && is_approved_loan l.status)

abbrev pub close_loan : Loan → Loan
close_loan l = record l { status = LoanStatus.rejected }

-- `chainComplete` and `allApproved`, and the loan's end after a rejection.
unfoldable pub conclude : Key → Key → List Slot → M Desk (Bool × Bool)
conclude loan tenant chain = do
  let all_approved = all_rows (λ (c : Slot). is_approved c.status) chain
  let any_rejected = some_row (λ (c : Slot). is_rejected c.status) chain
  modify (λ (d : Desk). record d {
    loans =
        if any_rejected then update_many (can_close loan tenant) close_loan d.loans else d.loans;
  })
  pure (all_approved || any_rejected, all_approved)

unfoldable pub sign_off : Key → Key → Key → Key → Bool → M Desk (Bool × Bool)
unfolding conclude
sign_off loan tenant approver role approve = do
  chain ← gets (λ (d : Desk). rows_where (is_of loan tenant) d.slots)
  throw_if (length chain == 0) not_found
  slot ← or_throw (find_first (waits_for role) chain) no_pending_slot
  throw_if (some_row (signed_by approver) chain) already_signed
  modify (λ (d : Desk). record d {
    slots = update_many (λ (c : Slot). same c.id slot.id) (decide approver approve) d.slots;
  })
  updated ← gets (λ (d : Desk). rows_where (is_of loan tenant) d.slots)
  conclude loan tenant updated

-- `isChainApproved`; a loan without slots needs no approval.
unfoldable pub is_chain_approved : Key → Key → Desk → Bool
is_chain_approved loan tenant d =
    let chain = rows_where (is_of loan tenant) d.slots in
    if length chain == 0 then true else all_rows (λ (c : Slot). is_approved c.status) chain
