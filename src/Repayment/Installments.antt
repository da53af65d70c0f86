-- ===== src/Repayment/Installments.antt =====
-- `applyInstallmentAllocation` of src/modules/loans/loan-repayment.service.ts: the amounts of a
-- repayment are spread over the open installments, oldest first. The table lists the installments
-- by due date and day.
pub mod Laws
use beba_sacco_backend.Base.{
  ◌+◌, ◌*◌, ◌/◌, negsuc, ℕ, ℤ, pos, ◌+ℤ◌, ◌-ℤ◌, min_ℤ, max_ℤ, ltb_ℤ, leb_ℤ, Key, same, Bool, true,
  false, ◌&&◌, none, some, List, [], ◌∷◌, if◌then◌else◌,
}
use beba_sacco_backend.Store.{Installment, InstallmentStatus, paid, partial}

pub record Pot : Type 0 where
  pub penalty : ℤ
  pub interest : ℤ
  pub principal : ℤ

abbrev pub pot_total : Pot → ℤ
pot_total p = p.penalty +ℤ p.interest +ℤ p.principal

-- `status: { in: ['PENDING', 'PARTIAL'] }`
abbrev pub is_open : InstallmentStatus → Bool
is_open InstallmentStatus.pending = true
is_open InstallmentStatus.partial = true
is_open _ = false

unfoldable pub is_open_installment : Key → Key → Installment → Bool
is_open_installment tenant loan i = same i.tenant tenant && (same i.loan loan && is_open i.status)

unfoldable pub principal_due_of : Installment → ℤ
principal_due_of i = if ltb_ℤ (pos 0) i.principal_due then i.principal_due else i.amount_paid

-- What one installment takes of the pot.
unfoldable pub shares : Pot → Installment → Pot
unfolding principal_due_of
shares p i = record {
  penalty = min_ℤ p.penalty (max_ℤ (i.penalty_due -ℤ i.penalty_paid) (pos 0));
  interest = min_ℤ p.interest (max_ℤ (i.interest_due -ℤ i.interest_paid) (pos 0));
  principal = min_ℤ p.principal (max_ℤ (principal_due_of i -ℤ i.principal_paid) (pos 0));
}

unfoldable pub take_from : Pot → Pot → Pot
take_from p s = record {
  penalty = p.penalty -ℤ s.penalty;
  interest = p.interest -ℤ s.interest;
  principal = p.principal -ℤ s.principal;
}

-- What a column with two places keeps of an amount: halves are rounded away from zero.
unfoldable pub to_cents : ℤ → ℤ
to_cents (pos n) = pos ((n + 50) / 100 * 100)
to_cents (negsuc n) = pos 0 -ℤ pos ((n + 51) / 100 * 100)

-- The `data` of the installment's update.
unfoldable pub pay_installment : ℕ → Pot → Installment → Installment
unfolding principal_due_of to_cents
pay_installment now s i =
    let penalty_paid = i.penalty_paid +ℤ s.penalty in
    let interest_paid = i.interest_paid +ℤ s.interest in
    let principal_paid = i.principal_paid +ℤ s.principal in
    let paid_total = penalty_paid +ℤ interest_paid +ℤ principal_paid in
    let due_total = i.penalty_due +ℤ i.interest_due +ℤ principal_due_of i in
    let covered = leb_ℤ due_total paid_total in
    record i {
      penalty_paid = penalty_paid;
      interest_paid = interest_paid;
      principal_paid = principal_paid;
      amount_paid = to_cents paid_total;
      status = if covered then paid else partial;
      paid_at = if covered then some now else none;
    }

-- One turn of the loop: `continue` leaves the row as it is.
unfoldable pub settle : ℕ → Pot → Installment → Installment
unfolding shares pay_installment
settle now p i =
    let s = shares p i in if leb_ℤ (pot_total s) (pos 0) then i else pay_installment now s i

-- The loop over the rows; it breaks when the pot is empty.
module _ (now : ℕ) (tenant loan : Key) where
  unfoldable pub apply_installments : Pot → List Installment → List Installment
  apply_installments p [] = []
  apply_installments p (i ∷ rows) = elim (is_open_installment tenant loan i) [
    | false ↦ i ∷ apply_installments p rows
    | true ↦ elim (leb_ℤ (pot_total p) (pos 0)) [
      | true ↦ i ∷ rows
      | false ↦ settle now p i ∷ apply_installments (take_from p (shares p i)) rows
    ]
  ]
