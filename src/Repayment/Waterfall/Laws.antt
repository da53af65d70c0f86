-- ===== src/Repayment/Waterfall/Laws.antt =====
-- What the split of a repayment gives, and what it leaves of the loan.
use beba_sacco_backend.Base.{
  max_ℤ-zero, both_≤ℤ, ◌∙◌, ℤ, pos, ◌+ℤ◌, ◌-ℤ◌, ◌≤ℤ◌, int_laws, int_order, min_ℤ, ltb_ℤ, ◌≡◌, ◌⊎◌,
  inl, inr, arith, if◌then◌else◌, min_ℤ_cases,
}
use beba_sacco_backend.Store.{Loan}
use beba_sacco_backend.Repayment.Waterfall.{Waterfall, split, pay_loan}

-- Nothing is owed the wrong way round.
pub record IsOwing (loan : Loan) : Type 0 where
  pub penalty : pos 0 ≤ℤ loan.arrears_amount
  pub interest : pos 0 ≤ℤ loan.accrued_interest
  pub principal : pos 0 ≤ℤ loan.outstanding_balance

pub record IsSplit (amount : ℤ) (loan : Loan) (w : Waterfall) : Type 0 where
  pub penalty_nonneg : pos 0 ≤ℤ w.to_penalty
  pub penalty_owed : w.to_penalty ≤ℤ loan.arrears_amount
  pub interest_nonneg : pos 0 ≤ℤ w.to_interest
  pub interest_owed : w.to_interest ≤ℤ loan.accrued_interest
  pub principal_nonneg : pos 0 ≤ℤ w.to_principal
  pub principal_owed : w.to_principal ≤ℤ loan.outstanding_balance
  pub overpayment_nonneg : pos 0 ≤ℤ w.overpayment
  pub nothing_lost : w.to_penalty +ℤ w.to_interest +ℤ w.to_principal +ℤ w.overpayment ≡ amount
  pub penalty_first :
      ((w.to_interest ≡ pos 0) × (w.to_principal ≡ pos 0) × (w.overpayment ≡ pos 0))
      ⊎ (w.to_penalty ≡ loan.arrears_amount)
  pub interest_next :
      ((w.to_principal ≡ pos 0) × (w.overpayment ≡ pos 0)) ⊎ (w.to_interest ≡ loan.accrued_interest)
  pub rest_last : (w.overpayment ≡ pos 0) ⊎ (w.to_principal ≡ loan.outstanding_balance)

-- One step of the waterfall: the share taken, and what is left over.
step_facts :
    (amount owed : ℤ)
    → pos 0 ≤ℤ amount
    → pos 0 ≤ℤ owed
    → (pos 0 ≤ℤ min_ℤ amount owed)
      × (min_ℤ amount owed ≤ℤ owed)
      × (pos 0 ≤ℤ amount -ℤ min_ℤ amount owed)
      × ((amount -ℤ min_ℤ amount owed ≡ pos 0) ⊎ (min_ℤ amount owed ≡ owed))
step_facts amount owed h k = (
  omega int_order,
  omega int_order,
  omega int_order,
  elim (min_ℤ_cases amount owed) [
    | inl (_, all) ↦ inl (rw all (omega int_laws))
    | inr (_, e) ↦ inr e
  ],
)

-- Shares that are not negative and add up to nothing are nothing.
all_nothing :
    {rest a b c : ℤ}
    → rest ≡ pos 0
    → a +ℤ b +ℤ c ≡ rest
    → pos 0 ≤ℤ a
    → pos 0 ≤ℤ b
    → pos 0 ≤ℤ c
    → (a ≡ pos 0) × (b ≡ pos 0) × (c ≡ pos 0)
all_nothing none_left whole ha hb hc =
    let bound : _ = both_≤ℤ (whole ∙ none_left) in (omega int_laws, omega int_laws, omega int_laws)

overpaid-eq : (x : ℤ) → pos 0 ≤ℤ x → (if ltb_ℤ (pos 0) x then x else pos 0) ≡ x
overpaid-eq x h = ground arith

-- A repayment of an amount that is not negative, on a loan that owes, is split with nothing lost:
-- each share is at most what is owed of its kind, interest is paid only once the penalty is covered,
-- principal only once the interest is, and there is an overpayment only once all is paid.
pub split-IsSplit :
    (amount : ℤ) (loan : Loan)
    → pos 0 ≤ℤ amount
    → IsOwing loan
    → IsSplit amount loan (split amount loan)
unfolding split
split-IsSplit amount loan positive owing =
    let (p1, p2, rest, p3) = step_facts amount loan.arrears_amount positive owing.penalty in
    let (i1, i2, rest2, i3) =
      step_facts (amount -ℤ min_ℤ amount loan.arrears_amount) loan.accrued_interest rest
        owing.interest in
    let after_interest : ℤ =
      amount
      -ℤ min_ℤ amount loan.arrears_amount
      -ℤ min_ℤ (amount -ℤ min_ℤ amount loan.arrears_amount) loan.accrued_interest in
    let (q1, q2, rest3, q3) =
      step_facts after_interest loan.outstanding_balance rest2 owing.principal in
    let over : _ =
      overpaid-eq (after_interest -ℤ min_ℤ after_interest loan.outstanding_balance) rest3 in
    record {
      penalty_nonneg = p1;
      penalty_owed = p2;
      interest_nonneg = i1;
      interest_owed = i2;
      principal_nonneg = q1;
      principal_owed = q2;
      overpayment_nonneg = rw over rest3;
      nothing_lost = rw over (omega int_laws);
      penalty_first = elim p3 [
        | inl e ↦ inl (all_nothing e (rw over (omega int_laws)) i1 q1 (rw over rest3))
        | inr e ↦ inr e
      ];
      interest_next = elim i3 [
        | inl e ↦
            let zero_left : _ =
              all_nothing {a = pos 0} e (rw over (omega int_laws)) (omega arith) q1
                (rw over rest3) in
            inl (zero_left.1, zero_left.2)
        | inr e ↦ inr e
      ];
      rest_last = elim q3 [ inl e ↦ inl (over ∙ e) | inr e ↦ inr e ];
    }

-- What a loan owes in all.
abbrev pub owed : Loan → ℤ
owed loan = loan.arrears_amount +ℤ loan.accrued_interest +ℤ loan.outstanding_balance

pay_loan-IsSplit :
    (amount : ℤ) (loan : Loan) (w : Waterfall)
    → IsSplit amount loan w
    → let paid = pay_loan w loan loan in
      (owed paid +ℤ amount ≡ owed loan +ℤ w.overpayment)
      × (paid.total_repaid +ℤ w.overpayment ≡ loan.total_repaid +ℤ amount)
      × IsOwing paid
unfolding pay_loan
pay_loan-IsSplit amount loan w s =
    let whole : _ = both_≤ℤ s.nothing_lost in
    let p : _ =
      max_ℤ-zero (loan.arrears_amount -ℤ w.to_penalty) (omega (int_laws, s.penalty_owed)) in
    let i : _ =
      max_ℤ-zero (loan.accrued_interest -ℤ w.to_interest) (omega (int_laws, s.interest_owed)) in
    let q : _ =
      max_ℤ-zero (loan.outstanding_balance -ℤ w.to_principal)
        (omega (int_laws, s.principal_owed)) in
    (
      rw (p, i, q) (omega int_laws),
      omega int_laws,
      record {
        penalty = rw p (omega (int_laws, s.penalty_owed));
        interest = rw i (omega (int_laws, s.interest_owed));
        principal = rw q (omega (int_laws, s.principal_owed));
      },
    )

-- The loan after a repayment of an amount that is not negative, where it owed nothing the wrong
-- way round: it owes less by what was not an overpayment, by which the total repaid has grown,
-- and it still owes nothing the wrong way round.
pay_loan-owed :
    (amount : ℤ) (loan : Loan)
    → pos 0 ≤ℤ amount
    → IsOwing loan
    → let paid = pay_loan (split amount loan) loan loan in
      (owed paid +ℤ amount ≡ owed loan +ℤ (split amount loan).overpayment)
      × (paid.total_repaid +ℤ (split amount loan).overpayment ≡ loan.total_repaid +ℤ amount)
      × IsOwing paid
pay_loan-owed amount loan positive owing =
    pay_loan-IsSplit amount loan (split amount loan) (split-IsSplit amount loan positive owing)
