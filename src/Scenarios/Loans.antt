-- ===== src/Scenarios/Loans.antt =====
-- Loans of the sample society: repaid, recovered from guarantors and moved through their life.
use beba_sacco_backend.Base.{
  Unique, All, false, some_row, ◌-ℤ◌, min_ℤ, same_opt, pos, true, none, some, [], ◌∷◌, refl, ◌≡◌,
  ◌≢◌, ok, Result, int_laws, ◌≤ℤ◌, ◌+ℤ◌, find_first, same, rows_where, count_where, update_many,
  exact, finite, total, List, ◌⊎◌, Key, truthy,
}
use beba_sacco_backend.Store.{
  fosa, Db, Loan, LoanStatus, Installment, InstallmentStatus, fully_paid, written_off, defaulted,
  active, approved, Guarantor, GuarantorStatus,
}
use beba_sacco_backend.Ledger.Entry.{has_reference}
use beba_sacco_backend.Repayment.Waterfall.{split, pay_loan}
use beba_sacco_backend.Repayment.Waterfall.Laws.{IsOwing, IsSplit, owed, split-IsSplit}
use beba_sacco_backend.Repayment.Waterfall.Status.{status_after-fully_paid}
use beba_sacco_backend.Repayment.Installments.{Pot, pot_total, apply_installments}
use beba_sacco_backend.Repayment.Installments.Laws.{
  IsPot, is_overdue, paid_of, left_over, apply_installments-paid, apply_installments-overdue,
}
use beba_sacco_backend.Repayment.Process.{process_repayment, repay_units, allocate}
use beba_sacco_backend.Repayment.Legs.{Repay, RepayIds, LegIds, Summary}
use beba_sacco_backend.Repayment.Process.Laws.{process_repayment-repeats}
use beba_sacco_backend.Guarantors.{Nominee, place_guarantor_holds}
use beba_sacco_backend.Guarantors.Laws.{id_of, IsHeld, place_guarantor_holds-IsHeld}
use beba_sacco_backend.LoanStatus.Repayments.{pay_loan-off_table}
use beba_sacco_backend.LoanStatus.{
  can_transition, Request, by_id, can_transition_to, mapped, can_activate,
}
use beba_sacco_backend.LoanStatus.Laws.{
  Life, Visits, is_terminal, Life-milestones, Life-ends, can_activate-allowed,
}
use beba_sacco_backend.Recovery.Allocation.{Division, Capacity, RecoveryItem, spread}
use beba_sacco_backend.Recovery.Allocation.Laws.{Within, spread-bounds}
use beba_sacco_backend.Scenarios.{gl, society, owing, value_of, state_of}
use beba_sacco_backend.Scenarios.Round.{rounding}

owing-IsOwing : IsOwing owing
owing-IsOwing = record {
  penalty = omega int_laws;
  interest = omega int_laws;
  principal = omega int_laws;
}

split-IsSplit_example : IsSplit (pos 150) owing (split (pos 150) owing)
split-IsSplit_example = split-IsSplit (pos 150) owing (omega int_laws) owing-IsOwing

abbrev paid_150 : Loan
paid_150 = pay_loan (split (pos 150) owing) owing owing

status_after-fully_paid_example :
    (paid_150.status ≡ fully_paid → owed paid_150 ≡ pos 0)
    × (paid_150.status ≢ fully_paid → pos 1 ≤ℤ paid_150.outstanding_balance)
status_after-fully_paid_example =
    status_after-fully_paid (pos 150) owing (omega int_laws) owing-IsOwing (omega int_laws)

abbrev pub installment : Key → InstallmentStatus → Installment
installment id status = record {
  id = id;
  tenant = "sacco";
  loan = "loan";
  status = status;
  day_number = 1;
  due_date = 0;
  last_penalty_accrual = none;
  penalty_due = pos 0;
  interest_due = pos 10;
  principal_due = pos 50;
  penalty_paid = pos 0;
  interest_paid = pos 0;
  principal_paid = pos 0;
  amount_paid = pos 0;
  paid_at = none;
}

abbrev pub schedule : List Installment
schedule =
    installment "i1" InstallmentStatus.overdue ∷ installment "i2" InstallmentStatus.pending ∷ []

abbrev pot : Pot
pot = record { penalty = pos 0; interest = pos 20; principal = pos 30 }

apply_installments-paid_example :
    (total paid_of (apply_installments 7 "sacco" "loan" pot schedule)
        +ℤ pot_total (left_over 7 "sacco" "loan" pot schedule)
      ≡ total paid_of schedule +ℤ pot_total pot)
    × IsPot (left_over 7 "sacco" "loan" pot schedule)
apply_installments-paid_example =
    apply_installments-paid 7 "sacco" "loan" pot schedule
      (record { penalty = omega int_laws; interest = omega int_laws; principal = omega int_laws })

apply_installments-overdue_example :
    rows_where is_overdue (apply_installments 7 "sacco" "loan" pot schedule)
    ≡ rows_where is_overdue schedule
apply_installments-overdue_example = apply_installments-overdue 7 "sacco" "loan" pot schedule

abbrev leg_ids : Key → LegIds
leg_ids k = record { transaction = k; token = k; entry = k }

abbrev repay_ids : RepayIds
repay_ids = record {
  penalty = leg_ids "p";
  interest = leg_ids "i";
  principal = leg_ids "c";
  overpay = record { transaction = "o"; entry = "o" };
}

abbrev repay_call : Repay
repay_call = record {
  tenant = "sacco";
  amount = finite (exact (pos 30));
  reference = "MPESA-1";
  processed_by = "clerk";
  member = some "ann";
  loan = none;
  loan_number = none;
  account_reference = none;
  mpesa = none;
  receipt = none;
}

abbrev no_summary : Summary
no_summary = record {
  loan = "";
  loan_number = "";
  allocated = record {
    to_penalty = pos 0;
    to_interest = pos 0;
    to_principal = pos 0;
    overpayment = pos 0;
  };
  outstanding_balance = pos 0;
  status = active;
}

abbrev with_penalty_gl : Db
with_penalty_gl = record society { gl_accounts = gl "penalties" 4200 ∷ society.gl_accounts }

abbrev repay_run : Result (Summary × Db)
repay_run = process_repayment rounding 7 repay_ids repay_call with_penalty_gl

repay_done : repay_run ≡ ok (value_of no_summary repay_run, state_of society repay_run)
unfolding process_repayment find_first same count_where rows_where ◌+ℤ◌ update_many truthy same_opt
    min_ℤ ◌-ℤ◌
repay_done = refl

no_row_yet : find_first (has_reference "sacco" "MPESA-1") with_penalty_gl.transactions ≡ none
unfolding find_first
no_row_yet = refl

process_repayment-repeats_example :
    repay_units rounding 9 repay_ids repay_call (pos 30) (state_of society repay_run)
    ≡ allocate rounding 9 repay_ids repay_call (pos 30) (state_of society repay_run)
process_repayment-repeats_example =
    process_repayment-repeats repay_call rounding 7 repay_ids with_penalty_gl
      (state_of society repay_run) (value_of no_summary repay_run) no_row_yet repay_done 9 repay_ids
      (pos 30)

Life-milestones_example :
    ((life : Life approved written_off) → (approved ≡ written_off) ⊎ Visits defaulted life)
    × ((life : Life approved fully_paid) → (approved ≡ fully_paid) ⊎ Visits active life)
Life-milestones_example = Life-milestones {s = approved}

Life-ends_example :
    ((t : LoanStatus) → is_terminal defaulted ≡ true → Life defaulted t → t ≡ defaulted)
    × ((t : LoanStatus) × Life defaulted t × (is_terminal t ≡ true))
Life-ends_example = Life-ends defaulted

abbrev activation : Request
activation = record {
  loan = some "loan";
  tenant = some "sacco";
  target = some "reinstate";
  target_map = ("reinstate", "ACTIVE") ∷ [];
}

activated : can_activate activation society ≡ ok (true, society)
unfolding can_activate find_first same truthy some_row
activated = refl

named : truthy activation.target ≡ some "reinstate"
unfolding truthy same
named = refl

can_activate-allowed_example :
    (society ≡ society)
    × ((id tenant : Key) × (l : Loan) × (truthy activation.loan ≡ some id)
        × (truthy activation.tenant ≡ some tenant)
        × (find_first (by_id id tenant) society.loans ≡ some l)
        × (can_transition_to l.status (mapped activation.target_map "reinstate") ≡ true))
can_activate-allowed_example =
    can_activate-allowed activation "reinstate" society society true named activated

abbrev whole_shares : Division
whole_shares = record { scaled = λ a b c. a; share = λ a b c. a }

abbrev guarantor : Key → Guarantor
guarantor id = record {
  id = id;
  tenant = "sacco";
  loan = "loan";
  member = id;
  status = GuarantorStatus.accepted;
  guaranteed_amount = pos 300;
  recovered_amount = pos 0;
  recovery_date = none;
  invited_at = 0;
  hold_released_at = none;
}

abbrev capacities : List Capacity
capacities =
    record { guarantor = guarantor "g1"; capacity = pos 300; account = none }
    ∷ record { guarantor = guarantor "g2"; capacity = pos 250; account = none }
    ∷ []

spread-bounds_example :
    (total (λ (i : RecoveryItem). i.deduction) (spread whole_shares (pos 400) (pos 550) capacities)
      ≤ℤ pos 400)
    × Within capacities (spread whole_shares (pos 400) (pos 550) capacities)
spread-bounds_example = spread-bounds whole_shares (pos 400) (pos 550) capacities (omega int_laws)

pay_loan-off_table_example :
    let paid = pay_loan (split (pos 700) owing) owing owing in
    (paid.status ≡ fully_paid) × (can_transition owing.status paid.status ≡ false)
pay_loan-off_table_example =
    pay_loan-off_table (pos 700) owing (omega int_laws) owing-IsOwing refl (omega int_laws)

abbrev nominees : List Nominee
nominees =
    record { member = "ann"; given = some (pos 400) }
    ∷ record { member = "ben"; given = some (pos 800) }
    ∷ []

abbrev held : Db
held = state_of society (place_guarantor_holds "sacco" nominees fosa society)

holds_placed : place_guarantor_holds "sacco" nominees fosa society ≡ ok (tt, held)
unfolding place_guarantor_holds find_first same count_where update_many some_row ◌+ℤ◌ ◌-ℤ◌
holds_placed = refl

accounts_apart : Unique id_of society.accounts
unfolding same
accounts_apart = ((refl, tt), (tt, tt))

holds_fit : All IsHeld society.accounts
unfolding ◌+ℤ◌
holds_fit = (omega int_laws, (omega int_laws, tt))

place_guarantor_holds-IsHeld_example : Unique id_of held.accounts × All IsHeld held.accounts
place_guarantor_holds-IsHeld_example =
    place_guarantor_holds-IsHeld "sacco" fosa nominees society held tt accounts_apart holds_fit
      holds_placed
