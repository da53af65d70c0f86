-- ===== src/Scenarios/Overdue.antt =====
-- An overdue installment of the sample society's loan.
use beba_sacco_backend.Base.{some_row, true, inr, some, pos, ℕ, ◌*◌, ◌+◌, ◌≤◌, arith}
use beba_sacco_backend.Store.{Installment, InstallmentStatus}
use beba_sacco_backend.Arrears.Interest.{InterestCall, current_of, daily_interest}
use beba_sacco_backend.Arrears.Interest.Bounds.{daily_interest-bounds, IsNearest}
use beba_sacco_backend.Scenarios.Loans.{installment}
use beba_sacco_backend.Ledger.Gl.{find_gl_account_pair}
use beba_sacco_backend.Base.{
  ◌∷◌, [], update_many, length, find_first, count_where, same, rows_where, ok, ◌≡◌, refl, join,
}
use beba_sacco_backend.Store.{Db}
use beba_sacco_backend.Arrears.{AccrualCall, accrue_penalties}
use beba_sacco_backend.Arrears.Returns.{accrue_penalties-returns}
use beba_sacco_backend.Arrears.Daily.{accrue_penalties-again}
use beba_sacco_backend.Scenarios.{gl, society, state_of}
use beba_sacco_backend.Scenarios.Loans.{schedule}
use beba_sacco_backend.Scenarios.Round.{rounding}

abbrev tenth_day : AccrualCall
tenth_day = record {
  tenant = "sacco";
  loan = "loan";
  account = "a";
  date = 864000000;
  date_text = "1970-01-11";
  transaction_id = λ id. join "t-" id;
  entry_id = λ id. join "e-" id;
}

abbrev behind : Db
behind = record society {
  installments = schedule;
  gl_accounts = gl "receivable" 1300 ∷ gl "penalties" 4200 ∷ [];
}

unfoldable charged : Db
unfolding accrue_penalties rows_where same count_where update_many find_first join
charged = state_of behind (accrue_penalties rounding tenth_day behind)

two_charges : length charged.transactions ≡ 2
unfolding charged length accrue_penalties rows_where same count_where update_many find_first join
two_charges = refl

first_run : accrue_penalties rounding tenth_day behind ≡ ok (tt, charged)
unfolding charged accrue_penalties rows_where same count_where update_many find_first join
first_run = refl

accrue_penalties-again_example : accrue_penalties rounding tenth_day charged ≡ ok (tt, charged)
accrue_penalties-again_example = accrue_penalties-again rounding tenth_day behind charged first_run

accrue_penalties-returns_example :
    (db' : Db) × (accrue_penalties rounding tenth_day behind ≡ ok (tt, db'))
unfolding same find_gl_account_pair find_first rows_where some_row
accrue_penalties-returns_example =
    accrue_penalties-returns rounding tenth_day behind (gl "receivable" 1300, gl "penalties" 4200)
      (record { id = "robot"; tenant = "sacco"; is_system = true }) refl refl refl

abbrev first_day : InterestCall
first_day = record { tenant = "sacco"; loan = "loan"; disbursed_at = some 0; date = 1 }

-- Ten shillings of interest over 2.6 days, which count as three
abbrev upcoming : Installment
upcoming = record (installment "i3" InstallmentStatus.pending) {
  due_date = 224640000;
  interest_due = pos 100000;
}

daily_interest-bounds_example :
    (a : ℕ) × (days : ℕ) × (daily_interest rounding first_day (upcoming ∷ []) ≡ pos a)
    × IsNearest 0 224640000 days
    × (a * days ≤ 100000 + days)
    × (100000 ≤ a * days + days)
unfolding current_of rows_where same
daily_interest-bounds_example =
    daily_interest-bounds rounding first_day (upcoming ∷ []) upcoming 0 100000 refl (omega arith)
      (inr (omega arith, refl)) refl

-- Three such days sum to one ten-thousandth less than the ten shillings.
a_third : daily_interest rounding first_day (upcoming ∷ []) ≡ pos 33333
unfolding daily_interest rows_where same
a_third = refl
