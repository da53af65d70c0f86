-- ===== src/Arrears/Interest.antt =====
-- The interest that a loan accrues in a day by its schedule (`computeScheduleBasedDailyInterest`
-- of src/modules/financial/financial.service.ts).
pub mod Bounds
use beba_sacco_backend.Base.{
  ◌*◌, ℕ, ◌+◌, ◌-◌, ◌/◌, ltb, leb, not, if◌then◌else◌, ℤ, pos, Bool, true, false, ◌&&◌, Key, same,
  Option, none, some, List, [], ◌∷◌, find_first, rows_where, ◌==◌, Rounding, quotient,
}
use beba_sacco_backend.Store.{Installment}
use beba_sacco_backend.Arrears.{is_paid, ms_per_day}

-- The columns of the loan that are read, and the day
pub record InterestCall : Type 0 where
  pub tenant : Key
  pub loan : Key
  pub disbursed_at : Option ℕ
  pub date : ℕ

abbrev pub is_unpaid : InterestCall → Installment → Bool
is_unpaid c i = same i.tenant c.tenant && (same i.loan c.loan && not (is_paid i.status))

abbrev pub is_upcoming : ℕ → Installment → Bool
is_upcoming date i = leb date i.due_date

abbrev pub or_first : Installment → Option Installment → Installment
or_first first none = first
or_first first (some i) = i

-- The table lists the installments by their due dates.
unfoldable pub current_of : ℕ → List Installment → Option Installment
unfolding find_first
current_of date [] = none
current_of date (first ∷ more) =
    some (or_first first (find_first (is_upcoming date) (first ∷ more)))

abbrev pub is_day : InterestCall → ℕ → Installment → Bool
is_day c day i = same i.tenant c.tenant && (same i.loan c.loan && (i.day_number == day))

abbrev pub due_date_of : Option Installment → Option ℕ
due_date_of none = none
due_date_of (some i) = some i.due_date

-- The due date of the installment before
unfoldable pub previous_due : InterestCall → List Installment → Installment → Option ℕ
unfolding find_first
previous_due c table current =
    if ltb 1 current.day_number
    then due_date_of (find_first (is_day c (current.day_number - 1)) table)
    else none

unfoldable pub period_start : Option ℕ → Option ℕ → ℕ → ℕ
period_start (some previous) disbursed due = previous
period_start none (some disbursed) due = disbursed
period_start none none due = due

abbrev pub at_least_one : ℕ → ℕ
at_least_one n = if leb n 1 then 1 else n

-- `Math.max(1, Math.round(… / msPerDay))`; a period that ends before it starts counts as one day.
unfoldable pub days_in_period : InterestCall → List Installment → Installment → ℕ
unfolding previous_due period_start
days_in_period c table current =
    let start = period_start (previous_due c table current) c.disbursed_at current.due_date in
    at_least_one ((current.due_date - start + ms_per_day / 2) / ms_per_day)

unfoldable pub interest_of_day : Rounding → InterestCall → List Installment → Option Installment → ℤ
unfolding days_in_period quotient
interest_of_day r c table none = pos 0
interest_of_day r c table (some current) =
    if ltb current.due_date c.date
    then pos 0
    else quotient r current.interest_due (days_in_period c table current)

-- `computeScheduleBasedDailyInterest`, on the table of the installments
unfoldable pub daily_interest : Rounding → InterestCall → List Installment → ℤ
unfolding interest_of_day current_of rows_where
daily_interest r c table =
    interest_of_day r c table (current_of c.date (rows_where (is_unpaid c) table))
