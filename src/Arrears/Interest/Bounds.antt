-- ===== src/Arrears/Interest/Bounds.antt =====
-- How far the daily interest of a period is from the interest of its installment
-- (src/modules/financial/financial.service.ts).
use native.Mathlib.Nat.{mul-le-mul_right, mul-div-le, mul_comm, div-lt_iff_lt-mul}
use beba_sacco_backend.Base.{
  ◌-◌, leb, true, inl, inr, ◌⊎◌, Bool-cases, find_first, inr, inl, ◌⊎◌, ◌*◌, ℕ, suc, ◌+◌, ◌/◌, ◌≤◌,
  ◌<◌, ltb, pos, false, some, List, rows_where, ◌≡◌, refl, subst, arith, Rounding, quotient,
}
use beba_sacco_backend.Store.{Installment}
use beba_sacco_backend.Arrears.{ms_per_day}
use beba_sacco_backend.Arrears.Interest.{
  previous_due, is_day, at_least_one, period_start, InterestCall, is_unpaid, current_of,
  days_in_period, interest_of_day, daily_interest,
}

one_day :
    (c : InterestCall) (table : List Installment) (i : Installment) → 0 < days_in_period c table i
unfolding days_in_period
one_day c table i = ground arith

-- The due date of the installment before the current one or, for the first one, the day of the
-- disbursement
abbrev pub StartsAt : InterestCall → List Installment → Installment → ℕ → Type 0
StartsAt c table current start =
    ((2 ≤ current.day_number)
      × ((previous : Installment) × (find_first (is_day c (current.day_number - 1)) table
            ≡ some previous)
          × (previous.due_date ≡ start)))
    ⊎ ((current.day_number ≤ 1) × (c.disbursed_at ≡ some start))

-- The number of whole days, at least one, that is nearest to the time between two moments
abbrev pub IsNearest : ℕ → ℕ → ℕ → Type 0
IsNearest start due days =
    (1 ≤ days)
    × (2 * due < 2 * start + 2 * (days * ms_per_day) + ms_per_day)
    × ((days ≡ 1) ⊎ (2 * start + 2 * (days * ms_per_day) ≤ 2 * due + ms_per_day))

starts :
    (c : InterestCall) (table : List Installment) (current : Installment) (start : ℕ)
    → StartsAt c table current start
    → period_start (previous_due c table current) c.disbursed_at current.due_date ≡ start
unfolding period_start previous_due
starts c table current start (inl (later, (previous, found, due))) =
    let not_first : ltb 1 current.day_number ≡ true = ground arith in rw (not_first, found) due
starts c table current start (inr (first, disbursed)) =
    let is_first : ltb 1 current.day_number ≡ false = ground arith in rw (is_first, disbursed) refl

nearest :
    (start due k : ℕ)
    → 86400000 * k ≤ due - start + 43200000
    → due - start + 43200000 < 86400000 * k + 86400000
    → IsNearest start due (at_least_one k)
nearest start due k under over = elim (Bool-cases (leb k 1)) [
  | inl small ↦
      let few : k ≤ 1 = ground arith in rw small (omega arith, omega (arith, few, over), inl refl)
  | inr large ↦
      let many : 2 ≤ k = ground arith in
      rw large (omega (arith, many), omega (arith, many, over), inr (omega (arith, many, under)))
]

rounded : (start due : ℕ) → IsNearest start due (at_least_one ((due - start + 43200000) / 86400000))
rounded start due =
    let n = due - start + 43200000 in
    let over : n < suc (n / 86400000) * 86400000 =
      (div-lt_iff_lt-mul (omega arith)).0 (omega arith) in
    nearest start due (n / 86400000) (mul-div-le n 86400000) (omega (arith, over))

days-IsNearest :
    (c : InterestCall) (table : List Installment) (current : Installment) (start : ℕ)
    → StartsAt c table current start
    → IsNearest start current.due_date (days_in_period c table current)
unfolding days_in_period
days-IsNearest c table current start from =
    rw (starts c table current start from) (rounded start current.due_date)

module _ (r : Rounding) where
  near : (n d : ℕ) → 0 < d → (r.round_div n d * d ≤ n + d) × (n ≤ r.round_div n d * d + d)
  near n d h =
      let k = n / d in
      let under : k * d ≤ n = subst (λ x. x ≤ n) (mul_comm d k) (mul-div-le n d) in
      let over : n < suc k * d = (div-lt_iff_lt-mul h).0 (omega arith) in
      let above : k * d ≤ r.round_div n d * d = mul-le-mul_right d (r.above n d k h under) in
      let below : r.round_div n d * d ≤ suc k * d =
        mul-le-mul_right d (r.below n d (suc k) h (omega arith)) in
      (omega arith, omega arith)

  -- While the current installment of a loan is not yet due, what the loan accrues in a day is such
  -- that the days of the period, each at that amount, sum to the interest of the installment up to
  -- one ten-thousandth for each day. The days are the whole number, at least one, that is nearest to
  -- the time from the due date of the installment before, or from the disbursement for the first
  -- one, to the due date.
  pub daily_interest-bounds :
      (c : InterestCall) (table : List Installment) (current : Installment) (start n : ℕ)
      → current_of c.date (rows_where (is_unpaid c) table) ≡ some current
      → c.date ≤ current.due_date
      → StartsAt c table current start
      → current.interest_due ≡ pos n
      → (a : ℕ) × (days : ℕ) × (daily_interest r c table ≡ pos a)
        × IsNearest start current.due_date days
        × (a * days ≤ n + days)
        × (n ≤ a * days + days)
  unfolding daily_interest interest_of_day quotient
  daily_interest-bounds c table current start n found upcoming from interest =
      let days = days_in_period c table current in
      let (high, low) = near n days (one_day c table current) in
      let not_late : ltb current.due_date c.date ≡ false = ground arith in
      (
        r.round_div n days,
        days,
        rw (found, not_late, interest) refl,
        days-IsNearest c table current start from,
        high,
        low,
      )
