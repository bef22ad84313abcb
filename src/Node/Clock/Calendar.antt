-- ===== src/Node/Clock/Calendar.antt =====
-- `epoch_to_ymd` gives the date of the Gregorian calendar.
use better_call_chain.Prelude.{
  ℕ, zero, suc, ◌+◌, ◌-◌, ◌*◌, ◌/◌, ◌≤◌, ◌<◌, ◌≡◌, refl, sym, ap, List, [], ◌∷◌, length, take,
  get_or, ltb, ◌==◌, ◌||◌, if◌then◌else◌, arith, if_both,
}
use better_call_chain.Prelude.Words.{total}
use better_call_chain.Node.Clock.{Date, leap, year_loop, month_days, month_loop, epoch_to_ymd}

-- The days before a year of the Gregorian calendar, from the first of January of the year 0.
abbrev pub days_before : ℕ → ℕ
days_before y = 365 * y + ((y + 3) / 4 + (y + 399) / 400) - (y + 99) / 100

days_before-suc : (y : ℕ) → days_before (suc y) ≡ days_before y + (365 + leap y)
unfolding leap
days_before-suc y = ground arith

-- Where the loop over the years ends: within the year, and on the same day.
year_loop_lem :
    (fuel y days : ℕ)
    → days < 365 * (fuel + 1)
    → let r = year_loop fuel y days in
      (r.1 < 365 + leap r.0) × (days_before r.0 + r.1 ≡ days_before y + days)
unfolding year_loop
year_loop_lem zero y days h = (omega (arith, h), refl)
year_loop_lem (suc fuel) y days h =
    if_both (λ (r : ℕ × ℕ). (r.1 < 365 + leap r.0) × (days_before r.0 + r.1 ≡ days_before y + days))
      (ltb days (365 + leap y)) (λ t. (ground (arith, t), refl))
      (λ t.
        let more : 365 + leap y ≤ days = ground (arith, t) in
        let (within, same) =
          year_loop_lem fuel (suc y) (days - (365 + leap y)) (omega (arith, h, more)) in
        (within, omega (arith, same, days_before-suc y, more)))

-- Where the loop over the months ends, if the days are fewer than all months have.
record Ends (mds : List ℕ) (m days : ℕ) (r : ℕ × ℕ) : Type 0 where
  passed : ℕ
  at_month : r.0 ≡ m + passed
  in_year : passed < length mds
  in_month : r.1 < get_or mds passed 0
  same_day : days ≡ total (take passed mds) + r.1

month_loop_lem :
    (mds : List ℕ) (m days : ℕ) → days < total mds → Ends mds m days (month_loop mds m days)
unfolding month_loop total
month_loop_lem [] m days h = absurd (omega (arith, h))
month_loop_lem (md ∷ mds) m days h =
    if_both (Ends (md ∷ mds) m days) (ltb days md)
      (λ t. record {
        passed = 0;
        at_month = omega arith;
        in_year = omega arith;
        in_month = ground (arith, t);
        same_day = omega arith;
      })
      (λ t.
        let more : md ≤ days = ground (arith, t) in
        let e = month_loop_lem mds (suc m) (days - md) (omega (arith, h, more)) in
        record {
          passed = suc e.passed;
          at_month = omega (arith, e.at_month);
          in_year = omega (arith, e.in_year);
          in_month = e.in_month;
          same_day = omega (arith, e.same_day, more);
        })

-- The length of a month of the Gregorian calendar, by its number: thirty days have September, April,
-- June and November, February has what the year leaves it, and all the rest have 31.
abbrev pub month_length : ℕ → ℕ → ℕ
month_length y m =
    if m == 9 || m == 4 || m == 6 || m == 11
    then 30
    else if m == 2
    then days_before (suc y) - days_before y - 337
    else 31

-- The days of a year before the month that follows the first so many.
abbrev pub months_before : ℕ → ℕ → ℕ
months_before y zero = 0
months_before y (suc m) = months_before y m + month_length y (suc m)

february : (y : ℕ) → month_length y 2 ≡ 28 + leap y
february y = omega (arith, days_before-suc y)

-- The table of the months is that of the calendar.
month_days_lem :
    (y i : ℕ)
    → i < 12
    → (get_or (month_days y) i 0 ≡ month_length y (suc i))
      × (total (take i (month_days y)) ≡ months_before y i)
unfolding total
month_days_lem y zero h = (refl, refl)
month_days_lem y (suc zero) h = (sym (february y), refl)
month_days_lem y (suc (suc zero)) h = (refl, omega (arith, february y))
month_days_lem y (suc (suc (suc zero))) h = (refl, omega (arith, february y))
month_days_lem y (suc (suc (suc (suc zero)))) h = (refl, omega (arith, february y))
month_days_lem y (suc (suc (suc (suc (suc zero))))) h = (refl, omega (arith, february y))
month_days_lem y (suc (suc (suc (suc (suc (suc zero)))))) h = (refl, omega (arith, february y))
month_days_lem y (suc (suc (suc (suc (suc (suc (suc zero))))))) h =
    (refl, omega (arith, february y))
month_days_lem y (suc (suc (suc (suc (suc (suc (suc (suc zero)))))))) h =
    (refl, omega (arith, february y))
month_days_lem y (suc (suc (suc (suc (suc (suc (suc (suc (suc zero))))))))) h =
    (refl, omega (arith, february y))
month_days_lem y (suc (suc (suc (suc (suc (suc (suc (suc (suc (suc zero)))))))))) h =
    (refl, omega (arith, february y))
month_days_lem y (suc (suc (suc (suc (suc (suc (suc (suc (suc (suc (suc zero))))))))))) h =
    (refl, omega (arith, february y))
month_days_lem y (suc (suc (suc (suc (suc (suc (suc (suc (suc (suc (suc (suc i)))))))))))) h =
    absurd (omega (arith, h))

total-month_days : (y : ℕ) → total (month_days y) ≡ 365 + leap y
unfolding total
total-month_days y = omega arith

-- The date is one of the Gregorian calendar, and it is the day with that number.
pub record IsDay (number : ℕ) (date : Date) : Type 0 where
  pub first_month : 1 ≤ date.month
  pub last_month : date.month ≤ 12
  pub first_day : 1 ≤ date.day
  pub last_day : date.day ≤ month_length date.year date.month
  pub numbered :
      days_before date.year + months_before date.year (date.month - 1) + date.day ≡ number + 1

-- For every number of days since the first of January 1970, `epoch_to_ymd` gives a month from 1 to
-- 12, a day from 1 to the length that this month has in the Gregorian calendar, and the date that is
-- this number of days after.
pub epoch_to_ymd-IsDay : (days : ℕ) → IsDay (days_before 1970 + days) (epoch_to_ymd days)
unfolding epoch_to_ymd
epoch_to_ymd-IsDay days =
    let years = year_loop (days / 365) 1970 days in
    let (within, same) = year_loop_lem (days / 365) 1970 days (omega arith) in
    let e =
      month_loop_lem (month_days years.0) 0 years.1
        (omega (arith, within, total-month_days years.0)) in
    let months = month_loop (month_days years.0) 0 years.1 in
    let (size, before) = month_days_lem years.0 e.passed e.in_year in
    let index : months.0 + 1 ≡ suc e.passed = omega (arith, e.at_month) in
    let before_index : months.0 + 1 - 1 ≡ e.passed = omega (arith, e.at_month) in
    record {
      first_month = omega arith;
      last_month = omega (arith, e.at_month, e.in_year);
      first_day = omega arith;
      last_day = omega (arith, e.in_month, size, ap (month_length years.0) index);
      numbered = omega (arith, same, e.same_day, before, ap (months_before years.0) before_index);
    }
