-- ===== src/Application/Calendar.antt =====
-- backend/src/booking-application/booking-application.service.ts: `addMonths`, which moves a date with
-- `setMonth`. A date is a number of milliseconds from 1970 on, and the server keeps UTC.
use pfe.Base.{ℕ, zero, suc, ◌<◌, ◌+◌, ◌-◌, ◌*◌, ◌/◌, ◌%◌, min, ◌≤◌, ◌≡◌, refl, arith}

-- The days from 0000-03-01 to the first of March of a year: years are counted from March, so that the
-- day of a leap year comes last.
unfoldable pub year_start : ℕ → ℕ
year_start y = 365 * y + y / 4 - y / 100 + y / 400

-- The days from the first of March to the first of a month that many months later.
abbrev month_start : ℕ → ℕ
month_start m = (153 * m + 2) / 5

-- The day number of the first of a month, where months are numbered from 0000-03 on.
unfoldable pub first_of_month : ℕ → ℕ
unfolding year_start
first_of_month month = year_start (month / 12) + month_start (month % 12)

-- The year of a day, from the centuries, the leap years and the years of its 400 years.
unfoldable pub year_of : ℕ → ℕ
year_of day =
    let in_era = day % 146097 in
    let centuries = min 3 (in_era / 36524) in
    let in_century = in_era - 36524 * centuries in
    let leaps = in_century / 1461 in
    let years = min 3 ((in_century - 1461 * leaps) / 365) in
    400 * (day / 146097) + 100 * centuries + 4 * leaps + years

-- `getMonth` and `getFullYear` in one: the number of the month of a day.
unfoldable pub month_of : ℕ → ℕ
unfolding year_of year_start
month_of day = let year = year_of day in 12 * year + (5 * (day - year_start year) + 2) / 153

-- `getDate`, from 0 on.
unfoldable pub day_of_month : ℕ → ℕ
unfolding month_of first_of_month
day_of_month day = day - first_of_month (month_of day)

-- `addMonths`: the day of the month is kept, and runs on into the next month where the month is too
-- short for it. 719468 days lie between 0000-03-01 and 1970-01-01.
unfoldable pub add_months : ℕ → ℕ → ℕ
unfolding month_of first_of_month day_of_month
add_months date months =
    let day = date / 86400000 + 719468 in
    86400000 * (first_of_month (month_of day + months) + day_of_month day - 719468)
    + date % 86400000

year_start_of :
    (e c q a : ℕ)
    → c ≤ 3
    → q ≤ 24
    → a ≤ 3
    → year_start (400 * e + 100 * c + 4 * q + a) ≡ 146097 * e + 36524 * c + 1461 * q + 365 * a
unfolding year_start
year_start_of e c q a hc hq ha = omega arith

-- The year that a day is found in has begun by then, and has at most 366 days.
year_of-bounds :
    (day : ℕ) → (year_start (year_of day) ≤ day) × (day ≤ year_start (year_of day) + 365)
unfolding year_of
year_of-bounds day =
    let e = day / 146097 in
    let in_era = day % 146097 in
    let c = min 3 (in_era / 36524) in
    let in_century = in_era - 36524 * c in
    let q = in_century / 1461 in
    let a = min 3 ((in_century - 1461 * q) / 365) in
    let starts = year_start_of e c q a (omega arith) (omega arith) (omega arith) in
    (omega (arith, starts), omega (arith, starts))

-- A date is the first of its month and the days that follow it.
pub first_of_month-le : (day : ℕ) → first_of_month (month_of day) ≤ day
unfolding first_of_month month_of
first_of_month-le day = omega (arith, year_of-bounds day)

-- A month has at least 28 days.
first_of_month-later : (month : ℕ) → first_of_month month + 28 ≤ first_of_month (month + 1)
unfolding first_of_month year_start
first_of_month-later month = omega arith

first_of_month_le :
    (month months : ℕ) → first_of_month month + 28 * months ≤ first_of_month (month + months)
unfolding first_of_month
first_of_month_le month zero = omega arith
first_of_month_le month (suc months) =
    omega (arith, first_of_month_le month months, first_of_month-later (month + months))

-- A lease of some months lasts at least 28 days for each of them, from 1970 on.
pub add_months_le : (date months : ℕ) → date + 28 * 86400000 * months ≤ add_months date months
unfolding add_months day_of_month
add_months_le date months =
    let day = date / 86400000 + 719468 in
    omega (arith, first_of_month-le day, first_of_month_le (month_of day) months)

add_months_zero : (date : ℕ) → add_months date 0 ≡ date
unfolding add_months day_of_month
add_months_zero date = omega (arith, first_of_month-le (date / 86400000 + 719468))

year_of-next : (day : ℕ) → day < year_start (year_of day + 1)
unfolding year_of year_start
year_of-next day =
    let e = day / 146097 in
    let in_era = day % 146097 in
    let c = min 3 (in_era / 36524) in
    let in_century = in_era - 36524 * c in
    let q = in_century / 1461 in let a = min 3 ((in_century - 1461 * q) / 365) in omega arith

year_start_reflects : (day y z : ℕ) → year_start y ≤ day → day < year_start (z + 1) → y ≤ z
unfolding year_start
year_start_reflects day y z from before = omega arith

-- Each day is in one year.
year_of_unique : (day y : ℕ) → year_start y ≤ day → day < year_start (y + 1) → year_of day ≡ y
year_of_unique day y from before = omega (
  arith,
  year_start_reflects day y (year_of day) from (year_of-next day),
  year_start_reflects day (year_of day) y ((year_of-bounds day).0) before,
)

month_of-first :
    (month k : ℕ)
    → first_of_month month + k < first_of_month (month + 1)
    → month_of (first_of_month month + k) ≡ month
unfolding first_of_month month_of
month_of-first month k h =
    let year = year_of_unique (first_of_month month + k) (month / 12) (omega arith) (omega arith) in
    rw year (omega arith)

-- A month and a place in it, put together to a day and taken apart again, come out as they were, if
-- the month has that place.
pub month_of-first_of_month :
    (month k : ℕ)
    → first_of_month month + k < first_of_month (month + 1)
    → (month_of (first_of_month month + k) ≡ month) × (day_of_month (first_of_month month + k) ≡ k)
unfolding day_of_month
month_of-first_of_month month k h =
    let found = month_of-first month k h in (found, rw found (omega arith))

-- The day number of a date, from 0000-03-01.
abbrev pub day_of : ℕ → ℕ
day_of date = date / 86400000 + 719468

-- `addMonths` on day numbers.
add_months-days :
    (date months day : ℕ)
    → day ≡ first_of_month (month_of (day_of date) + months) + day_of_month (day_of date)
    → (day_of (add_months date months) ≡ day)
      × (add_months date months % 86400000 ≡ date % 86400000)
unfolding add_months day_of_month
add_months-days date months day e =
    let begun = first_of_month-le (day_of date) in
    let later = first_of_month_le (month_of (day_of date)) months in
    (omega (arith, e, begun, later), omega (arith, e, begun, later))

-- Months later it is that many months later, on the same day of the month at the same time of the day,
-- if that month has the day. A date is not before 1970.
pub add_months-month_of :
    (date months : ℕ)
    → first_of_month (month_of (day_of date) + months) + day_of_month (day_of date)
      < first_of_month (month_of (day_of date) + months + 1)
    → (month_of (day_of (add_months date months)) ≡ month_of (day_of date) + months)
      × (day_of_month (day_of (add_months date months)) ≡ day_of_month (day_of date))
      × (add_months date months % 86400000 ≡ date % 86400000)
add_months-month_of date months fits =
    let month = month_of (day_of date) + months in
    let k = day_of_month (day_of date) in
    let (same_month, same_day) = month_of-first_of_month month k fits in
    let (reached, same_time) = add_months-days date months (first_of_month month + k) refl in
    (rw reached same_month, rw reached same_day, same_time)
