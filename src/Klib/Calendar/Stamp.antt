-- ===== src/Klib/Calendar/Stamp.antt =====
-- `utc2stamp` of kernel/lib/time.c against the Gregorian calendar.
use quark_os.Prelude.{
  ℕ, zero, suc, ◌+◌, ◌-◌, ◌*◌, ◌%◌, ◌^◌, ◌≤◌, ◌<◌, ◌≡◌, refl, arith, Bool, true, false, ◌&&◌, ◌||◌,
  List, [], ◌∷◌, ◌==◌, ◌!=◌, if◌then◌else◌, get_or, set,
}
use quark_os.Klib.Calendar.{CmosTime, u32, month_days, leap_year, is_leap, add_months, utc2stamp}
use quark_os.Klib.Bits.Digits.{and_three}

-- The calendar: a year divisible by 4 is a leap year, but for centuries not divisible by 400.
abbrev pub gregorian_leap : ℕ → Bool
gregorian_leap year = year % 4 == 0 && (year % 100 != 0 || year % 400 == 0)

abbrev pub days_in_month : Bool → List ℕ
days_in_month leap =
    31 ∷ (if leap then 29 else 28) ∷ 31 ∷ 30 ∷ 31 ∷ 30 ∷ 31 ∷ 31 ∷ 30 ∷ 31 ∷ 30 ∷ 31 ∷ []

-- the days of `n` years from 1970 on
unfoldable pub days_of_years : ℕ → ℕ
days_of_years zero = 0
days_of_years (suc n) = days_of_years n + (if gregorian_leap (1970 + n) then 366 else 365)

-- the days of the first `n` months
unfoldable pub days_of_months : Bool → ℕ → ℕ
days_of_months leap zero = 0
days_of_months leap (suc n) = days_of_months leap n + get_or (days_in_month leap) n 0

-- seconds since the start of 1970
abbrev pub unix_time : CmosTime → ℕ
unix_time t =
    (days_of_years (t.year - 1970)
        + days_of_months (gregorian_leap t.year) (t.month - 1)
        + (t.day - 1))
      * 86400
    + t.hour * 3600
    + t.minute * 60
    + t.second

pub is_leap_lem : (year : ℕ) → is_leap year ≡ gregorian_leap year
is_leap_lem year = ground (arith, and_three year)

abbrev extra : ℕ → ℕ
extra year = if gregorian_leap year then 1 else 0

-- `leap_year` counts the leap years from 1970 on, the given year included.
leap_days : (n : ℕ) → n < 1000 → days_of_years n + extra (1970 + n) ≡ leap_year (1970 + n) + n * 365
unfolding days_of_years
leap_days zero h = refl
leap_days (suc n) h = ground (arith, leap_days n)

abbrev AllShort : List ℕ → Type 0
AllShort [] = Unit
AllShort (x ∷ xs) = (x ≤ 31) × AllShort xs

get_or-le : (xs : List ℕ) (n : ℕ) → AllShort xs → get_or xs n 0 ≤ 31
get_or-le [] n h = omega arith
get_or-le (x ∷ xs) zero h = h.0
get_or-le (x ∷ xs) (suc n) h = get_or-le xs n h.1

month_bounds : (leap : Bool) → AllShort (days_in_month leap)
month_bounds true = omega arith
month_bounds false = omega arith

month_bound : (leap : Bool) (n : ℕ) → get_or (days_in_month leap) n 0 ≤ 31
month_bound leap n = get_or-le (days_in_month leap) n (month_bounds leap)

months_next :
    (leap : Bool) (n : ℕ)
    → days_of_months leap (n + 1) ≡ days_of_months leap n + get_or (days_in_month leap) n 0
unfolding days_of_months
months_next leap n = let e : n + 1 ≡ suc n = omega arith in rw e

months_bound : (leap : Bool) (n : ℕ) → days_of_months leap n ≤ 31 * n
unfolding days_of_months
months_bound leap zero = omega arith
months_bound leap (suc n) = omega (arith, months_bound leap n, month_bound leap n)

add_months_lem :
    (leap : Bool) (n mon days : ℕ)
    → days + 31 * n < 2 ^ 32
    → add_months (days_in_month leap) n mon days + days_of_months leap mon
      ≡ days + days_of_months leap (mon + n)
unfolding add_months
add_months_lem leap zero mon days h = let e : mon + 0 ≡ mon = omega arith in rw e (omega arith)
add_months_lem leap (suc n) mon days h =
    let d = get_or (days_in_month leap) mon 0 in
    let short = month_bound leap mon in
    let fits : u32 (days + d) ≡ days + d = omega arith in
    let e : mon + 1 + n ≡ mon + suc n = omega arith in
    let ih = rw e at (add_months_lem leap n (mon + 1) (days + d) (omega arith)) in
    rw fits (omega (arith, ih, months_next leap mon))

table_lem : (leap : Bool) → set month_days 1 (if leap then 29 else 28) ≡ days_in_month leap
table_lem leap = refl

pub record IsDate (t : CmosTime) : Type 0 where
  pub year_from : 1970 ≤ t.year
  pub year_to : t.year ≤ 2105
  pub month : t.month ≤ 12
  pub day_from : 1 ≤ t.day
  pub day_to : t.day ≤ 31
  pub hour : t.hour < 24
  pub minute : t.minute < 60
  pub second : t.second < 60

day_seconds : (b : Bool) → (if b then 86400 else 0) ≡ 86400 * (if b then 1 else 0)
day_seconds true = refl
day_seconds false = refl

module _ (t : CmosTime) (d : IsDate t) where
  years_days :
      days_of_years (t.year - 1970) + extra t.year ≡ leap_year t.year + (t.year - 1970) * 365
  years_days =
      let e : 1970 + (t.year - 1970) ≡ t.year = omega arith in
      rw e at (leap_days (t.year - 1970) (omega arith))

  whole_days :
      u32 (leap_year t.year * 366 + u32 (u32 (t.year - 1970) + 2 ^ 32 - leap_year t.year) * 365)
      ≡ days_of_years (t.year - 1970) + extra t.year
  whole_days = omega (arith, years_days, d.year_from, d.year_to)

  leap : Bool
  leap = gregorian_leap t.year

  past : ℕ
  past = days_of_years (t.year - 1970) + extra t.year

  past_bound : past ≤ 49310
  unfolding past
  past_bound = omega (arith, years_days, d.year_from, d.year_to)

  months :
      add_months (days_in_month leap) (t.month - 1) 0 past
      ≡ past + days_of_months leap (t.month - 1)
  unfolding days_of_months
  months =
      let e : 0 + (t.month - 1) ≡ t.month - 1 = omega arith in
      omega (
        arith,
        rw e at (add_months_lem leap (t.month - 1) 0 past (omega (arith, past_bound, d.month))),
      )

  seconds :
      u32 (
        u32 (add_months (days_in_month leap) (t.month - 1) 0 past + (t.day + 2 ^ 32 - 1))
          * 24
          * 60
          * 60
        + t.hour * 60 * 60
        + t.minute * 60
        + t.second)
      ≡ unix_time t + (if leap then 86400 else 0)
  unfolding leap past
  seconds = omega (
    arith,
    months,
    past_bound,
    months_bound leap (t.month - 1),
    day_seconds leap,
    d.month,
    d.day_from,
    d.day_to,
    d.hour,
    d.minute,
    d.second,
  )

-- For a date from 1970 to 2105 the result is Unix time, except that in a leap year it is a day ahead: the count
-- of past leap years includes the current one, whose 29 February the table adds again.
pub utc2stamp_lem :
    (t : CmosTime)
    → IsDate t
    → utc2stamp t ≡ unix_time t + (if gregorian_leap t.year then 86400 else 0)
unfolding utc2stamp leap past
utc2stamp_lem t d = rw (is_leap_lem, whole_days t d) (seconds t d)
