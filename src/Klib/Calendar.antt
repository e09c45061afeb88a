-- ===== src/Klib/Calendar.antt =====
-- kernel/lib/time.c, and the conversion that `read_rtc` of kernel/drivers/cmos.c makes of the clock's
-- registers once two readings agree. The years are those that `read_rtc` yields, 2000 and later, so
-- the `int` differences of `utc2stamp` are not negative.
pub mod Stamp
use quark_os.Prelude.{
  ℕ, zero, suc, ◌+◌, ◌-◌, ◌*◌, ◌/◌, ◌%◌, ◌^◌, bit_and, bit_or, Bool, true, false, not, ◌&&◌, ◌||◌,
  List, [], ◌∷◌, ltb, ◌==◌, ◌!=◌, if◌then◌else◌, get_or, set,
}

-- `struct cmos_time`
pub record CmosTime : Type 0 where
  pub second : ℕ
  pub minute : ℕ
  pub hour : ℕ
  pub day : ℕ
  pub month : ℕ
  pub year : ℕ

abbrev pub u32 : ℕ → ℕ
u32 n = n % 2 ^ 32

abbrev pub month_days : List ℕ
month_days = 31 ∷ 28 ∷ 31 ∷ 30 ∷ 31 ∷ 30 ∷ 31 ∷ 31 ∷ 30 ∷ 31 ∷ 30 ∷ 31 ∷ []

-- The divisions round down and the one subtrahend is the smallest, so the sum is not negative.
abbrev pub leap_year : ℕ → ℕ
leap_year year = u32 ((year - 1968) / 4 + (year - 1600) / 400 - (year - 1900) / 100)

abbrev pub is_leap : ℕ → Bool
is_leap year = (year % 100 != 0 && bit_and year 3 == 0) || year % 400 == 0

-- `for (mon; mon < month - 1; ++mon) days += month_days[mon]`, with `n` rounds left
pub add_months : List ℕ → ℕ → ℕ → ℕ → ℕ
add_months table zero mon days = days
add_months table (suc n) mon days = add_months table n (mon + 1) (u32 (days + get_or table mon 0))

-- The table is written before it is read, on every call, so it carries nothing over.
pub utc2stamp : CmosTime → ℕ
unfolding add_months
utc2stamp t =
    let years = u32 (t.year - 1970) in
    let leap = leap_year t.year in
    let whole = u32 (leap * 366 + u32 (years + 2 ^ 32 - leap) * 365) in
    let table = set month_days 1 (if is_leap t.year then 29 else 28) in
    let days = u32 (add_months table (t.month - 1) 0 whole + (t.day + 2 ^ 32 - 1)) in
    u32 (days * 24 * 60 * 60 + t.hour * 60 * 60 + t.minute * 60 + t.second)

abbrev pub bcd : ℕ → ℕ
bcd v = bit_and v 0x0f + v / 16 * 10

abbrev pub bcd_hour : ℕ → ℕ
bcd_hour v = bit_or (bit_and v 0x0f + bit_and v 0x70 / 16 * 10) (bit_and v 0x80)

-- The fields are bytes, and the year an `int` of two digits.
abbrev pub from_bcd : CmosTime → CmosTime
from_bcd t = record {
  second = bcd t.second % 2 ^ 8;
  minute = bcd t.minute % 2 ^ 8;
  hour = bcd_hour t.hour % 2 ^ 8;
  day = bcd t.day % 2 ^ 8;
  month = bcd t.month % 2 ^ 8;
  year = bcd t.year;
}

abbrev pub to_24 : CmosTime → CmosTime
to_24 t = record t { hour = (bit_and t.hour 0x7f + 12) % 24 }

-- No century register: CURRENT_YEAR is 2022.
abbrev pub full_year : ℕ → ℕ
full_year yy = if ltb (yy + 2000) 2022 then yy + 2000 + 100 else yy + 2000

-- `read_rtc` after its reading loop, given register B.
pub convert_rtc : ℕ → CmosTime → CmosTime
convert_rtc register_b raw =
    let t = if bit_and register_b 0x04 == 0 then from_bcd raw else raw in
    let t' = if bit_and register_b 0x02 == 0 && bit_and t.hour 0x80 != 0 then to_24 t else t in
    record t' { year = full_year t'.year }
