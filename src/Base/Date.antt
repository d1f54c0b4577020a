-- ===== src/Base/Date.antt =====
-- arale/base/Date.h and Date.cc: dates as Julian day numbers. An `int` that overflows is undefined.
-- The years here are not negative: the source also counts days before 1 March of the year 0, and
-- months from 26 on, with negative numbers, which are not followed.
pub mod Calendar
use arale.Prelude.{ℕ, ◌+◌, ◌-◌, ◌*◌, ◌/◌, ◌%◌, ◌^◌, Bool, ◌&&◌, ltb, Outcome, ok, access, ◌>>◌}

pub record YearMonthDay : Type 0 where
  pub year : ℕ
  pub month : ℕ
  pub day : ℕ

-- An `int` holds the number.
abbrev pub is_int : ℕ → Bool
is_int n = ltb n (2 ^ 31)

-- With `a`, `y` and `m` of the source.
abbrev pub day_count : ℕ → ℕ → ℕ → ℕ
day_count y m day = day + (153 * m + 2) / 5 + y * 365 + y / 4 - y / 100 + y / 400 - 32045

-- The number of a day when nothing overflows.
unfoldable pub day_number : ℕ → ℕ → ℕ → ℕ
day_number year month day =
    let a = (14 - month) / 12 in day_count (year + 4800 - a) (month + 12 * a - 3) day

-- The largest numbers on the way: the sum up to `y/4` bounds `y*365` and what follows it.
abbrev pub fits_day_count : ℕ → ℕ → ℕ → Bool
fits_day_count y m day = is_int (153 * m + 2) && is_int (day + (153 * m + 2) / 5 + y * 365 + y / 4)

unfoldable pub julian_day_number : ℕ → ℕ → ℕ → Outcome ℕ
unfolding day_number
julian_day_number year month day =
    let a = (14 - month) / 12 in
    access (is_int (year + 4800) && is_int (month + 12 * a))
    >> access (fits_day_count (year + 4800 - a) (month + 12 * a - 3) day)
    >> ok (day_number year month day)

-- With `b`, `d`, `e` and `m` of the source.
abbrev pub date_of : ℕ → ℕ → ℕ → ℕ → YearMonthDay
date_of b d e m = record {
  year = b * 100 + d - 4800 + m / 10;
  month = m + 3 - 12 * (m / 10);
  day = e - (153 * m + 2) / 5 + 1;
}

-- The date of a day when nothing overflows.
unfoldable pub date_of_day : ℕ → YearMonthDay
date_of_day j =
    let a = j + 32044 in
    let b = (4 * a + 3) / 146097 in
    let c = a - b * 146097 / 4 in
    let d = (4 * c + 3) / 1461 in
    let e = c - 1461 * d / 4 in let m = (5 * e + 2) / 153 in date_of b d e m

-- `4 * a + 3` is the largest number on the way.
unfoldable pub year_month_day : ℕ → Outcome YearMonthDay
unfolding date_of_day
year_month_day j = access (is_int (4 * (j + 32044) + 3)) >> ok (date_of_day j)

abbrev pub julian_day_of_1970_01_01 : ℕ
julian_day_of_1970_01_01 = 2440588

abbrev pub days_per_week : ℕ
days_per_week = 7

unfoldable pub week_day : ℕ → ℕ
week_day j = (j + 1) % days_per_week

-- `valid`.
abbrev pub is_valid : ℕ → Bool
is_valid j = ltb 0 j
