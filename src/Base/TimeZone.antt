-- ===== src/Base/TimeZone.antt =====
-- arale/base/TimeZone.cc: the conversions between seconds since 1970 and the fields of `struct tm`
-- in UTC. A `time_t` is an integer; the fields are those of Date.antt and the three of the day. The
-- number of the day is cut to an `int`.
pub mod RoundTrip
use arale.Prelude.{
  ℤ, pos, negsuc, ℕ, zero, suc, ◌+◌, ◌-◌, ◌*◌, ◌/◌, ◌%◌, ◌^◌, Bool, true, false, not, ◌&&◌, ltb,
  leb, ◌==◌, if◌then◌else◌, Outcome, ok, access, ◌>>=◌, ◌>>◌,
}
use arale.Base.Date.{
  YearMonthDay, is_int, year_month_day, julian_day_number, julian_day_of_1970_01_01, week_day,
}

abbrev pub seconds_per_day : ℕ
seconds_per_day = 24 * 60 * 60

-- The fields that are set. `year`, `month` are the full ones: `tm_year + 1900`, `tm_mon + 1`.
pub record Tm : Type 0 where
  pub date : YearMonthDay
  pub hour : ℕ
  pub minute : ℕ
  pub second : ℕ
  pub week_day : ℕ
  pub year_day : ℕ

-- `fillHMS`: hours, minutes and seconds.
abbrev pub hour_of : ℕ → ℕ
hour_of seconds = seconds / 60 / 60

abbrev pub minute_of : ℕ → ℕ
minute_of seconds = seconds / 60 % 60

abbrev pub second_of : ℕ → ℕ
second_of seconds = seconds % 60

-- `tm_yday` is set when it is asked for.
unfoldable pub year_day_of : Bool → ℕ → ℕ → Outcome ℕ
unfolding julian_day_number
year_day_of false j year = ok 0
year_day_of true j year = do start ← julian_day_number year 1 1; ok (j - start)

unfoldable pub fill_tm : Bool → ℕ → ℕ → Outcome Tm
unfolding year_month_day week_day year_day_of
fill_tm yday seconds j = do
  ymd ← year_month_day j
  y ← year_day_of yday j ymd.year
  ok (record {
    date = ymd;
    hour = hour_of seconds;
    minute = minute_of seconds;
    second = second_of seconds;
    week_day = week_day j;
    year_day = y;
  })

-- A difference of natural numbers.
abbrev pub int_sub : ℕ → ℕ → ℤ
int_sub a b = if leb b a then pos (a - b) else negsuc (b - a - 1)

-- `static_cast<int>` of a number and of a negated one: modulo 2 ^ 32, between -2 ^ 31 and 2 ^ 31 - 1.
abbrev pub cast_int : ℕ → ℤ
cast_int q = let r = q % 2 ^ 32 in if ltb r (2 ^ 31) then pos r else int_sub r (2 ^ 32)

abbrev pub cast_negated : ℕ → ℤ
cast_negated q = let r = q % 2 ^ 32 in if leb r (2 ^ 31) then int_sub 0 r else int_sub (2 ^ 32) r

-- `--days`, if the day before is meant, and `days + kJulianDayOf1970_01_01`.
unfoldable pub julian_day : Bool → ℤ → Outcome ℤ
julian_day before (pos days) = do
  let b = if before then 1 else 0
  access (is_int (days + julian_day_of_1970_01_01 - b))
  ok (int_sub (days + julian_day_of_1970_01_01) b)
julian_day before (negsuc days) = do
  access (not (before && (days + 1 == 2 ^ 31)))
  ok (int_sub julian_day_of_1970_01_01 (days + 1 + (if before then 1 else 0)))

-- 1 March of the year 0.
abbrev pub first_day : ℕ
first_day = 1721120

-- What `toUtcTime` gives: the fields, an overflow, which is undefined, or a day of a negative year,
-- which Date.antt does not follow.
pub data Converted : Type 0 where
  fields : Tm → Converted
  overflows before_first : Converted

abbrev pub converted : Outcome Tm → Converted
converted (ok t) = fields t
converted _ = overflows

unfoldable pub convert_day : Bool → ℕ → Outcome ℤ → Converted
unfolding fill_tm
convert_day yday seconds (ok (pos j)) =
    if leb first_day j then converted (fill_tm yday seconds j) else before_first
convert_day yday seconds (ok (negsuc j)) = before_first
convert_day yday seconds _ = overflows

-- The quotient and the remainder of C++ round to 0, so that a negative time may have a negative
-- remainder; the code then moves to the day before.
unfoldable pub to_utc_time : Bool → ℤ → Converted
unfolding convert_day julian_day
to_utc_time yday (pos n) =
    convert_day yday (n % seconds_per_day) (julian_day false (cast_int (n / seconds_per_day)))
to_utc_time yday (negsuc n) =
    let r = (n + 1) % seconds_per_day in
    let q = (n + 1) / seconds_per_day in
    if ltb 0 r
    then convert_day yday (seconds_per_day - r) (julian_day true (cast_negated q))
    else convert_day yday 0 (julian_day false (cast_negated q))

-- `days * kSecondsPerDay + secondsInDay`, as one difference.
unfoldable pub from_utc_time : ℕ → ℕ → ℕ → ℕ → ℕ → ℕ → Outcome ℤ
unfolding julian_day_number
from_utc_time year month day hour minute seconds = do
  j ← julian_day_number year month day
  let seconds_in_day = hour * 3600 + minute * 60 + seconds
  access (is_int seconds_in_day)
  ok (int_sub (j * seconds_per_day + seconds_in_day) (julian_day_of_1970_01_01 * seconds_per_day))

-- `fromUtcTime` of a `struct tm`.
unfoldable pub from_tm : Tm → Outcome ℤ
unfolding from_utc_time
from_tm t = from_utc_time t.date.year t.date.month t.date.day t.hour t.minute t.second
