-- ===== src/Base/TimeZone/RoundTrip.antt =====
-- TimeZone.cc: `fromUtcTime` after `toUtcTime`.
use arale.Prelude.{
  zero, suc, ◌==◌, ℤ, pos, negsuc, ℕ, ◌+◌, ◌-◌, ◌*◌, ◌/◌, ◌%◌, ◌^◌, ◌≤◌, ◌<◌, ◌≡◌, refl, ap, arith,
  Bool, true, false, ltb, leb, subst, if◌then◌else◌, Bool-cases, inl, inr, ok,
}
use arale.Base.Date.{is_int, date_of_day, week_day, julian_day_of_1970_01_01}
use arale.Base.Date.Calendar.{
  date_of_day-small, date_of_day-day_number, julian_day_number-fits, year_month_day-fits,
}
use arale.Base.TimeZone.{
  Tm, year_day_of, fill_tm, hour_of, minute_of, second_of, seconds_per_day, int_sub, cast_int,
  cast_negated, julian_day, first_day, Converted, fields, convert_day, to_utc_time, from_utc_time,
  from_tm,
}

year_day_of-returns :
    (yday : Bool) (j year : ℕ) → year ≤ 1500000 → (y : ℕ) × (year_day_of yday j year ≡ ok y)
unfolding year_day_of
year_day_of-returns false j year h = (0, refl)
year_day_of-returns true j year h =
    rw (julian_day_number-fits year 1 1 (omega arith) (omega arith) (omega arith) h) (_, refl)

-- The fields of a time, which is the time of the fields.
pub record Returns (t : ℤ) (c : Converted) : Type 0 where
  pub tm : Tm
  pub returns : c ≡ fields tm
  pub again : from_tm tm ≡ ok t
  pub hours : tm.hour < 24
  pub minutes : tm.minute < 60
  pub seconds : tm.second < 60

-- The seconds `s` of a day `j`.
convert_day-Returns :
    (yday : Bool) (s j : ℕ)
    → first_day ≤ j
    → j < 536838868
    → s < seconds_per_day
    → Returns
        (int_sub (j * seconds_per_day + s) (julian_day_of_1970_01_01 * seconds_per_day))
        (convert_day yday s (ok (pos j)))
unfolding convert_day fill_tm from_tm from_utc_time
convert_day-Returns yday s j h k l =
    let ((m, n), (d, e), w) = date_of_day-small j k in
    let (y, q) = year_day_of-returns yday j (date_of_day j).year w in
    let t : leb first_day j ≡ true = ground arith in
    let f : hour_of s * 3600 + minute_of s * 60 + second_of s ≡ s = omega arith in
    let i : is_int s ≡ true = ground arith in
    record {
      tm = record {
        date = date_of_day j;
        hour = hour_of s;
        minute = minute_of s;
        second = second_of s;
        week_day = week_day j;
        year_day = y;
      };
      returns = rw t (rw (year_month_day-fits j k) (rw q refl));
      again = rw (julian_day_number-fits _ _ _ m n e w, date_of_day-day_number j h, f) (rw i refl);
      hours = omega arith;
      minutes = omega arith;
      seconds = omega arith;
    }

julian_day-after :
    (q : ℕ)
    → q < 534398280
    → julian_day false (cast_int q) ≡ ok (pos (q + julian_day_of_1970_01_01))
unfolding julian_day
julian_day-after q h =
    let t : ltb (q % 2 ^ 32) (2 ^ 31) ≡ true = ground arith in
    let r : q % 2 ^ 32 ≡ q = omega arith in
    let i : is_int (q + julian_day_of_1970_01_01 - 0) ≡ true = ground arith in
    let k : int_sub (q + julian_day_of_1970_01_01) 0 ≡ pos (q + julian_day_of_1970_01_01) =
      ground arith in
    rw t (rw r (rw i (ap (λ z. ok z) k)))

-- Back to the day 0, and one day further when the rest of the time is negative.
julian_day-back :
    (before : Bool) (q : ℕ)
    → q ≤ 719468
    → julian_day before (cast_negated q)
      ≡ ok (pos (julian_day_of_1970_01_01 - (q + (if before then 1 else 0))))
unfolding julian_day
julian_day-back true zero h = refl
julian_day-back false zero h = refl
julian_day-back true (suc m) h =
    let c : cast_negated (suc m) ≡ negsuc m = ground arith in
    let t : (m + 1 == 2 ^ 31) ≡ false = ground arith in
    let k : int_sub julian_day_of_1970_01_01 (m + 1 + 1)
        ≡ pos (julian_day_of_1970_01_01 - (suc m + 1)) =
      ground arith in
    rw c (rw t (ap (λ z. ok z) k))
julian_day-back false (suc m) h =
    let c : cast_negated (suc m) ≡ negsuc m = ground arith in
    let k : int_sub julian_day_of_1970_01_01 (m + 1 + 0)
        ≡ pos (julian_day_of_1970_01_01 - (suc m + 0)) =
      ground arith in
    rw c (ap (λ z. ok z) k)

-- From 1 March of the year 0 up to the last day whose date needs no `int` from 2^31 on.
abbrev pub IsInRange : ℤ → Type 0
IsInRange (pos n) = n < 46172011392000
IsInRange (negsuc n) = n < 62162035200

-- Of a time from 1 March of the year 0 on, and before the end of the Julian day 536838867,
-- toUtcTime gives fields without an overflow, with hours, minutes and seconds in their ranges, and
-- fromUtcTime of these fields is the time again.
pub from_tm-to_utc_time : (yday : Bool) (t : ℤ) → IsInRange t → Returns t (to_utc_time yday t)
unfolding to_utc_time
from_tm-to_utc_time yday (pos n) r =
    let q = n / seconds_per_day in
    let s = n % seconds_per_day in
    let j = q + julian_day_of_1970_01_01 in
    let c = convert_day-Returns yday s j (omega arith) (omega arith) (omega arith) in
    let e : int_sub (j * seconds_per_day + s) (julian_day_of_1970_01_01 * seconds_per_day) ≡ pos n =
      ground arith in
    rw (julian_day-after q (omega arith))
      (subst (λ z. Returns z (convert_day yday s (ok (pos j)))) e c)
from_tm-to_utc_time yday (negsuc n) r = elim (Bool-cases (ltb 0 ((n + 1) % seconds_per_day))) [
  | inl t ↦
      let q = (n + 1) / seconds_per_day in
      let s = seconds_per_day - (n + 1) % seconds_per_day in
      let j = julian_day_of_1970_01_01 - (q + 1) in
      let c = convert_day-Returns yday s j (ground arith) (omega arith) (ground arith) in
      let e : int_sub (j * seconds_per_day + s) (julian_day_of_1970_01_01 * seconds_per_day)
          ≡ negsuc n =
        ground arith in
      rw t (
        rw (julian_day-back true q (omega arith))
          (subst (λ z. Returns z (convert_day yday s (ok (pos j)))) e c))
  | inr t ↦
      let q = (n + 1) / seconds_per_day in
      let j = julian_day_of_1970_01_01 - (q + 0) in
      let c = convert_day-Returns yday 0 j (omega arith) (omega arith) (omega arith) in
      let e : int_sub (j * seconds_per_day + 0) (julian_day_of_1970_01_01 * seconds_per_day)
          ≡ negsuc n =
        ground arith in
      rw t (
        rw (julian_day-back false q (omega arith))
          (subst (λ z. Returns z (convert_day yday 0 (ok (pos j)))) e c))
]
