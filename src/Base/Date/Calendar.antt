-- ===== src/Base/Date/Calendar.antt =====
-- Date.cc: the date of a day, and the day of that date.
use arale.Prelude.{
  refl, ap, ok, ℕ, zero, suc, ◌+◌, ◌-◌, ◌*◌, ◌/◌, ◌%◌, ◌≤◌, ◌<◌, ◌≡◌, ◌∙◌, arith, Bool, true, false,
  not, ◌&&◌, ◌||◌, ltb, ◌==◌, Bool-cases, inl, inr, if◌then◌else◌,
}
use arale.Base.Date.{
  YearMonthDay, is_int, fits_day_count, day_number, julian_day_number, date_of, date_of_day,
  year_month_day,
}

-- What the divisions of `getYearMonthDay` give of the day `a`.
record Parts (a b d e m : ℕ) : Type 0 where
  century : a ≡ 36524 * b + b / 4 + 365 * d + d / 4 + e
  years : d < 100
  days : e < 366
  months : (153 * m + 2) / 5 ≤ e
  within : e < (153 * m + 2) / 5 + 31
  last : m < 12

Parts-divisions :
    (a : ℕ)
    → Parts a
        ((4 * a + 3) / 146097)
        ((4 * (a - (4 * a + 3) / 146097 * 146097 / 4) + 3) / 1461)
        (a
          - (4 * a + 3) / 146097 * 146097 / 4
          - 1461 * ((4 * (a - (4 * a + 3) / 146097 * 146097 / 4) + 3) / 1461) / 4)
        ((5
              * (a
                  - (4 * a + 3) / 146097 * 146097 / 4
                  - 1461 * ((4 * (a - (4 * a + 3) / 146097 * 146097 / 4) + 3) / 1461) / 4)
            + 2)
          / 153)
Parts-divisions a =
    let b = (4 * a + 3) / 146097 in
    let c = a - b * 146097 / 4 in
    let d = (4 * c + 3) / 1461 in
    let e = c - 1461 * d / 4 in
    let m = (5 * e + 2) / 153 in
    record {
      century = omega arith;
      years = omega arith;
      days = omega arith;
      months = omega arith;
      within = omega arith;
      last = omega arith;
    }

-- The date of such parts is counted back to the day.
day_count-date_of :
    (a b d e m : ℕ)
    → Parts a b d e m
    → 4800 ≤ 100 * b + d
    → day_number (date_of b d e m).year (date_of b d e m).month (date_of b d e m).day
      ≡ a + 1 - 32045
unfolding day_number
day_count-date_of a b d e m p h =
    omega (arith, p.century, p.years, p.days, p.months, p.within, p.last)

centuries :
    (a : ℕ)
    → 1753164 ≤ a
    → 4800 ≤ 100 * ((4 * a + 3) / 146097) + (4 * (a - (4 * a + 3) / 146097 * 146097 / 4) + 3) / 1461
centuries a h = omega arith

-- The same of the whole day number.
pub date_of_day-day_number :
    (j : ℕ)
    → 1721120 ≤ j
    → day_number (date_of_day j).year (date_of_day j).month (date_of_day j).day ≡ j
unfolding date_of_day
date_of_day-day_number j h =
    let p = Parts-divisions (j + 32044) in
    day_count-date_of (j + 32044) _ _ _ _ p (centuries (j + 32044) (omega arith)) ∙ omega arith

-- The date of a day, which is a date of that day again.
pub record Dated (j : ℕ) : Type 0 where
  pub date : YearMonthDay
  pub returns : year_month_day j ≡ ok date
  pub again : julian_day_number date.year date.month date.day ≡ ok j
  pub month_first : 1 ≤ date.month
  pub month_last : date.month ≤ 12
  pub day_first : 1 ≤ date.day
  pub day_last : date.day ≤ 31

-- The ranges of the fields, for which no `int` of getJulianDayNumber overflows.
pub date_of_day-small :
    (j : ℕ)
    → j < 536838868
    → ((1 ≤ (date_of_day j).month) × ((date_of_day j).month ≤ 12))
      × ((1 ≤ (date_of_day j).day) × ((date_of_day j).day ≤ 31))
      × ((date_of_day j).year ≤ 1500000)
unfolding date_of_day
date_of_day-small j h =
    let p = Parts-divisions (j + 32044) in
    (
      (omega (arith, p.last), omega (arith, p.last)),
      (omega (arith, p.months, p.within), omega (arith, p.months, p.within)),
      omega (arith, p.century, p.years, p.last),
    )

pub julian_day_number-fits :
    (y m d : ℕ)
    → 1 ≤ m
    → m ≤ 12
    → d ≤ 31
    → y ≤ 1500000
    → julian_day_number y m d ≡ ok (day_number y m d)
unfolding julian_day_number
julian_day_number-fits y m d h k l n =
    let a = (14 - m) / 12 in
    let p : (is_int (y + 4800) && is_int (m + 12 * a)) ≡ true = ground arith in
    let q : fits_day_count (y + 4800 - a) (m + 12 * a - 3) d ≡ true = ground arith in rw (p, q) refl

pub year_month_day-fits : (j : ℕ) → j < 536838868 → year_month_day j ≡ ok (date_of_day j)
unfolding year_month_day
year_month_day-fits j k = let t : is_int (4 * (j + 32044) + 3) ≡ true = ground arith in rw t refl

-- From 1 March of the year 0 on, and up to the last day whose date needs no number from 2^31 on,
-- the day 536838867, getYearMonthDay gives a date, with a month of 1 to 12 and a day of 1 to 31,
-- and getJulianDayNumber of this date is the day again; nothing overflows.
pub julian_day_number-year_month_day : (j : ℕ) → 1721120 ≤ j → j < 536838868 → Dated j
julian_day_number-year_month_day j h k =
    let ((m, n), (d, e), y) = date_of_day-small j k in
    record {
      date = date_of_day j;
      returns = year_month_day-fits j k;
      again = julian_day_number-fits _ _ _ m n e y ∙ ap ok (date_of_day-day_number j h);
      month_first = m;
      month_last = n;
      day_first = d;
      day_last = e;
    }

-- The Gregorian rule.
abbrev pub is_leap : ℕ → Bool
is_leap y = (y % 4 == 0) && (not (y % 100 == 0) || (y % 400 == 0))

abbrev pub days_in_month : ℕ → ℕ → ℕ
days_in_month y m =
    if m == 2
    then (if is_leap y then 29 else 28)
    else if (m == 4) || ((m == 6) || ((m == 9) || (m == 11)))
    then 30
    else 31

abbrev pub first_after : ℕ → ℕ → YearMonthDay
first_after y m =
    if m == 12
    then record { year = y + 1; month = 1; day = 1 }
    else record { year = y; month = m + 1; day = 1 }

abbrev pub next_date : YearMonthDay → YearMonthDay
next_date d =
    if ltb d.day (days_in_month d.year d.month)
    then record d { day = d.day + 1 }
    else first_after d.year d.month

pub record IsDate (d : YearMonthDay) : Type 0 where
  pub month_first : 1 ≤ d.month
  pub month_last : d.month ≤ 12
  pub day_first : 1 ≤ d.day
  pub day_last : d.day ≤ days_in_month d.year d.month

within_month : (y m d : ℕ) → 1 ≤ m → m ≤ 12 → day_number y m (d + 1) ≡ day_number y m d + 1
unfolding day_number
within_month y m d h k = omega arith

leap_end : (y : ℕ) → is_leap y ≡ true → day_number y 3 1 ≡ day_number y 2 29 + 1
unfolding day_number
leap_end y h = ground arith

common_end : (y : ℕ) → is_leap y ≡ false → day_number y 3 1 ≡ day_number y 2 28 + 1
unfolding day_number
common_end y h = ground arith

year_end : (y : ℕ) → day_number (y + 1) 1 1 ≡ day_number y 12 31 + 1
unfolding day_number
year_end y = omega arith

days_of_february : (y : ℕ) → day_number y 3 1 ≡ day_number y 2 (days_in_month y 2) + 1
days_of_february y = elim (Bool-cases (is_leap y)) [
  | inl e ↦ rw e (leap_end y e)
  | inr e ↦ rw e (common_end y e)
]

month_end :
    (y m : ℕ)
    → 1 ≤ m
    → m ≤ 12
    → day_number (first_after y m).year (first_after y m).month (first_after y m).day
      ≡ day_number y m (days_in_month y m) + 1
unfolding day_number
month_end y zero h k = absurd (omega arith)
month_end y (suc zero) h k = omega arith
month_end y (suc (suc zero)) h k = days_of_february y
month_end y (suc (suc (suc zero))) h k = omega arith
month_end y (suc (suc (suc (suc zero)))) h k = omega arith
month_end y (suc (suc (suc (suc (suc zero))))) h k = omega arith
month_end y (suc (suc (suc (suc (suc (suc zero)))))) h k = omega arith
month_end y (suc (suc (suc (suc (suc (suc (suc zero))))))) h k = omega arith
month_end y (suc (suc (suc (suc (suc (suc (suc (suc zero)))))))) h k = omega arith
month_end y (suc (suc (suc (suc (suc (suc (suc (suc (suc zero))))))))) h k = omega arith
month_end y (suc (suc (suc (suc (suc (suc (suc (suc (suc (suc zero)))))))))) h k = omega arith
month_end y (suc (suc (suc (suc (suc (suc (suc (suc (suc (suc (suc zero))))))))))) h k = omega arith
month_end y (suc (suc (suc (suc (suc (suc (suc (suc (suc (suc (suc (suc zero)))))))))))) h k =
    year_end y
month_end y (suc (suc (suc (suc (suc (suc (suc (suc (suc (suc (suc (suc (suc m))))))))))))) h k =
    absurd (omega arith)

-- The day after a date of the calendar, by the lengths of the months and the rule of the leap
-- years, is the next Julian day.
day_number-next_date :
    (d : YearMonthDay)
    → IsDate d
    → day_number (next_date d).year (next_date d).month (next_date d).day
      ≡ day_number d.year d.month d.day + 1
day_number-next_date d i = elim (Bool-cases (ltb d.day (days_in_month d.year d.month))) [
  | inl e ↦ rw e (within_month d.year d.month d.day i.month_first i.month_last)
  | inr e ↦
      rw (e, last_day d.day (days_in_month d.year d.month) e i.day_last)
        (month_end d.year d.month i.month_first i.month_last)
]
  where
    last_day : (a b : ℕ) → ltb a b ≡ false → a ≤ b → a ≡ b
    last_day a b e h = ground arith
