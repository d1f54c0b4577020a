-- ===== src/Base/Tests.antt =====
-- The theorems of dates and times at concrete inputs.
use arale.Prelude.{
  ℕ, pos, negsuc, ◌≡◌, ◌≤◌, refl, List, [], ◌∷◌, length, true, arith, ok, undefined,
}
use arale.Base.LogStream.{convert, digit_loop, Item, text, integer, put_all}
use arale.Base.LogStream.Integers.{read_int, read_int-convert}
use arale.Base.LogStream.Capacity.{Chosen, put_all-Chosen}
use arale.Base.Date.{YearMonthDay, julian_day_number, day_number, year_month_day}
use arale.Base.Date.Calendar.{IsDate, Dated, julian_day_number-year_month_day}
use arale.Base.TimeZone.{to_utc_time}
use arale.Base.TimeZone.RoundTrip.{Returns, from_tm-to_utc_time}

runs_epoch : julian_day_number 1970 1 1 ≡ ok 2440588
unfolding julian_day_number day_number
runs_epoch = refl

julian_day_number-year_month_day_example : Dated 2451604
julian_day_number-year_month_day_example =
    julian_day_number-year_month_day 2451604 (omega arith) (omega arith)

-- The first day whose date overflows.
runs_overflow : year_month_day 536838868 ≡ undefined
unfolding year_month_day
runs_overflow = refl

abbrev leap_day : YearMonthDay
leap_day = record { year = 2000; month = 2; day = 29 }

leap_day-IsDate : IsDate leap_day
leap_day-IsDate = omega arith

-- One second before 1970.
from_tm-to_utc_time_example : Returns (negsuc 0) (to_utc_time true (negsuc 0))
from_tm-to_utc_time_example = from_tm-to_utc_time true (negsuc 0) (omega arith)

read_int-convert_example : read_int (convert (negsuc 119)) ≡ negsuc 119
read_int-convert_example = read_int-convert (negsuc 119) (omega arith)

runs_convert : convert (negsuc 119) ≡ b'-' ∷ b'1' ∷ b'2' ∷ b'0' ∷ []
unfolding convert digit_loop
runs_convert = refl

-- The second text does not fit a buffer of four bytes.
abbrev items : List Item
items = text (1 ∷ 2 ∷ []) ∷ text (3 ∷ 4 ∷ []) ∷ text (5 ∷ []) ∷ integer (pos 7) ∷ []

put_all-Chosen_example : (l : List ℕ) × Chosen items l × (put_all 4 items [] ≡ l) × (length l ≤ 4)
put_all-Chosen_example = put_all-Chosen 4 items [] (omega arith)
