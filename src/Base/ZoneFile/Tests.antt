-- ===== src/Base/ZoneFile/Tests.antt =====
-- A zone of two offsets, at concrete times.
use arale.Prelude.{ℤ, pos, negsuc, ◌≡◌, refl, true, false, [], ◌∷◌, some, ok, arith, replicate}
use arale.Base.ZoneFile.{
  Transition, Localtime, Zone, lower_bound, localtime_at, at_bound, find_localtime,
  read_time_zone_file,
}
use arale.Base.ZoneFile.Search.{chosen, find_localtime-chosen}
use arale.Base.ZoneFile.Whole.{Ignored, IsPrintable, print_zone, read_time_zone_file-print_zone}

abbrev winter : Localtime
winter = record { gmt_offset = negsuc 18000; is_dst = false; arrb_idx = 0 }

abbrev summer : Localtime
summer = record { gmt_offset = negsuc 14400; is_dst = true; arrb_idx = 4 }

abbrev two_offsets : Zone
two_offsets = record {
  transitions =
      record { gmttime = negsuc 999; localtime = negsuc 19000; localtime_idx = 0 }
      ∷ record { gmttime = pos 100000; localtime = pos 85599; localtime_idx = 1 }
      ∷ [];
  localtimes = winter ∷ summer ∷ [];
  abbreviation = b'E' ∷ b'S' ∷ b'T' ∷ 0 ∷ b'E' ∷ b'D' ∷ b'T' ∷ 0 ∷ [];
}

abbrev at_time : ℤ → Transition
at_time t = record { gmttime = t; localtime = pos 0; localtime_idx = 0 }

find_test : find_localtime two_offsets (at_time (pos 100001)) true ≡ ok summer
unfolding find_localtime lower_bound localtime_at at_bound
find_test = refl

find_localtime-chosen_example :
    find_localtime two_offsets (at_time (pos 99999)) true
    ≡ localtime_at
        (chosen true (at_time (pos 99999)) 0 two_offsets.transitions)
        two_offsets.localtimes
find_localtime-chosen_example =
    find_localtime-chosen true (at_time (pos 99999)) two_offsets (refl, tt)

abbrev second_version : Ignored
second_version = record {
  version = b'2';
  reserved = replicate 15 0;
  isgmtcnt = pos 2;
  isstdcnt = pos 2;
  leapcnt = pos 0;
}

two_offsets-IsPrintable : IsPrintable second_version two_offsets
unfolding localtime_at
two_offsets-IsPrintable = record {
  fifteen = refl;
  gmt = omega arith;
  std = omega arith;
  leap = omega arith;
  times_count = omega arith;
  types_count = omega arith;
  chars_count = omega arith;
  times_fit = (omega arith, (omega arith, tt));
  offsets_fit = (omega arith, (omega arith, tt));
  local = ((winter, refl, refl), ((summer, refl, refl), tt));
}

read_time_zone_file-print_zone_example :
    read_time_zone_file (some (print_zone second_version two_offsets [])) ≡ ok two_offsets
read_time_zone_file-print_zone_example =
    read_time_zone_file-print_zone second_version two_offsets [] two_offsets-IsPrintable
