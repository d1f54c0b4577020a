-- ===== src/Base/ZoneFile/Whole.antt =====
-- TimeZone.cc, `readTimeZoneFile`: a whole zone file.
use arale.Prelude.{ℤ, pos, ℕ, ◌^◌, ◌≡◌, ◌<◌, refl, List, [], ◌∷◌, ◌++◌, some, ok, length}
use arale.Base.ZoneFile.{
  Zone, Head, read_head, read_body, after_localtimes, read_abbreviations, read_time_zone_file,
}
use arale.Base.ZoneFile.Parts.{
  print_int32, IsInt32, read_int32-print_int32, print_times, print_indexes, print_localtimes, times,
  TimesFit, OffsetsFit, AreLocal, read_times-print_times, read_indexes-print_indexes,
  read_localtimes-print_localtimes, make_transitions-times, read_bytes-append,
}

-- What the code passes over: the version, fifteen bytes and three counts.
pub record Ignored : Type 0 where
  pub version : ℕ
  pub reserved : List ℕ
  pub isgmtcnt : ℤ
  pub isstdcnt : ℤ
  pub leapcnt : ℤ

abbrev pub count {ℓ} : {A : Type ℓ} → List A → ℤ
count l = pos (length l)

abbrev pub magic : List ℕ
magic = b'T' ∷ b'Z' ∷ b'i' ∷ b'f' ∷ []

abbrev pub print_body : Zone → List ℕ → List ℕ
print_body z more = print_localtimes z.localtimes ++ (z.abbreviation ++ more)

abbrev pub print_counts : Zone → List ℕ → List ℕ
print_counts z more =
    print_int32 (count z.transitions)
    ++ (print_int32 (count z.localtimes) ++ (print_int32 (count z.abbreviation) ++ more))

abbrev pub print_ignored : Ignored → List ℕ → List ℕ
print_ignored g more =
    g.version
    ∷ (g.reserved
        ++ (print_int32 g.isgmtcnt ++ (print_int32 g.isstdcnt ++ (print_int32 g.leapcnt ++ more))))

abbrev pub print_zone : Ignored → Zone → List ℕ → List ℕ
print_zone g z more =
    magic
    ++ print_ignored g (
        print_counts z
          (print_times z.transitions ++ (print_indexes z.transitions ++ print_body z more)))

-- A zone that a file can hold.
pub record IsPrintable (g : Ignored) (z : Zone) : Type 0 where
  pub fifteen : length g.reserved ≡ 15
  pub gmt : IsInt32 g.isgmtcnt
  pub std : IsInt32 g.isstdcnt
  pub leap : IsInt32 g.leapcnt
  pub times_count : length z.transitions < 2 ^ 31
  pub types_count : length z.localtimes < 2 ^ 31
  pub chars_count : length z.abbreviation < 2 ^ 31
  pub times_fit : TimesFit z.transitions
  pub offsets_fit : OffsetsFit z.localtimes
  pub local : AreLocal z.localtimes z.transitions

abbrev head_of : Zone → Head
head_of z = record {
  typecnt = count z.localtimes;
  charcnt = count z.abbreviation;
  times = times z.transitions;
  indexes = print_indexes z.transitions;
}

read_head-print_zone :
    (g : Ignored) (z : Zone) (more : List ℕ)
    → IsPrintable g z
    → read_head (print_zone g z more) ≡ ok (head_of z, print_body z more)
unfolding read_head
read_head-print_zone g z more p =
    rw (read_head, read_bytes-append 4 magic _ refl)
      (rw (read_bytes-append 1 (g.version ∷ []) _ refl) (
        rw (read_bytes-append 15 g.reserved _ p.fifteen) (
          rw (read_int32-print_int32 g.isgmtcnt _ p.gmt) (
            rw (read_int32-print_int32 g.isstdcnt _ p.std) (
              rw (read_int32-print_int32 g.leapcnt _ p.leap) (
                rw (read_int32-print_int32 (count z.transitions) _ p.times_count) (
                  rw (read_int32-print_int32 (count z.localtimes) _ p.types_count) (
                    rw (read_int32-print_int32 (count z.abbreviation) _ p.chars_count) (
                      rw (read_times-print_times z.transitions _ p.times_fit) (
                        rw (read_indexes-print_indexes z.transitions (print_body z more))
                          refl))))))))))

read_body-print_body :
    (g : Ignored) (z : Zone) (more : List ℕ)
    → IsPrintable g z
    → read_body (head_of z) (print_body z more) ≡ ok z
unfolding read_body after_localtimes read_abbreviations
read_body-print_body g z more p =
    rw
      (
        read_body,
        read_localtimes-print_localtimes z.localtimes (z.abbreviation ++ more) p.offsets_fit,
      )
      (rw (after_localtimes, make_transitions-times z.localtimes z.transitions p.local)
        (rw (read_abbreviations, read_bytes-append (length z.abbreviation) z.abbreviation more refl)
          refl))

-- A zone whose counts, times and offsets fit 32 bits, and whose local times are its times plus the
-- offsets at its indexes, is read back by readTimeZoneFile from its zone file, whatever follows in
-- the file.
pub read_time_zone_file-print_zone :
    (g : Ignored) (z : Zone) (more : List ℕ)
    → IsPrintable g z
    → read_time_zone_file (some (print_zone g z more)) ≡ ok z
unfolding read_time_zone_file
read_time_zone_file-print_zone g z more p =
    rw (read_time_zone_file, read_head-print_zone g z more p) (read_body-print_body g z more p)
