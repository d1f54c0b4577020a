-- ===== src/Base/ZoneFile.antt =====
-- arale/base/TimeZone.cc: the zone file, and local time by its transitions.
pub mod Search
pub mod Parts
pub mod Whole
mod Tests
use arale.Prelude.{
  ℤ, pos, negsuc, ℕ, zero, suc, ◌+◌, ◌-◌, ◌*◌, ◌^◌, Bool, true, false, not, ◌&&◌, ◌||◌, ltb, leb,
  ◌==◌, if◌then◌else◌, List, [], ◌∷◌, ◌++◌, Option, none, some, Outcome, ok, thrown, undefined,
  assertion, ◌>>=◌, ◌>>◌, assert, length, take, drop,
}
use arale.Base.Integer.{less, same, add, sub}

-- A `time_t` is an integer.
pub record Transition : Type 0 where
  pub gmttime : ℤ
  pub localtime : ℤ
  pub localtime_idx : ℕ

pub record Localtime : Type 0 where
  pub gmt_offset : ℤ
  pub is_dst : Bool
  pub arrb_idx : ℕ

-- `TimeZone::Data`; its `names` are never used.
pub record Zone : Type 0 where
  pub transitions : List Transition
  pub localtimes : List Localtime
  pub abbreviation : List ℕ

abbrev pub empty_zone : Zone
empty_zone = record { transitions = []; localtimes = []; abbreviation = [] }

-- The time that `Comp` compares.
abbrev pub time_of : Bool → Transition → ℤ
time_of compare_gmt t = if compare_gmt then t.gmttime else t.localtime

abbrev pub comp : Bool → Transition → Transition → Bool
comp compare_gmt lhs rhs = less (time_of compare_gmt lhs) (time_of compare_gmt rhs)

abbrev pub equal : Bool → Transition → Transition → Bool
equal compare_gmt lhs rhs = same (time_of compare_gmt lhs) (time_of compare_gmt rhs)

-- `std::lower_bound` of a sorted range: what is before it, from the end on, and the rest.
unfoldable pub lower_bound :
    Bool → Transition → List Transition → List Transition → List Transition × List Transition
lower_bound gmt sentry before [] = (before, [])
lower_bound gmt sentry before (t ∷ ts) =
    if comp gmt t sentry then lower_bound gmt sentry (t ∷ before) ts else (before, t ∷ ts)

-- `localtimes[i]`.
unfoldable pub localtime_at : ℕ → List Localtime → Outcome Localtime
localtime_at i [] = undefined
localtime_at zero (l ∷ ls) = ok l
localtime_at (suc i) (l ∷ ls) = localtime_at i ls

-- From the place that `lower_bound` found on. The transition in front of the end is `back()`.
unfoldable pub at_bound :
    Bool → Transition → List Localtime → List Transition × List Transition → Outcome Localtime
unfolding localtime_at
at_bound gmt sentry ls ([], []) = undefined
at_bound gmt sentry ls (b ∷ before, []) = localtime_at b.localtime_idx ls
at_bound gmt sentry ls ([], t ∷ ts) = elim (equal gmt sentry t) [
  | true ↦ localtime_at t.localtime_idx ls
  | false ↦ assertion
]
at_bound gmt sentry ls (b ∷ before, t ∷ ts) = elim (equal gmt sentry t) [
  | true ↦ localtime_at t.localtime_idx ls
  | false ↦ localtime_at b.localtime_idx ls
]

abbrev pub is_before_all : Bool → Transition → List Transition → Bool
is_before_all gmt sentry [] = true
is_before_all gmt sentry (t ∷ ts) = comp gmt sentry t

unfoldable pub find_localtime : Zone → Transition → Bool → Outcome Localtime
unfolding at_bound lower_bound
find_localtime z sentry gmt = elim (is_before_all gmt sentry z.transitions) [
  | true ↦ localtime_at 0 z.localtimes
  | false ↦ at_bound gmt sentry z.localtimes (lower_bound gmt sentry [] z.transitions)
]

-- The zone of a fixed offset.
abbrev pub fixed_zone : ℤ → List ℕ → Zone
fixed_zone east_of_utc name = record {
  transitions = [];
  localtimes = record { gmt_offset = east_of_utc; is_dst = false; arrb_idx = 0 } ∷ [];
  abbreviation = name;
}

-- A `struct tm` of local time: the fields that `gmtime_r` sets, as `A`, and three more.
pub record LocalTm (A : Type 0) : Type 0 where
  pub fields : A
  pub is_dst : Bool
  pub gmtoff : ℤ
  pub zone : List ℕ

-- `gmtime_r`, `timegm` and the hour and minute of a `struct tm` belong to the C library.
module _ {A : Type 0} (gmtime_r : ℤ → A) (timegm : A → ℤ) (hour_minute : A → ℕ × ℕ) where
  unfoldable pub to_local_time : Zone → ℤ → Outcome (LocalTm A)
  unfolding find_localtime
  to_local_time z seconds = do
    local ←
        find_localtime z (record { gmttime = seconds; localtime = pos 0; localtime_idx = 0 }) true
    ok (record {
      fields = gmtime_r (add seconds local.gmt_offset);
      is_dst = local.is_dst;
      gmtoff = local.gmt_offset;
      zone = drop local.arrb_idx z.abbreviation;
    })

  abbrev pub same_clock : A → A → Bool
  same_clock s t = (hour_minute s).0 == (hour_minute t).0 && (hour_minute s).1 == (hour_minute t).1

  unfoldable pub from_local_time : Zone → LocalTm A → Outcome ℤ
  unfolding find_localtime to_local_time
  from_local_time z tm = do
    let seconds = timegm tm.fields
    local ←
        find_localtime z (record { gmttime = pos 0; localtime = seconds; localtime_idx = 0 }) false
    elim tm.is_dst [
      | false ↦ ok (sub seconds local.gmt_offset)
      | true ↦ do
        try ← to_local_time z (sub seconds local.gmt_offset)
        ok (
            if not try.is_dst && same_clock try.fields tm.fields
            then sub (sub seconds (pos 3600)) local.gmt_offset
            else sub seconds local.gmt_offset)
    ]

-- `readBytes` and the like, over the bytes of the file that are left.
pub read_bytes : ℕ → List ℕ → Outcome (List ℕ × List ℕ)
read_bytes n bs = if leb n (length bs) then ok (take n bs, drop n bs) else thrown

unfoldable pub read_int32 : List ℕ → Outcome (ℤ × List ℕ)
read_int32 (a ∷ b ∷ c ∷ d ∷ bs) =
    let v = a * 2 ^ 24 + b * 2 ^ 16 + c * 2 ^ 8 + d in
    ok ((if ltb v (2 ^ 31) then pos v else negsuc (2 ^ 32 - 1 - v)), bs)
read_int32 _ = thrown

unfoldable pub read_uint8 : List ℕ → Outcome (ℕ × List ℕ)
read_uint8 [] = thrown
read_uint8 (b ∷ bs) = ok (b, bs)

-- A loop `for (int i = 0; i < n; ++i)`, and `reserve`, which takes a negative number for one that
-- is too large.
abbrev pub rounds : ℤ → ℕ
rounds (pos n) = n
rounds (negsuc n) = 0

abbrev pub reserve : ℤ → Outcome (Unit {0})
reserve (pos n) = ok tt
reserve (negsuc n) = thrown

unfoldable pub read_times : ℕ → List ℕ → Outcome (List ℤ × List ℕ)
unfolding read_int32
read_times zero bs = ok ([], bs)
read_times (suc n) bs = do
  (t, rest) ← read_int32 bs
  (ts, left) ← read_times n rest
  ok (t ∷ ts, left)

unfoldable pub read_indexes : ℕ → List ℕ → Outcome (List ℕ × List ℕ)
unfolding read_uint8
read_indexes zero bs = ok ([], bs)
read_indexes (suc n) bs = do
  (i, rest) ← read_uint8 bs
  (is, left) ← read_indexes n rest
  ok (i ∷ is, left)

unfoldable pub read_localtime : List ℕ → Outcome (Localtime × List ℕ)
unfolding read_int32 read_uint8
read_localtime bs = do
  (off, r) ← read_int32 bs
  (dst, s) ← read_uint8 r
  (abbr, t) ← read_uint8 s
  ok (record { gmt_offset = off; is_dst = ltb 0 dst; arrb_idx = abbr }, t)

-- Those that are in the vector when the loop ends or throws, and what is left of the file.
unfoldable pub read_localtimes : ℕ → List ℕ → List Localtime × Outcome (List ℕ)
unfolding read_localtime
read_localtimes zero bs = ([], ok bs)
read_localtimes (suc n) bs = elim (read_localtime bs) [
  | ok (l, rest) ↦ let r = read_localtimes n rest in (l ∷ r.0, r.1)
  | assertion ↦ ([], assertion)
  | thrown ↦ ([], thrown)
  | undefined ↦ ([], undefined)
]

unfoldable pub make_transitions : List ℤ → List ℕ → List Localtime → Outcome (List Transition)
unfolding localtime_at
make_transitions [] is ls = ok []
make_transitions (t ∷ ts) [] ls = undefined
make_transitions (t ∷ ts) (i ∷ is) ls = do
  l ← localtime_at i ls
  rest ← make_transitions ts is ls
  ok (record { gmttime = t; localtime = add t l.gmt_offset; localtime_idx = i } ∷ rest)

-- `readBytes(charcnt)`: an array of a negative size is undefined.
abbrev pub read_chars : ℤ → List ℕ → Outcome (List ℕ × List ℕ)
read_chars (pos n) bs = read_bytes n bs
read_chars (negsuc n) bs = undefined

-- What stands in front of the local times: the counts of these and of the characters, the times
-- and the indexes.
pub record Head : Type 0 where
  pub typecnt : ℤ
  pub charcnt : ℤ
  pub times : List ℤ
  pub indexes : List ℕ

abbrev pub is_magic : List ℕ → Bool
is_magic (t ∷ z ∷ i ∷ f ∷ []) = t == b'T' && (z == b'Z' && (i == b'i' && f == b'f'))
is_magic _ = false

unfoldable pub read_head : List ℕ → Outcome (Head × List ℕ)
unfolding read_int32 read_times read_indexes
read_head file = do
  (magic, a) ← read_bytes 4 file
  (if is_magic magic then ok tt else thrown)
  (version, b) ← read_bytes 1 a
  (skipped, c) ← read_bytes 15 b
  (isgmtcnt, d) ← read_int32 c
  (isstdcnt, e) ← read_int32 d
  (leapcnt, f) ← read_int32 e
  (timecnt, g) ← read_int32 f
  (typecnt, h) ← read_int32 g
  (charcnt, i) ← read_int32 h
  reserve timecnt
  (times, j) ← read_times (rounds timecnt) i
  (indexes, k) ← read_indexes (rounds timecnt) j
  ok (record { typecnt = typecnt; charcnt = charcnt; times = times; indexes = indexes }, k)

-- `catch (logic_error& e)`.
abbrev pub catch {ℓ} : {A : Type ℓ} → A → Outcome A → Outcome A
catch a (ok b) = ok b
catch a assertion = assertion
catch a thrown = ok a
catch a undefined = undefined

-- The data after the `try`, without the abbreviations if these throw.
unfoldable pub read_abbreviations : Zone → ℤ → List ℕ → Outcome Zone
read_abbreviations z charcnt bs =
    catch z (do (cs, rest) ← read_chars charcnt bs; ok (record z { abbreviation = cs }))

unfoldable pub after_localtimes : Head → List Localtime × Outcome (List ℕ) → Outcome Zone
unfolding make_transitions read_abbreviations
after_localtimes h (ls, ok rest) = do
  ts ← make_transitions h.times h.indexes ls
  read_abbreviations (record { transitions = ts; localtimes = ls; abbreviation = [] }) h.charcnt
      rest
after_localtimes h (ls, thrown) = ok (record empty_zone { localtimes = ls })
after_localtimes h (ls, assertion) = assertion
after_localtimes h (ls, undefined) = undefined

unfoldable pub read_body : Head → List ℕ → Outcome Zone
unfolding read_localtimes after_localtimes
read_body h bs = after_localtimes h (read_localtimes (rounds h.typecnt) bs)

-- The constructor's zone; `readTimeZoneFile` returns true in any case. None is a file that cannot be
-- opened.
unfoldable pub read_time_zone_file : Option (List ℕ) → Outcome Zone
unfolding read_head read_body
read_time_zone_file none = ok empty_zone
read_time_zone_file (some file) = elim (read_head file) [
  | ok (h, rest) ↦ read_body h rest
  | assertion ↦ assertion
  | thrown ↦ ok empty_zone
  | undefined ↦ undefined
]
