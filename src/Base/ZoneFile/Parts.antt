-- ===== src/Base/ZoneFile/Parts.antt =====
-- TimeZone.cc, `readTimeZoneFile`: the parts of a zone file, written and read back.
use arale.Prelude.{
  ℤ, pos, negsuc, ℕ, ◌+◌, ◌-◌, ◌*◌, ◌/◌, ◌%◌, ◌^◌, ◌≡◌, ◌<◌, refl, sym, ap, ◌∙◌, Bool, true, false,
  ltb, leb, if◌then◌else◌, List, [], ◌∷◌, ◌++◌, append_assoc, ok, length, arith, take-append_length,
  drop-append_length, length-append, append-nil,
}
use arale.Base.Integer.{add}
use arale.Base.ZoneFile.{
  Transition, Localtime, localtime_at, read_bytes, read_int32, read_uint8, read_times, read_indexes,
  read_localtime, read_localtimes, make_transitions,
}

-- Four bytes, the most significant one first, of an integer that fits them.
abbrev pub word : ℤ → ℕ
word (pos n) = n
word (negsuc n) = 2 ^ 32 - 1 - n

pub print_int32 : ℤ → List ℕ
print_int32 x =
    let w = word x in w / 2 ^ 24 ∷ w / 2 ^ 16 % 2 ^ 8 ∷ w / 2 ^ 8 % 2 ^ 8 ∷ w % 2 ^ 8 ∷ []

abbrev pub IsInt32 : ℤ → Type 0
IsInt32 (pos n) = n < 2 ^ 31
IsInt32 (negsuc n) = n < 2 ^ 31

word_lem :
    (w : ℕ)
    → w / 2 ^ 24 * 2 ^ 24 + w / 2 ^ 16 % 2 ^ 8 * 2 ^ 16 + w / 2 ^ 8 % 2 ^ 8 * 2 ^ 8 + w % 2 ^ 8 ≡ w
word_lem w = omega arith

pub read_int32-print_int32 :
    (x : ℤ) (more : List ℕ) → IsInt32 x → read_int32 (print_int32 x ++ more) ≡ ok (x, more)
unfolding read_int32 print_int32
read_int32-print_int32 (pos n) more h =
    let e = word_lem n in let t : ltb n (2 ^ 31) ≡ true = ground arith in rw e (rw t refl)
read_int32-print_int32 (negsuc n) more h =
    let e = word_lem (2 ^ 32 - 1 - n) in
    let t : ltb (2 ^ 32 - 1 - n) (2 ^ 31) ≡ false = ground arith in
    let q : 2 ^ 32 - 1 - (2 ^ 32 - 1 - n) ≡ n = omega arith in
    rw e (rw t (ap (λ k. ok (negsuc k, more)) q))

abbrev pub print_times : List Transition → List ℕ
print_times [] = []
print_times (t ∷ ts) = print_int32 t.gmttime ++ print_times ts

abbrev pub print_indexes : List Transition → List ℕ
print_indexes [] = []
print_indexes (t ∷ ts) = t.localtime_idx ∷ print_indexes ts

pub print_localtime : Localtime → List ℕ
print_localtime l = print_int32 l.gmt_offset ++ (if l.is_dst then 1 else 0) ∷ l.arrb_idx ∷ []

abbrev pub print_localtimes : List Localtime → List ℕ
print_localtimes [] = []
print_localtimes (l ∷ ls) = print_localtime l ++ print_localtimes ls

abbrev pub times : List Transition → List ℤ
times [] = []
times (t ∷ ts) = t.gmttime ∷ times ts

-- Times and offsets fit 32 bits.
abbrev pub TimesFit : List Transition → Type 0
TimesFit [] = Unit
TimesFit (t ∷ ts) = IsInt32 t.gmttime × TimesFit ts

abbrev pub OffsetsFit : List Localtime → Type 0
OffsetsFit [] = Unit
OffsetsFit (l ∷ ls) = IsInt32 l.gmt_offset × OffsetsFit ls

pub read_times-print_times :
    (ts : List Transition) (more : List ℕ)
    → TimesFit ts
    → read_times (length ts) (print_times ts ++ more) ≡ ok (times ts, more)
unfolding read_times
read_times-print_times [] more h = refl
read_times-print_times (t ∷ ts) more h =
    rw (append_assoc (print_int32 t.gmttime) (print_times ts) more) (
      rw (read_int32-print_int32 t.gmttime (print_times ts ++ more) h.0)
        (rw (read_times-print_times ts more h.1) refl))

pub read_indexes-print_indexes :
    (ts : List Transition) (more : List ℕ)
    → read_indexes (length ts) (print_indexes ts ++ more) ≡ ok (print_indexes ts, more)
unfolding read_indexes read_uint8
read_indexes-print_indexes [] more = refl
read_indexes-print_indexes (t ∷ ts) more = rw (read_indexes-print_indexes ts more) refl

read_localtime-print_localtime :
    (l : Localtime) (more : List ℕ)
    → IsInt32 l.gmt_offset
    → read_localtime (print_localtime l ++ more) ≡ ok (l, more)
unfolding read_localtime read_uint8 print_localtime
read_localtime-print_localtime l more h =
    rw
      (append_assoc (print_int32 l.gmt_offset) ((if l.is_dst then 1 else 0) ∷ l.arrb_idx ∷ []) more)
      (rw (read_int32-print_int32 l.gmt_offset ((if l.is_dst then 1 else 0) ∷ l.arrb_idx ∷ more) h)
        (ap (λ b. ok (record l { is_dst = b }, more)) (flag l.is_dst)))
  where
    flag : (b : Bool) → ltb 0 (if b then 1 else 0) ≡ b
    flag true = refl
    flag false = refl

pub read_localtimes-print_localtimes :
    (ls : List Localtime) (more : List ℕ)
    → OffsetsFit ls
    → read_localtimes (length ls) (print_localtimes ls ++ more) ≡ (ls, ok more)
unfolding read_localtimes
read_localtimes-print_localtimes [] more h = refl
read_localtimes-print_localtimes (l ∷ ls) more h =
    rw (append_assoc (print_localtime l) (print_localtimes ls) more) (
      rw (read_localtimes, read_localtime-print_localtime l (print_localtimes ls ++ more) h.0)
        (rw (read_localtimes-print_localtimes ls more h.1) refl))

-- The local time of each transition is its time and the offset of its index.
abbrev pub AreLocal : List Localtime → List Transition → Type 0
AreLocal ls [] = Unit
AreLocal ls (t ∷ ts) =
    ((l : Localtime) × (localtime_at t.localtime_idx ls ≡ ok l)
      × (t.localtime ≡ add t.gmttime l.gmt_offset))
    × AreLocal ls ts

pub make_transitions-times :
    (ls : List Localtime) (ts : List Transition)
    → AreLocal ls ts
    → make_transitions (times ts) (print_indexes ts) ls ≡ ok ts
unfolding make_transitions
make_transitions-times ls [] h = refl
make_transitions-times ls (t ∷ ts) ((l, e, q), h) =
    rw e
      (rw (make_transitions-times ls ts h) (ap (λ x. ok (record t { localtime = x } ∷ ts)) (sym q)))

pub read_bytes-append :
    (n : ℕ) (s more : List ℕ) → length s ≡ n → read_bytes n (s ++ more) ≡ ok (s, more)
unfolding read_bytes
read_bytes-append n s more h =
    let t : leb n (length (s ++ more)) ≡ true = ground (arith, length-append s more) in
    rw t (
      let a = take-append_length n 0 s more (omega arith) ∙ append-nil s in
      let b = drop-append_length n 0 s more (omega arith) in rw (a, b) refl)
