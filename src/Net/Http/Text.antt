-- ===== src/Net/Http/Text.antt =====
-- The parts of `std::string`, `std::map` and `printf` that arale/net/http uses, on lists of bytes.
use arale.Prelude.{
  ℕ, zero, suc, ◌+◌, ◌/◌, ◌%◌, ◌≡◌, ◌≢◌, refl, sym, ◌∙◌, Bool, true, false, ◌&&◌, ◌||◌, List, [],
  ◌∷◌, ◌++◌, Option, none, some, if◌then◌else◌, ltb, leb, ◌==◌, arith, inl, inr, Bool-cases,
}

abbrev pub Bytes : Type 0
Bytes = List ℕ

-- `==` on strings.
unfoldable pub same_bytes : Bytes → Bytes → Bool
same_bytes [] [] = true
same_bytes [] (y ∷ ys) = false
same_bytes (x ∷ xs) [] = false
same_bytes (x ∷ xs) (y ∷ ys) = (x == y) && same_bytes xs ys

pub same_bytes_refl : (s : Bytes) → same_bytes s s ≡ true
unfolding same_bytes
same_bytes_refl [] = refl
same_bytes_refl (x ∷ xs) = rw (same_bytes_refl xs) (ground arith)

pub same_bytes-eq : (s t : Bytes) → same_bytes s t ≡ true → s ≡ t
unfolding same_bytes
same_bytes-eq [] [] e = refl
same_bytes-eq [] (y ∷ t) e = cc
same_bytes-eq (x ∷ s) [] e = cc
same_bytes-eq (x ∷ s) (y ∷ t) e = elim (Bool-cases (same_bytes s t)) [
  | inl p ↦ let q : x ≡ y = grind arith in rw (q, same_bytes-eq s t p)
  | inr p ↦ absurd (grind arith)
]

-- `std::find` of a byte: what stands before it and what after, if it is there.
unfoldable pub split_at_byte : ℕ → Bytes → Option (Bytes × Bytes)
split_at_byte c [] = none
split_at_byte c (x ∷ xs) =
    if x == c
    then some ([], xs)
    else elim (split_at_byte c xs) [ none ↦ none | some r ↦ some (x ∷ r.0, r.1) ]

abbrev pub Lacks : ℕ → Bytes → Type 0
Lacks c [] = Unit
Lacks c (x ∷ xs) = (x ≢ c) × Lacks c xs

pub split_at_byte-append :
    (c : ℕ) (s t : Bytes) → Lacks c s → split_at_byte c (s ++ c ∷ t) ≡ some (s, t)
unfolding split_at_byte
split_at_byte-append c [] t l = ground arith
split_at_byte-append c (x ∷ s) t (n, l) = rw (split_at_byte-append c s t l) (ground arith)

pub split_at_byte-none : (c : ℕ) (s : Bytes) → Lacks c s → split_at_byte c s ≡ none
unfolding split_at_byte
split_at_byte-none c [] l = refl
split_at_byte-none c (x ∷ s) (n, l) = rw (split_at_byte-none c s l) (ground arith)

-- `isspace` in the C locale.
unfoldable pub is_space : ℕ → Bool
is_space c = (c == b' ') || (leb 9 c && leb c 13)

-- The two loops of `addHeader` over space.
unfoldable pub skip_space : Bytes → Bytes
unfolding is_space
skip_space [] = []
skip_space (x ∷ xs) = let r = skip_space xs in if is_space x then r else x ∷ xs

abbrev pub is_empty : Bytes → Bool
is_empty [] = true
is_empty (x ∷ xs) = false

unfoldable pub strip_end : Bytes → Bytes
unfolding is_space
strip_end [] = []
strip_end (x ∷ xs) = let r = strip_end xs in if is_empty r && is_space x then [] else x ∷ r

-- `std::map` from strings to strings, in the order of its keys.
abbrev pub Headers : Type 0
Headers = List (Bytes × Bytes)

unfoldable pub before : Bytes → Bytes → Bool
before s [] = false
before [] (y ∷ t) = true
before (x ∷ s) (y ∷ t) = ltb x y || ((x == y) && before s t)

-- `headers_[key] = value`.
unfoldable pub put : Bytes → Bytes → Headers → Headers
unfolding same_bytes before
put k v [] = (k, v) ∷ []
put k v (e ∷ es) =
    let r = put k v es in
    if same_bytes k e.0 then (e.0, v) ∷ es else if before k e.0 then (k, v) ∷ (e ∷ es) else e ∷ r

unfoldable pub look_up : Bytes → Headers → Option Bytes
unfolding same_bytes
look_up k [] = none
look_up k (e ∷ es) = let r = look_up k es in if same_bytes k e.0 then some e.1 else r

pub look_up-put : (k v : Bytes) (h : Headers) → look_up k (put k v h) ≡ some v
unfolding look_up put
look_up-put k v [] = rw (same_bytes_refl k)
look_up-put k v (e ∷ es) = elim (Bool-cases (same_bytes k e.0)) [
  | inl p ↦ rw (p, p)
  | inr p ↦ elim (Bool-cases (before k e.0)) [
    | inl q ↦ rw (p, q, same_bytes_refl k)
    | inr q ↦ rw (p, q, p) (look_up-put k v es)
  ]
]

look_up-miss :
    (j k : Bytes) (e : Bytes × Bytes) → j ≢ k → same_bytes k e.0 ≡ true → same_bytes j e.0 ≡ false
look_up-miss j k e n p = elim (Bool-cases (same_bytes j e.0)) [
  | inl q ↦ absurd (n (same_bytes-eq j e.0 q ∙ sym (same_bytes-eq k e.0 p)))
  | inr q ↦ q
]

different : (j k : Bytes) → j ≢ k → same_bytes j k ≡ false
different j k n = elim (Bool-cases (same_bytes j k)) [
  | inl q ↦ absurd (n (same_bytes-eq j k q))
  | inr q ↦ q
]

pub look_up-put_other : (j k v : Bytes) (h : Headers) → j ≢ k → look_up j (put k v h) ≡ look_up j h
unfolding look_up put
look_up-put_other j k v [] n = rw (different j k n)
look_up-put_other j k v (e ∷ es) n = elim (Bool-cases (same_bytes k e.0)) [
  | inl p ↦ rw (p, look_up-miss j k e n p)
  | inr p ↦ elim (Bool-cases (before k e.0)) [
    | inl q ↦ rw (p, q, different j k n)
    | inr q ↦ rw (p, q, look_up-put_other j k v es n)
  ]
]

-- `%d` and `%zd` of a number that is not negative. The fuel is the number of digits at most.
unfoldable pub digits : ℕ → ℕ → Bytes
digits zero n = []
digits (suc fuel) n =
    let rest = digits fuel (n / 10) in
    if ltb n 10 then (48 + n) ∷ [] else rest ++ (48 + n % 10) ∷ []

abbrev pub decimal : ℕ → Bytes
decimal n = digits 20 n
