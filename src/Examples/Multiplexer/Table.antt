-- ===== src/Examples/Multiplexer/Table.antt =====
-- Multiplexer.cc: `clientConns_` and `availIds_`, and how often an id stands in them.
use arale.Prelude.{
  ℕ, zero, suc, ◌+◌, ◌≡◌, ◌≤◌, ◌<◌, refl, sym, ◌∙◌, true, false, List, [], ◌∷◌, ◌++◌, none, some,
  ltb, ◌==◌, if◌then◌else◌, arith, Bool-cases, inl, inr,
}
use arale.Examples.Multiplexer.{find_client, put_client, erase_client, ids_from}

abbrev pub hit : ℕ → ℕ → ℕ
hit id i = if id == i then 1 else 0

abbrev pub count : ℕ → List ℕ → ℕ
count i [] = 0
count i (id ∷ ids) = hit id i + count i ids

abbrev pub ids_of : List (ℕ × ℕ) → List ℕ
ids_of [] = []
ids_of ((id, conn) ∷ cs) = id ∷ ids_of cs

pub count-append : (i id : ℕ) (ids : List ℕ) → count i (ids ++ id ∷ []) ≡ count i ids + hit id i
count-append i id [] = omega arith
count-append i id (k ∷ ids) = let e = count-append i id ids in omega arith

count-below : (i k n : ℕ) → i < k → count i (ids_from k n) ≡ 0
unfolding ids_from
count-below i k zero h = refl
count-below i k (suc n) h = let e = count-below i (suc k) n (omega arith) in ground arith

pub count-ids_from : (i k n : ℕ) → count i (ids_from k n) ≤ 1
unfolding ids_from
count-ids_from i k zero = omega arith
count-ids_from i k (suc n) = elim (Bool-cases (k == i)) [
  | inl t ↦ let e = count-below i (suc k) n (ground arith) in ground arith
  | inr t ↦ let e = count-ids_from i (suc k) n in ground arith
]

find_client-head :
    (i id conn : ℕ) (cs : List (ℕ × ℕ))
    → (id == i) ≡ true
    → find_client i ((id, conn) ∷ cs) ≡ some conn
unfolding find_client
find_client-head i id conn cs e = rw e refl

find_client-tail :
    (i id conn : ℕ) (cs : List (ℕ × ℕ))
    → (id == i) ≡ false
    → find_client i ((id, conn) ∷ cs) ≡ find_client i cs
unfolding find_client
find_client-tail i id conn cs e = rw e refl

pub ids_from-within : (i k n : ℕ) → 0 < count i (ids_from k n) → (k ≤ i) × (i < k + n)
unfolding ids_from
ids_from-within i k zero h = absurd (omega arith)
ids_from-within i k (suc n) h = elim (Bool-cases (k == i)) [
  | inl t ↦ (ground arith, ground arith)
  | inr t ↦ let (l, m) = ids_from-within i (suc k) n (ground arith) in (omega arith, omega arith)
]

pub find_client-absent :
    (i : ℕ) (cs : List (ℕ × ℕ)) → count i (ids_of cs) ≡ 0 → find_client i cs ≡ none
unfolding find_client
find_client-absent i [] h = refl
find_client-absent i ((id, conn) ∷ cs) h = elim (Bool-cases (id == i)) [
  | inl t ↦ absurd (ground arith)
  | inr t ↦ rw t (find_client-absent i cs (ground arith))
]

pub count-put_client :
    (i id conn : ℕ) (cs : List (ℕ × ℕ))
    → find_client id cs ≡ none
    → count i (ids_of (put_client id conn cs)) ≡ hit id i + count i (ids_of cs)
unfolding find_client put_client
count-put_client i id conn [] h = refl
count-put_client i id conn ((k, c) ∷ cs) h = elim (Bool-cases (ltb id k)) [
  | inl t ↦ rw t refl
  | inr t ↦ elim (Bool-cases (k == id)) [
    | inl u ↦ let q = find_client-head id k c cs u in absurd cc
    | inr u ↦
        let e = count-put_client i id conn cs (sym (find_client-tail id k c cs u) ∙ h) in
        rw (t, u) (omega arith)
  ]
]

pub find_client-put_client :
    (i id conn : ℕ) (cs : List (ℕ × ℕ))
    → find_client i (put_client id conn cs) ≡ (if id == i then some conn else find_client i cs)
unfolding find_client put_client
find_client-put_client i id conn [] = refl
find_client-put_client i id conn ((k, c) ∷ cs) = elim (Bool-cases (ltb id k)) [
  | inl t ↦ rw t refl
  | inr t ↦ elim (Bool-cases (k == id)) [
    | inl u ↦ elim (Bool-cases (id == i)) [
      | inl w ↦ rw (t, u, w) refl
      | inr w ↦ let x : (k == i) ≡ false = ground arith in rw (t, u, w, x) refl
    ]
    | inr u ↦ elim (Bool-cases (k == i)) [
      | inl w ↦ let x : (id == i) ≡ false = ground arith in rw (t, u, w, x) refl
      | inr w ↦ rw (t, u, w) (find_client-put_client i id conn cs)
    ]
  ]
]

pub count-erase_client :
    (i id conn : ℕ) (cs : List (ℕ × ℕ))
    → find_client id cs ≡ some conn
    → hit id i + count i (ids_of (erase_client id cs)) ≡ count i (ids_of cs)
unfolding find_client erase_client
count-erase_client i id conn [] h = absurd cc
count-erase_client i id conn ((k, c) ∷ cs) h = elim (Bool-cases (k == id)) [
  | inl t ↦ rw t (ground arith)
  | inr t ↦
      let e = count-erase_client i id conn cs (sym (find_client-tail id k c cs t) ∙ h) in
      rw t (omega arith)
]

pub find_client-erase_client :
    (i id : ℕ) (cs : List (ℕ × ℕ))
    → (id == i) ≡ false
    → find_client i (erase_client id cs) ≡ find_client i cs
unfolding find_client erase_client
find_client-erase_client i id [] h = refl
find_client-erase_client i id ((k, c) ∷ cs) h = elim (Bool-cases (k == id)) [
  | inl t ↦ let x : (k == i) ≡ false = ground arith in rw (t, x) refl
  | inr t ↦ elim (Bool-cases (k == i)) [
    | inl w ↦ rw (t, w) refl
    | inr w ↦ rw (t, w) (find_client-erase_client i id cs h)
  ]
]
