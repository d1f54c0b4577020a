-- ===== src/Base/Integer.antt =====
-- Arithmetic and order of a `time_t`.
use arale.Prelude.{
  ℤ, pos, negsuc, ℕ, ◌+◌, ◌-◌, ◌≡◌, refl, ap, Bool, true, false, ltb, leb, ◌==◌, if◌then◌else◌,
  arith,
}

abbrev pub less : ℤ → ℤ → Bool
less (pos m) (pos n) = ltb m n
less (pos m) (negsuc n) = false
less (negsuc m) (pos n) = true
less (negsuc m) (negsuc n) = ltb n m

abbrev pub same : ℤ → ℤ → Bool
same (pos m) (pos n) = m == n
same (pos m) (negsuc n) = false
same (negsuc m) (pos n) = false
same (negsuc m) (negsuc n) = m == n

abbrev pub difference : ℕ → ℕ → ℤ
difference m n = if leb n m then pos (m - n) else negsuc (n - m - 1)

abbrev pub add : ℤ → ℤ → ℤ
add (pos m) (pos n) = pos (m + n)
add (pos m) (negsuc n) = difference m (n + 1)
add (negsuc m) (pos n) = difference n (m + 1)
add (negsuc m) (negsuc n) = negsuc (m + n + 1)

abbrev pub sub : ℤ → ℤ → ℤ
sub (pos m) (pos n) = difference m n
sub (pos m) (negsuc n) = pos (m + n + 1)
sub (negsuc m) (pos n) = negsuc (m + n)
sub (negsuc m) (negsuc n) = difference (n + 1) (m + 1)

pub sub-add : (x y : ℤ) → sub (add x y) y ≡ x
sub-add (pos m) (pos n) = ground arith
sub-add (pos m) (negsuc n) = ground arith
sub-add (negsuc m) (pos n) = ground arith
sub-add (negsuc m) (negsuc n) = ground arith

pub less_trans : (x y z : ℤ) → less x y ≡ true → less y z ≡ true → less x z ≡ true
less_trans (pos k) (pos m) (pos n) h i = ground arith
less_trans (pos k) (pos m) (negsuc n) h i = cc
less_trans (pos k) (negsuc m) z h i = cc
less_trans (negsuc k) (pos m) (pos n) h i = refl
less_trans (negsuc k) (pos m) (negsuc n) h i = cc
less_trans (negsuc k) (negsuc m) (pos n) h i = refl
less_trans (negsuc k) (negsuc m) (negsuc n) h i = ground arith

pub less-false : (x y : ℤ) → less x y ≡ true → less y x ≡ false
less-false (pos m) (pos n) h = ground arith
less-false (pos m) (negsuc n) h = cc
less-false (negsuc m) (pos n) h = refl
less-false (negsuc m) (negsuc n) h = ground arith

pub less-other : (x y : ℤ) → less x y ≡ false → same y x ≡ false → less y x ≡ true
less-other (pos m) (pos n) h k = ground arith
less-other (pos m) (negsuc n) h k = refl
less-other (negsuc m) (pos n) h k = cc
less-other (negsuc m) (negsuc n) h k = ground arith

pub less-same : (x y z : ℤ) → same x y ≡ true → less y z ≡ less x z
less-same (pos m) (pos n) z h = let e : n ≡ m = ground arith in ap (λ k. less (pos k) z) e
less-same (pos m) (negsuc n) z h = cc
less-same (negsuc m) (pos n) z h = cc
less-same (negsuc m) (negsuc n) z h = let e : n ≡ m = ground arith in ap (λ k. less (negsuc k) z) e

pub same-less : (x y : ℤ) → same x y ≡ true → less x y ≡ false
same-less (pos m) (pos n) h = ground arith
same-less (pos m) (negsuc n) h = cc
same-less (negsuc m) (pos n) h = cc
same-less (negsuc m) (negsuc n) h = ground arith
