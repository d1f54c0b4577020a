-- ===== src/Base/LogStream/Integers.antt =====
-- LogStream.cc, `convert`: the text of an integer is read back as the integer.
use arale.Prelude.{
  ℤ, pos, negsuc, ℕ, zero, suc, ◌+◌, ◌-◌, ◌*◌, ◌/◌, ◌<◌, ◌≤◌, ◌≡◌, refl, ap, ◌∙◌, Bool, true, false,
  List, [], ◌∷◌, ◌==◌, if◌then◌else◌, arith, Bool-cases, inl, inr,
}
use arale.Base.LogStream.{reverse_onto, digit_loop, digit_text, convert}

-- The number that a text of decimal digits names, the first digit first.
abbrev pub read_digits : ℕ → List ℕ → ℕ
read_digits acc [] = acc
read_digits acc (d ∷ ds) = read_digits (acc * 10 + (d - 48)) ds

abbrev pub int_neg : ℕ → ℤ
int_neg n = if n == 0 then pos 0 else negsuc (n - 1)

abbrev pub read_int : List ℕ → ℤ
read_int [] = pos 0
read_int (d ∷ ds) = if d == b'-' then int_neg (read_digits 0 ds) else pos (read_digits 0 (d ∷ ds))

-- The number of the digits with the last first.
abbrev value : List ℕ → ℕ
value [] = 0
value (d ∷ ds) = (d - 48) + 10 * value ds

read_digits-reverse_onto :
    (ds acc : List ℕ) → read_digits 0 (reverse_onto ds acc) ≡ read_digits (value ds) acc
read_digits-reverse_onto [] acc = refl
read_digits-reverse_onto (d ∷ ds) acc =
    read_digits-reverse_onto ds (d ∷ acc) ∙ ap (λ n. read_digits n acc) (omega arith)

abbrev pub ten_to : ℕ → ℕ
ten_to zero = 1
ten_to (suc k) = 10 * ten_to k

value-digit_loop : (fuel n : ℕ) → n < ten_to fuel → value (digit_loop fuel digit_text 10 n) ≡ n
unfolding digit_loop
value-digit_loop zero n h = omega arith
value-digit_loop (suc fuel) n h =
    let i = value-digit_loop fuel (n / 10) (omega arith) in
    elim (Bool-cases (n / 10 == 0)) [
      | inl e ↦ rw e (ground arith)
      | inr e ↦ rw (e, i) (omega arith)
    ]

abbrev AllDigits : List ℕ → Type 0
AllDigits [] = Unit
AllDigits (d ∷ ds) = ((48 ≤ d) × (d < 58)) × AllDigits ds

read_int-digits : (l : List ℕ) → AllDigits l → read_int l ≡ pos (read_digits 0 l)
read_int-digits [] a = refl
read_int-digits (d ∷ ds) ((h, k), a) = let e : (d == b'-') ≡ false = ground arith in rw e

AllDigits-reverse_onto :
    (l acc : List ℕ) → AllDigits l → AllDigits acc → AllDigits (reverse_onto l acc)
AllDigits-reverse_onto [] acc a b = b
AllDigits-reverse_onto (d ∷ ds) acc (h, a) b = AllDigits-reverse_onto ds (d ∷ acc) a (h, b)

AllDigits-digit_loop : (fuel n : ℕ) → AllDigits (digit_loop fuel digit_text 10 n)
unfolding digit_loop
AllDigits-digit_loop zero n = tt
AllDigits-digit_loop (suc fuel) n =
    (omega arith, go (n / 10 == 0) _ (AllDigits-digit_loop fuel (n / 10)))
  where
    go : (b : Bool) (l : List ℕ) → AllDigits l → AllDigits (if b then [] else l)
    go true l a = tt
    go false l a = a

read_digits-loop :
    (n : ℕ) → n < ten_to 20 → read_digits 0 (reverse_onto (digit_loop 20 digit_text 10 n) []) ≡ n
read_digits-loop n h =
    read_digits-reverse_onto (digit_loop 20 digit_text 10 n) [] ∙ value-digit_loop 20 n h

-- Integers whose absolute value has at most 20 digits, which all 64-bit ones have, signed or not.
abbrev pub IsSmall : ℤ → Type 0
IsSmall (pos n) = n < ten_to 20
IsSmall (negsuc n) = n + 1 < ten_to 20

-- The text that convert writes of an integer of at most 20 digits, which all 64-bit ones are, is
-- read back as the integer.
pub read_int-convert : (v : ℤ) → IsSmall v → read_int (convert v) ≡ v
unfolding convert
read_int-convert (pos n) h =
    read_int-digits _
      (AllDigits-reverse_onto (digit_loop 20 digit_text 10 n) [] (AllDigits-digit_loop 20 n) tt)
    ∙ ap pos (read_digits-loop n h)
read_int-convert (negsuc n) h = rw (read_digits-loop (n + 1) h) (ground arith)
