-- ===== src/Base/LogStream/Capacity.antt =====
-- LogStream.h: the stream never writes past its buffer, and an item is written whole or not at all.
use arale.Prelude.{
  ℤ, pos, negsuc, ℕ, zero, suc, ◌+◌, ◌/◌, ◌≤◌, ◌≡◌, sym, ◌∙◌, Bool, true, false, List, [], ◌∷◌,
  ◌++◌, ltb, leb, ◌==◌, if◌then◌else◌, length, length-append, arith, tests, Bool-cases, ◌⊎◌, inl,
  inr, append-nil, append_assoc, subst,
}
use arale.Base.LogStream.{
  max_numeric_size, reverse_onto, digit_loop, digit_text, hex_text, convert, convert_hex, avail,
  append, Item, text, integer, pointer, format_integer, format_pointer, put, put_all,
}

length-reverse_onto : (l acc : List ℕ) → length (reverse_onto l acc) ≡ length l + length acc
length-reverse_onto [] acc = omega arith
length-reverse_onto (x ∷ l) acc = omega (arith, length-reverse_onto l (x ∷ acc))

length-digit_loop : (fuel : ℕ) (f : ℕ → ℕ) (base n : ℕ) → length (digit_loop fuel f base n) ≤ fuel
unfolding digit_loop
length-digit_loop zero f base n = omega arith
length-digit_loop (suc fuel) f base n =
    go (n / base == 0) _ (length-digit_loop fuel f base (n / base))
  where
    go : (b : Bool) (l : List ℕ) → length l ≤ fuel → suc (length (if b then [] else l)) ≤ suc fuel
    go true l h = omega arith
    go false l h = omega arith

length-convert : (v : ℤ) → length (convert v) ≤ 21
unfolding convert
length-convert (pos n) = omega (
  arith,
  length-reverse_onto (digit_loop 20 digit_text 10 n) [],
  length-digit_loop 20 digit_text 10 n,
)
length-convert (negsuc n) = omega (
  arith,
  length-reverse_onto (digit_loop 20 digit_text 10 (n + 1)) [],
  length-digit_loop 20 digit_text 10 (n + 1),
)

length-convert_hex : (n : ℕ) → length (convert_hex n) ≤ 20
unfolding convert_hex
length-convert_hex n = omega (
  arith,
  length-reverse_onto (digit_loop 20 hex_text 16 n) [],
  length-digit_loop 20 hex_text 16 n,
)

-- The text of an item.
abbrev pub print_item : Item → List ℕ
print_item (text buf) = buf
print_item (integer v) = convert v
print_item (pointer v) = 48 ∷ b'x' ∷ convert_hex v

-- Some of the items, in order, each whole.
pub data Chosen : List Item → List ℕ → Type 0 where
  none_left : Chosen [] []
  dropped : (i : Item) (is : List Item) (l : List ℕ) → Chosen is l → Chosen (i ∷ is) l
  kept :
      (i : Item) (is : List Item) (l : List ℕ) → Chosen is l → Chosen (i ∷ is) (print_item i ++ l)

-- One item is dropped, or written where it fits.
put-step :
    (size : ℕ) (i : Item) (w : List ℕ)
    → length w ≤ size
    → (put size i w ≡ w)
      ⊎ ((put size i w ≡ w ++ print_item i) × (length (w ++ print_item i) ≤ size))
unfolding append format_integer format_pointer
put-step size (text buf) w h = elim (Bool-cases (ltb (length buf) (avail size w))) [
  | inl e ↦ inr (rw e, omega (tests, e, length-append w buf))
  | inr e ↦ inl (rw e)
]
put-step size (integer v) w h = elim (Bool-cases (leb max_numeric_size (avail size w))) [
  | inl e ↦ inr (rw e, omega (tests, e, length-append w (convert v), length-convert v))
  | inr e ↦ inl (rw e)
]
put-step size (pointer v) w h = elim (Bool-cases (leb max_numeric_size (avail size w))) [
  | inl e ↦
      inr
        (rw e, omega (tests, e, length-append w (48 ∷ b'x' ∷ convert_hex v), length-convert_hex v))
  | inr e ↦ inl (rw e)
]

-- What a stream writes from a content within its buffer stays within the buffer, behind what was
-- there, and is some of the items in their order, each of them whole.
pub put_all-Chosen :
    (size : ℕ) (is : List Item) (w : List ℕ)
    → length w ≤ size
    → (l : List ℕ) × Chosen is l × (put_all size is w ≡ w ++ l) × (length (w ++ l) ≤ size)
unfolding put_all
put_all-Chosen size [] w h =
    ([], none_left, sym (append-nil w), subst (λ l. length l ≤ size) (sym (append-nil w)) h)
put_all-Chosen size (i ∷ is) w h = elim (put-step size i w h) [
  | inl e ↦ let (l, c, q, k) = put_all-Chosen size is w h in (l, dropped i is l c, rw e q, k)
  | inr (e, f) ↦
      let (l, c, q, k) = put_all-Chosen size is (w ++ print_item i) f in
      let a = append_assoc w (print_item i) l in
      (print_item i ++ l, kept i is l c, rw e (q ∙ a), subst (λ x. length x ≤ size) a k)
]
