-- ===== src/Base/LogStream.antt =====
-- arale/base/LogStream.h and LogStream.cc: the fixed buffer of a stream, and the text of integers.
-- The state of the buffer is what has been written to it, from `data_` up to `cur_`.
pub mod Integers
pub mod Capacity
use arale.Prelude.{
  ℤ, pos, negsuc, ℕ, zero, suc, ◌+◌, ◌-◌, ◌/◌, ◌%◌, Bool, true, false, List, [], ◌∷◌, ◌++◌, ltb,
  leb, ◌==◌, if◌then◌else◌, length,
}

abbrev pub small_buffer : ℕ
small_buffer = 4000

abbrev pub max_numeric_size : ℕ
max_numeric_size = 32

-- `std::reverse`.
abbrev pub reverse_onto : List ℕ → List ℕ → List ℕ
reverse_onto [] acc = acc
reverse_onto (x ∷ xs) acc = reverse_onto xs (x ∷ acc)

-- The loop of `convert` and of `convertHex` on the absolute value, `f` for the digits. A
-- 64-bit number needs 20 rounds at most.
unfoldable pub digit_loop : ℕ → (ℕ → ℕ) → ℕ → ℕ → List ℕ
digit_loop zero f base i = []
digit_loop (suc fuel) f base i =
    let rest = digit_loop fuel f base (i / base) in
    f (i % base) ∷ (if i / base == 0 then [] else rest)

-- `zero[lsd]`, where a negative `lsd` finds the same digits on the other side.
abbrev pub digit_text : ℕ → ℕ
digit_text d = 48 + d

-- `digitsHex[lsd]`.
abbrev pub hex_text : ℕ → ℕ
hex_text d = if ltb d 10 then 48 + d else 55 + d

unfoldable pub convert : ℤ → List ℕ
unfolding digit_loop
convert (pos n) = reverse_onto (digit_loop 20 digit_text 10 n) []
convert (negsuc n) = b'-' ∷ reverse_onto (digit_loop 20 digit_text 10 (n + 1)) []

unfoldable pub convert_hex : ℕ → List ℕ
unfolding digit_loop
convert_hex n = reverse_onto (digit_loop 20 hex_text 16 n) []

-- `avail()` of a buffer of `size` bytes.
abbrev pub avail : ℕ → List ℕ → ℕ
avail size written = size - length written

unfoldable pub append : ℕ → List ℕ → List ℕ → List ℕ
append size buf written = if ltb (length buf) (avail size written) then written ++ buf else written

-- What `operator<<` writes: a text (a character, a string, or "(null)" for a
-- null pointer to one), an integer or a pointer.
pub data Item : Type 0 where
  text : List ℕ → Item
  integer : ℤ → Item
  pointer : ℕ → Item

unfoldable pub format_integer : ℕ → ℤ → List ℕ → List ℕ
unfolding convert
format_integer size v written =
    if leb max_numeric_size (avail size written) then written ++ convert v else written

unfoldable pub format_pointer : ℕ → ℕ → List ℕ → List ℕ
unfolding convert_hex
format_pointer size v written =
    if leb max_numeric_size (avail size written)
    then written ++ (48 ∷ b'x' ∷ convert_hex v)
    else written

abbrev pub put : ℕ → Item → List ℕ → List ℕ
put size (text buf) written = append size buf written
put size (integer v) written = format_integer size v written
put size (pointer v) written = format_pointer size v written

unfoldable pub put_all : ℕ → List Item → List ℕ → List ℕ
unfolding append format_integer format_pointer
put_all size [] written = written
put_all size (i ∷ is) written = put_all size is (put size i written)
