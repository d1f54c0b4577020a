-- ===== src/Net/Buffer/Ints.antt =====
-- Buffer.h, the integers, with the conversions of net/Endian.h: what is written is read back.
use native.Mathlib.Nat.{pow-suc}
use arale.Prelude.{
  ℕ, zero, suc, ◌+◌, ◌-◌, ◌*◌, ◌/◌, ◌%◌, ◌^◌, ◌≤◌, ◌<◌, ◌≡◌, refl, sym, ap, ◌∙◌, true, List, [],
  ◌∷◌, ◌++◌, append-nil, Outcome, ok, ◌>>=◌, leb, arith, length, take, drop, slice, length-append,
  take-take, take-append_left, take_all, drop-append_length,
}
use arale.Net.Buffer.{
  Buffer, readable_bytes, be_bytes, of_be, peek_int, read_int, append_int, prepend_int,
}
use arale.Net.Buffer.Layout.{IsValid, content, copy_out_lem, length-slice}
use arale.Net.Buffer.Space.{Fits}
use arale.Net.Buffer.Append.{append-Yields, prepend-Yields}
use arale.Net.Buffer.Retrieve.{retrieve-Yields}

pub length-be_bytes : (k x : ℕ) → length (be_bytes k x) ≡ k
unfolding be_bytes
length-be_bytes zero x = refl
length-be_bytes (suc k) x =
    omega (arith, length-append (be_bytes k (x / 256)) (x % 256 ∷ []), length-be_bytes k (x / 256))

of_be-append : (acc : ℕ) (xs : List ℕ) (b : ℕ) → of_be acc (xs ++ b ∷ []) ≡ of_be acc xs * 256 + b
unfolding of_be
of_be-append acc [] b = refl
of_be-append acc (x ∷ xs) b = of_be-append (acc * 256 + x) xs b

-- Big-endian bytes stand for the number that they were made from.
pub of_be-be_bytes : (k x : ℕ) → x < 256 ^ k → of_be 0 (be_bytes k x) ≡ x
unfolding be_bytes of_be
of_be-be_bytes zero x h = omega (arith, h)
of_be-be_bytes (suc k) x h =
    of_be-append 0 (be_bytes k (x / 256)) (x % 256)
    ∙ omega (arith, of_be-be_bytes k (x / 256) (omega (arith, pow-suc 256 k)))

-- A buffer whose first readable bytes are those of `x` gives `x`, and keeps the rest.
pub record Reads (x : ℕ) (c : List ℕ) (o : Outcome (ℕ × Buffer)) : Type 0 where
  pub rest : Buffer
  pub returns : o ≡ ok (x, rest)
  pub valid : IsValid rest
  pub holds : content rest ≡ c

pub peek_int_lem :
    (k x : ℕ) (c : List ℕ) (b : Buffer)
    → IsValid b
    → x < 256 ^ k
    → content b ≡ be_bytes k x ++ c
    → peek_int k b ≡ ok x
unfolding peek_int
peek_int_lem k x c b v h e =
    let n = length-slice b.read_index b.write_index b.bytes v.write_le_size in
    let m = length-append (be_bytes k x) c in
    let l = length-be_bytes k x in
    let le : k ≤ b.write_index - b.read_index = omega (arith, ap length e) in
    let t : leb k (readable_bytes b) ≡ true = ground arith in
    let p : b.read_index + k - b.read_index ≡ k = omega arith in
    let s : slice b.read_index (b.read_index + k) b.bytes ≡ be_bytes k x =
      ap (λ j. take j (drop b.read_index b.bytes)) p
      ∙ sym (take-take k (b.write_index - b.read_index) (drop b.read_index b.bytes) le)
      ∙ ap (take k) e
      ∙ take-append_left k (be_bytes k x) c (omega arith)
      ∙ take_all k (be_bytes k x) (omega arith) in
    rw (t, copy_out_lem b.read_index k b.bytes (omega arith), s, of_be-be_bytes k x h)

pub read_int-Reads :
    (k x : ℕ) (c : List ℕ) (b : Buffer)
    → IsValid b
    → x < 256 ^ k
    → content b ≡ be_bytes k x ++ c
    → Reads x c (read_int k b)
unfolding read_int
read_int-Reads k x c b v h e =
    let m = length-append (be_bytes k x) c in
    let y = retrieve-Yields k b v (omega (arith, ap length e, length-be_bytes k x)) in
    record {
      rest = y.result;
      returns = rw (peek_int_lem k x c b v h e, y.returns);
      valid = y.valid;
      holds =
          y.holds
          ∙ ap (drop k) e
          ∙ drop-append_length k 0 (be_bytes k x) c (omega (arith, length-be_bytes k x));
    }

-- An integer that fits its bytes, prepended to a well-formed buffer with room in front, is read
-- back, and the readable bytes are as they were.
read_int-prepend_int :
    (k x : ℕ) (b : Buffer)
    → IsValid b
    → k ≤ b.read_index
    → x < 256 ^ k
    → Reads x (content b) (prepend_int k x b >>= read_int k)
unfolding prepend_int
read_int-prepend_int k x b v h l =
    let y = prepend-Yields (be_bytes k x) b v (omega (arith, length-be_bytes k x)) in
    rw y.returns (read_int-Reads k x (content b) y.result y.valid l y.holds)

-- An integer that fits its bytes, appended to an empty well-formed buffer with room, is read back,
-- and the buffer is empty again.
read_int-append_int :
    (k x : ℕ) (b : Buffer)
    → IsValid b
    → content b ≡ []
    → Fits k b
    → x < 256 ^ k
    → Reads x [] (append_int k x b >>= read_int k)
unfolding append_int
read_int-append_int k x b v e f l =
    let y = append-Yields (be_bytes k x) b v (rw (length-be_bytes k x) f) in
    rw y.returns (
      read_int-Reads k x [] y.result y.valid l
        (y.holds ∙ ap (λ c. c ++ be_bytes k x) e ∙ sym (append-nil (be_bytes k x))))
