-- ===== src/Net/Buffer/Layout.antt =====
-- Buffer.h, the layout of the vector: what a well-formed buffer is, its readable bytes, and how
-- copies in and out of the vector change them.
use arale.Prelude.{
  ℕ, ◌+◌, ◌-◌, ◌≤◌, ◌≡◌, ap, ◌∙◌, ◌≡⟨◌⟩◌, ◌∎, List, ◌++◌, ok, arith, length, take, drop, slice,
  length-append, length-take, length-drop, take-append_left, take-append_length, drop-append_left,
  drop-append_length, drop-take, take_all,
}
use arale.Net.Buffer.{
  Buffer, cheap_prepend_size, max_size, splice, copy_in, copy_out, readable_bytes, writable_bytes,
}

-- The indices are in order and inside the vector, which holds at least the reserved front.
pub record IsValid (b : Buffer) : Type 0 where
  pub read_le_write : b.read_index ≤ b.write_index
  pub write_le_size : b.write_index ≤ length b.bytes
  pub front_le_size : cheap_prepend_size ≤ length b.bytes
  pub size_le_max : length b.bytes ≤ max_size

-- The readable bytes, in order.
abbrev pub content : Buffer → List ℕ
content b = slice b.read_index b.write_index b.bytes

pub readable_lem : (b : Buffer) → IsValid b → readable_bytes b ≡ b.write_index - b.read_index
readable_lem b v = omega arith

pub writable_lem : (b : Buffer) → IsValid b → writable_bytes b ≡ length b.bytes - b.write_index
writable_lem b v = omega arith

pub length-slice : (i j : ℕ) (bs : List ℕ) → j ≤ length bs → length (slice i j bs) ≡ j - i
length-slice i j bs h = omega (arith, length-take (j - i) (drop i bs), length-drop i bs)

pub length-content : (b : Buffer) → IsValid b → length (content b) ≡ readable_bytes b
length-content b v = omega (arith, length-slice b.read_index b.write_index b.bytes)

pub length-splice :
    (d : List ℕ) (i : ℕ) (bs : List ℕ)
    → i + length d ≤ length bs
    → length (splice d i bs) ≡ length bs
length-splice d i bs h = omega (
  arith,
  length-append (take i bs) (d ++ drop (i + length d) bs),
  length-append d (drop (i + length d) bs),
  length-take i bs,
  length-drop (i + length d) bs,
)

pub copy_in_lem :
    (d : List ℕ) (i : ℕ) (bs : List ℕ)
    → i + length d ≤ length bs
    → copy_in d i bs ≡ ok (splice d i bs)
unfolding copy_in
copy_in_lem d i bs h = ground arith

pub copy_out_lem :
    (i len : ℕ) (bs : List ℕ) → i + len ≤ length bs → copy_out i len bs ≡ ok (slice i (i + len) bs)
unfolding copy_out
copy_out_lem i len bs h = ground arith

-- Bytes written behind the readable ones join them.
pub slice-splice_end :
    (d : List ℕ) (r w : ℕ) (bs : List ℕ)
    → r ≤ w
    → w ≤ length bs
    → slice r (w + length d) (splice d w bs) ≡ slice r w bs ++ d
slice-splice_end d r w bs h k =
    take (w + length d - r) (drop r (splice d w bs))
    ≡⟨ ap (take (w + length d - r))
        (drop-append_left r (take w bs) _ (omega (arith, length-take w bs))) ⟩
      take (w + length d - r) (drop r (take w bs) ++ (d ++ drop (w + length d) bs))
    ≡⟨ take-append_length (w + length d - r) (length d) (drop r (take w bs)) _
        (omega (arith, length-drop r (take w bs), length-take w bs)) ⟩
      drop r (take w bs) ++ take (length d) (d ++ drop (w + length d) bs)
    ≡⟨ (rw (
      drop-take,
      take-append_left (length d) d _ (omega arith),
      take_all (length d) d (omega arith),
    )) ⟩
      slice r w bs ++ d ∎

-- Bytes written in front of the readable ones join them too.
pub slice-splice_front :
    (d : List ℕ) (r w : ℕ) (bs : List ℕ)
    → length d ≤ r
    → r ≤ w
    → w ≤ length bs
    → slice (r - length d) w (splice d (r - length d) bs) ≡ d ++ slice r w bs
slice-splice_front d r w bs h k l =
    let e : r - length d + length d ≡ r = omega arith in
    take (w - (r - length d)) (drop (r - length d) (splice d (r - length d) bs))
    ≡⟨ ap (take (w - (r - length d))) (
        drop-append_length (r - length d) 0 (take (r - length d) bs) _
          (omega (arith, length-take (r - length d) bs))) ⟩
      take (w - (r - length d)) (d ++ drop (r - length d + length d) bs)
    ≡⟨ take-append_length (w - (r - length d)) (w - r) d _ (omega arith) ⟩
      d ++ take (w - r) (drop (r - length d + length d) bs)
    ≡⟨ (rw e) ⟩ d ++ slice r w bs ∎

-- A longer vector holds the readable bytes where they were.
pub slice-append_left :
    (r w : ℕ) (bs zs : List ℕ) → r ≤ w → w ≤ length bs → slice r w (bs ++ zs) ≡ slice r w bs
slice-append_left r w bs zs h k =
    ap (take (w - r)) (drop-append_left r bs zs (omega arith))
    ∙ take-append_left (w - r) (drop r bs) zs (omega (arith, length-drop r bs))

pub copy_out-content :
    (b : Buffer)
    → IsValid b
    → copy_out b.read_index (b.write_index - b.read_index) b.bytes ≡ ok (content b)
copy_out-content b v =
    let e : b.read_index + (b.write_index - b.read_index) ≡ b.write_index = omega arith in
    copy_out_lem b.read_index (b.write_index - b.read_index) b.bytes (omega arith)
    ∙ ap (λ k. ok (slice b.read_index k b.bytes)) e
