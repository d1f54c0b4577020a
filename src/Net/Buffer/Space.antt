-- ===== src/Net/Buffer/Space.antt =====
-- Buffer.h, the space for writing: when `makeSpace` and
-- `ensureWritableBytes` find room, and what they leave.
use arale.Prelude.{
  ℕ, ◌+◌, ◌-◌, ◌≤◌, ◌<◌, ◌≡◌, refl, sym, ap, ◌∙◌, ◌⊎◌, true, false, inl, inr, List, ◌++◌, Outcome,
  ok, ◌>>◌, assert, ltb, leb, arith, length, slice, replicate, length-append, length-replicate,
  take_all,
}
use arale.Net.Buffer.{
  Buffer, cheap_prepend_size, max_size, add_size, splice, resize, writable_bytes, has_written,
  move_to_front, grow, make_space, ensure_writable_bytes, write_out,
}
use arale.Net.Buffer.Layout.{
  IsValid, content, length-splice, copy_in_lem, slice-splice_end, slice-append_left, length-slice,
  copy_out-content, readable_lem,
}

-- `o` returns a well-formed buffer whose readable bytes are `c`.
pub record Yields (c : List ℕ) (o : Outcome Buffer) : Type 0 where
  pub result : Buffer
  pub returns : o ≡ ok result
  pub valid : IsValid result
  pub holds : content result ≡ c

has_written_lem :
    (len : ℕ) (b : Buffer)
    → b.write_index + len ≤ length b.bytes
    → length b.bytes ≤ max_size
    → has_written len b ≡ ok (record b { write_index = b.write_index + len })
unfolding has_written
has_written_lem len b h k = ground arith

abbrev pub written : List ℕ → Buffer → Buffer
written d b = record {
  bytes = splice d b.write_index b.bytes;
  read_index = b.read_index;
  write_index = b.write_index + length d;
}

pub write_out_lem :
    (d : List ℕ) (b : Buffer)
    → IsValid b
    → b.write_index + length d ≤ length b.bytes
    → write_out d b ≡ ok (written d b)
unfolding write_out
write_out_lem d b v h =
    let e = length-splice d b.write_index b.bytes h in
    rw (copy_in_lem d b.write_index b.bytes h) (
      has_written_lem (length d) (record b { bytes = splice d b.write_index b.bytes }) (omega arith)
        (omega arith))

pub write_out-Yields :
    (d : List ℕ) (b : Buffer)
    → IsValid b
    → b.write_index + length d ≤ length b.bytes
    → Yields (content b ++ d) (write_out d b)
write_out-Yields d b v h =
    let e = length-splice d b.write_index b.bytes h in
    record {
      result = written d b;
      returns = write_out_lem d b v h;
      valid = omega arith;
      holds = slice-splice_end d b.read_index b.write_index b.bytes v.read_le_write v.write_le_size;
    }

-- The readable bytes of `b` from the reserved front on.
abbrev pub moved : Buffer → Buffer
moved b = record {
  bytes = splice (content b) cheap_prepend_size b.bytes;
  read_index = cheap_prepend_size;
  write_index = cheap_prepend_size + (b.write_index - b.read_index);
}

abbrev pub grown : ℕ → Buffer → Buffer
grown len b = record b { bytes = b.bytes ++ replicate (b.write_index + len - length b.bytes) 0 }

module _ (b : Buffer) (v : IsValid b) where
  pub move_to_front_lem :
      cheap_prepend_size + (b.write_index - b.read_index) ≤ length b.bytes
      → move_to_front b ≡ ok (moved b)
  unfolding move_to_front
  move_to_front_lem h =
      let n : length (content b) ≡ b.write_index - b.read_index =
        length-slice b.read_index b.write_index b.bytes v.write_le_size in
      let w : add_size cheap_prepend_size (b.write_index - b.read_index)
          ≡ cheap_prepend_size + (b.write_index - b.read_index) =
        omega arith in
      rw
        (
          readable_lem b v,
          copy_out-content b v,
          copy_in_lem (content b) cheap_prepend_size b.bytes (omega arith),
          w,
        )
        refl

  pub content-moved :
      cheap_prepend_size + (b.write_index - b.read_index) ≤ length b.bytes
      → content (moved b) ≡ content b
  content-moved h =
      let n : length (content b) ≡ b.write_index - b.read_index =
        length-slice b.read_index b.write_index b.bytes v.write_le_size in
      ap (λ k. slice cheap_prepend_size (cheap_prepend_size + k) (moved b).bytes) (sym n)
      ∙ slice-splice_end (content b) cheap_prepend_size cheap_prepend_size b.bytes (omega arith)
          v.front_le_size

  pub grow_lem :
      (len : ℕ)
      → length b.bytes ≤ b.write_index + len
      → b.write_index + len ≤ max_size
      → grow len b ≡ ok (grown len b)
  unfolding grow resize
  grow_lem len h k =
      let w : add_size b.write_index len ≡ b.write_index + len = omega arith in
      rw w (ground (arith, take_all (b.write_index + len) b.bytes))

  pub content-grown : (len : ℕ) → content (grown len b) ≡ content b
  content-grown len =
      slice-append_left b.read_index b.write_index b.bytes _ v.read_le_write v.write_le_size

-- There is room for `len` more bytes: behind the data already, or in a longer vector, which
-- `makeSpace` takes only for more than eight bytes over, or after moving the data to the front.
abbrev pub Fits : ℕ → Buffer → Type 0
Fits len b =
    (b.write_index + len ≤ length b.bytes)
    ⊎ ((length b.bytes + cheap_prepend_size < b.write_index + len)
        × (b.write_index + len ≤ max_size))
    ⊎ ((length b.bytes < b.write_index + len)
        × (b.write_index + len ≤ length b.bytes + cheap_prepend_size)
        × (cheap_prepend_size + (b.write_index - b.read_index) + len ≤ length b.bytes))

-- A well-formed buffer with the readable bytes of `b` and `len` bytes behind them.
pub record Roomy (len : ℕ) (b : Buffer) (o : Outcome Buffer) : Type 0 where
  pub result : Buffer
  pub returns : o ≡ ok result
  pub valid : IsValid result
  pub same : content result ≡ content b
  pub room : result.write_index + len ≤ length result.bytes
  pub front : cheap_prepend_size ≤ b.read_index → cheap_prepend_size ≤ result.read_index

assert_room :
    (len : ℕ) (b : Buffer)
    → IsValid b
    → b.write_index + len ≤ length b.bytes
    → (do assert (leb len (writable_bytes b)); ok b) ≡ ok b
assert_room len b v h = ground arith

pub make_space-grow :
    (len : ℕ) (b : Buffer)
    → IsValid b
    → length b.bytes + cheap_prepend_size < b.write_index + len
    → b.write_index + len ≤ max_size
    → make_space len b ≡ ok (grown len b)
unfolding make_space
make_space-grow len b v h k =
    let e : leb len (add_size (writable_bytes b) cheap_prepend_size) ≡ false = ground arith in
    rw e (grow_lem b v len (omega arith) k)

pub make_space-move :
    (len : ℕ) (b : Buffer)
    → IsValid b
    → b.write_index + len ≤ length b.bytes + cheap_prepend_size
    → cheap_prepend_size + (b.write_index - b.read_index) ≤ length b.bytes
    → make_space len b ≡ ok (moved b)
unfolding make_space
make_space-move len b v h k =
    let e : leb len (add_size (writable_bytes b) cheap_prepend_size) ≡ true = ground arith in
    rw e (move_to_front_lem b v k)

-- Where the free bytes are too few, `ensureWritableBytes` is `makeSpace` and its last assertion.
pub ensure_short :
    (len : ℕ) (b b' : Buffer)
    → IsValid b
    → length b.bytes < b.write_index + len
    → make_space len b ≡ ok b'
    → ensure_writable_bytes len b ≡ (do assert (leb len (writable_bytes b')); ok b')
unfolding ensure_writable_bytes
ensure_short len b b' v h e = let t : ltb (writable_bytes b) len ≡ true = ground arith in rw (t, e)

grown-IsValid :
    (len : ℕ) (b : Buffer)
    → IsValid b
    → length b.bytes ≤ b.write_index + len
    → b.write_index + len ≤ max_size
    → IsValid (grown len b) × (length (grown len b).bytes ≡ b.write_index + len)
grown-IsValid len b v h k = ground (
  arith,
  length-append b.bytes (replicate (b.write_index + len - length b.bytes) 0),
  length-replicate {A = ℕ} (b.write_index + len - length b.bytes) 0,
)

pub moved-IsValid :
    (b : Buffer)
    → IsValid b
    → cheap_prepend_size + (b.write_index - b.read_index) ≤ length b.bytes
    → IsValid (moved b) × (length (moved b).bytes ≡ length b.bytes)
moved-IsValid b v h =
    let n : length (content b) ≡ b.write_index - b.read_index =
      length-slice b.read_index b.write_index b.bytes v.write_le_size in
    omega (arith, length-splice (content b) cheap_prepend_size b.bytes (omega arith))

pub ensure_writable_bytes-Roomy :
    (len : ℕ) (b : Buffer) → IsValid b → Fits len b → Roomy len b (ensure_writable_bytes len b)
unfolding ensure_writable_bytes
ensure_writable_bytes-Roomy len b v (inl h) = record {
  result = b;
  returns = ground arith;
  valid = v;
  same = refl;
  room = h;
  front = λ l. l;
}
ensure_writable_bytes-Roomy len b v (inr (inl (h, k))) =
    let (w, n) = grown-IsValid len b v (omega arith) k in
    record {
      result = grown len b;
      returns =
          ensure_short len b (grown len b) v (omega arith) (make_space-grow len b v h k)
          ∙ assert_room len (grown len b) w (omega arith);
      valid = w;
      same = content-grown b v len;
      room = omega arith;
      front = λ l. omega arith;
    }
ensure_writable_bytes-Roomy len b v (inr (inr (s, h, k))) =
    let (w, n) = moved-IsValid b v (omega arith) in
    record {
      result = moved b;
      returns =
          ensure_short len b (moved b) v s (make_space-move len b v h (omega arith))
          ∙ assert_room len (moved b) w (omega arith);
      valid = w;
      same = content-moved b v (omega arith);
      room = omega arith;
      front = λ l. omega arith;
    }
