-- ===== src/Net/Buffer/Append.antt =====
-- Buffer.h, `append` and `prepend`: every outcome of a call, and the readable bytes after it.
use native.Mathlib.Decide.{dec_le}
use arale.Prelude.{
  ℕ, ◌+◌, ◌-◌, ◌≤◌, ◌<◌, ◌≡◌, ap, ◌∙◌, true, false, inl, inr, List, ◌++◌, Outcome, ok, assertion,
  thrown, undefined, ltb, leb, arith, length,
}
use arale.Net.Buffer.{
  Buffer, cheap_prepend_size, max_size, add_size, sub_size, splice, copy_in, resize, writable_bytes,
  move_to_front, grow, make_space, ensure_writable_bytes, append, prepend,
}
use arale.Net.Buffer.Layout.{
  IsValid, content, length-splice, copy_in_lem, slice-splice_front, length-slice, copy_out-content,
  readable_lem,
}
use arale.Net.Buffer.Space.{
  Yields, Fits, moved, write_out-Yields, written, write_out_lem, moved-IsValid, make_space-move,
  ensure_short, ensure_writable_bytes-Roomy,
}

-- `append` puts the bytes behind the readable ones whenever they fit.
pub append-Yields :
    (d : List ℕ) (b : Buffer) → IsValid b → Fits (length d) b → Yields (content b ++ d) (append d b)
unfolding append
append-Yields d b v f =
    let r = ensure_writable_bytes-Roomy (length d) b v f in
    let y = write_out-Yields d r.result r.valid r.room in
    record {
      result = y.result;
      returns = rw r.returns y.returns;
      valid = y.valid;
      holds = y.holds ∙ ap (λ c. c ++ d) r.same;
    }

-- The room in front is never less than the reserved one after an `append`.
pub append_front :
    (d : List ℕ) (b : Buffer)
    → IsValid b
    → Fits (length d) b
    → cheap_prepend_size ≤ b.read_index
    → (r : Buffer) × (append d b ≡ ok r) × (cheap_prepend_size ≤ r.read_index)
unfolding append
append_front d b v f l =
    let r = ensure_writable_bytes-Roomy (length d) b v f in
    (written d r.result, rw r.returns (write_out_lem d r.result r.valid r.room), r.front l)

-- Too few bytes free, by at most eight, and not enough to be had by moving the data.
abbrev pub Cramped : ℕ → Buffer → Type 0
Cramped len b =
    (length b.bytes < b.write_index + len)
    × (b.write_index + len ≤ length b.bytes + cheap_prepend_size)
    × (length b.bytes < cheap_prepend_size + (b.write_index - b.read_index) + len)
    × (cheap_prepend_size + (b.write_index - b.read_index) ≤ length b.bytes)

pub append-assertion :
    (d : List ℕ) (b : Buffer) → IsValid b → Cramped (length d) b → append d b ≡ assertion
unfolding append
append-assertion d b v (s, h, k, l) =
    let (w, n) = moved-IsValid b v l in
    let e = ensure_short (length d) b (moved b) v s (make_space-move (length d) b v h l) in
    let t : leb (length d) (writable_bytes (moved b)) ≡ false = ground arith in rw (e, t)

-- After `prepend`, the move would carry the data past the end of the vector.
abbrev pub Overrun : ℕ → Buffer → Type 0
Overrun len b =
    (length b.bytes < b.write_index + len)
    × (b.write_index + len ≤ length b.bytes + cheap_prepend_size)
    × (length b.bytes < cheap_prepend_size + (b.write_index - b.read_index))

append-undefined :
    (d : List ℕ) (b : Buffer) → IsValid b → Overrun (length d) b → append d b ≡ undefined
unfolding append ensure_writable_bytes make_space move_to_front copy_in
append-undefined d b v (s, h, k) =
    let t : ltb (writable_bytes b) (length d) ≡ true = ground arith in
    let e : leb (length d) (add_size (writable_bytes b) cheap_prepend_size) ≡ true = ground arith in
    let n : length (content b) ≡ b.write_index - b.read_index =
      length-slice b.read_index b.write_index b.bytes v.write_le_size in
    let c : leb (cheap_prepend_size + length (content b)) (length b.bytes) ≡ false = ground arith in
    rw (t, e, readable_lem b v, copy_out-content b v, c)

abbrev pub TooLong : ℕ → Buffer → Type 0
TooLong len b =
    (length b.bytes + cheap_prepend_size < b.write_index + len) × (max_size < b.write_index + len)

append-thrown :
    (d : List ℕ) (b : Buffer)
    → IsValid b
    → length d ≤ max_size
    → TooLong (length d) b
    → append d b ≡ thrown
unfolding append ensure_writable_bytes make_space grow resize
append-thrown d b v l (h, k) =
    let t : ltb (writable_bytes b) (length d) ≡ true = ground arith in
    let e : leb (length d) (add_size (writable_bytes b) cheap_prepend_size) ≡ false =
      ground arith in
    let r : ltb max_size (add_size b.write_index (length d)) ≡ true = ground arith in rw (t, e, r)

-- What a call of `append` can come to, and when.
pub data AppendCase (d : List ℕ) (b : Buffer) (o : Outcome Buffer) : Type 0 where
  stored : Fits (length d) b → Yields (content b ++ d) o → AppendCase d b o
  refused : Cramped (length d) b → o ≡ assertion → AppendCase d b o
  overran : Overrun (length d) b → o ≡ undefined → AppendCase d b o
  too_long : TooLong (length d) b → o ≡ thrown → AppendCase d b o

data Room (len : ℕ) (b : Buffer) : Type 0 where
  fits : Fits len b → Room len b
  cramped : Cramped len b → Room len b
  overrun : Overrun len b → Room len b
  over : TooLong len b → Room len b

Room-cases : (len : ℕ) (b : Buffer) → Room len b
Room-cases len b = elim (dec_le (b.write_index + len) (length b.bytes)) [
  | yes h ↦ fits (inl h)
  | no s ↦ elim (dec_le (b.write_index + len) (length b.bytes + cheap_prepend_size)) [
    | no h ↦ elim (dec_le (b.write_index + len) max_size) [
      | yes k ↦ fits (inr (inl (omega arith, k)))
      | no k ↦ over (omega arith)
    ]
    | yes h ↦ elim (dec_le (front b) (length b.bytes)) [
      | no k ↦ overrun (omega arith)
      | yes k ↦ elim (dec_le (front b + len) (length b.bytes)) [
        | yes f ↦ fits (inr (inr (omega arith, h, f)))
        | no f ↦ cramped (omega arith)
      ]
    ]
  ]
]
  where
    front : Buffer → ℕ
    front b = cheap_prepend_size + (b.write_index - b.read_index)

-- On a well-formed buffer and a byte sequence within the largest vector size, append stores the
-- bytes behind the readable ones when they fit, and otherwise ends in a failed assertion (at most
-- eight bytes too few), undefined behaviour (moving the data would pass the end) or an exception
-- (the vector would be too long), each under its stated condition.
pub append_cases :
    (d : List ℕ) (b : Buffer) → IsValid b → length d ≤ max_size → AppendCase d b (append d b)
append_cases d b v l = elim (Room-cases (length d) b) [
  | fits f ↦ stored f (append-Yields d b v f)
  | cramped c ↦ refused c (append-assertion d b v c)
  | overrun c ↦ overran c (append-undefined d b v c)
  | over c ↦ too_long c (append-thrown d b v l c)
]

pub prepend_lem :
    (d : List ℕ) (b : Buffer)
    → IsValid b
    → length d ≤ b.read_index
    → prepend d b
      ≡ ok (record {
        bytes = splice d (b.read_index - length d) b.bytes;
        read_index = b.read_index - length d;
        write_index = b.write_index;
      })
unfolding prepend
prepend_lem d b v h =
    let t : leb (length d) b.read_index ≡ true = ground arith in
    let e : sub_size b.read_index (length d) ≡ b.read_index - length d = omega arith in
    rw (t, e, copy_in_lem d (b.read_index - length d) b.bytes (omega arith))

-- `prepend` puts the bytes before the readable ones, up to the room in front.
pub prepend-Yields :
    (d : List ℕ) (b : Buffer)
    → IsValid b
    → length d ≤ b.read_index
    → Yields (d ++ content b) (prepend d b)
prepend-Yields d b v h = record {
  result = _;
  returns = prepend_lem d b v h;
  valid = omega (arith, length-splice d (b.read_index - length d) b.bytes (omega arith));
  holds = slice-splice_front d b.read_index b.write_index b.bytes h v.read_le_write v.write_le_size;
}
