-- ===== src/Net/Buffer/ReadFd.antt =====
-- Buffer.cc: `readFd` takes what `readv` delivers over the free bytes and the extra array.
use arale.Prelude.{
  ℕ, ◌+◌, ◌-◌, ◌≤◌, ◌<◌, ◌≡◌, ap, ◌∙◌, ◌⊎◌, inl, inr, true, false, List, ◌++◌, append_assoc,
  assertion, leb, arith, length, take, drop, slice, length-take, length-drop, take-append-drop,
}
use arale.Net.Buffer.{
  Buffer, cheap_prepend_size, max_size, splice, writable_bytes, append, received, read_fd,
}
use arale.Net.Buffer.Layout.{
  IsValid, content, copy_in_lem, length-splice, slice-splice_end, writable_lem,
}
use arale.Net.Buffer.Space.{Yields, Fits, write_out-Yields}
use arale.Net.Buffer.Append.{append-Yields, append-assertion}

-- Bytes that the free space cannot hold, and the buffer with that space filled.
abbrev pub excess : List ℕ → Buffer → List ℕ
excess d b = drop (length b.bytes - b.write_index) d

abbrev pub filled : List ℕ → Buffer → Buffer
filled d b = record {
  bytes = splice (take (length b.bytes - b.write_index) d) b.write_index b.bytes;
  read_index = b.read_index;
  write_index = length (splice (take (length b.bytes - b.write_index) d) b.write_index b.bytes);
}

module _ (d : List ℕ) (b : Buffer) (v : IsValid b)
    (more : length b.bytes < b.write_index + length d) where
  length-head : length (take (length b.bytes - b.write_index) d) ≡ length b.bytes - b.write_index
  length-head = omega (arith, length-take (length b.bytes - b.write_index) d)

  length-filled : length (filled d b).bytes ≡ length b.bytes
  length-filled =
      let n = length-head in
      length-splice (take (length b.bytes - b.write_index) d) b.write_index b.bytes (omega arith)

  pub filled-IsValid : IsValid (filled d b)
  filled-IsValid = let n = length-filled in omega arith

  pub content-filled : content (filled d b) ++ excess d b ≡ content b ++ d
  content-filled =
      let n = length-head in
      let e : length (filled d b).bytes
          ≡ b.write_index + length (take (length b.bytes - b.write_index) d) =
        omega (arith, length-filled) in
      ap (λ k. slice b.read_index k (filled d b).bytes ++ excess d b) e
      ∙ ap (λ c. c ++ excess d b)
          (slice-splice_end (take (length b.bytes - b.write_index) d) b.read_index b.write_index
            b.bytes v.read_le_write v.write_le_size)
      ∙ append_assoc (content b) _ (excess d b)
      ∙ ap (λ c. content b ++ c) (take-append-drop (length b.bytes - b.write_index) d)

  pub read_fd_more : read_fd (received d) b ≡ append (excess d b) (filled d b)
  unfolding read_fd
  read_fd_more =
      let n = length-head in
      let t : leb (length d) (writable_bytes b) ≡ false = ground arith in
      rw (
        t,
        writable_lem b v,
        copy_in_lem (take (length b.bytes - b.write_index) d) b.write_index b.bytes (omega arith),
      )

  pub length-excess : length (excess d b) + length b.bytes ≡ b.write_index + length d
  length-excess = omega (arith, length-drop (length b.bytes - b.write_index) d)

  read_fd_more-Yields :
      Fits (length (excess d b)) (filled d b) → Yields (content b ++ d) (read_fd (received d) b)
  read_fd_more-Yields f =
      let y = append-Yields (excess d b) (filled d b) filled-IsValid f in
      record {
        result = y.result;
        returns = read_fd_more ∙ y.returns;
        valid = y.valid;
        holds = y.holds ∙ content-filled;
      }

-- The delivery fits: in the free bytes, or by growing, or in front once the data is moved.
abbrev pub Delivers : ℕ → Buffer → Type 0
Delivers n b =
    (b.write_index + n ≤ length b.bytes)
    ⊎ ((length b.bytes + cheap_prepend_size < b.write_index + n) × (b.write_index + n ≤ max_size))
    ⊎ ((length b.bytes < b.write_index + n)
        × (b.write_index + n ≤ length b.bytes + cheap_prepend_size)
        × (cheap_prepend_size + b.write_index + n ≤ b.read_index + length b.bytes))

-- readFd puts all bytes that readv delivers behind the readable ones of a well-formed buffer
-- whenever they fit the free bytes, make the vector grow, or fit after moving the data to the
-- front.
pub read_fd-Yields :
    (d : List ℕ) (b : Buffer)
    → IsValid b
    → Delivers (length d) b
    → Yields (content b ++ d) (read_fd (received d) b)
unfolding read_fd
read_fd-Yields d b v (inl h) =
    let t : leb (length d) (writable_bytes b) ≡ true = ground arith in
    rw t (write_out-Yields d b v h)
read_fd-Yields d b v (inr (inl (h, k))) =
    let n = length-filled d b v (omega arith) in
    let m = length-excess d b v (omega arith) in
    read_fd_more-Yields d b v (omega arith) (inr (inl (omega arith, omega arith)))
read_fd-Yields d b v (inr (inr (s, h, k))) =
    let n = length-filled d b v s in
    let m = length-excess d b v s in
    read_fd_more-Yields d b v s (inr (inr (omega arith, omega arith, omega arith)))

-- A delivery that passes the free bytes by one to eight, and by more than has been read off the
-- front, fails an assertion in readFd.
read_fd-assertion :
    (d : List ℕ) (b : Buffer)
    → IsValid b
    → cheap_prepend_size ≤ b.read_index
    → length b.bytes < b.write_index + length d
    → b.write_index + length d ≤ length b.bytes + cheap_prepend_size
    → b.read_index + length b.bytes < cheap_prepend_size + b.write_index + length d
    → read_fd (received d) b ≡ assertion
read_fd-assertion d b v l h k m =
    let n = length-filled d b v h in
    let e = length-excess d b v h in
    read_fd_more d b v h
    ∙ append-assertion (excess d b) (filled d b) (filled-IsValid d b v h)
        (omega arith, omega arith, omega arith, omega arith)
