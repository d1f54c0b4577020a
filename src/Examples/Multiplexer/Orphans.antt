-- ===== src/Examples/Multiplexer/Orphans.antt =====
-- Multiplexer.cc, `sendBackendBuffer` while there is no backend.
use arale.Prelude.{
  ℕ, zero, suc, ◌+◌, ◌-◌, ◌≡◌, ◌≤◌, ◌<◌, refl, ◌∙◌, Bool, true, false, List, [], Outcome, ok,
  assertion, ◌>>=◌, ltb, leb, length, arith,
}
use arale.Net.Buffer.{Buffer, prepend, readable_bytes, splice}
use arale.Net.Buffer.Layout.{IsValid, length-splice}
use arale.Net.Buffer.Append.{prepend_lem}
use arale.Examples.Multiplexer.{
  header, header_len, max_packet_len, Effect, send_backend_packet, send_rounds, send_backend_buffer,
}

send_rounds_last :
    (n : ℕ) (backend : Bool) (id : ℕ) (b : Buffer)
    → 0 < readable_bytes b
    → readable_bytes b ≤ max_packet_len
    → send_rounds n backend id b ≡ send_backend_packet backend id b
unfolding send_rounds
send_rounds_last zero backend id b k l =
    let t : ltb 0 (readable_bytes b) ≡ true = ground arith in rw (send_rounds, t) refl
send_rounds_last (suc n) backend id b k l =
    let t : ltb 0 (readable_bytes b) ≡ true = ground arith in
    let u : ltb max_packet_len (readable_bytes b) ≡ false = ground arith in
    rw (send_rounds, u, t) refl

abbrev framed : ℕ → Buffer → Buffer
framed id b = record {
  bytes = splice (header id (readable_bytes b)) (b.read_index - header_len) b.bytes;
  read_index = b.read_index - header_len;
  write_index = b.write_index;
}

-- Without a backend a packet's header stays in the buffer.
keep_header :
    (id : ℕ) (b : Buffer)
    → IsValid b
    → header_len ≤ b.read_index
    → 0 < readable_bytes b
    → readable_bytes b ≤ max_packet_len
    → (r : Buffer) × (send_backend_buffer false id b ≡ ok (r, []))
      × IsValid r
      × (r.read_index ≡ b.read_index - header_len)
      × (readable_bytes r ≡ header_len + readable_bytes b)
unfolding send_backend_packet
keep_header id b v h k l =
    let d = header id (readable_bytes b) in
    let e = length-splice d (b.read_index - length d) b.bytes (omega arith) in
    (
      framed id b,
      send_rounds_last (readable_bytes b) false id b k l ∙ rw (prepend_lem d b v h) refl,
      omega (arith, e),
      refl,
      omega arith,
    )

refused :
    (id : ℕ) (b : Buffer)
    → b.read_index < header_len
    → 0 < readable_bytes b
    → readable_bytes b ≤ max_packet_len
    → send_backend_buffer false id b ≡ assertion
unfolding send_backend_packet prepend
refused id b h k l =
    let t : leb header_len b.read_index ≡ false = ground arith in
    send_rounds_last (readable_bytes b) false id b k l ∙ rw t refl

-- Three calls for one buffer.
pub send_three : ℕ → Buffer → Outcome (Buffer × List Effect)
send_three id b = do
  (c, es) ← send_backend_buffer false id b
  (d, fs) ← send_backend_buffer false id c
  send_backend_buffer false id d

-- While there is no backend, the third call of sendBackendBuffer for a buffer of 1 to 247 bytes
-- with eight bytes of room in front fails an assertion.
send_three-assertion :
    (id : ℕ) (b : Buffer)
    → IsValid b
    → b.read_index ≡ 8
    → 0 < readable_bytes b
    → readable_bytes b ≤ 247
    → send_three id b ≡ assertion
unfolding send_three
send_three-assertion id b v e k l =
    let (c, p, u, f, g) = keep_header id b v (omega arith) k (omega arith) in
    let (d, q, w, i, j) = keep_header id c u (omega arith) (omega arith) (omega arith) in
    rw p (rw q (refused id d (omega arith) (omega arith) (omega arith)))
