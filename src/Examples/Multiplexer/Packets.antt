-- ===== src/Examples/Multiplexer/Packets.antt =====
-- Multiplexer.cc, `onBackendMessage`: packets in the buffer, and the bytes that the clients get.
use arale.Prelude.{
  ℕ, zero, suc, ◌+◌, ◌-◌, ◌*◌, ◌/◌, ◌%◌, ◌^◌, ◌≡◌, ◌≤◌, ◌<◌, refl, sym, ap, ◌∙◌, true, false, List,
  [], ◌∷◌, ◌++◌, map, some, ok, ltb, length, take, drop, arith, length-append, take_all, take-take,
  drop-take, drop-drop, take-append_left, drop-append_length,
}
use arale.Net.Buffer.{Buffer, copy_out, readable_bytes, add_size}
use arale.Net.Buffer.Layout.{IsValid, content, copy_out_lem, length-content}
use arale.Net.Buffer.Retrieve.{retrieve-Yields}
use arale.Net.Http.Text.{Bytes}
use arale.Examples.Multiplexer.{header_len, header, Server, to_client, find_client}
use arale.Examples.Multiplexer.Backend.{
  head, peek_at, to_found, on_packet, Session, finished, starved, whole_packet, on_backend_message,
}

-- A packet, and several.
abbrev pub packet : ℕ → Bytes → Bytes
packet id d = header id (length d) ++ d

abbrev pub packets : ℕ → List Bytes → Bytes
packets id [] = []
packets id (d ∷ ds) = packet id d ++ packets id ds

-- The lengths that the header's byte can hold, from 1 to `n`.
abbrev pub AreWithin : ℕ → List Bytes → Type 0
AreWithin n [] = Unit
AreWithin n (d ∷ ds) = (0 < length d) × (length d ≤ n) × AreWithin n ds

head-take : (m x : ℕ) (xs ys : List ℕ) → take m ys ≡ x ∷ xs → head ys ≡ ok x
head-take zero x xs ys e = cc
head-take (suc m) x xs [] e = cc
head-take (suc m) x xs (y ∷ ys) e = cc

-- Reading inside the readable bytes.
pub peek_at-content :
    (b : Buffer) (k x : ℕ) (xs : List ℕ) → drop k (content b) ≡ x ∷ xs → peek_at k b ≡ ok x
unfolding peek_at
peek_at-content b k x xs e =
    head-take (b.write_index - b.read_index - k) x xs (drop (b.read_index + k) b.bytes) (
      ap (take (b.write_index - b.read_index - k)) (sym (drop-drop k b.read_index b.bytes))
      ∙ sym (drop-take k (b.write_index - b.read_index) (drop b.read_index b.bytes))
      ∙ e)

pub copy_out-inside :
    (b : Buffer) (k len : ℕ)
    → IsValid b
    → k + len ≤ length (content b)
    → copy_out (b.read_index + k) len b.bytes ≡ ok (take len (drop k (content b)))
copy_out-inside b k len v h =
    let n = length-content b v in
    let i = b.read_index + k in
    let e : i + len - i ≡ len = omega arith in
    copy_out_lem i len b.bytes (omega arith)
    ∙ ap ok (
        ap (λ m. take m (drop i b.bytes)) e
        ∙ sym (take-take len (b.write_index - b.read_index - k) (drop i b.bytes) (omega arith))
        ∙ ap (λ l. take len (take (b.write_index - b.read_index - k) l))
            (sym (drop-drop k b.read_index b.bytes))
        ∙ ap (take len)
            (sym (drop-take k (b.write_index - b.read_index) (drop b.read_index b.bytes))))

packet_lem : (id : ℕ) (d : Bytes) → id < 128 → length d < 128 → packet id d ≡ length d ∷ id ∷ 0 ∷ d
packet_lem id d h k =
    let e : length d % 2 ^ 8 ≡ length d = omega arith in
    let f : id % 2 ^ 8 ≡ id = omega arith in
    let g : id / 2 ^ 8 % 2 ^ 8 ≡ 0 = omega arith in rw (e, f, g) refl

-- One packet at the front of the readable bytes.
module _ (id conn : ℕ) (d more : Bytes) (b : Buffer) (s : Server) (v : IsValid b)
    (known : find_client (suc id) s.clients ≡ some conn) (small : suc id < 128)
    (some_bytes : 0 < length d) (few_bytes : length d < 128)
    (holds : content b ≡ length d ∷ suc id ∷ 0 ∷ d ++ more) where
  size : readable_bytes b ≡ 3 + (length d + length more)
  size =
      let h : length (content b) ≡ suc (suc (suc (length (d ++ more)))) = ap length holds in
      omega (arith, length-content b v, h, length-append d more)

  pub whole_packet_lem : whole_packet b ≡ ok (some (length d))
  unfolding whole_packet
  whole_packet_lem =
      let p = peek_at-content b 0 (length d) (suc id ∷ 0 ∷ d ++ more) holds in
      let q : ltb header_len (readable_bytes b) ≡ true = ground (arith, size) in
      let c : ltb (length d) 128 ≡ true = ground arith in
      let r : ltb (readable_bytes b) (add_size (length d) header_len) ≡ false =
        ground (arith, size) in
      rw (whole_packet, q, p) (rw c (rw r refl))

  sent : copy_out (b.read_index + header_len) (length d) b.bytes ≡ ok d
  sent =
      copy_out-inside b header_len (length d) v (omega (arith, size, length-content b v))
      ∙ ap ok (
          ap (λ c. take (length d) (drop 3 c)) holds
          ∙ take-append_left (length d) d more (omega arith)
          ∙ take_all (length d) d (omega arith))

  pub on_packet_lem :
      (r : Buffer) × (on_packet (length d) b s ≡ ok (r, to_client conn d ∷ []))
      × IsValid r
      × (content r ≡ more)
  unfolding on_packet to_found
  on_packet_lem =
      let lo = peek_at-content b 1 (suc id) (0 ∷ d ++ more) (ap (drop 1) holds) in
      let hi = peek_at-content b 2 0 (d ++ more) (ap (drop 2) holds) in
      let i : ltb (suc id) 128 ≡ true = ground arith in
      let k : add_size (length d) header_len ≡ suc (suc (suc (length d))) = omega arith in
      let z : suc id + 0 * 2 ^ 8 ≡ suc id = omega arith in
      let y =
        retrieve-Yields (add_size (length d) header_len) b v
          (omega (arith, size, length-content b v)) in
      (
        y.result,
        rw (lo, hi) (rw i (rw z (rw (known, sent) (rw y.returns refl)))),
        y.valid,
        y.holds
            ∙ ap (λ n. drop n (content b)) k
            ∙ ap (drop (suc (suc (suc (length d))))) holds
            ∙ drop-append_length (length d) 0 d more (omega arith),
      )

-- A call that delivers `ds` to a client, and leaves nothing.
pub record Delivers (conn : ℕ) (ds : List Bytes) (o : Session) : Type 0 where
  pub rest : Buffer
  pub returns : o ≡ finished (map (to_client conn) ds) rest
  pub valid : IsValid rest
  pub holds : content rest ≡ []

-- With fuel for each packet and one more round, on packets of 1 to 127 bytes for one registered
-- client with an id from 1 to 127, onBackendMessage sends that client the bytes of each packet in
-- order, and leaves an empty buffer.
pub on_backend_message-Delivers :
    (id conn : ℕ) (ds : List Bytes) (b : Buffer) (s : Server)
    → IsValid b
    → find_client (suc id) s.clients ≡ some conn
    → suc id < 128
    → AreWithin 127 ds
    → content b ≡ packets (suc id) ds
    → Delivers conn ds (on_backend_message (suc (length ds)) b s)
unfolding on_backend_message whole_packet
on_backend_message-Delivers id conn [] b s v f m w e =
    let h : length (content b) ≡ 0 = ap length e in
    let t : ltb header_len (readable_bytes b) ≡ false = ground (arith, h, length-content b v) in
    record {
      rest = b;
      returns = rw (on_backend_message, whole_packet, t) refl;
      valid = v;
      holds = e;
    }
on_backend_message-Delivers id conn (d ∷ ds) b s v f m (p, l, w) e =
    let k : length d < 128 = omega arith in
    let h : content b ≡ length d ∷ suc id ∷ 0 ∷ d ++ packets (suc id) ds =
      e ∙ ap (λ c. c ++ packets (suc id) ds) (packet_lem (suc id) d m k) in
    let (r, q, u, c) = on_packet_lem id conn d (packets (suc id) ds) b s v f m p k h in
    let i = on_backend_message-Delivers id conn ds r s u f m w c in
    record {
      rest = i.rest;
      returns =
          rw (on_backend_message, whole_packet_lem id conn d (packets (suc id) ds) b s v f m p k h)
            (rw q (rw i.returns refl));
      valid = i.valid;
      holds = i.holds;
    }

-- On a buffer that starts with the byte 253 and an id byte from 128 on, and holds a fourth byte,
-- the loop of onBackendMessage does not end for any number of rounds.
pub on_backend_message-starved :
    (fuel lo hi x : ℕ) (more : List ℕ) (b : Buffer) (s : Server)
    → IsValid b
    → 128 ≤ lo
    → content b ≡ 253 ∷ lo ∷ hi ∷ x ∷ more
    → on_backend_message fuel b s ≡ starved
unfolding on_backend_message on_packet to_found
on_backend_message-starved zero lo hi x more b s v l e = refl
on_backend_message-starved (suc fuel) lo hi x more b s v l e =
    let h : length (content b) ≡ suc (suc (suc (suc (length more)))) = ap length e in
    let t : ltb header_len (readable_bytes b) ≡ true = ground (arith, h, length-content b v) in
    let i : ltb lo 128 ≡ false = ground arith in
    let first = peek_at-content b 0 253 (lo ∷ hi ∷ x ∷ more) e in
    let second = peek_at-content b 1 lo (hi ∷ x ∷ more) (ap (drop 1) e) in
    let third = peek_at-content b 2 hi (x ∷ more) (ap (drop 2) e) in
    let y = retrieve-Yields 0 b v (omega arith) in
    let n = on_backend_message-starved fuel lo hi x more y.result s y.valid l (y.holds ∙ e) in
    let w : ltb (readable_bytes b) 0 ≡ false = ground arith in
    rw (on_backend_message, whole_packet, t, first)
      (rw w (rw (on_packet, second, third) (rw i (rw y.returns (rw n refl)))))
