-- ===== src/Examples/Multiplexer/Send.antt =====
-- Multiplexer.cc, `sendBackendBuffer`: the packets that a client's bytes go into.
use arale.Prelude.{
  ℕ, zero, suc, ◌+◌, ◌-◌, ◌≡◌, ◌≤◌, ◌<◌, refl, sym, ap, ◌∙◌, true, false, List, [], ◌∷◌, ◌++◌, map,
  Outcome, ok, ltb, length, take, drop, arith, take_all, length-take, length-drop, take-append-drop,
  Bool-cases, inl, inr, append-nil,
}
use arale.Net.Buffer.{Buffer, retrieve, retrieve_all, copy_out, readable_bytes}
use arale.Net.Buffer.Layout.{IsValid, content, length-content}
use arale.Net.Buffer.Append.{prepend-Yields}
use arale.Net.Buffer.Retrieve.{retrieve-Yields}
use arale.Net.Buffer.Fresh.{new-fresh, append-Filled}
use arale.Net.Http.Text.{Bytes}
use arale.Examples.Multiplexer.{
  header, header_len, max_packet_len, Effect, to_backend, send_backend_packet, send_full,
  send_rounds, send_backend_buffer,
}
use arale.Examples.Multiplexer.Packets.{packet, AreWithin, copy_out-inside}

abbrev pub concat : List Bytes → Bytes
concat [] = []
concat (d ∷ ds) = d ++ concat ds

send_backend_packet_lem :
    (id : ℕ) (b : Buffer)
    → IsValid b
    → header_len ≤ b.read_index
    → (r : Buffer) × (send_backend_packet true id b
        ≡ ok (r, to_backend (packet id (content b)) ∷ []))
unfolding send_backend_packet
send_backend_packet_lem id b v h =
    let y = prepend-Yields (header id (readable_bytes b)) b v h in
    let e = length-content b v in
    (
      retrieve_all y.result,
      rw y.returns (
          rw y.holds (
            ap (λ n. ok (retrieve_all y.result, to_backend (header id n ++ content b) ∷ []))
              (sym e))),
    )

retrieve-front :
    (len : ℕ) (b r : Buffer)
    → IsValid b
    → len < readable_bytes b
    → retrieve len b ≡ ok r
    → b.read_index ≤ r.read_index
unfolding retrieve
retrieve-front len b r v h e = ground arith

send_full_lem :
    (id : ℕ) (b : Buffer)
    → IsValid b
    → header_len ≤ b.read_index
    → max_packet_len < readable_bytes b
    → (r : Buffer) × (send_full true id b
        ≡ ok (r, to_backend (packet id (take max_packet_len (content b))) ∷ []))
      × IsValid r
      × (content r ≡ drop max_packet_len (content b))
      × (header_len ≤ r.read_index)
unfolding send_full
send_full_lem id b v h l =
    let n = length-content b v in
    let d = take max_packet_len (content b) in
    let z : b.read_index + 0 ≡ b.read_index = omega arith in
    let c : copy_out b.read_index max_packet_len b.bytes ≡ ok d =
      ap (λ i. copy_out i max_packet_len b.bytes) (sym z)
      ∙ copy_out-inside b 0 max_packet_len v (omega arith) in
    let f = append-Filled d (inl (omega (arith, length-take max_packet_len (content b)))) in
    let y = retrieve-Yields max_packet_len b v (omega arith) in
    let (t, p) = send_backend_packet_lem id f.result f.valid (let g = f.front in omega arith) in
    let q : send_backend_packet true id f.result ≡ ok (t, to_backend (packet id d) ∷ []) =
      p ∙ ap (λ x. ok (t, to_backend (packet id x) ∷ [])) f.holds in
    let k = retrieve-front max_packet_len b y.result v l y.returns in
    (
      y.result,
      rw c (rw new-fresh (rw f.returns (rw y.returns (rw q refl)))),
      y.valid,
      y.holds,
      omega arith,
    )

abbrev pub sends : ℕ → List Bytes → List Effect
sends id ds = map (λ d. to_backend (packet id d)) ds

-- The bytes `c` go out in packets, each with its length and the id in front.
pub record Packed (id : ℕ) (c : Bytes) (o : Outcome (Buffer × List Effect)) : Type 0 where
  pub pieces : List Bytes
  pub rest : Buffer
  pub returns : o ≡ ok (rest, sends id pieces)
  pub whole : concat pieces ≡ c
  pub within : AreWithin max_packet_len pieces

-- The last packet, if there are bytes for it.
last-Packed :
    (id : ℕ) (b : Buffer)
    → IsValid b
    → header_len ≤ b.read_index
    → readable_bytes b ≤ max_packet_len
    → Packed id (content b) (elim (ltb 0 (readable_bytes b)) [
      | true ↦ send_backend_packet true id b
      | false ↦ ok (b, [])
    ])
last-Packed id b v h l =
    let n = length-content b v in
    elim (Bool-cases (ltb 0 (readable_bytes b))) [
      | inl t ↦
          let (r, q) = send_backend_packet_lem id b v h in
          let p : 0 < length (content b) = ground arith in
          rw t (record {
            pieces = content b ∷ [];
            rest = r;
            returns = q;
            whole = append-nil (content b);
            within = (p, omega arith, tt);
          })
      | inr t ↦
          let p : length (content b) ≤ 0 = ground arith in
          rw t (record {
            pieces = [];
            rest = b;
            returns = refl;
            whole = take_all 0 (content b) p;
            within = tt;
          })
    ]

send_rounds-Packed :
    (n id : ℕ) (b : Buffer)
    → IsValid b
    → header_len ≤ b.read_index
    → readable_bytes b ≤ n
    → Packed id (content b) (send_rounds n true id b)
unfolding send_rounds
send_rounds-Packed zero id b v h l = last-Packed id b v h (omega arith)
send_rounds-Packed (suc n) id b v h l = elim (Bool-cases (ltb max_packet_len (readable_bytes b))) [
  | inl t ↦
      let k : max_packet_len < readable_bytes b = ground arith in
      let (r, q, u, c, f) = send_full_lem id b v h k in
      let e = length-content b v in
      let g : length (content r) ≡ readable_bytes b - max_packet_len =
        ap length c ∙ length-drop max_packet_len (content b) ∙ ap (λ x. x - max_packet_len) e in
      let i = send_rounds-Packed n id r u f (omega (arith, length-content r u, g)) in
      rw (send_rounds, t)
        (record {
          pieces = take max_packet_len (content b) ∷ i.pieces;
          rest = i.rest;
          returns = rw q (rw i.returns refl);
          whole =
              ap (λ x. take max_packet_len (content b) ++ x) (i.whole ∙ c)
              ∙ take-append-drop max_packet_len (content b);
          within = (
            omega (arith, length-take max_packet_len (content b)),
            omega (arith, length-take max_packet_len (content b)),
            i.within,
          );
        })
  | inr t ↦ rw (send_rounds, t) (last-Packed id b v h (ground arith))
]

-- With a backend and three bytes of room in front, sendBackendBuffer sends the readable bytes of a
-- well-formed buffer to the backend in packets of 1 to 253 bytes, in order, each behind its length
-- and the id.
pub send_backend_buffer-Packed :
    (id : ℕ) (b : Buffer)
    → IsValid b
    → header_len ≤ b.read_index
    → Packed id (content b) (send_backend_buffer true id b)
send_backend_buffer-Packed id b v h = send_rounds-Packed (readable_bytes b) id b v h (omega arith)
