-- ===== src/Examples/Demux/Faults.antt =====
-- Demux.cc: what goes wrong with its packets.
use arale.Prelude.{
  ℕ, suc, ◌+◌, ◌≡◌, ◌≤◌, ◌<◌, refl, sym, ap, ◌∙◌, true, false, List, [], ◌∷◌, ◌++◌, some, Outcome,
  ok, assertion, thrown, undefined, ◌>>=◌, ltb, leb, length, arith, ◌*◌, ◌^◌, Ensures, Ensures->>=,
  Ensures-any,
}
use arale.Net.Buffer.{Buffer, readable_bytes, add_size, retrieve, retrieve_all, copy_out}
use arale.Net.Buffer.Layout.{IsValid, content, length-content}
use arale.Net.Buffer.Space.{Fits}
use arale.Net.Buffer.Append.{append-Yields}
use arale.Net.Buffer.Retrieve.{retrieve-assertion}
use arale.Examples.Multiplexer.{header_len, max_packet_len, header}
use arale.Examples.Multiplexer.Backend.{peek_at}
use arale.Examples.Multiplexer.Packets.{peek_at-content}
use arale.Examples.Demux.{
  Demux, Effect, to_server, on_bytes, on_packet, faulted, next_packet, on_server_message,
  send_server_packet, after_packet,
}

-- With a server connection and room for three bytes, sendServerPacket of a well-formed buffer of
-- at most 253 bytes sends these bytes and, behind them, the length and the id.
send_server_packet-behind :
    (id conn : ℕ) (b : Buffer) (s : Demux)
    → IsValid b
    → Fits header_len b
    → readable_bytes b ≤ max_packet_len
    → s.server_connection ≡ some conn
    → (r : Buffer) × (send_server_packet id b s
        ≡ ok (r, to_server conn (content b ++ header id (length (content b))) ∷ []))
unfolding send_server_packet
send_server_packet-behind id conn b s v f l e =
    let y = append-Yields (header id (readable_bytes b)) b v f in
    let t : leb (readable_bytes b) max_packet_len ≡ true = ground arith in
    let n = length-content b v in
    (
      retrieve_all y.result,
      rw t (
          rw (y.returns, e)
            (ap (λ c. ok (retrieve_all y.result, to_server conn c ∷ []))
              (y.holds ∙ ap (λ k. content b ++ header id k) (sym n)))),
    )

-- An outcome that is no value.
abbrev pub Fails {ℓ} : {A : Type ℓ} → Outcome A → Type 0
Fails o = Ensures (λ a. ⊥) o

Fails->>= {ℓ κ} :
    {A : Type ℓ} {B : Type κ} (o : Outcome A) (f : A → Outcome B)
    → ((a : A) → Fails (f a))
    → Fails (o >>= f)
Fails->>= o f h = Ensures->>= (λ a. Unit {0}) (λ a. ⊥) o f (Ensures-any o) (λ a t. h a)

on_packet-Fails :
    (len : ℕ) (b : Buffer) (s : Demux)
    → IsValid b
    → len < 128
    → readable_bytes b < header_len + len
    → Fails (on_packet len b s)
unfolding on_packet
on_packet-Fails len b s v k h =
    let n = length-content b v in
    let a : retrieve (add_size header_len len) b ≡ assertion =
      retrieve-assertion (add_size header_len len) b v (omega arith) in
    Fails->>= (peek_at 1 b) _ λ lo. Fails->>= (peek_at 2 b) _ λ hi.
      Fails->>= (copy_out (b.read_index + header_len) len b.bytes) _
        λ bytes. Fails->>= (on_bytes (lo + hi * 2 ^ 8) bytes s) _ λ r. rw a tt

after_fail :
    (fuel : ℕ) (o : Outcome ((Demux × List Effect) × Buffer))
    → Fails o
    → (elim o [ ok (r, rest) ↦ after_packet r.1 (on_server_message fuel rest r.0) | _ ↦ faulted ])
      ≡ faulted
after_fail fuel (ok a) f = absurd f
after_fail fuel assertion f = refl
after_fail fuel thrown f = refl
after_fail fuel undefined f = refl

-- When of a packet of less than 128 bytes with its header one to three bytes are still to come,
-- and at least one byte of its content is there, onServerMessage fails in its first round.
pub on_server_message-faulted :
    (fuel len lo hi : ℕ) (d : List ℕ) (b : Buffer) (s : Demux)
    → IsValid b
    → content b ≡ len ∷ lo ∷ hi ∷ d
    → 0 < length d
    → length d < len
    → len ≤ 3 + length d
    → len < 128
    → on_server_message (suc fuel) b s ≡ faulted
unfolding on_server_message next_packet
on_server_message-faulted fuel len lo hi d b s v e p q r k =
    let h : length (content b) ≡ suc (suc (suc (length d))) = ap length e in
    let n = length-content b v in
    let t : ltb header_len (readable_bytes b) ≡ true = ground arith in
    let u : ltb len 128 ≡ true = ground arith in
    let w : ltb (readable_bytes b) len ≡ false = ground arith in
    let first = peek_at-content b 0 len (lo ∷ hi ∷ d) e in
    rw (on_server_message, next_packet, t, first)
      (rw u
        (rw w (after_fail fuel (on_packet len b s) (on_packet-Fails len b s v k (omega arith)))))
