-- ===== src/Examples/Multiplexer/Notices.antt =====
-- Multiplexer.cc, `sendBackendString`: what it says of a client always fits.
use arale.Prelude.{
  [], ◌∷◌, ◌>>=◌, if◌then◌else◌, inl, ℕ, ◌+◌, ◌≡◌, ◌≤◌, ◌<◌, refl, true, List, ◌++◌, Bool, ok, ltb,
  length, arith, length-take, length-append,
}
use arale.Net.Buffer.{Buffer, readable_bytes, retrieve_all}
use arale.Net.Buffer.Layout.{content}
use arale.Net.Buffer.Append.{prepend-Yields}
use arale.Net.Buffer.Fresh.{new-fresh, append-Filled}
use arale.Net.Http.Text.{Bytes, decimal}
use arale.Net.TcpServer.Names.{length-digits}
use arale.Examples.Multiplexer.{
  max_packet_len, header, Effect, to_backend, send_backend_packet, send_backend_string, notice,
  conn_text, from_text,
}

length-parts :
    (a b c d e : Bytes)
    → length (a ++ b ++ c ++ d ++ e) ≡ length a + length b + length c + length d + length e
length-parts a b c d e =
    let p = length-append (a ++ b ++ c ++ d) e in
    let q = length-append (a ++ b ++ c) d in
    let r = length-append (a ++ b) c in let s = length-append a b in omega arith

-- `toIpPort` is shorter than 64 bytes.
pub notice-fits :
    (id : ℕ) (peer state : Bytes)
    → length peer ≤ 200
    → length state ≤ 10
    → length (notice id peer state) < max_packet_len
unfolding notice
notice-fits id peer state h k =
    let d = length-digits 20 id in
    let e = length-parts conn_text (decimal id) from_text peer state in
    let f = length-take 255 (conn_text ++ decimal id ++ from_text ++ peer ++ state) in omega arith

abbrev sent : Bool → Buffer → Buffer × List Effect
sent backend framed =
    if backend then (retrieve_all framed, to_backend (content framed) ∷ []) else (framed, [])

sent_lem :
    (backend : Bool) (framed : Buffer)
    → (ok (sent backend framed) >>= λ p. ok p.1) ≡ ok (sent backend framed).1
sent_lem backend framed = refl

pub send_backend_string-returns :
    (backend : Bool) (id : ℕ) (msg : Bytes)
    → length msg < max_packet_len
    → (es : List Effect) × (send_backend_string backend id msg ≡ ok es)
unfolding send_backend_string send_backend_packet
send_backend_string-returns backend id msg h =
    let t : ltb (length msg) max_packet_len ≡ true = ground arith in
    let f = append-Filled msg (inl (omega arith)) in
    let y =
      prepend-Yields (header id (readable_bytes f.result)) f.result f.valid
        (let g = f.front in omega arith) in
    (
      (sent backend y.result).1,
      rw t (rw new-fresh (rw f.returns (rw y.returns (sent_lem backend y.result)))),
    )
