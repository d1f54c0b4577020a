-- ===== src/Examples/Multiplexer/Simple.antt =====
-- arale/examples/multiplexer/MultiplexerSimple.cc: the functions that differ from those of
-- Multiplexer.cc, and its callbacks one after another.
use arale.Prelude.{
  ℕ, zero, suc, Bool, true, false, ◌&&◌, List, [], ◌∷◌, ◌++◌, none, some, Outcome, ok, assertion,
  ◌>>=◌, ◌>>◌, assert, ltb, length,
}
use arale.Net.Buffer.{
  Buffer, new, append, prepend, readable_bytes, retrieve, retrieve_all, copy_out,
}
use arale.Net.Buffer.Layout.{content}
use arale.Net.Http.Text.{Bytes}
use arale.Examples.Multiplexer.{
  max_conns, max_packet_len, Server, Effect, to_backend, shuts, header, notice, is_up_text,
  is_down_text, put_client, erase_client, set_context, is_empty, backend_up, backend_down,
}
use arale.Examples.Multiplexer.Backend.{on_backend_message}
use arale.Examples.Multiplexer.Turns.{
  Event, opens, closes, writes, backend_opens, backend_closes, backend_writes, Done, done, leaves,
  of_session, followed_by,
}

unfoldable pub send_packet : Bool → ℕ → Buffer → Outcome (Buffer × List Effect)
send_packet backend id buf = elim backend [
  | false ↦ ok (buf, [])
  | true ↦ do
    framed ← prepend (header id (readable_bytes buf)) buf
    ok (retrieve_all framed, to_backend (content framed) ∷ [])
]

unfoldable pub send_string : Bool → ℕ → Bytes → Outcome (List Effect)
unfolding send_packet
send_string backend id msg = do
  assert (ltb (length msg) max_packet_len)
  buf ← new 1024
  filled ← append msg buf
  (sent, es) ← send_packet backend id filled
  ok es

unfoldable pub send_whole : Bool → ℕ → Buffer → Outcome (Buffer × List Effect)
unfolding send_packet
send_whole backend id buf = do
  bytes ← copy_out buf.read_index max_packet_len buf.bytes
  buf2 ← new 1024
  filled ← append bytes buf2
  rest ← retrieve max_packet_len buf
  (sent, es) ← send_packet backend id filled
  ok (rest, es)

abbrev pub send_last : Bool → ℕ → Buffer → Outcome (Buffer × List Effect)
send_last backend id buf = elim (ltb 0 (readable_bytes buf)) [
  | true ↦ send_packet backend id buf
  | false ↦ ok (buf, [])
]

unfoldable pub send_loop : ℕ → Bool → ℕ → Buffer → Outcome (Buffer × List Effect)
unfolding send_whole
send_loop zero backend id buf = send_last backend id buf
send_loop (suc n) backend id buf = elim (ltb max_packet_len (readable_bytes buf)) [
  | true ↦ do
    (rest, es) ← send_whole backend id buf
    (last, fs) ← send_loop n backend id rest
    ok (last, es ++ fs)
  | false ↦ send_last backend id buf
]

abbrev pub send_buffer : Bool → ℕ → Buffer → Outcome (Buffer × List Effect)
send_buffer backend id buf = send_loop (readable_bytes buf) backend id buf

unfoldable pub on_up : ℕ → Bytes → Server → Outcome (Server × List Effect)
unfolding send_string put_client
on_up conn peer s = elim s.avail_ids [
  | [] ↦ ok (s, shuts conn ∷ [])
  | id ∷ ids ↦ do
    let t =
        set_context conn id (record s { avail_ids = ids; clients = put_client id conn s.clients })
    es ← send_string s.backend 0 (notice id peer is_up_text)
    ok (t, es)
]

unfoldable pub on_down : ℕ → Bytes → Server → Outcome (Server × List Effect)
unfolding send_string erase_client
on_down conn peer s = elim (s.context conn) [
  | none ↦ ok (s, [])
  | some id ↦ do
    assert (ltb 0 id && ltb id max_conns)
    es ← send_string s.backend 0 (notice id peer is_down_text)
    elim s.backend [
      | true ↦
          ok (
            record s { avail_ids = s.avail_ids ++ id ∷ []; clients = erase_client id s.clients },
            es,
          )
      | false ↦ do assert (is_empty s.avail_ids); assert (is_empty s.clients); ok (s, es)
    ]
]

unfoldable pub on_message : ℕ → Buffer → Server → Outcome (Buffer × List Effect)
unfolding send_loop
on_message conn buf s = elim s.backend [
  | false ↦ ok (retrieve_all buf, [])
  | true ↦ elim (s.context conn) [ none ↦ assertion | some id ↦ send_buffer true id buf ]
]

unfoldable pub simple_step : Event → Server → Outcome Done
unfolding on_up on_down on_message backend_up backend_down on_backend_message
simple_step (opens conn peer) s = do (t, es) ← on_up conn peer s; ok (done t es)
simple_step (closes conn peer) s = do (t, es) ← on_down conn peer s; ok (done t es)
simple_step (writes conn buf) s = do (rest, es) ← on_message conn buf s; ok (leaves s es rest)
simple_step backend_opens s = do t ← backend_up s; ok (done t [])
simple_step backend_closes s = let d = backend_down s in ok (done d.0 d.1)
simple_step (backend_writes fuel buf) s = of_session s (on_backend_message fuel buf s)

unfoldable pub simple_run : List Event → Server → Outcome Done
unfolding simple_step
simple_run [] s = ok (done s [])
simple_run (e ∷ es) s = do d ← simple_step e s; f ← simple_run es d.server; ok (followed_by d f)
