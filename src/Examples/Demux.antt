-- ===== src/Examples/Demux.antt =====
-- arale/examples/multiplexer/Demux.cc: the other end of the multiplexer's connection, with a client
-- of the socks server for each id.
pub mod Faults
mod Tests
use arale.Prelude.{
  ℕ, zero, suc, ◌+◌, ◌*◌, ◌/◌, ◌%◌, ◌^◌, Bool, true, false, not, List, [], ◌∷◌, ◌++◌, Option, none,
  some, Outcome, ok, assertion, thrown, undefined, ◌>>=◌, ◌>>◌, assert, access, ltb, leb, ◌==◌,
  if◌then◌else◌, length, take, drop,
}
use arale.Net.Buffer.{
  Buffer, new, append, readable_bytes, add_size, retrieve, retrieve_all, copy_out, max_size,
}
use arale.Net.Buffer.Layout.{content}
use arale.Net.Epoll.{at}
use arale.Net.Http.Text.{Bytes, decimal}
use arale.Examples.Multiplexer.{max_packet_len, header_len, header}
use arale.Examples.Multiplexer.Backend.{peek_at, size_of_char, atoi, after_prefix}

-- Connections are numbers. The buffer holds what arrives before the socks connection is there.
pub record Entry : Type 0 where
  pub connection : Option ℕ
  pub buf : Buffer

pub record Demux : Type 0 where
  pub server_connection : Option ℕ
  pub socks_connections : ℕ → Option Entry

abbrev pub new_demux : Demux
new_demux = record { server_connection = none; socks_connections = λ id. none }

-- Bytes to the server connection or a socks connection, a shutdown, and the client of an id that
-- connects, or is destroyed with its entry.
pub data Effect : Type 0 where
  to_server to_socks : ℕ → Bytes → Effect
  shuts connects drops : ℕ → Effect
  drops_all : Effect

abbrev pub put_entry : ℕ → Option Entry → Demux → Demux
put_entry id e s = record s { socks_connections = at id e s.socks_connections }

abbrev pub server_up : ℕ → Demux → Demux × List Effect
server_up conn s = elim s.server_connection [
  | some c ↦ (s, shuts c ∷ [])
  | none ↦ (record s { server_connection = some conn }, [])
]

abbrev pub is_server : Option ℕ → ℕ → Bool
is_server none conn = false
is_server (some c) conn = c == conn

abbrev pub server_down : ℕ → Demux → Demux × List Effect
server_down conn s =
    if is_server s.server_connection conn then (new_demux, drops_all ∷ []) else (s, [])

-- `find(text) != npos`.
unfoldable pub has_text : Bytes → Bytes → Bool
unfolding after_prefix
has_text text [] = false
has_text text (c ∷ cs) = elim (after_prefix text (c ∷ cs)) [
  | some rest ↦ true
  | none ↦ has_text text cs
]

abbrev pub is_up_text : Bytes
is_up_text = b' ' ∷ b'I' ∷ b'S' ∷ b' ' ∷ b'U' ∷ b'P' ∷ []

-- `kConn.size()`.
abbrev pub conn_size : ℕ
conn_size = 5

abbrev pub id_of : Option ℕ → ℕ
id_of none = 0
id_of (some id) = id

abbrev pub is_none {ℓ} : {A : Type ℓ} → Option A → Bool
is_none none = true
is_none (some a) = false

abbrev pub shut_some : Option ℕ → List Effect
shut_some none = []
shut_some (some conn) = shuts conn ∷ []

-- An id is what `atoi` finds behind "CONN "; a negative one, which no packet has, is taken as 0.
unfoldable pub do_command : Bytes → Demux → Outcome (Demux × List Effect)
unfolding has_text atoi
do_command cmd s = do
  access (leb conn_size (length cmd))
  let id = id_of (atoi (drop conn_size cmd))
  elim (has_text is_up_text cmd) [
    | true ↦ do
      assert (is_none (s.socks_connections id))
      buf ← new 1024
      ok (put_entry id (some (record { connection = none; buf = buf })) s, connects id ∷ [])
    | false ↦ elim (s.socks_connections id) [
      | none ↦ assertion
      | some e ↦ ok (put_entry id none s, shut_some e.connection ++ drops id ∷ [])
    ]
  ]

-- A packet for an id, sent on or kept.
unfoldable pub to_entry : ℕ → Bytes → Demux → Outcome (Demux × List Effect)
to_entry id bytes s = elim (s.socks_connections id) [
  | none ↦ assertion
  | some e ↦ elim e.connection [
    | some conn ↦ do assert (readable_bytes e.buf == 0); ok (s, to_socks conn bytes ∷ [])
    | none ↦ do buf ← append bytes e.buf; ok (put_entry id (some (record e { buf = buf })) s, [])
  ]
]

unfoldable pub on_bytes : ℕ → Bytes → Demux → Outcome (Demux × List Effect)
unfolding do_command to_entry
on_bytes zero bytes s = do_command bytes s
on_bytes (suc id) bytes s = to_entry (suc id) bytes s

unfoldable pub on_packet : ℕ → Buffer → Demux → Outcome ((Demux × List Effect) × Buffer)
unfolding on_bytes peek_at
on_packet len buf s = do
  lo ← peek_at 1 buf
  hi ← peek_at 2 buf
  bytes ← copy_out (buf.read_index + header_len) len buf.bytes
  r ← on_bytes (lo + hi * 2 ^ 8) bytes s
  rest ← retrieve (add_size header_len len) buf
  ok (r, rest)

-- The loop, `starved` if it should take more rounds than the fuel.
pub data Session : Type 0 where
  finished : Demux → List Effect → Buffer → Session
  faulted starved : Session

abbrev pub after_packet : List Effect → Session → Session
after_packet es (finished s fs buf) = finished s (es ++ fs) buf
after_packet es faulted = faulted
after_packet es starved = starved

-- The length of a packet, if the loop goes on. The header is not counted.
unfoldable pub next_packet : Buffer → Outcome (Option ℕ)
unfolding peek_at
next_packet buf = elim (ltb header_len (readable_bytes buf)) [
  | false ↦ ok none
  | true ↦ do
    c ← peek_at 0 buf
    let len = size_of_char c
    ok (if ltb (readable_bytes buf) len then none else some len)
]

unfoldable pub on_server_message : ℕ → Buffer → Demux → Session
unfolding next_packet on_packet
on_server_message zero buf s = starved
on_server_message (suc fuel) buf s = elim (next_packet buf) [
  | ok none ↦ finished s [] buf
  | ok (some len) ↦ elim (on_packet len buf s) [
    | ok (r, rest) ↦ after_packet r.1 (on_server_message fuel rest r.0)
    | _ ↦ faulted
  ]
  | _ ↦ faulted
]

-- The header goes behind the bytes.
unfoldable pub send_server_packet : ℕ → Buffer → Demux → Outcome (Buffer × List Effect)
send_server_packet id buf s = do
  let len = readable_bytes buf
  assert (leb len max_packet_len)
  framed ← append (header id len) buf
  ok (elim s.server_connection [
    | some conn ↦ (retrieve_all framed, to_server conn (content framed) ∷ [])
    | none ↦ (framed, [])
  ])

unfoldable pub send_full : ℕ → Buffer → Demux → Outcome (Buffer × List Effect)
unfolding send_server_packet
send_full id buf s = do
  bytes ← copy_out buf.read_index max_packet_len buf.bytes
  buf2 ← new 1024
  filled ← append bytes buf2
  rest ← retrieve max_packet_len buf
  (sent, es) ← send_server_packet id filled s
  ok (rest, es)

unfoldable pub send_last : ℕ → Buffer → Demux → Outcome (Buffer × List Effect)
unfolding send_server_packet
send_last id buf s = elim (ltb 0 (readable_bytes buf)) [
  | true ↦ send_server_packet id buf s
  | false ↦ ok (buf, [])
]

unfoldable pub send_rounds : ℕ → ℕ → Buffer → Demux → Outcome (Buffer × List Effect)
unfolding send_full send_last
send_rounds zero id buf s = send_last id buf s
send_rounds (suc n) id buf s = elim (ltb max_packet_len (readable_bytes buf)) [
  | true ↦ do
    (rest, es) ← send_full id buf s
    (last, fs) ← send_rounds n id rest s
    ok (last, es ++ fs)
  | false ↦ send_last id buf s
]

-- The loop may take as many rounds as there are bytes.
unfoldable pub on_socks_message : ℕ → Buffer → Demux → Outcome (Buffer × List Effect)
unfolding send_rounds
on_socks_message id buf s = do
  assert (not (is_none (s.socks_connections id)))
  send_rounds (readable_bytes buf) id buf s

unfoldable pub socks_up : ℕ → ℕ → Demux → Outcome (Demux × List Effect)
socks_up id conn s = elim (s.socks_connections id) [
  | none ↦ assertion
  | some e ↦ elim (ltb 0 (readable_bytes e.buf)) [
    | true ↦ ok (
      put_entry id (some (record { connection = some conn; buf = retrieve_all e.buf })) s,
      to_socks conn (content e.buf) ∷ [],
    )
    | false ↦ ok (put_entry id (some (record e { connection = some conn })) s, [])
  ]
]

abbrev pub disconnect_text : Bytes
disconnect_text = b'D' ∷ b'I' ∷ b'S' ∷ b'C' ∷ b'O' ∷ b'N' ∷ b'N' ∷ b'E' ∷ b'C' ∷ b'T' ∷ b' ' ∷ []

unfoldable pub socks_down : ℕ → Demux → Outcome (Demux × List Effect)
socks_down id s = do
  assert (not (is_none (s.socks_connections id)))
  elim s.server_connection [
    | some conn ↦ do
      buffer ← new 1024
      text ← append (take 63 (disconnect_text ++ decimal id)) buffer
      ok (s, to_server conn (content text) ∷ [])
    | none ↦ ok (put_entry id none s, drops id ∷ [])
  ]
