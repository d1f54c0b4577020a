-- ===== src/Examples/Multiplexer.antt =====
-- arale/examples/multiplexer/Multiplexer.cc: many clients over one connection to a backend.
pub mod Backend
pub mod Packets
pub mod Send
pub mod Orphans
pub mod Turns
pub mod Simple
pub mod Same
pub mod Table
pub mod Notices
pub mod Owners
pub mod Ids
mod Tests
use arale.Prelude.{
  ℕ, zero, suc, ◌+◌, ◌-◌, ◌*◌, ◌/◌, ◌%◌, ◌^◌, Bool, true, false, not, ◌&&◌, ◌||◌, List, [], ◌∷◌,
  ◌++◌, map, Option, none, some, Outcome, ok, assertion, thrown, undefined, ◌>>=◌, ◌>>◌, assert,
  ltb, leb, ◌==◌, if◌then◌else◌, length, take, drop,
}
use arale.Net.Buffer.{
  Buffer, new, append, prepend, readable_bytes, add_size, retrieve, retrieve_all, copy_out,
  max_size,
}
use arale.Net.Buffer.Layout.{content}
use arale.Net.Http.Text.{Bytes, decimal, is_space}

abbrev pub max_conns : ℕ
max_conns = 10

abbrev pub max_packet_len : ℕ
max_packet_len = 253

abbrev pub header_len : ℕ
header_len = 3

-- Connections are numbers. A connection has its context, `clientConns_` the connections of the ids,
-- and `backend` says whether `backendConn_` is set.
pub record Server : Type 0 where
  pub backend : Bool
  pub clients : List (ℕ × ℕ)
  pub avail_ids : List ℕ
  pub context : ℕ → Option ℕ

abbrev pub new_server : Server
new_server = record { backend = false; clients = []; avail_ids = []; context = λ conn. none }

-- What goes out: bytes to the backend or a client, or the shutdown of a client.
pub data Effect : Type 0 where
  to_backend : Bytes → Effect
  to_client : ℕ → Bytes → Effect
  shuts : ℕ → Effect

-- The three bytes in front of `len` bytes. An id is not negative.
abbrev pub header : ℕ → ℕ → Bytes
header id len = len % 2 ^ 8 ∷ id % 2 ^ 8 ∷ id / 2 ^ 8 % 2 ^ 8 ∷ []

-- `send(buf)` takes all bytes out of the buffer.
unfoldable pub send_backend_packet : Bool → ℕ → Buffer → Outcome (Buffer × List Effect)
send_backend_packet backend id buf = do
  framed ← prepend (header id (readable_bytes buf)) buf
  ok (if backend then (retrieve_all framed, to_backend (content framed) ∷ []) else (framed, []))

unfoldable pub send_backend_string : Bool → ℕ → Bytes → Outcome (List Effect)
unfolding send_backend_packet
send_backend_string backend id msg = do
  assert (ltb (length msg) max_packet_len)
  buf ← new 1024
  filled ← append msg buf
  (sent, es) ← send_backend_packet backend id filled
  ok es

-- One round of the loop: a packet of full length from the front of the buffer.
unfoldable pub send_full : Bool → ℕ → Buffer → Outcome (Buffer × List Effect)
unfolding send_backend_packet
send_full backend id buf = do
  bytes ← copy_out buf.read_index max_packet_len buf.bytes
  buf2 ← new 1024
  filled ← append bytes buf2
  rest ← retrieve max_packet_len buf
  (sent, es) ← send_backend_packet backend id filled
  ok (rest, es)

-- The loop may take as many rounds as there are bytes.
unfoldable pub send_rounds : ℕ → Bool → ℕ → Buffer → Outcome (Buffer × List Effect)
unfolding send_full
send_rounds zero backend id buf = elim (ltb 0 (readable_bytes buf)) [
  | true ↦ send_backend_packet backend id buf
  | false ↦ ok (buf, [])
]
send_rounds (suc n) backend id buf = elim (ltb max_packet_len (readable_bytes buf)) [
  | true ↦ do
    (rest, es) ← send_full backend id buf
    (last, fs) ← send_rounds n backend id rest
    ok (last, es ++ fs)
  | false ↦ elim (ltb 0 (readable_bytes buf)) [
    | true ↦ send_backend_packet backend id buf
    | false ↦ ok (buf, [])
  ]
]

abbrev pub send_backend_buffer : Bool → ℕ → Buffer → Outcome (Buffer × List Effect)
send_backend_buffer backend id buf = send_rounds (readable_bytes buf) backend id buf

-- `snprintf(buf, 256, "CONN %d FROM %s IS UP\r\n", id, peer)`, or `IS DOWN`.
abbrev pub conn_text : Bytes
conn_text = b'C' ∷ b'O' ∷ b'N' ∷ b'N' ∷ b' ' ∷ []

abbrev pub from_text : Bytes
from_text = b' ' ∷ b'F' ∷ b'R' ∷ b'O' ∷ b'M' ∷ b' ' ∷ []

abbrev pub is_up_text : Bytes
is_up_text = b' ' ∷ b'I' ∷ b'S' ∷ b' ' ∷ b'U' ∷ b'P' ∷ b'\r' ∷ b'\n' ∷ []

abbrev pub is_down_text : Bytes
is_down_text = b' ' ∷ b'I' ∷ b'S' ∷ b' ' ∷ b'D' ∷ b'O' ∷ b'W' ∷ b'N' ∷ b'\r' ∷ b'\n' ∷ []

unfoldable pub notice : ℕ → Bytes → Bytes → Bytes
notice id peer state = take 255 (conn_text ++ decimal id ++ from_text ++ peer ++ state)

-- `clientConns_`: `find`, `operator[]` with an assignment, and `erase`.
unfoldable pub find_client : ℕ → List (ℕ × ℕ) → Option ℕ
find_client id [] = none
find_client id ((i, conn) ∷ cs) = if i == id then some conn else find_client id cs

unfoldable pub put_client : ℕ → ℕ → List (ℕ × ℕ) → List (ℕ × ℕ)
put_client id conn [] = (id, conn) ∷ []
put_client id conn ((i, c) ∷ cs) =
    if ltb id i
    then (id, conn) ∷ (i, c) ∷ cs
    else if i == id
    then (id, conn) ∷ cs
    else (i, c) ∷ put_client id conn cs

unfoldable pub erase_client : ℕ → List (ℕ × ℕ) → List (ℕ × ℕ)
erase_client id [] = []
erase_client id ((i, c) ∷ cs) = if i == id then cs else (i, c) ∷ erase_client id cs

abbrev pub set_context : ℕ → ℕ → Server → Server
set_context conn id s = record s { context = λ c. if c == conn then some id else s.context c }

-- `onClientConnection` of a connection that is up. `peer` is the text of its address.
unfoldable pub client_up : ℕ → Bytes → Server → Outcome (Server × List Effect)
unfolding send_backend_string put_client
client_up conn peer s = elim s.avail_ids [
  | [] ↦ ok (s, shuts conn ∷ [])
  | id ∷ ids ↦ do
    let t =
        set_context conn id (record s { avail_ids = ids; clients = put_client id conn s.clients })
    es ← send_backend_string s.backend 0 (notice id peer is_up_text)
    ok (t, es)
]

abbrev pub is_empty {ℓ} : {A : Type ℓ} → List A → Bool
is_empty [] = true
is_empty (x ∷ xs) = false

-- The same of a connection that is down.
unfoldable pub client_down : ℕ → Bytes → Server → Outcome (Server × List Effect)
unfolding send_backend_string erase_client
client_down conn peer s = elim (s.context conn) [
  | none ↦ ok (s, [])
  | some id ↦ do
    assert (ltb 0 id && ltb id max_conns)
    es ← send_backend_string s.backend 0 (notice id peer is_down_text)
    elim s.backend [
      | true ↦
          ok (
            record s { avail_ids = s.avail_ids ++ id ∷ []; clients = erase_client id s.clients },
            es,
          )
      | false ↦ do assert (is_empty s.avail_ids); assert (is_empty s.clients); ok (s, es)
    ]
]

unfoldable pub on_client_message : ℕ → Buffer → Server → Outcome (Buffer × List Effect)
unfolding send_rounds
on_client_message conn buf s = elim (s.context conn) [
  | some id ↦ send_backend_buffer s.backend id buf
  | none ↦ ok (retrieve_all buf, [])
]

-- The ids from `i` on, `n` of them.
unfoldable pub ids_from : ℕ → ℕ → List ℕ
ids_from i zero = []
ids_from i (suc n) = i ∷ ids_from (suc i) n

unfoldable pub backend_up : Server → Outcome Server
unfolding ids_from
backend_up s = do
  assert (is_empty s.avail_ids)
  ok (record s { backend = true; avail_ids = ids_from 1 max_conns })

abbrev pub shut_all : List (ℕ × ℕ) → List Effect
shut_all [] = []
shut_all ((i, conn) ∷ cs) = shuts conn ∷ shut_all cs

unfoldable pub backend_down : Server → Server × List Effect
backend_down s = (record s { backend = false; clients = []; avail_ids = [] }, shut_all s.clients)
