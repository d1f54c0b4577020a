-- ===== src/Examples/Multiplexer/Backend.antt =====
-- Multiplexer.cc: the packets and the commands that come from the backend.
use arale.Prelude.{
  ℕ, zero, suc, ◌+◌, ◌-◌, ◌*◌, ◌^◌, true, false, ◌&&◌, List, [], ◌∷◌, ◌++◌, Option, none, some,
  Outcome, ok, thrown, undefined, ◌>>=◌, ltb, leb, ◌==◌, if◌then◌else◌, drop,
}
use arale.Net.Buffer.{Buffer, readable_bytes, add_size, retrieve, copy_out, max_size}
use arale.Net.Http.Text.{Bytes, is_space}
use arale.Examples.Multiplexer.{header_len, Server, Effect, find_client, to_client, shuts}

-- `*buf->peek()` and the like.
abbrev pub head : List ℕ → Outcome ℕ
head [] = undefined
head (x ∷ xs) = ok x

unfoldable pub peek_at : ℕ → Buffer → Outcome ℕ
peek_at k buf = head (drop (buf.read_index + k) buf.bytes)

-- A `char` is signed, so that a byte from 128 on becomes a number near `2 ^ 64`.
abbrev pub size_of_char : ℕ → ℕ
size_of_char c = if ltb c 128 then c else 2 ^ 64 + c - 256

-- The id of two `char`s; none if one of them makes it negative.
abbrev pub packet_id : ℕ → ℕ → Option ℕ
packet_id lo hi = if ltb lo 128 && ltb hi 128 then some (lo + hi * 2 ^ 8) else none

-- `atoi`: space, a sign, and digits as far as they go; none if it is negative.
unfoldable pub number_from : ℕ → Bytes → ℕ
number_from n [] = n
number_from n (c ∷ cs) = if leb 48 c && leb c 57 then number_from (n * 10 + (c - 48)) cs else n

unfoldable pub signed : Bytes → Option ℕ
unfolding number_from
signed [] = some 0
signed (c ∷ cs) =
    if c == b'-'
    then (if number_from 0 cs == 0 then some 0 else none)
    else if c == b'+'
    then some (number_from 0 cs)
    else some (number_from 0 (c ∷ cs))

unfoldable pub atoi : Bytes → Option ℕ
unfolding signed
atoi [] = some 0
atoi (c ∷ cs) = let rest = atoi cs in if is_space c then rest else signed (c ∷ cs)

abbrev pub disconnect_cmd : Bytes
disconnect_cmd = b'D' ∷ b'I' ∷ b'S' ∷ b'C' ∷ b'O' ∷ b'N' ∷ b'N' ∷ b'E' ∷ b'C' ∷ b'T' ∷ b' ' ∷ []

-- `std::equal`, and what follows.
unfoldable pub after_prefix : Bytes → Bytes → Option Bytes
after_prefix [] cs = some cs
after_prefix (p ∷ ps) [] = none
after_prefix (p ∷ ps) (c ∷ cs) = if p == c then after_prefix ps cs else none

abbrev pub shut_found : Option ℕ → List Effect
shut_found none = []
shut_found (some conn) = shuts conn ∷ []

abbrev pub find_id : Option ℕ → List (ℕ × ℕ) → Option ℕ
find_id none cs = none
find_id (some id) cs = find_client id cs

-- Nothing follows the command's name unless it is longer than that.
unfoldable pub do_command : Bytes → Server → List Effect
unfolding atoi after_prefix find_client
do_command cmd s = elim (after_prefix disconnect_cmd cmd) [
  | none ↦ []
  | some [] ↦ []
  | some (c ∷ cs) ↦ shut_found (find_id (atoi (c ∷ cs)) s.clients)
]

-- The bytes of the packet, sent to a client. A length past the buffer reads what is not there.
unfoldable pub to_found : Option ℕ → ℕ → Buffer → Outcome (List Effect)
to_found none len buf = ok []
to_found (some conn) len buf = do
  bytes ← copy_out (buf.read_index + header_len) len buf.bytes
  ok (to_client conn bytes ∷ [])

unfoldable pub run_command : ℕ → Buffer → Server → Outcome (List Effect)
unfolding do_command
run_command len buf s =
    if ltb max_size len
    then thrown
    else (copy_out (buf.read_index + header_len) len buf.bytes >>= λ cmd. ok (do_command cmd s))

-- A packet of `len` bytes, which leaves the buffer.
unfoldable pub on_packet : ℕ → Buffer → Server → Outcome (Buffer × List Effect)
unfolding peek_at to_found run_command find_client
on_packet len buf s = do
  lo ← peek_at 1 buf
  hi ← peek_at 2 buf
  es ← elim (packet_id lo hi) [
    | none ↦ ok []
    | some zero ↦ run_command len buf s
    | some (suc id) ↦ to_found (find_client (suc id) s.clients) len buf
  ]
  rest ← retrieve (add_size len header_len) buf
  ok (rest, es)

-- What a call of `onBackendMessage` does: effects and the buffer that it leaves; `starved` if the
-- loop should take more rounds than the fuel.
pub data Session : Type 0 where
  finished : List Effect → Buffer → Session
  faulted starved : Session

abbrev pub after_packet : List Effect → Session → Session
after_packet es (finished fs buf) = finished (es ++ fs) buf
after_packet es faulted = faulted
after_packet es starved = starved

-- The loop's condition and its `break`: the length of a packet that is all there.
unfoldable pub whole_packet : Buffer → Outcome (Option ℕ)
unfolding peek_at
whole_packet buf = elim (ltb header_len (readable_bytes buf)) [
  | false ↦ ok none
  | true ↦ do
    c ← peek_at 0 buf
    let len = size_of_char c
    ok (if ltb (readable_bytes buf) (add_size len header_len) then none else some len)
]

unfoldable pub on_backend_message : ℕ → Buffer → Server → Session
unfolding whole_packet on_packet
on_backend_message zero buf s = starved
on_backend_message (suc fuel) buf s = elim (whole_packet buf) [
  | ok none ↦ finished [] buf
  | ok (some len) ↦ elim (on_packet len buf s) [
    | ok (rest, es) ↦ after_packet es (on_backend_message fuel rest s)
    | _ ↦ faulted
  ]
  | _ ↦ faulted
]
