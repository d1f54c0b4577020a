-- ===== src/Examples/Codec.antt =====
-- arale/examples/asio/chat/Codec.h: messages behind a four-byte length.
pub mod Receive
pub mod Send
mod Tests
use arale.Prelude.{
  ℕ, zero, suc, ◌+◌, ◌%◌, ◌^◌, Bool, true, false, ◌&&◌, ◌||◌, List, [], ◌∷◌, Outcome, ok, assertion,
  thrown, undefined, ◌>>=◌, ltb, leb, if◌then◌else◌, length,
}
use arale.Net.Buffer.{
  Buffer, new, append, prepend, be_bytes, readable_bytes, add_size, peek_int, retrieve,
  retrieve_as_string,
}

abbrev pub header_length : ℕ
header_length = 4

-- `len > 65535 || len < 0` of an `int32_t`, given as its bit pattern.
abbrev pub is_invalid : ℕ → Bool
is_invalid len = (ltb len (2 ^ 31) && ltb 65535 len) || leb (2 ^ 31) len

-- One round of the loop of `onMessage`: it ends, after a shutdown or not, or it delivers a message.
pub data Round : Type 0 where
  stop : Bool → Buffer → Round
  message : List ℕ → Buffer → Round

abbrev pub read_message : ℕ → Buffer → Outcome Round
read_message len buf = do
  buf' ← retrieve header_length buf
  (msg, buf'') ← retrieve_as_string len buf'
  ok (message msg buf'')

-- The round once the length is read.
pub on_length : ℕ → Buffer → Outcome Round
on_length len buf =
    if is_invalid len
    then ok (stop true buf)
    else if leb (add_size len header_length) (readable_bytes buf)
    then read_message len buf
    else ok (stop false buf)

pub round : Buffer → Outcome Round
round buf =
    if leb header_length (readable_bytes buf)
    then (do len ← peek_int header_length buf; on_length len buf)
    else ok (stop false buf)

-- What a call of `onMessage` does: the messages in the order of the callbacks, whether it shuts
-- the connection down, and the buffer that it leaves.
pub data Session : Type 0 where
  finished : List (List ℕ) → Bool → Buffer → Session
  faulted starved : Session

abbrev pub after_message : List ℕ → Session → Session
after_message m (finished ms shut buf) = finished (m ∷ ms) shut buf
after_message m faulted = faulted
after_message m starved = starved

-- The loop, `starved` if it should take more than `fuel` rounds.
pub on_message : ℕ → Buffer → Session
on_message zero buf = starved
on_message (suc fuel) buf = elim (round buf) [
  | ok r ↦ elim r [
    | stop shut buf' ↦ finished [] shut buf'
    | message m buf' ↦ after_message m (on_message fuel buf')
  ]
  | assertion ↦ faulted
  | thrown ↦ faulted
  | undefined ↦ faulted
]

-- The buffer that `sendMessage` hands to `TcpConnection::send`. Its argument of the constructor
-- is the default.
pub send_message : List ℕ → Outcome Buffer
send_message msg = do
  buf ← new 1024
  buf' ← append msg buf
  let len = length msg % 2 ^ 32
  prepend (be_bytes header_length len) buf'
