-- ===== src/Examples/Socks.antt =====
-- arale/examples/socks4a/Socks4a.cc: the request of a socks client and the reply to it.
pub mod Granted
mod Tests
use arale.Prelude.{
  ℕ, suc, ◌+◌, Bool, true, false, ◌&&◌, List, [], ◌∷◌, ◌++◌, Option, none, some, Outcome, ok, ◌>>=◌,
  ltb, ◌==◌, if◌then◌else◌, length, take, drop,
}
use arale.Net.Buffer.{Buffer, readable_bytes, retrieve_until, retrieve_all, of_be}
use arale.Net.Buffer.Layout.{content}
use arale.Net.Connection.{State, connected, same_state}
use arale.Net.Http.Text.{Bytes, split_at_byte}

-- A port and an address, both in the order of the network.
pub record Target : Type 0 where
  pub port : Bytes
  pub ip : Bytes

-- What a request says: the version and the command, the target if it is known, and how many
-- bytes the request has.
pub record Request : Type 0 where
  pub ver : ℕ
  pub cmd : ℕ
  pub port : Bytes
  pub ip : Option Bytes
  pub size : ℕ

pub data Effect : Type 0 where
  -- The call of `shutdown`.
  shuts : Effect
  -- `setup` and `connect` of a tunnel, the call of `send` for the client, and bytes to the other side
  -- of the tunnel.
  tunnels : Target → Effect
  sends relays : Bytes → Effect

-- `networkToHost32(s_addr) < 256`.
unfoldable pub is_socks4a : Bytes → Bool
is_socks4a ip = ltb (of_be 0 ip) 256

-- The byte at an index within the readable ones.
unfoldable pub byte_at : ℕ → Bytes → ℕ
byte_at k c = elim (drop k c) [ [] ↦ 0 | x ∷ xs ↦ x ]

abbrev pub port_of : Bytes → Bytes
port_of c = take 2 (drop 2 c)

abbrev pub ip_of : Bytes → Bytes
ip_of c = take 4 (drop 4 c)

abbrev pub request : Bytes → Option Bytes → ℕ → Request
request c ip size = record {
  ver = byte_at 0 c;
  cmd = byte_at 1 c;
  port = port_of c;
  ip = ip;
  size = size;
}

-- `InetAddress::resolve` asks the system.
module _ (resolve : Bytes → Option Bytes) where
  -- Behind the user's name: the name of a host, or nothing more. None if bytes are missing.
  unfoldable pub with_host : Bytes → Bytes → Bytes → Option Request
  unfolding is_socks4a byte_at
  with_host c user rest = elim (is_socks4a (ip_of c)) [
    | false ↦ some (request c (some (ip_of c)) (8 + length user + 1))
    | true ↦ elim (split_at_byte 0 rest) [
      | none ↦ none
      | some (host, more) ↦ some (request c (resolve host) (8 + length user + 1 + length host + 1))
    ]
  ]

  unfoldable pub parse : Bytes → Option Request
  unfolding with_host
  parse c = elim (split_at_byte 0 (drop 8 c)) [
    | none ↦ none
    | some (user, rest) ↦ with_host c user rest
  ]

  abbrev pub granted : Target → Bytes
  granted t = 0 ∷ 0x5a ∷ (t.port ++ t.ip)

  abbrev pub rejected : Bytes
  rejected = 0 ∷ 0x5b ∷ b'U' ∷ b'V' ∷ b'W' ∷ b'X' ∷ b'Y' ∷ b'Z' ∷ []

  abbrev pub grant : Request → Bytes → Buffer → Outcome (Bool × Buffer × List Effect)
  grant r ip buf = do
    rest ← retrieve_until (buf.read_index + r.size) buf
    let t : Target = record { port = r.port; ip = ip }
    ok (true, rest, tunnels t ∷ sends (granted t) ∷ [])

  -- Whether there is a tunnel then.
  unfoldable pub answer : Request → Buffer → Outcome (Bool × Buffer × List Effect)
  answer r buf = elim (r.ver == 4 && r.cmd == 1) [
    | false ↦ ok (false, buf, sends rejected ∷ shuts ∷ [])
    | true ↦ elim r.ip [
      | none ↦ ok (false, buf, sends rejected ∷ shuts ∷ [])
      | some ip ↦ grant r ip buf
    ]
  ]

  -- Of a connection without a tunnel.
  unfoldable pub on_request : Buffer → Outcome (Bool × Buffer × List Effect)
  unfolding parse answer
  on_request buf = elim (ltb 128 (readable_bytes buf)) [
    | true ↦ ok (false, buf, shuts ∷ [])
    | false ↦ elim (ltb 8 (readable_bytes buf)) [
      | false ↦ ok (false, buf, [])
      | true ↦ elim (parse (content buf)) [ none ↦ ok (false, buf, []) | some r ↦ answer r buf ]
    ]
  ]

  -- `clientConn->send(buf)`, which leaves the bytes unless the connection is in the state
  -- `kConnected`.
  abbrev pub relay : State → Buffer → Buffer × List Effect
  relay client buf =
      if same_state client connected
      then (retrieve_all buf, relays (content buf) ∷ [])
      else (buf, [])

  -- `tunnel` says whether there is one, and `context` is the state of the connection in the context,
  -- if there is one.
  unfoldable pub on_server_message :
      Bool → Option State → Buffer → Outcome (Bool × Buffer × List Effect)
  unfolding on_request
  on_server_message tunnel context buf = elim tunnel [
    | false ↦ on_request buf
    | true ↦ elim context [
      | none ↦ ok (true, buf, [])
      | some client ↦ let relayed = relay client buf in ok (true, relayed.0, relayed.1)
    ]
  ]
