-- ===== src/Examples/Balancer.antt =====
-- arale/examples/socks4a/Balancer.cc: a relay that gives each connection the next of its backends.
pub mod Turns
mod Tests
use arale.Prelude.{
  ℕ, zero, suc, ◌+◌, ◌-◌, ◌%◌, ◌^◌, min, Bool, true, false, not, List, [], ◌∷◌, ◌++◌, Option, none,
  some, Outcome, ok, undefined, ◌>>=◌, ◌>>◌, assert, access, ◌==◌, ltb, if◌then◌else◌, length,
}
use arale.Net.Http.Text.{Bytes, is_space, split_at_byte}
use arale.Examples.Multiplexer.Backend.{number_from}
use arale.Net.Epoll.{at}

-- An `InetAddress`: four bytes and a port, the latter in the order of the host.
pub record Backend : Type 0 where
  pub ip : Bytes
  pub port : ℕ

-- `static_cast<uint16_t>(atoi(...))` behind space: `atoi` is `strtol`, which stops at the bounds of a
-- `long`, and the casts keep the last 16 bits.
unfoldable pub signed_port : Bytes → ℕ
unfolding number_from
signed_port [] = 0
signed_port (c ∷ cs) =
    if c == b'-'
    then (2 ^ 16 - min (number_from 0 cs) (2 ^ 63) % 2 ^ 16) % 2 ^ 16
    else if c == b'+'
    then min (number_from 0 cs) (2 ^ 63 - 1) % 2 ^ 16
    else min (number_from 0 (c ∷ cs)) (2 ^ 63 - 1) % 2 ^ 16

unfoldable pub port_of : Bytes → ℕ
unfolding signed_port
port_of [] = 0
port_of (c ∷ cs) = let rest = port_of cs in if is_space c then rest else signed_port (c ∷ cs)

-- `fromIpPort`: an address that `inet_pton` refuses stays 0.
abbrev pub ip_of : Option Bytes → Bytes
ip_of none = 0 ∷ 0 ∷ 0 ∷ 0 ∷ []
ip_of (some ip) = ip

-- `inet_pton` is the C library's.
module _ (inet_pton : Bytes → Option Bytes) where
  -- `hostport.find(':')`, and the address of what stands before and behind.
  unfoldable pub parse_backend : Bytes → Option Backend
  unfolding split_at_byte port_of
  parse_backend hostport = elim (split_at_byte b':' hostport) [
    | none ↦ none
    | some (ip, port) ↦ some (record { ip = ip_of (inet_pton ip); port = port_of port })
  ]

  abbrev pub add_backend : Option Backend → Option (List Backend) → Option (List Backend)
  add_backend none bs = none
  add_backend (some b) none = none
  add_backend (some b) (some bs) = some (b ∷ bs)

  abbrev pub parse_backends : List Bytes → Option (List Backend)
  parse_backends [] = some []
  parse_backends (host ∷ hosts) = add_backend (parse_backend host) (parse_backends hosts)

  -- The loop of `main`, which starts at `argv[2]`; none if an address has no colon.
  abbrev pub read_args : List Bytes → Option (List Backend)
  read_args [] = some []
  read_args (program ∷ []) = some []
  read_args (program ∷ first ∷ hosts) = parse_backends hosts

-- A connection is a number. The threads' maps are one, since each connection is in one of them.
pub record Balancer : Type 0 where
  pub backends : List Backend
  pub next_index : ℕ
  pub tunnels : ℕ → Bool

abbrev pub new_balancer : List Backend → Balancer
new_balancer bs = record { backends = bs; next_index = 0; tunnels = λ c. false }

pub data Effect : Type 0 where
  connects : ℕ → Backend → Effect
  disconnects : ℕ → Effect

-- `g_backends[index]`.
abbrev pub backend_at : ℕ → List Backend → Outcome Backend
backend_at i [] = undefined
backend_at zero (b ∷ bs) = ok b
backend_at (suc i) (b ∷ bs) = backend_at i bs

-- A remainder by 0 is undefined.
unfoldable pub next_backend : Balancer → Outcome (Backend × Balancer)
next_backend s = do
  access (ltb 0 (length s.backends))
  b ← backend_at s.next_index s.backends
  ok (b, record s { next_index = (s.next_index + 1) % length s.backends })

unfoldable pub on_server_connection : Bool → ℕ → Balancer → Outcome (Balancer × List Effect)
unfolding next_backend
on_server_connection true c s = do
  assert (not (s.tunnels c))
  (b, t) ← next_backend s
  ok (record t { tunnels = at c true t.tunnels }, connects c b ∷ [])
on_server_connection false c s = do
  assert (s.tunnels c)
  ok (record s { tunnels = at c false s.tunnels }, disconnects c ∷ [])

-- Connections that come up, one after another.
unfoldable pub connect_each : List ℕ → Balancer → Outcome (Balancer × List Effect)
unfolding on_server_connection
connect_each [] s = ok (s, [])
connect_each (c ∷ cs) s = do
  (t, es) ← on_server_connection true c s
  (u, fs) ← connect_each cs t
  ok (u, es ++ fs)
