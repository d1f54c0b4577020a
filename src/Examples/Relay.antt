-- ===== src/Examples/Relay.antt =====
-- arale/examples/socks4a/Tunnel.h and TcpRelay.cc: bytes that are passed on between a connection
-- of the server and one of a client, in both directions.
pub mod Traffic
pub mod Changes
pub mod Steps
pub mod Stream
mod Tests
use arale.Prelude.{
  ℕ, Bool, true, false, not, List, [], ◌∷◌, ◌++◌, ◌&&◌, Option, none, some, Outcome, ok, ◌>>=◌,
  ◌>>◌, assert, if◌then◌else◌, ◌==◌,
}
use arale.Net.Http.Text.{Bytes}
use arale.Net.Epoll.{at}
use arale.Net.Connection.{State, connecting, connected, disconnecting, disconnected, same_state}

-- A connection of the server, by its number, with its tunnel: the context, which is the client's
-- connection, the bytes in its input buffer, whether the client still has the callbacks of the
-- tunnel, and the states of the two connections. `serverConnection_` of a tunnel is never reset.
pub record Session : Type 0 where
  pub context : Option ℕ
  pub input : Bytes
  pub callbacks : Bool
  pub server : State
  pub client : State

-- `g_tunnels` says which connections have a tunnel in the map. The names of connections are
-- different.
pub record Relay : Type 0 where
  pub sessions : ℕ → Session
  pub tunnels : ℕ → Bool

abbrev pub new_session : Session
new_session = record {
  context = none;
  input = [];
  callbacks = false;
  server = connecting;
  client = connecting;
}

abbrev pub new_relay : Relay
new_relay = record { sessions = λ s. new_session; tunnels = λ s. false }

-- Bytes to the client's connection of a session or to the server's, calls of the tunnel's client,
-- and the shutdown of the server's connection.
pub data Effect : Type 0 where
  to_client to_server : ℕ → Bytes → Effect
  connects disconnects shuts : ℕ → Effect

abbrev pub put_session : ℕ → Session → Relay → Relay
put_session s x r = record r { sessions = at s x r.sessions }

-- `TcpConnection::shutdown`, which only an open connection heeds.
abbrev pub shut : State → State
shut c = if same_state c connected then disconnecting else c

-- `disconnect` of the tunnel's client shuts its connection, if there is one.
abbrev pub disconnect_client : Session → Session
disconnect_client x = record x { client = shut x.client }

-- `setup` and `connect` of a new tunnel, or `disconnect` of the one in the map. The connection is
-- in its new state when it calls back.
unfoldable pub on_server_connection : Bool → ℕ → Relay → Outcome (Relay × List Effect)
on_server_connection true s r = do
  assert (not (r.tunnels s))
  ok (
    put_session s (record (r.sessions s) { callbacks = true; server = connected })
        (record r { tunnels = at s true r.tunnels }),
    connects s ∷ [],
  )
on_server_connection false s r = do
  assert (r.tunnels s)
  ok (
    put_session s (disconnect_client (record (r.sessions s) { server = disconnected }))
        (record r { tunnels = at s false r.tunnels }),
    disconnects s ∷ [],
  )

-- `clientConn->send(buf)` takes all bytes out of the buffer while the client's connection is in the
-- state `kConnected`, and does nothing otherwise.
abbrev pub send_input : ℕ → Session → Session × List Effect
send_input s x =
    if same_state x.client connected
    then (record x { input = [] }, to_client s x.input ∷ [])
    else (x, [])

abbrev pub pass_on : ℕ → Session → Session × List Effect
pass_on s x = elim x.context [ none ↦ (x, []) | some c ↦ send_input s x ]

unfoldable pub on_server_message : ℕ → Bytes → Relay → Relay × List Effect
on_server_message s bytes r =
    let x = r.sessions s in
    let passed = pass_on s (record x { input = x.input ++ bytes }) in
    (put_session s passed.0 r, passed.1)

abbrev pub teardown : ℕ → Session → Session × List Effect
teardown s x =
    (record x { context = none; callbacks = false; server = shut x.server }, shuts s ∷ [])

abbrev pub send_waiting : ℕ → Session → Session × List Effect
send_waiting s x = elim x.input [ [] ↦ (x, []) | b ∷ bs ↦ send_input s x ]

abbrev pub turn_client : Option ℕ → ℕ → Session → Session × List Effect
turn_client (some c) s x = send_waiting s (record x { context = some c })
turn_client none s x = teardown s x

abbrev pub client_state : Option ℕ → State
client_state (some c) = connected
client_state none = disconnected

-- A connection whose client has the default callbacks is only logged.
unfoldable pub on_client_connection : Option ℕ → ℕ → Relay → Relay × List Effect
on_client_connection up s r =
    let x : Session = record (r.sessions s) { client = client_state up } in
    let turned = turn_client up s x in
    if x.callbacks then (put_session s turned.0 r, turned.1) else (put_session s x r, [])

-- `serverConnection_->send(buf)` does nothing unless the server's connection is in the state
-- `kConnected`, to which it does not come back: what it leaves in the client's buffer is never sent.
-- `defaultMessageCallback` drops the bytes.
unfoldable pub on_client_message : ℕ → Bytes → Relay → Relay × List Effect
on_client_message s bytes r =
    let x = r.sessions s in
    (r, if x.callbacks && same_state x.server connected then to_server s bytes ∷ [] else [])

-- `alive` says whether the tunnel still exists.
unfoldable pub on_high_water_mark : Bool → ℕ → Relay → Relay × List Effect
on_high_water_mark true s r =
    (put_session s (disconnect_client (r.sessions s)) r, disconnects s ∷ [])
on_high_water_mark false s r = (r, [])

-- What happens, with the session that it happens to.
pub data Event : Type 0 where
  server_up server_down : ℕ → Event
  server_message client_message : ℕ → Bytes → Event
  client_up : ℕ → ℕ → Event
  client_down : ℕ → Event
  high_water_mark : Bool → ℕ → Event

unfoldable pub step : Event → Relay → Outcome (Relay × List Effect)
unfolding on_server_connection on_server_message on_client_connection on_client_message
    on_high_water_mark
step (server_up s) r = on_server_connection true s r
step (server_down s) r = on_server_connection false s r
step (server_message s bytes) r = ok (on_server_message s bytes r)
step (client_message s bytes) r = ok (on_client_message s bytes r)
step (client_up s c) r = ok (on_client_connection (some c) s r)
step (client_down s) r = ok (on_client_connection none s r)
step (high_water_mark alive s) r = ok (on_high_water_mark alive s r)

unfoldable pub run : List Event → Relay → Outcome (Relay × List Effect)
unfolding step
run [] r = ok (r, [])
run (e ∷ es) r = do (t, fs) ← step e r; (u, gs) ← run es t; ok (u, fs ++ gs)
