-- ===== src/Net/TcpClient.antt =====
-- arale/net/TcpClient.h and TcpClient.cc: the one connection of a client, over its Connector.
pub mod Cycles
mod Tests
use arale.Prelude.{
  ℕ, suc, Bool, true, false, ◌&&◌, List, [], ◌∷◌, ◌++◌, map, Option, none, some, Outcome, ok, ◌>>=◌,
  ◌>>◌, assert, ◌==◌, take,
}
use arale.Net.Http.Text.{Bytes, decimal, same_bytes}
use arale.Net.Connector.{Connector, new_connector, Connect, handed_on}
use arale.Net.Connector

-- A `TcpConnection`, as far as the client goes.
pub record Conn : Type 0 where
  pub name : Bytes
  pub socket : ℕ

pub record Client : Type 0 where
  pub name : Bytes
  pub conn_id : ℕ
  pub retry : Bool
  pub wanted : Bool
  pub connector : Connector
  pub connection : Option Conn

-- The constructor. `wanted` is the field `connect_`.
abbrev pub new_client : Bytes → Client
new_client name = record {
  name = name;
  conn_id = 1;
  retry = false;
  wanted = true;
  connector = new_connector;
  connection = none;
}

abbrev pub enable_retry : Client → Client
enable_retry c = record c { retry = true }

-- What the connector does, what is done with a connection, and what is posted for it.
pub data Effect : Type 0 where
  connector_does : Connector.Effect → Effect
  establishes shuts forces_close sets_close_callback posts_destroy : Conn → Effect

abbrev pub Handler : Type 0
Handler = Client → Outcome (Client × List Effect)

-- A call of the connector.
unfoldable pub by_connector : Connector.Handler → Handler
by_connector h c = do
  (d, es) ← h c.connector
  ok (record c { connector = d }, map connector_does es)

unfoldable pub connect : Bool → Connect → Handler
unfolding by_connector Connector.start
connect in_loop r c = by_connector (Connector.start in_loop r) (record c { wanted = true })

unfoldable pub stop : Bool → Handler
unfolding by_connector Connector.stop
stop in_loop c = by_connector (Connector.stop in_loop) (record c { wanted = false })

unfoldable pub disconnect : Handler
disconnect c = elim c.connection [
  | none ↦ ok (record c { wanted = false }, [])
  | some n ↦ ok (record c { wanted = false }, shuts n ∷ [])
]

-- `name_` and what `snprintf` writes into 32 characters: `:%s#%d`. `peer` is the text of the peer's
-- address.
unfoldable pub conn_name : Client → Bytes → Bytes
conn_name c peer = c.name ++ take 31 (b':' ∷ (peer ++ b'#' ∷ decimal c.conn_id))

unfoldable pub new_connection : ℕ → Bytes → Handler
unfolding conn_name
new_connection fd peer c =
    let n : Conn = record { name = conn_name c peer; socket = fd } in
    ok (record c { conn_id = suc c.conn_id; connection = some n }, establishes n ∷ [])

-- The same object: names differ, and a socket is open once.
abbrev pub is_current : Option Conn → Conn → Bool
is_current none n = false
is_current (some m) n = same_bytes m.name n.name && m.socket == n.socket

unfoldable pub remove_connection : Connect → Conn → Handler
unfolding by_connector Connector.restart
remove_connection r n c = do
  assert (is_current c.connection n)
  let d = record c { connection = none }
  elim (c.retry && c.wanted) [
    | true ↦ do (e, es) ← by_connector (Connector.restart r) d; ok (e, posts_destroy n ∷ es)
    | false ↦ ok (d, posts_destroy n ∷ [])
  ]

-- `unique` says whether nobody else holds the connection.
unfoldable pub destroy : Bool → Bool → Handler
unfolding by_connector Connector.stop
destroy in_loop unique c = elim c.connection [
  | none ↦ by_connector (Connector.stop in_loop) c
  | some n ↦ elim unique [
    | true ↦ ok (c, sets_close_callback n ∷ forces_close n ∷ [])
    | false ↦ ok (c, sets_close_callback n ∷ [])
  ]
]

-- The connector's channel is writable: if it hands a socket on, there is a new connection.
abbrev pub hands_on : List Connector.Effect → Bool
hands_on [] = false
hands_on (handed_on ∷ es) = true
hands_on (_ ∷ es) = hands_on es

unfoldable pub writable : Bool → Bool → ℕ → Bytes → Handler
unfolding Connector.handle_write new_connection
writable error self_connect fd peer c = do
  (d, es) ← Connector.handle_write error self_connect c.connector
  let e = record c { connector = d }
  elim (hands_on es) [
    | false ↦ ok (e, map connector_does es)
    | true ↦ do (f, fs) ← new_connection fd peer e; ok (f, map connector_does es ++ fs)
  ]

unfoldable pub reset_channel : Handler
unfolding by_connector Connector.reset_channel
reset_channel c = by_connector Connector.reset_channel c
