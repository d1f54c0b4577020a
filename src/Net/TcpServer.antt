-- ===== src/Net/TcpServer.antt =====
-- arale/net/TcpServer.h and TcpServer.cc: the connections of a server, by their names.
pub mod Names
pub mod Live
mod Tests
use arale.Prelude.{
  ℕ, suc, ◌+◌, Bool, true, false, not, List, [], ◌∷◌, ◌++◌, Option, none, some, Outcome, ok, ◌>>=◌,
  ◌>>◌, assert, access, ltb, ◌^◌, ◌==◌, if◌then◌else◌, take,
}
use arale.Net.Http.Text.{Bytes, decimal, same_bytes}
use arale.Net.Epoll.{at}
use arale.Net.ThreadPool.{Pool, new_pool, get_next_loop}
use arale.Net.ThreadPool

-- A `TcpConnection`, as far as the server goes.
pub record Conn : Type 0 where
  pub name : Bytes
  pub loop : ℕ
  pub socket : ℕ

-- `connections_` is a function from names, and `started_` the number of calls of `start`.
pub record Server : Type 0 where
  pub name : Bytes
  pub ip_port : Bytes
  pub next_conn_id : ℕ
  pub pool : Pool
  pub connections : Bytes → Option Conn
  pub started : ℕ
  pub listening : Bool

abbrev pub new_server : ℕ → Bytes → Bytes → Server
new_server loop name ip_port = record {
  name = name;
  ip_port = ip_port;
  next_conn_id = 1;
  pool = new_pool loop;
  connections = λ n. none;
  started = 0;
  listening = false;
}

-- What is run in the connection's loop at once, what is posted to it, and what the server's own
-- loop does.
pub data Task : Type 0 where
  establishes destroys : Conn → Task
  listens : Task

-- `name_` and what `snprintf` writes into 64 characters: `-%s#%d`.
unfoldable pub conn_name : Server → ℕ → Bytes
conn_name s id = s.name ++ take 63 (b'-' ∷ (s.ip_port ++ b'#' ∷ decimal id))

abbrev pub put_name : Bytes → Option Conn → (Bytes → Option Conn) → Bytes → Option Conn
put_name n o m = λ x. if same_bytes x n then o else m x

abbrev pub accepted : ℕ → ℕ → Server → Conn
accepted loop fd s = record { name = conn_name s s.next_conn_id; loop = loop; socket = fd }

-- `++nextConnId_` of an `int`.
unfoldable pub new_connection : ℕ → Server → Outcome (Server × Conn × Task)
new_connection fd s = do
  (loop, pool) ← get_next_loop s.pool
  access (ltb (suc s.next_conn_id) (2 ^ 31))
  let c = accepted loop fd s
  ok (
    record s {
      next_conn_id = suc s.next_conn_id;
      pool = pool;
      connections = put_name c.name (some c) s.connections;
    },
    c,
    establishes c,
  )

abbrev pub is_some : Option Conn → Bool
is_some none = false
is_some (some c) = true

unfoldable pub remove_connection_in_loop : Conn → Server → Outcome (Server × Task)
remove_connection_in_loop c s = do
  assert (is_some (s.connections c.name))
  ok (record s { connections = put_name c.name none s.connections }, destroys c)

abbrev pub set_thread_num : ℕ → Server → Server
set_thread_num n s = record s { pool = record s.pool { thread_num = n } }

-- Only the first call does something. `thread` is the loops of the threads that are made.
unfoldable pub start : (ℕ → ℕ) → Server → Outcome (Server × List Task)
start thread s = elim (s.started == 0) [
  | false ↦ ok (record s { started = suc s.started }, [])
  | true ↦ do
    pool ← ThreadPool.start thread s.pool
    assert (not s.listening)
    ok (record s { started = suc s.started; pool = pool; listening = true }, listens ∷ [])
]

-- What happens to a server: a connection is accepted, or the one with a number is closed, if it
-- is open. The log has the open connections by their numbers.
pub data Event : Type 0 where
  accepts closes : ℕ → Event

abbrev pub Log : Type 0
Log = ℕ → Option Conn

unfoldable pub step : Event → Server → Log → Outcome (Server × Log)
unfolding new_connection remove_connection_in_loop
step (accepts fd) s log = do
  (t, c, task) ← new_connection fd s
  ok (t, at s.next_conn_id (some c) log)
step (closes id) s log = elim (log id) [
  | none ↦ ok (s, log)
  | some c ↦ do (t, task) ← remove_connection_in_loop c s; ok (t, at id none log)
]

unfoldable pub run : List Event → Server → Log → Outcome (Server × Log)
unfolding step
run [] s log = ok (s, log)
run (e ∷ es) s log = do (t, l) ← step e s log; run es t l
