-- ===== src/Net/TcpClient/Cycles.antt =====
-- TcpClient.cc with Connector.cc: a client with retry connects again whenever its connection closes.
use arale.Prelude.{
  ℕ, suc, ◌≡◌, refl, ap, ◌∙◌, Bool, true, false, List, [], ◌∷◌, ◌++◌, none, some, Outcome, ok,
  ◌>>=◌, ◌==◌, arith,
}
use arale.Net.Http.Text.{Bytes, same_bytes_refl}
use arale.Net.Connector.{
  Connector, connecting, connected, polled, null, init_retry_delay_ms, under_way,
}
use arale.Net.Connector
use arale.Net.TcpClient.{
  Conn, Client, Effect, shuts, posts_destroy, disconnect, writable, reset_channel,
  remove_connection,
}

-- Waiting for its socket to be connected.
abbrev pub waiting : Bytes → ℕ → ℕ → Client
waiting name id delay = record {
  name = name;
  conn_id = id;
  retry = true;
  wanted = true;
  connector = record {
    state = connecting;
    wanted = true;
    channel = polled;
    retry_delay_ms = delay;
  };
  connection = none;
}

-- The socket `fd` is connected, the channel is reset, and then the connection closes.
pub cycle : ℕ × Bytes → Client → Outcome Client
cycle (fd, peer) c = do
  (d, es) ← writable false false fd peer c
  (e, fs) ← reset_channel d
  elim e.connection [ none ↦ ok e | some n ↦ do (f, gs) ← remove_connection under_way n e; ok f ]

pub cycles : List (ℕ × Bytes) → Client → Outcome Client
unfolding cycle
cycles [] c = ok c
cycles (v ∷ vs) c = cycle v c >>= λ d. cycles vs d

abbrev pub after : List (ℕ × Bytes) → ℕ → ℕ
after [] id = id
after (v ∷ vs) id = after vs (suc id)

abbrev pub delay_after : List (ℕ × Bytes) → ℕ → ℕ
delay_after [] delay = delay
delay_after (v ∷ vs) delay = init_retry_delay_ms

-- After disconnect or stop the close of the connection starts nothing.
pub stays_closed : Conn → Client → Outcome (Client × List Effect)
stays_closed n c = do
  (d, es) ← disconnect c
  (e, fs) ← remove_connection under_way n d
  ok (e, es ++ fs)

stays_closed_with :
    (n : Conn) (name : Bytes) (id : ℕ) (retry wanted : Bool) (d : Connector)
    → stays_closed n (record {
      name = name;
      conn_id = id;
      retry = retry;
      wanted = wanted;
      connector = d;
      connection = some n;
    })
      ≡ ok (
        record {
          name = name;
          conn_id = id;
          retry = retry;
          wanted = false;
          connector = d;
          connection = none;
        },
        shuts n ∷ posts_destroy n ∷ [],
      )
unfolding stays_closed disconnect remove_connection
stays_closed_with n name id true wanted d =
    let t : (n.socket == n.socket) ≡ true = ground arith in rw (same_bytes_refl n.name) (rw t refl)
stays_closed_with n name id false wanted d =
    let t : (n.socket == n.socket) ≡ true = ground arith in rw (same_bytes_refl n.name) (rw t refl)

-- After disconnect of a connected client the close of the connection leaves it without a
-- connection and its connector as it was, and what happens is a shutdown and the posted
-- destruction.
stays_closed_lem :
    (n : Conn) (c : Client)
    → c.connection ≡ some n
    → stays_closed n c
      ≡ ok (record c { wanted = false; connection = none }, shuts n ∷ posts_destroy n ∷ [])
stays_closed_lem n c e =
    ap (λ o. stays_closed n (record c { connection = o })) e
    ∙ stays_closed_with n c.name c.conn_id c.retry c.wanted c.connector
