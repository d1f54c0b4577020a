-- ===== src/Net/Connector.antt =====
-- arale/net/Connector.h and Connector.cc: one connection attempt after another. The results of the
-- system calls are arguments; sockets made, closed and handed on, and what is left to the loop's
-- timers and queue, are effects.
pub mod Sockets
pub mod Accounts
mod Tests
use arale.Prelude.{
  ℕ, ◌+◌, ◌*◌, ◌-◌, ltb, min, Bool, true, false, not, ◌&&◌, ◌||◌, List, [], ◌∷◌, ◌++◌, Outcome, ok,
  assertion, undefined, ◌>>=◌, ◌>>◌, assert, access, if◌then◌else◌,
}

pub data State : Type 0 where
  disconnected connecting connected : State

abbrev pub same_state : State → State → Bool
same_state disconnected disconnected = true
same_state connecting connecting = true
same_state connected connected = true
same_state _ _ = false

-- `connectChannel_`: null, in the poller, or removed from it and not yet reset.
pub data ConnectChannel : Type 0 where
  null polled detached : ConnectChannel

abbrev pub is_null : ConnectChannel → Bool
is_null null = true
is_null _ = false

abbrev pub max_retry_delay_ms : ℕ
max_retry_delay_ms = 30 * 1000

abbrev pub init_retry_delay_ms : ℕ
init_retry_delay_ms = 500

pub record Connector : Type 0 where
  pub state : State
  pub wanted : Bool
  pub channel : ConnectChannel
  pub retry_delay_ms : ℕ

-- The constructor. `wanted` is the field `connected_`.
abbrev pub new_connector : Connector
new_connector = record {
  state = disconnected;
  wanted = false;
  channel = null;
  retry_delay_ms = init_retry_delay_ms;
}

pub data Effect : Type 0 where
  opened closed handed_on : Effect
  -- `runAfter` with `startInLoop`, and what is posted to the loop.
  starts_after : ℕ → Effect
  posts_start posts_stop posts_reset : Effect

-- The three groups of results of `connect`: under way, to be tried again, or without hope.
pub data Connect : Type 0 where
  under_way try_again hopeless : Connect

abbrev pub Handler : Type 0
Handler = Connector → Outcome (Connector × List Effect)

unfoldable pub retry : Handler
retry c =
    if c.wanted
    then ok (
      record c {
        state = disconnected;
        retry_delay_ms = min (c.retry_delay_ms * 2) max_retry_delay_ms;
      },
      closed ∷ starts_after c.retry_delay_ms ∷ [],
    )
    else ok (record c { state = disconnected }, closed ∷ [])

-- The name `connecting` is that of a state.
unfoldable pub begin_connecting : Handler
begin_connecting c = do
  assert c.wanted
  assert (is_null c.channel)
  ok (record c { state = connecting; channel = polled }, [])

unfoldable pub connect : Connect → Handler
unfolding retry begin_connecting
connect under_way c = do (d, es) ← begin_connecting c; ok (d, opened ∷ es)
connect try_again c = do (d, es) ← retry c; ok (d, opened ∷ es)
connect hopeless c = ok (c, opened ∷ closed ∷ [])

unfoldable pub start_in_loop : Connect → Handler
unfolding connect
start_in_loop r c = do
  assert (same_state c.state disconnected)
  let connect_now = connect r c
  if c.wanted then connect_now else ok (c, [])

unfoldable pub start : Bool → Connect → Handler
unfolding start_in_loop
start in_loop r c =
    if in_loop
    then start_in_loop r (record c { wanted = true })
    else ok (record c { wanted = true }, posts_start ∷ [])

-- A null channel is dereferenced.
unfoldable pub remove_and_reset_channel : Handler
remove_and_reset_channel c = do
  access (not (is_null c.channel))
  ok (record c { channel = detached }, posts_reset ∷ [])

unfoldable pub reset_channel : Handler
reset_channel c = ok (record c { channel = null }, [])

unfoldable pub detach_then : Handler → Handler
unfolding remove_and_reset_channel
detach_then f c = do (d, es) ← remove_and_reset_channel c; (e, fs) ← f d; ok (e, es ++ fs)

-- Whether the socket has an error, and whether it is connected to itself.
unfoldable pub after_connect : Bool → Bool → Handler
unfolding retry
after_connect error self_connect c =
    if error || self_connect
    then retry c
    else if c.wanted
    then ok (record c { state = connected }, handed_on ∷ [])
    else ok (record c { state = disconnected }, closed ∷ [])

unfoldable pub handle_write : Bool → Bool → Handler
unfolding detach_then after_connect
handle_write error self_connect c =
    if same_state c.state connecting
    then detach_then (after_connect error self_connect) c
    else (assert (same_state c.state disconnected) >> ok (c, []))

unfoldable pub handle_error : Handler
unfolding detach_then retry
handle_error c = if same_state c.state connecting then detach_then retry c else ok (c, [])

unfoldable pub stop_in_loop : Handler
unfolding detach_then retry
stop_in_loop c =
    if same_state c.state connecting
    then detach_then retry (record c { state = disconnected })
    else ok (c, [])

unfoldable pub stop : Bool → Handler
unfolding stop_in_loop
stop in_loop c =
    if in_loop
    then stop_in_loop (record c { wanted = false })
    else ok (record c { wanted = false }, posts_stop ∷ [])

unfoldable pub restart : Connect → Handler
unfolding start_in_loop
restart r c =
    start_in_loop r
      (record c { wanted = true; state = disconnected; retry_delay_ms = init_retry_delay_ms })

-- What may happen to a connector: calls, and what the loop runs for it.
pub data Event : Type 0 where
  starts : Bool → Connect → Event
  stops : Bool → Event
  restarts runs_start : Connect → Event
  writable : Bool → Bool → Event
  fails runs_stop runs_reset : Event

abbrev pub handler : Event → Handler
handler (starts b r) = start b r
handler (stops b) = stop b
handler (restarts r) = restart r
handler (runs_start r) = start_in_loop r
handler (writable e s) = handle_write e s
handler fails = handle_error
handler runs_stop = stop_in_loop
handler runs_reset = reset_channel

-- The connector and how often `resetChannel` waits in the loop's queue.
pub record Loop : Type 0 where
  pub connector : Connector
  pub posted : ℕ

abbrev pub new_loop : Loop
new_loop = record { connector = new_connector; posted = 0 }

abbrev pub resets : List Effect → ℕ
resets [] = 0
resets (posts_reset ∷ es) = 1 + resets es
resets (_ ∷ es) = resets es

-- An event; the loop runs `resetChannel` only when it has been posted.
abbrev pub step : Event → Loop → Outcome (Loop × List Effect)
step runs_reset m =
    if ltb 0 m.posted
    then (reset_channel m.connector >>= λ r.
        ok (record { connector = r.0; posted = m.posted - 1 }, r.1))
    else ok (m, [])
step e m = handler e m.connector >>= λ r.
    ok (record { connector = r.0; posted = resets r.1 + m.posted }, r.1)

unfoldable pub happen : List Event → Loop → Outcome (Loop × List Effect)
unfolding start stop restart start_in_loop handle_write handle_error stop_in_loop reset_channel
happen [] m = ok (m, [])
happen (e ∷ es) m = do (n, fs) ← step e m; (o, gs) ← happen es n; ok (o, fs ++ gs)
