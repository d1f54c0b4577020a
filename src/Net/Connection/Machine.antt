-- ===== src/Net/Connection/Machine.antt =====
-- TcpConnection.cc with the event loop's queue of functors: the events of a connection's life one
-- after another, in any order that callers, the socket and the poller may bring them.
use arale.Prelude.{
  ℕ, ◌<◌, ◌≢◌, ◌≡◌, refl, subst, Bool, true, false, List, [], ◌∷◌, ◌++◌, Outcome, ok, assertion,
  thrown, undefined, ◌>>=◌, if◌then◌else◌, arith,
}
use arale.Net.Buffer.{Readv}
use arale.Net.Channel.{is_writing, disable_all, none_event}
use arale.Net.Connection.{
  State, connecting, connected, disconnecting, disconnected, Connection, Handler, Effect, posted,
  updated, connection_callback, close_callback, Write, Memory, Task, done, connection_established,
  connection_destroyed, handle_read, handle_write, shutdown, run_in_loop, close_channel,
  handle_close,
}
use arale.Net.Connection.Sending.{send, send_string}
use arale.Net.Connection.Control.{
  force_close, force_close_with_delay, start_read, stop_read, run_task, is_open,
  force_close_in_loop,
}
use arale.Net.Connection.Life.{
  Sound, Sound-trans, SoundRun, Keeps, Keeps-done, rank, total, one_shut,
}
use arale.Net.Connection.Handlers.{
  connection_established-Keeps, connection_destroyed-Keeps, handle_read-Keeps, handle_write-Keeps,
}
use arale.Net.Connection.Requests.{
  shutdown-Keeps, send-Keeps, send_string-Keeps, force_close-Keeps, force_close_with_delay-Keeps,
  start_read-Keeps, stop_read-Keeps, run_task-Keeps,
}

-- The connection and the functors that wait in the loop, the oldest first.
pub record Loop : Type 0 where
  pub connection : Connection
  pub pending : List Task

-- What may happen next. The flag of a request is whether it is made in the loop's thread, and a
-- memory is that of the moment; the
-- timer of `close_later` is a `force_closes true`.
pub data Event : Type 0 where
  established destroyed : Event
  readable : Readv → Event
  writable : Write → Event
  sends : Bool → Memory → Write → ℕ → ℕ → Event
  sends_string : Bool → Write → List ℕ → Event
  shuts_down force_closes starts_reading stops_reading : Bool → Event
  closes_later : Event
  -- The loop runs its oldest functor.
  runs : Memory → Write → Event

abbrev pub posts : List Effect → List Task
posts [] = []
posts (posted t ∷ es) = t ∷ posts es
posts (_ ∷ es) = posts es

abbrev pub run_first : Memory → Write → List Task → Handler
run_first memory w [] = done
run_first memory w (t ∷ ts) = run_task t memory w

abbrev pub rest : List Task → List Task
rest [] = []
rest (t ∷ ts) = ts

abbrev pub handler : Event → List Task → Handler
handler established ts = connection_established
handler destroyed ts = connection_destroyed
handler (readable r) ts = handle_read r
handler (writable w) ts = handle_write w
handler (sends b memory w start len) ts = send b memory w start len
handler (sends_string b w msg) ts = send_string b w msg
handler (shuts_down b) ts = shutdown b
handler (force_closes b) ts = force_close b
handler (starts_reading b) ts = start_read b
handler (stops_reading b) ts = stop_read b
handler closes_later ts = force_close_with_delay
handler (runs memory w) ts = run_first memory w ts

abbrev pub waiting : Event → List Task → List Task
waiting (runs memory w) ts = rest ts
waiting _ ts = ts

unfoldable pub step : Event → Loop → Outcome (Loop × List Effect)
unfolding connection_established connection_destroyed handle_read handle_write send send_string
    shutdown force_close start_read stop_read force_close_with_delay run_task
step e m = do
  (c, es) ← handler e m.pending m.connection
  ok (record { connection = c; pending = waiting e m.pending ++ posts es }, es)

-- One event after another, with all their effects.
unfoldable pub happen : List Event → Loop → Outcome (Loop × List Effect)
unfolding step
happen [] m = ok (m, [])
happen (e ∷ es) m = do (n, fs) ← step e m; (o, gs) ← happen es n; ok (o, fs ++ gs)

handler-Keeps : (e : Event) (ts : List Task) (c : Connection) → Keeps c (handler e ts c)
handler-Keeps established ts c = connection_established-Keeps c
handler-Keeps destroyed ts c = connection_destroyed-Keeps c
handler-Keeps (readable r) ts c = handle_read-Keeps r c
handler-Keeps (writable w) ts c = handle_write-Keeps w c
handler-Keeps (sends b memory w start len) ts c = send-Keeps b memory w start len c
handler-Keeps (sends_string b w msg) ts c = send_string-Keeps b w msg c
handler-Keeps (shuts_down b) ts c = shutdown-Keeps b c
handler-Keeps (force_closes b) ts c = force_close-Keeps b c
handler-Keeps (starts_reading b) ts c = start_read-Keeps b c
handler-Keeps (stops_reading b) ts c = stop_read-Keeps b c
handler-Keeps closes_later ts c = force_close_with_delay-Keeps c
handler-Keeps (runs memory w) [] c = Keeps-done c
handler-Keeps (runs memory w) (t ∷ ts) c = run_task-Keeps t memory w c

-- What a run of the whole keeps of the connection.
abbrev RunSound : Loop → Outcome (Loop × List Effect) → Type 0
RunSound m (ok (n, fs)) = Sound m.connection n.connection fs
RunSound m assertion = Unit
RunSound m thrown = Unit
RunSound m undefined = Unit

step-RunSound : (e : Event) (m : Loop) → RunSound m (step e m)
unfolding step
step-RunSound e m =
    go (handler e m.pending m.connection) (handler-Keeps e m.pending m.connection).law
  where
    go :
        (o : Outcome (Connection × List Effect))
        → SoundRun m.connection o
        → RunSound m (
            o >>= λ r.
            ok (record { connection = r.0; pending = waiting e m.pending ++ posts r.1 }, r.1))
    go (ok (c, es)) s = s
    go assertion s = tt
    go thrown s = tt
    go undefined s = tt

happen-RunSound : (es : List Event) (m : Loop) → RunSound m (happen es m)
unfolding happen
happen-RunSound [] m = (Keeps-done m.connection).law
happen-RunSound (e ∷ es) m = go (step e m) (step-RunSound e m) (λ n. happen-RunSound es n)
  where
    after :
        (n : Loop) (fs : List Effect) (o : Outcome (Loop × List Effect))
        → Sound m.connection n.connection fs
        → RunSound n o
        → RunSound m (o >>= λ r. ok (r.0, fs ++ r.1))
    after l fs (ok (n, gs)) s t = Sound-trans fs gs s t
    after l fs assertion s t = tt
    after l fs thrown s t = tt
    after l fs undefined s t = tt

    go :
        (o : Outcome (Loop × List Effect))
        → RunSound m o
        → ((n : Loop) → RunSound n (happen es n))
        → RunSound m (o >>= λ r. happen es r.0 >>= λ q. ok (q.0, r.1 ++ q.1))
    go (ok (n, fs)) s k = after n fs (happen es n) s (k n)
    go assertion s k = tt
    go thrown s k = tt
    go undefined s k = tt

-- When any sequence of a connection's events and queued functors returns, the states have only
-- gone forward, the connection callback has reported up and down as often as the connection has
-- become so, and a channel that waited for writing still waits with the write side not shut unless
-- the connection is closed.
pub happen-Sound :
    (es : List Event) (m n : Loop) (fs : List Effect)
    → happen es m ≡ ok (n, fs)
    → Sound m.connection n.connection fs
happen-Sound es m n fs h = subst (RunSound m) h (happen-RunSound es m)

-- Once the channel waits for writing, no sequence of events shuts the write side unless the
-- connection is closed otherwise, even when all bytes are written.
never_shut :
    (es : List Event) (m n : Loop) (fs : List Effect)
    → is_writing m.connection.channel ≡ true
    → happen es m ≡ ok (n, fs)
    → n.connection.state ≢ disconnected
    → total one_shut fs ≡ 0
never_shut es m n fs w r k =
    ((happen-Sound es m n fs r).writing w (not_closed n.connection.state k)).1
  where
    not_closed : (s : State) → s ≢ disconnected → rank s < 3
    not_closed connecting o = omega arith
    not_closed connected o = omega arith
    not_closed disconnecting o = omega arith
    not_closed disconnected o = absurd (o refl)

-- forceClose in the loop thread turns all events of an open connection off, reports down and tells
-- the owner, in this order, changes nothing else of it, and does nothing to a connection that is
-- not open.
force_close-Closes :
    (c : Connection)
    → force_close true c ≡ (
        if is_open c.state
        then ok (
          record c { state = disconnected; channel = disable_all c.channel },
          updated none_event ∷ connection_callback disconnected ∷ close_callback ∷ [],
        )
        else ok (c, []))
unfolding force_close force_close_in_loop handle_close close_channel run_in_loop is_open
force_close-Closes c = ground arith

-- Two calls of forceClose from other threads on an open connection fail an assertion when the loop
-- gets to the second.
force_close-twice :
    (memory : Memory) (v w : Write) (c : Connection)
    → is_open c.state ≡ true
    → happen
        (force_closes false ∷ force_closes false ∷ runs memory v ∷ runs memory w ∷ [])
        (record { connection = c; pending = [] })
      ≡ assertion
unfolding happen step force_close force_close_in_loop handle_close close_channel run_in_loop is_open
    run_task
force_close-twice memory v w c o = ground arith
