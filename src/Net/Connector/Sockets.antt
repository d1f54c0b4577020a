-- ===== src/Net/Connector/Sockets.antt =====
-- Connector.cc: what each call does to the number of sockets and to the delay of a retry.
use arale.Prelude.{
  ℕ, ◌+◌, ◌*◌, ◌≤◌, ◌≡◌, ◌≢◌, refl, min, Bool, true, false, List, [], ◌∷◌, Outcome, ok, assertion,
  thrown, undefined, arith,
}
use arale.Net.Connector.{
  State, disconnected, connecting, connected, ConnectChannel, null, polled, detached,
  max_retry_delay_ms, init_retry_delay_ms, Connector, Effect, opened, closed, handed_on, Connect,
  under_way, try_again, hopeless, Handler, retry, begin_connecting, connect, start_in_loop, start,
  remove_and_reset_channel, detach_then, after_connect, handle_write, handle_error, stop_in_loop,
  stop, restart, Event, starts, stops, restarts, runs_start, writable, fails, runs_stop, runs_reset,
  handler, resets,
}

-- Sockets made, and sockets closed or handed on.
abbrev pub made : List Effect → ℕ
made [] = 0
made (opened ∷ es) = 1 + made es
made (_ ∷ es) = made es

abbrev pub given_up : List Effect → ℕ
given_up [] = 0
given_up (closed ∷ es) = 1 + given_up es
given_up (handed_on ∷ es) = 1 + given_up es
given_up (_ ∷ es) = given_up es

-- The socket of the channel that waits in the poller.
abbrev pub held : ConnectChannel → ℕ
held polled = 1
held _ = 0

pub record IsSound (c : Connector) : Type 0 where
  pub waits : c.state ≡ connecting → c.channel ≡ polled
  pub delay_first : init_retry_delay_ms ≤ c.retry_delay_ms
  pub delay_last : c.retry_delay_ms ≤ max_retry_delay_ms

-- A channel that is to be reset.
abbrev pub off : ConnectChannel → ℕ
off detached = 1
off _ = 0

-- A call that returns: sockets and channels add up, and the connector is sound again.
abbrev pub Balances : Connector → Outcome (Connector × List Effect) → Type 0
Balances c (ok (d, es)) =
    (made es + held c.channel ≡ given_up es + held d.channel)
    × (resets es + off c.channel ≡ off d.channel)
    × IsSound d
Balances c assertion = Unit
Balances c thrown = Unit
Balances c undefined = Unit

abbrev pub conn : State → Bool → ConnectChannel → ℕ → Connector
conn s w ch t = record { state = s; wanted = w; channel = ch; retry_delay_ms = t }

start_all :
    (r : Connect) (s : State) (w : Bool) (ch : ConnectChannel) (t : ℕ)
    → IsSound (conn s w ch t)
    → Balances (conn s w ch t) (start_in_loop r (conn s w ch t))
unfolding start_in_loop connect retry begin_connecting
start_all r connecting w ch t i = tt
start_all r connected w ch t i = tt
start_all r disconnected false ch t i = (omega arith, omega arith, i)
start_all under_way disconnected true null t i = (
  refl,
  refl,
  record { waits = λ e. refl; delay_first = i.delay_first; delay_last = i.delay_last },
)
start_all under_way disconnected true polled t i = tt
start_all under_way disconnected true detached t i = tt
start_all try_again disconnected true ch t i = (
  omega arith,
  omega arith,
  record { waits = λ e. cc; delay_first = omega (arith, i.delay_first); delay_last = omega arith },
)
start_all hopeless disconnected true ch t i = (omega arith, omega arith, i)

-- A state in which nothing waits, with the delay of a retry or as it was.
calm :
    (s : State) (w : Bool) (ch : ConnectChannel) (t : ℕ)
    → s ≢ connecting
    → init_retry_delay_ms ≤ t
    → t ≤ max_retry_delay_ms
    → IsSound (conn s w ch t)
calm s w ch t n k l = record { waits = λ e. absurd (n e); delay_first = k; delay_last = l }

-- What follows the removal of a channel that waits: its socket is closed or handed on.
Ends : Handler → Type 0
Ends f =
    (s : State) (w : Bool) (t : ℕ)
    → init_retry_delay_ms ≤ t
    → t ≤ max_retry_delay_ms
    → (d : Connector) × (es : List Effect) × (f (conn s w detached t) ≡ ok (d, es))
      × (made es ≡ 0)
      × (given_up es ≡ 1)
      × (resets es ≡ 0)
      × (d.channel ≡ detached)
      × IsSound d

retry-Ends : Ends retry
unfolding Ends retry
retry-Ends s true t k l = (
  _,
  _,
  refl,
  refl,
  refl,
  refl,
  refl,
  calm disconnected true detached (min (t * 2) max_retry_delay_ms) (λ e. cc) (omega arith)
      (omega arith),
)
retry-Ends s false t k l =
    (_, _, refl, refl, refl, refl, refl, calm disconnected false detached t (λ e. cc) k l)

after_connect-Ends : (error self_connect : Bool) → Ends (after_connect error self_connect)
unfolding Ends after_connect retry
after_connect-Ends true q s w t k l = retry-Ends s w t k l
after_connect-Ends false true s w t k l = retry-Ends s w t k l
after_connect-Ends false false s true t k l =
    (_, _, refl, refl, refl, refl, refl, calm connected true detached t (λ e. cc) k l)
after_connect-Ends false false s false t k l =
    (_, _, refl, refl, refl, refl, refl, calm disconnected false detached t (λ e. cc) k l)

detach-Balances :
    (f : Handler) (s : State) (w : Bool) (t : ℕ)
    → Ends f
    → init_retry_delay_ms ≤ t
    → t ≤ max_retry_delay_ms
    → Balances (conn s w polled t) (detach_then f (conn s w polled t))
unfolding detach_then remove_and_reset_channel Ends
detach-Balances f s w t h k l =
    let (d, es, e, m, g, r, c, i) = h s w t k l in rw (detach_then, e) (rw (m, g, c), rw (r, c), i)

handle_write-Balances :
    (error self_connect : Bool) (s : State) (w : Bool) (ch : ConnectChannel) (t : ℕ)
    → IsSound (conn s w ch t)
    → Balances (conn s w ch t) (handle_write error self_connect (conn s w ch t))
unfolding handle_write
handle_write-Balances p q disconnected w ch t i = (omega arith, omega arith, i)
handle_write-Balances p q connected w ch t i = tt
handle_write-Balances p q connecting w null t i = tt
handle_write-Balances p q connecting w detached t i = cc (i.waits refl)
handle_write-Balances p q connecting w polled t i =
    detach-Balances (after_connect p q) connecting w t (after_connect-Ends p q) i.delay_first
      i.delay_last

handle_error-Balances :
    (s : State) (w : Bool) (ch : ConnectChannel) (t : ℕ)
    → IsSound (conn s w ch t)
    → Balances (conn s w ch t) (handle_error (conn s w ch t))
unfolding handle_error
handle_error-Balances disconnected w ch t i = (omega arith, omega arith, i)
handle_error-Balances connected w ch t i = (omega arith, omega arith, i)
handle_error-Balances connecting w null t i = tt
handle_error-Balances connecting w detached t i = cc (i.waits refl)
handle_error-Balances connecting w polled t i =
    detach-Balances retry connecting w t retry-Ends i.delay_first i.delay_last

stop_in_loop-Balances :
    (s : State) (w : Bool) (ch : ConnectChannel) (t : ℕ)
    → IsSound (conn s w ch t)
    → Balances (conn s w ch t) (stop_in_loop (conn s w ch t))
unfolding stop_in_loop
stop_in_loop-Balances disconnected w ch t i = (omega arith, omega arith, i)
stop_in_loop-Balances connected w ch t i = (omega arith, omega arith, i)
stop_in_loop-Balances connecting w null t i = tt
stop_in_loop-Balances connecting w detached t i = cc (i.waits refl)
stop_in_loop-Balances connecting w polled t i =
    detach-Balances retry disconnected w t retry-Ends i.delay_first i.delay_last

-- What is wanted does not count.
same-IsSound :
    {s : State} {v w : Bool} {ch : ConnectChannel} {t : ℕ}
    → IsSound (conn s v ch t)
    → IsSound (conn s w ch t)
same-IsSound i = record { waits = i.waits; delay_first = i.delay_first; delay_last = i.delay_last }

pub handler-Balances :
    (e : Event) (s : State) (w : Bool) (ch : ConnectChannel) (t : ℕ)
    → IsSound (conn s w ch t)
    → ¬ (e ≡ runs_reset)
    → Balances (conn s w ch t) (handler e (conn s w ch t))
unfolding start stop restart
handler-Balances (starts true r) s w ch t i n = start_all r s true ch t (same-IsSound i)
handler-Balances (starts false r) s w ch t i n = (omega arith, omega arith, same-IsSound i)
handler-Balances (stops true) s w ch t i n = stop_in_loop-Balances s false ch t (same-IsSound i)
handler-Balances (stops false) s w ch t i n = (omega arith, omega arith, same-IsSound i)
handler-Balances (restarts r) s w ch t i n =
    start_all r disconnected true ch init_retry_delay_ms
      (calm disconnected true ch init_retry_delay_ms (λ e. cc) (omega arith) (omega arith))
handler-Balances (runs_start r) s w ch t i n = start_all r s w ch t i
handler-Balances (writable p q) s w ch t i n = handle_write-Balances p q s w ch t i
handler-Balances fails s w ch t i n = handle_error-Balances s w ch t i
handler-Balances runs_stop s w ch t i n = stop_in_loop-Balances s w ch t i
handler-Balances runs_reset s w ch t i n = absurd (n refl)
