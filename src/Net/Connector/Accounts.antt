-- ===== src/Net/Connector/Accounts.antt =====
-- Connector.cc: any sequence of calls and of what the loop runs, and its sockets.
use arale.Prelude.{
  ℕ, ◌+◌, ◌≡◌, ◌≢◌, refl, Bool, true, false, List, [], ◌∷◌, ◌++◌, Outcome, ok, assertion, thrown,
  undefined, ◌>>=◌, arith, ltb,
}
use arale.Net.Connector.{
  State, ConnectChannel, null, polled, detached, Connector, Effect, opened, closed, handed_on,
  starts_after, posts_start, posts_stop, posts_reset, reset_channel, Event, starts, stops, restarts,
  runs_start, writable, fails, runs_stop, runs_reset, handler, Loop, resets, step, happen,
}
use arale.Net.Connector.Sockets.{
  made, given_up, held, off, IsSound, Balances, conn, handler-Balances,
}

made-append : (es fs : List Effect) → made (es ++ fs) ≡ made es + made fs
made-append [] fs = omega arith
made-append (opened ∷ es) fs = omega (arith, made-append es fs)
made-append (closed ∷ es) fs = made-append es fs
made-append (handed_on ∷ es) fs = made-append es fs
made-append (starts_after t ∷ es) fs = made-append es fs
made-append (posts_start ∷ es) fs = made-append es fs
made-append (posts_stop ∷ es) fs = made-append es fs
made-append (posts_reset ∷ es) fs = made-append es fs

given_up-append : (es fs : List Effect) → given_up (es ++ fs) ≡ given_up es + given_up fs
given_up-append [] fs = omega arith
given_up-append (opened ∷ es) fs = given_up-append es fs
given_up-append (closed ∷ es) fs = omega (arith, given_up-append es fs)
given_up-append (handed_on ∷ es) fs = omega (arith, given_up-append es fs)
given_up-append (starts_after t ∷ es) fs = given_up-append es fs
given_up-append (posts_start ∷ es) fs = given_up-append es fs
given_up-append (posts_stop ∷ es) fs = given_up-append es fs
given_up-append (posts_reset ∷ es) fs = given_up-append es fs

-- The connector is sound, and `resetChannel` waits exactly for a channel that is to be reset.
pub record IsReady (m : Loop) : Type 0 where
  pub sound : IsSound m.connector
  pub waits : m.posted ≡ off m.connector.channel

abbrev pub Accounts : Loop → Outcome (Loop × List Effect) → Type 0
Accounts m (ok (n, fs)) =
    (made fs + held m.connector.channel ≡ given_up fs + held n.connector.channel) × IsReady n
Accounts m assertion = Unit
Accounts m thrown = Unit
Accounts m undefined = Unit

handled-Accounts :
    (e : Event) (m : Loop)
    → IsReady m
    → e ≢ runs_reset
    → Accounts m (
        handler e m.connector >>= λ r.
        ok (record { connector = r.0; posted = resets r.1 + m.posted }, r.1))
handled-Accounts e m i n = go (handler e m.connector) (
    handler-Balances e m.connector.state m.connector.wanted m.connector.channel
      m.connector.retry_delay_ms i.sound n)
  where
    go :
        (o : Outcome (Connector × List Effect))
        → Balances m.connector o
        → Accounts m
            (o >>= λ r. ok (record { connector = r.0; posted = resets r.1 + m.posted }, r.1))
    go (ok (d, es)) (b, r, s) = (b, record { sound = s; waits = omega (arith, r, i.waits) })
    go assertion b = tt
    go thrown b = tt
    go undefined b = tt

abbrev loop : State → Bool → ConnectChannel → ℕ → ℕ → Loop
loop s w ch t p = record { connector = conn s w ch t; posted = p }

reset-Accounts :
    (s : State) (w : Bool) (ch : ConnectChannel) (t p : ℕ)
    → IsReady (loop s w ch t p)
    → Accounts (loop s w ch t p) (step runs_reset (loop s w ch t p))
unfolding reset_channel
reset-Accounts s w null t p i = let e : ltb 0 p ≡ false = ground (arith, i.waits) in rw e (refl, i)
reset-Accounts s w polled t p i =
    let e : ltb 0 p ≡ false = ground (arith, i.waits) in rw e (refl, i)
reset-Accounts s w detached t p i =
    let e : ltb 0 p ≡ true = ground (arith, i.waits) in
    rw e (
      refl,
      record {
        sound = record {
          waits = λ q. cc (i.sound.waits q);
          delay_first = i.sound.delay_first;
          delay_last = i.sound.delay_last;
        };
        waits = omega (arith, i.waits);
      },
    )

step-Accounts : (e : Event) (m : Loop) → IsReady m → Accounts m (step e m)
step-Accounts (starts b r) m i = handled-Accounts (starts b r) m i (λ e. cc)
step-Accounts (stops b) m i = handled-Accounts (stops b) m i (λ e. cc)
step-Accounts (restarts r) m i = handled-Accounts (restarts r) m i (λ e. cc)
step-Accounts (runs_start r) m i = handled-Accounts (runs_start r) m i (λ e. cc)
step-Accounts (writable p q) m i = handled-Accounts (writable p q) m i (λ e. cc)
step-Accounts fails m i = handled-Accounts fails m i (λ e. cc)
step-Accounts runs_stop m i = handled-Accounts runs_stop m i (λ e. cc)
step-Accounts runs_reset m i =
    reset-Accounts m.connector.state m.connector.wanted m.connector.channel
      m.connector.retry_delay_ms m.posted i

-- Whatever happens to a connector that is ready, in any order, when no assertion fails and nothing
-- undefined is done, the sockets made, with one that the channel held before, are as many as those
-- closed or handed on, with one that the channel holds now, and the connector is ready again, with
-- the retry delay in its bounds.
pub happen-Accounts : (es : List Event) (m : Loop) → IsReady m → Accounts m (happen es m)
unfolding happen
happen-Accounts [] m i = (refl, i)
happen-Accounts (e ∷ es) m i = go (step e m) (step-Accounts e m i) (happen-Accounts es)
  where
    after :
        (n : Loop) (fs : List Effect) (o : Outcome (Loop × List Effect))
        → made fs + held m.connector.channel ≡ given_up fs + held n.connector.channel
        → Accounts n o
        → Accounts m (o >>= λ r. ok (r.0, fs ++ r.1))
    after n fs (ok (q, gs)) e (b, j) = (omega (arith, made-append fs gs, given_up-append fs gs), j)
    after n fs assertion e b = tt
    after n fs thrown e b = tt
    after n fs undefined e b = tt

    go :
        (o : Outcome (Loop × List Effect))
        → Accounts m o
        → ((n : Loop) → IsReady n → Accounts n (happen es n))
        → Accounts m (o >>= λ r. happen es r.0 >>= λ q. ok (q.0, r.1 ++ q.1))
    go (ok (n, fs)) (b, j) k = after n fs (happen es n) b (k n j)
    go assertion b k = tt
    go thrown b k = tt
    go undefined b k = tt
