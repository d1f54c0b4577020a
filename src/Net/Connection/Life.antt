-- ===== src/Net/Connection/Life.antt =====
-- TcpConnection.cc, the life of a connection: what a run of a handler keeps of states, reports and
-- the wish to write, and how runs are put together.
use arale.Prelude.{
  ℕ, ◌+◌, ◌≤◌, ◌<◌, ◌≡◌, refl, Bool, true, false, List, [], ◌∷◌, ◌++◌, Outcome, ok, assertion,
  thrown, undefined, ◌>>=◌, ◌>>◌, assert, if◌then◌else◌, arith,
}
use arale.Net.Channel.{is_writing}
use arale.Net.Connection.{
  State, connecting, connected, disconnecting, disconnected, Connection, Handler, Effect,
  shut_down_write, connection_callback, done, ◌then_run◌,
}

-- The order in which the states follow one another.
abbrev pub rank : State → ℕ
rank connecting = 0
rank connected = 1
rank disconnecting = 2
rank disconnected = 3

-- Whether the connection has been up, and whether it is down.
abbrev pub up : State → ℕ
up connecting = 0
up _ = 1

abbrev pub down : State → ℕ
down disconnected = 1
down _ = 0

-- How often the connection callback reports up and down, and the write side is shut.
abbrev pub one_up : Effect → ℕ
one_up (connection_callback connected) = 1
one_up _ = 0

abbrev pub one_down : Effect → ℕ
one_down (connection_callback disconnected) = 1
one_down _ = 0

abbrev pub one_shut : Effect → ℕ
one_shut shut_down_write = 1
one_shut _ = 0

abbrev pub total : (Effect → ℕ) → List Effect → ℕ
total f [] = 0
total f (e ∷ es) = f e + total f es

total-append : (f : Effect → ℕ) (es fs : List Effect) → total f (es ++ fs) ≡ total f es + total f fs
total-append f [] fs = omega arith
total-append f (e ∷ es) fs = omega (arith, total-append f es fs)

-- What a run from `c` to `d` with the effects `es` keeps: states only go forward, a report goes
-- with each change between up and down, and while the channel waits for writing and the
-- connection is not closed, it goes on waiting and the write side is not shut.
pub record Sound (c d : Connection) (es : List Effect) : Type 0 where
  pub forward : rank c.state ≤ rank d.state
  pub ups : total one_up es + up c.state ≡ up d.state
  pub downs : total one_down es + down c.state ≡ down d.state
  pub writing :
      is_writing c.channel ≡ true
      → rank d.state < 3
      → (is_writing d.channel ≡ true) × (total one_shut es ≡ 0)

pub Sound-trans :
    {c d e : Connection} (es fs : List Effect) → Sound c d es → Sound d e fs → Sound c e (es ++ fs)
Sound-trans {c} {d} {e} es fs s t = record {
  forward = omega (arith, s.forward, t.forward);
  ups = omega (arith, total-append one_up es fs, s.ups, t.ups);
  downs = omega (arith, total-append one_down es fs, s.downs, t.downs);
  writing = λ w r.
      let (w', n) = s.writing w (omega (arith, t.forward)) in
      let (w'', m) = t.writing w' r in (w'', omega (arith, total-append one_shut es fs));
}

-- A run that ends in a fault has no state to speak of.
abbrev pub SoundRun : Connection → Outcome (Connection × List Effect) → Type 0
SoundRun c (ok (d, es)) = Sound c d es
SoundRun c assertion = Unit
SoundRun c thrown = Unit
SoundRun c undefined = Unit

pub record Keeps (c : Connection) (o : Outcome (Connection × List Effect)) : Type 0 where
  pub law : SoundRun c o

pub Keeps-ok : {c d : Connection} {es : List Effect} → Sound c d es → Keeps c (ok (d, es))
Keeps-ok s = record { law = s }

pub Keeps-if :
    {c : Connection} {o p : Outcome (Connection × List Effect)} (t : Bool)
    → Keeps c o
    → Keeps c p
    → Keeps c (if t then o else p)
Keeps-if true q r = q
Keeps-if false q r = r

pub Keeps-then :
    (f g : Handler) {c : Connection}
    → Keeps c (f c)
    → ((d : Connection) → Keeps d (g d))
    → Keeps c ((f then_run g) c)
Keeps-then f g {c} k l = record { law = go (f c) k.law }
  where
    second :
        {d : Connection} (es : List Effect) (o : Outcome (Connection × List Effect))
        → Sound c d es
        → SoundRun d o
        → SoundRun c (o >>= λ r. ok (r.0, es ++ r.1))
    second es (ok (e, fs)) s t = Sound-trans es fs s t
    second es assertion s t = tt
    second es thrown s t = tt
    second es undefined s t = tt

    go :
        (o : Outcome (Connection × List Effect))
        → SoundRun c o
        → SoundRun c (o >>= λ r. g r.0 >>= λ q. ok (q.0, r.1 ++ q.1))
    go (ok (d, es)) s = second es (g d) s (l d).law
    go assertion s = tt
    go thrown s = tt
    go undefined s = tt

-- A fault before the handler's own work.
pub Keeps-bind :
    {A : Type 0} {c : Connection} (m : Outcome A) (f : A → Outcome (Connection × List Effect))
    → ((a : A) → Keeps c (f a))
    → Keeps c (m >>= f)
Keeps-bind (ok a) f k = k a
Keeps-bind assertion f k = record { law = tt }
Keeps-bind thrown f k = record { law = tt }
Keeps-bind undefined f k = record { law = tt }

-- Effects that are no report and no shutdown, with a change that spares state and channel.
pub Keeps-quiet :
    {c d : Connection} {es : List Effect}
    → d.state ≡ c.state
    → d.channel ≡ c.channel
    → (total one_up es ≡ 0) × (total one_down es ≡ 0) × (total one_shut es ≡ 0)
    → Keeps c (ok (d, es))
Keeps-quiet {c} {d} {es} e f (u, w, x) = record {
  law = record {
    forward = rw e (omega arith);
    ups = rw e (omega arith);
    downs = rw e (omega arith);
    writing = λ h r. (rw f h, x);
  };
}

pub Keeps-done : (c : Connection) → Keeps c (done c)
Keeps-done c = Keeps-quiet refl refl (refl, refl, refl)

pub Keeps-when :
    {c : Connection} {o p : Outcome (Connection × List Effect)} (b : Bool)
    → (b ≡ true → Keeps c o)
    → (b ≡ false → Keeps c p)
    → Keeps c (if b then o else p)
Keeps-when true k l = k refl
Keeps-when false k l = l refl

pub Keeps-assert :
    {c : Connection} {o : Outcome (Connection × List Effect)} (b : Bool)
    → (b ≡ true → Keeps c o)
    → Keeps c (assert b >> o)
Keeps-assert true k = k refl
Keeps-assert false k = record { law = tt }

-- Only the state and the channel of the start count.
pub Keeps-same :
    {b c : Connection} {o : Outcome (Connection × List Effect)}
    → b.state ≡ c.state
    → b.channel ≡ c.channel
    → Keeps b o
    → Keeps c o
Keeps-same {b} {c} {o} e f k = record { law = go o k.law }
  where
    go : (o : Outcome (Connection × List Effect)) → SoundRun b o → SoundRun c o
    go (ok (d, es)) s = record {
      forward = rw (← e) s.forward;
      ups = rw (← e) s.ups;
      downs = rw (← e) s.downs;
      writing = λ h r. s.writing (rw f h) r;
    }
    go assertion s = tt
    go thrown s = tt
    go undefined s = tt
