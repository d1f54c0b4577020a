-- ===== src/Net/Connection/Effects.antt =====
-- TcpConnection.cc: the bytes that a handler writes and queues, and handlers in sequence.
use mathlib.Core.Path.{subst}
use arale.Prelude.{
  ℕ, zero, suc, ◌≡◌, refl, sym, ap, ◌∙◌, Bool, true, false, List, [], ◌∷◌, ◌++◌, append-nil,
  append_assoc, Outcome, ok, assertion, thrown, undefined, ltb, if◌then◌else◌, arith, length, take,
}
use arale.Net.Buffer.{Buffer}
use arale.Net.Buffer.Layout.{IsValid, content}
use arale.Net.Buffer.Space.{Fits}
use arale.Net.Buffer.Append.{append-Yields}
use arale.Net.Channel.{Channel, enable_write}
use arale.Net.Connection.{
  Connection, Handler, Effect, wrote, shut_down_write, updated, removed, connection_callback,
  message_callback, close_callback, posted, close_later, Task, write_complete, post_write_complete,
  finish_shutdown, shutdown_in_loop, with_channel, done, emit, ◌then_run◌,
}
use arale.Net.Connection.Sending.{signal_high_water, append_output, start_writing, queue_left}

-- The bytes among the effects.
abbrev pub sent : List Effect → List ℕ
sent [] = []
sent (wrote bs ∷ es) = bs ++ sent es
sent (_ ∷ es) = sent es

pub sent-append : (es fs : List Effect) → sent (es ++ fs) ≡ sent es ++ sent fs
sent-append [] fs = refl
sent-append (wrote bs ∷ es) fs =
    ap (λ l. bs ++ l) (sent-append es fs) ∙ sym (append_assoc bs (sent es) (sent fs))
sent-append (shut_down_write ∷ es) fs = sent-append es fs
sent-append (updated e ∷ es) fs = sent-append es fs
sent-append (removed ∷ es) fs = sent-append es fs
sent-append (connection_callback s ∷ es) fs = sent-append es fs
sent-append (message_callback ∷ es) fs = sent-append es fs
sent-append (close_callback ∷ es) fs = sent-append es fs
sent-append (posted t ∷ es) fs = sent-append es fs
sent-append (close_later ∷ es) fs = sent-append es fs

-- A run that returns: the bytes written to the socket and then those queued are `stream`, the
-- output buffer is well formed, and the state is that of `c`.
pub record Streams (stream : List ℕ) (c : Connection) (o : Outcome (Connection × List Effect))
    : Type 0 where
  pub after : Connection
  pub effects : List Effect
  pub returns : o ≡ ok (after, effects)
  pub valid : IsValid after.output
  pub holds : sent effects ++ content after.output ≡ stream
  pub same_state : after.state ≡ c.state

-- A run that writes nothing, and leaves the output buffer and the state of `c` alone.
pub record IsQuiet (c : Connection) (o : Outcome (Connection × List Effect)) : Type 0 where
  pub after : Connection
  pub effects : List Effect
  pub returns : o ≡ ok (after, effects)
  pub silent : sent effects ≡ []
  pub same_output : after.output ≡ c.output
  pub same_state : after.state ≡ c.state

pub IsQuiet-if :
    {c : Connection} {o p : Outcome (Connection × List Effect)} (t : Bool)
    → IsQuiet c o
    → IsQuiet c p
    → IsQuiet c (if t then o else p)
IsQuiet-if true q r = q
IsQuiet-if false q r = r

pub IsQuiet-done : (c : Connection) → IsQuiet c (done c)
IsQuiet-done c = record {
  after = c;
  effects = [];
  returns = refl;
  silent = refl;
  same_output = refl;
  same_state = refl;
}

IsQuiet-posted : (t : Task) (c : Connection) → IsQuiet c (emit (posted t) c)
IsQuiet-posted t c = record {
  after = c;
  effects = _;
  returns = refl;
  silent = refl;
  same_output = refl;
  same_state = refl;
}

pub IsQuiet-with_channel : (f : Channel → Channel) (c : Connection) → IsQuiet c (with_channel f c)
IsQuiet-with_channel f c = record {
  after = record c { channel = f c.channel };
  effects = _;
  returns = refl;
  silent = refl;
  same_output = refl;
  same_state = refl;
}

pub post_write_complete-IsQuiet : (b : Bool) (c : Connection) → IsQuiet c (post_write_complete b c)
unfolding post_write_complete
post_write_complete-IsQuiet b c = IsQuiet-if _ (IsQuiet-posted write_complete c) (IsQuiet-done c)

shutdown_in_loop-IsQuiet : (c : Connection) → IsQuiet c (shutdown_in_loop c)
unfolding shutdown_in_loop
shutdown_in_loop-IsQuiet c =
    IsQuiet-if _
      (record {
        after = c;
        effects = _;
        returns = refl;
        silent = refl;
        same_output = refl;
        same_state = refl;
      })
      (IsQuiet-done c)

pub finish_shutdown-IsQuiet : (c : Connection) → IsQuiet c (finish_shutdown c)
unfolding finish_shutdown
finish_shutdown-IsQuiet c = IsQuiet-if _ (shutdown_in_loop-IsQuiet c) (IsQuiet-done c)

pub signal_high_water-IsQuiet : (left : ℕ) (c : Connection) → IsQuiet c (signal_high_water left c)
unfolding signal_high_water
signal_high_water-IsQuiet left c = IsQuiet-if _ (IsQuiet-posted _ c) (IsQuiet-done c)

pub start_writing-IsQuiet : (c : Connection) → IsQuiet c (start_writing c)
unfolding start_writing
start_writing-IsQuiet c = IsQuiet-if _ (IsQuiet-with_channel enable_write c) (IsQuiet-done c)

module _ (f g : Handler) {stream : List ℕ} {c : Connection} where
  pub quiet_then :
      (q : IsQuiet c (f c))
      → Streams stream q.after (g q.after)
      → Streams stream c ((f then_run g) c)
  quiet_then q s = record {
    after = s.after;
    effects = q.effects ++ s.effects;
    returns = rw (q.returns, s.returns);
    valid = s.valid;
    holds =
        ap (λ l. l ++ content s.after.output)
          (sent-append q.effects s.effects ∙ ap (λ l. l ++ sent s.effects) q.silent)
        ∙ s.holds;
    same_state = s.same_state ∙ q.same_state;
  }

  pub then_quiet :
      (s : Streams stream c (f c))
      → IsQuiet s.after (g s.after)
      → Streams stream c ((f then_run g) c)
  then_quiet s q = record {
    after = q.after;
    effects = s.effects ++ q.effects;
    returns = rw (s.returns, q.returns);
    valid = subst IsValid (sym q.same_output) s.valid;
    holds =
        ap (λ l. l ++ content q.after.output)
          (sent-append s.effects q.effects ∙ ap (λ l. sent s.effects ++ l) q.silent ∙ append-nil _)
        ∙ ap (λ b. sent s.effects ++ content b) q.same_output
        ∙ s.holds;
    same_state = q.same_state ∙ s.same_state;
  }

pub append_output-Streams :
    (bytes : List ℕ) (c : Connection)
    → IsValid c.output
    → Fits (length bytes) c.output
    → Streams (content c.output ++ bytes) c (append_output bytes c)
unfolding append_output
append_output-Streams bytes c v f =
    let y = append-Yields bytes c.output v f in
    record {
      after = record c { output = y.result };
      effects = [];
      returns = rw y.returns;
      valid = y.valid;
      holds = y.holds;
      same_state = refl;
    }

-- The queued bytes are the first `left` ones.
pub queue_left-Streams :
    (bytes : List ℕ) (left : ℕ) (c : Connection)
    → IsValid c.output
    → Fits (length (take left bytes)) c.output
    → Streams (content c.output ++ take left bytes) c (queue_left bytes left c)
unfolding queue_left
queue_left-Streams bytes zero c v f = record {
  after = c;
  effects = [];
  returns = refl;
  valid = v;
  holds = sym (append-nil (content c.output));
  same_state = refl;
}
queue_left-Streams bytes (suc left) c v f =
    let q = signal_high_water-IsQuiet (suc left) c in
    let e = sym q.same_output in
    let t : ltb 0 (suc left) ≡ true = ground arith in
    rw t (
      quiet_then (signal_high_water (suc left))
        (append_output (take (suc left) bytes) then_run start_writing) q
        (then_quiet (append_output (take (suc left) bytes)) start_writing
          (subst
            (λ b.
              Streams (content b ++ take (suc left) bytes) q.after
                (append_output (take (suc left) bytes) q.after))
            q.same_output
            (append_output-Streams (take (suc left) bytes) q.after (subst IsValid e v)
              (subst (Fits (length (take (suc left) bytes))) e f)))
          (start_writing-IsQuiet _)))

-- Bytes written first.
pub wrote_then :
    (bytes : List ℕ) (g : Handler) {stream : List ℕ} {c : Connection}
    → Streams stream c (g c)
    → Streams (bytes ++ stream) c ((emit (wrote bytes) then_run g) c)
wrote_then bytes g s = record {
  after = s.after;
  effects = wrote bytes ∷ s.effects;
  returns = rw s.returns;
  valid = s.valid;
  holds = append_assoc bytes (sent s.effects) _ ∙ ap (λ l. bytes ++ l) s.holds;
  same_state = s.same_state;
}

pub IsQuiet-IsQuiet :
    (f g : Handler) {c : Connection}
    → (q : IsQuiet c (f c)) → IsQuiet q.after (g q.after)
    → IsQuiet c ((f then_run g) c)
IsQuiet-IsQuiet f g q r = record {
  after = r.after;
  effects = q.effects ++ r.effects;
  returns = rw (q.returns, r.returns);
  silent = sent-append q.effects r.effects ∙ ap (λ l. l ++ sent r.effects) q.silent ∙ r.silent;
  same_output = r.same_output ∙ q.same_output;
  same_state = r.same_state ∙ q.same_state;
}

-- A run has one stream.
pub Streams-unique :
    {s t : List ℕ} {c : Connection} {o : Outcome (Connection × List Effect)}
    → Streams s c o
    → Streams t c o
    → s ≡ t
Streams-unique {o} a b =
    let e : ◌≡◌ {A = Outcome (Connection × List Effect)} (ok (a.after, a.effects))
        (ok (b.after, b.effects)) =
      sym a.returns ∙ b.returns in
    sym a.holds ∙ ap stream_of e ∙ b.holds
  where
    stream_of : Outcome (Connection × List Effect) → List ℕ
    stream_of (ok (c, es)) = sent es ++ content c.output
    stream_of assertion = []
    stream_of thrown = []
    stream_of undefined = []

-- The same for a connection whose output buffer is known to be `b`.
pub queue_left_at :
    (bytes : List ℕ) (left : ℕ) (c : Connection) {b : Buffer}
    → c.output ≡ b
    → IsValid b
    → Fits (length (take left bytes)) b
    → Streams (content b ++ take left bytes) c (queue_left bytes left c)
queue_left_at bytes left c e =
    subst
      (λ b.
        IsValid b
        → Fits (length (take left bytes)) b
        → Streams (content b ++ take left bytes) c (queue_left bytes left c))
      e (queue_left-Streams bytes left c)

pub IsQuiet-Streams :
    {c : Connection} {o : Outcome (Connection × List Effect)}
    → IsQuiet c o
    → IsValid c.output
    → Streams (content c.output) c o
IsQuiet-Streams q v = record {
  after = q.after;
  effects = q.effects;
  returns = q.returns;
  valid = subst IsValid (sym q.same_output) v;
  holds = ap (λ l. l ++ content q.after.output) q.silent ∙ ap content q.same_output;
  same_state = q.same_state;
}
