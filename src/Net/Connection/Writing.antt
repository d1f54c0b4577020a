-- ===== src/Net/Connection/Writing.antt =====
-- TcpConnection.cc, `handleWrite` each time that the socket takes some of the queued bytes.
use mathlib.Core.Path.{subst}
use arale.Prelude.{
  ℕ, ◌+◌, ◌-◌, ◌≤◌, ◌<◌, ◌≡◌, refl, sym, ap, ◌∙◌, inl, inr, true, List, [], ◌∷◌, ◌++◌, append-nil,
  append_assoc, Outcome, ok, ltb, ◌==◌, arith, Bool-cases, length, take, drop, take-append-drop,
  take-take, length-drop, drop-drop,
}
use arale.Net.Buffer.{readable_bytes}
use arale.Net.Buffer.Layout.{IsValid, content, length-content, length-slice}
use arale.Net.Buffer.Retrieve.{retrieve-Yields}
use arale.Net.Channel.{is_writing}
use arale.Net.Connection.{
  Connection, Handler, Effect, accepted, wrote, done, ◌then_run◌, after_retrieve, write_some,
  handle_write,
}
use arale.Net.Connection.Effects.{sent, sent-append}
use arale.Net.Connection.Stream.{after_retrieve-IsQuiet}

-- A run that returns: the first `n` queued bytes are written, the others stay queued in a
-- well-formed buffer, and the state is that of `c`.
pub record Moves (n : ℕ) (c : Connection) (o : Outcome (Connection × List Effect)) : Type 0 where
  pub after : Connection
  pub effects : List Effect
  pub returns : o ≡ ok (after, effects)
  pub valid : IsValid after.output
  pub front : sent effects ++ content after.output ≡ content c.output
  pub left : content after.output ≡ drop n (content c.output)
  pub same_state : after.state ≡ c.state

-- A run of one `handleWrite`, which goes on waiting for writing while bytes are left.
record Goes (n : ℕ) (c : Connection) (o : Outcome (Connection × List Effect)) : Type 0 where
  pub moves : Moves n c o
  pub waits : n < length (content c.output) → moves.after.channel ≡ c.channel

write_some-Goes :
    (n : ℕ) (c : Connection)
    → IsValid c.output
    → n ≤ length (content c.output)
    → Goes n c (write_some n c)
unfolding write_some after_retrieve
write_some-Goes n c v k =
    let y = retrieve-Yields n c.output v k in
    let bytes = take n (drop c.output.read_index c.output.bytes) in
    let front : bytes ≡ take n (content c.output) = sym (
      take-take n (c.output.write_index - c.output.read_index)
        (drop c.output.read_index c.output.bytes)
        (omega (arith, length-slice c.output.read_index c.output.write_index c.output.bytes))) in
    let d : Connection = record c { output = y.result } in
    let whole : bytes ++ content y.result ≡ content c.output =
      rw (front, y.holds) (take-append-drop n (content c.output)) in
    elim (Bool-cases (readable_bytes y.result == 0)) [
      | inl t ↦
          let q = after_retrieve-IsQuiet d in
          let z : readable_bytes y.result ≡ 0 = ground arith in
          record {
            moves = record {
              after = q.after;
              effects = wrote bytes ∷ q.effects;
              returns = rw y.returns (rw q.returns refl);
              valid = rw q.same_output y.valid;
              front =
                  rw (q.silent, q.same_output)
                    (ap (λ l. l ++ content y.result) (append-nil bytes) ∙ whole);
              left = ap content q.same_output ∙ y.holds;
              same_state = q.same_state;
            };
            waits = λ h. absurd (
                omega (
                  arith,
                  length-content y.result y.valid,
                  ap length y.holds,
                  length-drop n (content c.output),
                  z,
                ));
          }
      | inr t ↦ record {
        moves = record {
          after = d;
          effects = wrote bytes ∷ [];
          returns = rw y.returns (rw t refl);
          valid = y.valid;
          front = ap (λ l. l ++ content y.result) (append-nil bytes) ∙ whole;
          left = y.holds;
          same_state = refl;
        };
        waits = λ h. refl;
      }
    ]

handle_write-Goes :
    (n : ℕ) (c : Connection)
    → is_writing c.channel ≡ true
    → IsValid c.output
    → 0 < n
    → n ≤ length (content c.output)
    → Goes n c (handle_write (accepted n) c)
unfolding handle_write
handle_write-Goes n c w v h k =
    let t : ltb 0 n ≡ true = ground arith in rw (w, t) (write_some-Goes n c v k)

-- The socket takes some bytes again and again: so many each time.
unfoldable pub write_each : List ℕ → Handler
unfolding handle_write
write_each [] = done
write_each (n ∷ ns) = handle_write (accepted n) then_run write_each ns

abbrev pub sum : List ℕ → ℕ
sum [] = 0
sum (n ∷ ns) = n + sum ns

abbrev pub ArePositive : List ℕ → Type 0
ArePositive [] = Unit
ArePositive (n ∷ ns) = (0 < n) × ArePositive ns

nothing-Moves : (c : Connection) → IsValid c.output → Moves 0 c (done c)
nothing-Moves c v = record {
  after = c;
  effects = [];
  returns = refl;
  valid = v;
  front = refl;
  left = refl;
  same_state = refl;
}

Moves-Moves :
    (m n : ℕ) (c : Connection) (f g : Handler)
    → (p : Moves m c (f c)) → Moves n p.after (g p.after)
    → Moves (m + n) c ((f then_run g) c)
Moves-Moves m n c f g p q = record {
  after = q.after;
  effects = p.effects ++ q.effects;
  returns = rw (p.returns, q.returns) refl;
  valid = q.valid;
  front =
      ap (λ l. l ++ content q.after.output) (sent-append p.effects q.effects)
      ∙ append_assoc (sent p.effects) (sent q.effects) (content q.after.output)
      ∙ ap (λ l. sent p.effects ++ l) q.front
      ∙ p.front;
  left = q.left ∙ ap (drop n) p.left ∙ drop-drop n m (content c.output);
  same_state = q.same_state ∙ p.same_state;
}

no_more : (ns : List ℕ) → ArePositive ns → sum ns ≡ 0 → ns ≡ []
no_more [] p e = refl
no_more (n ∷ ns) p e = absurd (omega (arith, p.0))

-- When a channel waits for writing and its output buffer is well formed, any number of calls of
-- handleWrite, in each of which the socket takes at least one byte, and in all of them not more
-- than are queued, return; what they write and then what is left in the buffer are the queued
-- bytes in order, all but as many as were taken from the front are left, the buffer is well formed
-- and the state unchanged.
pub write_each-Moves :
    (ns : List ℕ) (c : Connection)
    → is_writing c.channel ≡ true
    → IsValid c.output
    → ArePositive ns
    → sum ns ≤ length (content c.output)
    → Moves (sum ns) c (write_each ns c)
unfolding write_each
write_each-Moves [] c w v p k = nothing-Moves c v
write_each-Moves (n ∷ ns) c w v p k =
    let g = handle_write-Goes n c w v p.0 (omega arith) in
    let m = g.moves in
    let l : length (content m.after.output) ≡ length (content c.output) - n =
      ap length m.left ∙ length-drop n (content c.output) in
    Moves-Moves n (sum ns) c (handle_write (accepted n)) (write_each ns) m
      (elim (Bool-cases (ltb n (length (content c.output)))) [
        | inl t ↦
            write_each-Moves ns m.after (ap is_writing (g.waits (ground arith)) ∙ w) m.valid p.1
              (omega arith)
        | inr t ↦
            let z : length (content c.output) ≤ n = ground arith in
            let e = no_more ns p.1 (omega arith) in
            subst (λ l. Moves (sum l) m.after (write_each l m.after)) (sym e)
              (nothing-Moves m.after m.valid)
      ])
