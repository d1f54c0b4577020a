-- ===== src/Examples/Multiplexer/Same.antt =====
-- MultiplexerSimple.cc does what Multiplexer.cc does, for clients with an id and a backend.
use arale.Prelude.{
  ℕ, zero, suc, ◌≡◌, refl, ap, Bool, true, false, List, [], ◌∷◌, ◌++◌, some, Outcome, ok, assertion,
  thrown, undefined, ◌>>=◌, ltb, length, arith, Bool-cases, inl, inr, Ensures, Option-cases,
  List-cases,
}
use arale.Net.Buffer.{Buffer, readable_bytes}
use arale.Net.Buffer.Append.{prepend-Yields}
use arale.Net.Buffer.Fresh.{new-fresh, append-Filled}
use arale.Net.Http.Text.{Bytes}
use arale.Examples.Multiplexer.{
  max_packet_len, header, Server, Effect, send_backend_packet, send_backend_string, send_full,
  send_rounds, client_up, client_down, on_client_message, notice, is_up_text, is_down_text,
}
use arale.Examples.Multiplexer.Turns.{
  Event, opens, closes, writes, backend_opens, backend_closes, backend_writes, Done, step, run,
  Along, followed_by,
}
use arale.Examples.Multiplexer.Simple.{
  send_packet, send_string, send_whole, send_loop, on_up, on_down, on_message, simple_step,
  simple_run,
}

send_string-same :
    (backend : Bool) (id : ℕ) (msg : Bytes)
    → send_string backend id msg ≡ send_backend_string backend id msg
unfolding send_string send_backend_string send_packet send_backend_packet
send_string-same true id msg = refl
send_string-same false id msg = elim (Bool-cases (ltb (length msg) max_packet_len)) [
  | inl t ↦
      let f = append-Filled msg (inl (ground arith)) in
      let y =
        prepend-Yields (header id (readable_bytes f.result)) f.result f.valid
          (let g = f.front in omega arith) in
      rw t (rw new-fresh (rw f.returns (rw y.returns refl)))
  | inr t ↦ rw t refl
]

send_whole-same : (id : ℕ) (buf : Buffer) → send_whole true id buf ≡ send_full true id buf
unfolding send_whole send_full send_packet send_backend_packet
send_whole-same id buf = refl

send_loop-same : (n id : ℕ) (buf : Buffer) → send_loop n true id buf ≡ send_rounds n true id buf
unfolding send_loop send_rounds send_packet send_backend_packet
send_loop-same zero id buf = refl
send_loop-same (suc n) id buf = elim (Bool-cases (ltb max_packet_len (readable_bytes buf))) [
  | inl t ↦
      rw (send_loop, send_rounds, t)
        (ap
          (λ (f : Buffer → Outcome (Buffer × List Effect)).
            send_full true id buf >>= λ (rest, es). f rest >>= λ (last, fs). ok (last, es ++ fs))
          (λ i rest. send_loop-same n id rest i))
  | inr t ↦ rw (send_loop, send_rounds, t) refl
]

on_up-same : (conn : ℕ) (peer : Bytes) (s : Server) → on_up conn peer s ≡ client_up conn peer s
unfolding on_up client_up
on_up-same conn peer s = elim (List-cases s.avail_ids) [
  | inl e ↦ rw e refl
  | inr (id, ids, e) ↦ rw e (rw (send_string-same s.backend 0 (notice id peer is_up_text)) refl)
]

on_down-same :
    (conn : ℕ) (peer : Bytes) (s : Server) → on_down conn peer s ≡ client_down conn peer s
unfolding on_down client_down
on_down-same conn peer s = elim (Option-cases (s.context conn)) [
  | inl e ↦ rw (on_down, client_down, e) refl
  | inr (id, e) ↦
      rw (on_down, client_down, e)
        (rw (send_string-same s.backend 0 (notice id peer is_down_text)) refl)
]

-- A client writes when it has an id and there is a backend.
abbrev pub IsServed : Event → Server → Type 0
IsServed (writes conn buf) s = (s.backend ≡ true) × (id : ℕ) × (s.context conn ≡ some id)
IsServed (opens conn peer) s = Unit
IsServed (closes conn peer) s = Unit
IsServed backend_opens s = Unit
IsServed backend_closes s = Unit
IsServed (backend_writes fuel buf) s = Unit

on_message-same :
    (conn : ℕ) (buf : Buffer) (s : Server)
    → IsServed (writes conn buf) s
    → on_message conn buf s ≡ on_client_message conn buf s
unfolding on_message on_client_message
on_message-same conn buf s (b, id, e) = rw (b, e) (send_loop-same (readable_bytes buf) id buf)

simple_step-same : (e : Event) (s : Server) → IsServed e s → simple_step e s ≡ step e s
unfolding simple_step step
simple_step-same (opens conn peer) s h = rw (on_up-same conn peer s) refl
simple_step-same (closes conn peer) s h = rw (on_down-same conn peer s) refl
simple_step-same (writes conn buf) s h = rw (on_message-same conn buf s h) refl
simple_step-same backend_opens s h = refl
simple_step-same backend_closes s h = refl
simple_step-same (backend_writes fuel buf) s h = refl

-- When each client that writes has an id and there is a backend then, the server for one thread
-- does the same at any events as Multiplexer: the same effects in order, the same buffers and
-- state in the end, and the same failure if one fails.
pub simple_run-same :
    (es : List Event) (s : Server) → Along IsServed es s → simple_run es s ≡ run es s
unfolding simple_run run
simple_run-same [] s h = refl
simple_run-same (e ∷ es) s (h, k) =
    rw (simple_step-same e s h) (go (step e s) k (λ t. simple_run-same es t))
  where
    go :
        (o : Outcome Done)
        → Ensures (λ d. Along IsServed es d.server) o
        → ((t : Server) → Along IsServed es t → simple_run es t ≡ run es t)
        → (o >>= λ d. simple_run es d.server >>= λ f. ok (followed_by d f))
          ≡ (o >>= λ d. run es d.server >>= λ f. ok (followed_by d f))
    go (ok d) k i = rw (i d.server k) refl
    go assertion k i = refl
    go thrown k i = refl
    go undefined k i = refl
