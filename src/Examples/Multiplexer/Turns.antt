-- ===== src/Examples/Multiplexer/Turns.antt =====
-- Multiplexer.cc: its callbacks, one after another.
use arale.Prelude.{ℕ, List, [], ◌∷◌, ◌++◌, Outcome, ok, undefined, ◌>>=◌, Ensures}
use arale.Net.Buffer.{Buffer}
use arale.Net.Http.Text.{Bytes}
use arale.Examples.Multiplexer.{
  Server, Effect, client_up, client_down, on_client_message, backend_up, backend_down,
}
use arale.Examples.Multiplexer.Backend.{Session, finished, faulted, starved, on_backend_message}

-- What calls back: a client that comes up, with the text of its address, goes down, or has sent
-- what its buffer holds; and the same of the backend.
pub data Event : Type 0 where
  opens closes : ℕ → Bytes → Event
  writes : ℕ → Buffer → Event
  backend_opens backend_closes : Event
  backend_writes : ℕ → Buffer → Event

-- The effects of a callback, and the buffer that a message leaves.
pub record Done : Type 0 where
  pub server : Server
  pub effects : List Effect
  pub buffers : List Buffer

abbrev pub done : Server → List Effect → Done
done s es = record { server = s; effects = es; buffers = [] }

abbrev pub leaves : Server → List Effect → Buffer → Done
leaves s es buf = record { server = s; effects = es; buffers = buf ∷ [] }

-- A loop that does not end has no result, as undefined behaviour has none.
abbrev pub of_session : Server → Session → Outcome Done
of_session s (finished es buf) = ok (leaves s es buf)
of_session s faulted = undefined
of_session s starved = undefined

unfoldable pub step : Event → Server → Outcome Done
unfolding client_up client_down on_client_message backend_up backend_down on_backend_message
step (opens conn peer) s = do (t, es) ← client_up conn peer s; ok (done t es)
step (closes conn peer) s = do (t, es) ← client_down conn peer s; ok (done t es)
step (writes conn buf) s = do (rest, es) ← on_client_message conn buf s; ok (leaves s es rest)
step backend_opens s = do t ← backend_up s; ok (done t [])
step backend_closes s = let d = backend_down s in ok (done d.0 d.1)
step (backend_writes fuel buf) s = of_session s (on_backend_message fuel buf s)

abbrev pub followed_by : Done → Done → Done
followed_by d e = record {
  server = e.server;
  effects = d.effects ++ e.effects;
  buffers = d.buffers ++ e.buffers;
}

unfoldable pub run : List Event → Server → Outcome Done
unfolding step
run [] s = ok (done s [])
run (e ∷ es) s = do d ← step e s; f ← run es d.server; ok (followed_by d f)

-- What holds of the state that a callback finds, for each callback of a run.
abbrev pub Along : (Event → Server → Type 0) → List Event → Server → Type 0
Along P [] s = Unit
Along P (e ∷ es) s = P e s × Ensures (λ d. Along P es d.server) (step e s)
