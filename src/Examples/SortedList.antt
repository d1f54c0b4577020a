-- ===== src/Examples/SortedList.antt =====
-- arale/examples/idleconnection/SortedList.cc: connections in the order of their last messages.
pub mod Idle
pub mod Legal
mod Tests
use arale.Prelude.{
  ℕ, ◌+◌, ◌*◌, Bool, true, false, List, [], ◌∷◌, ◌++◌, Outcome, ok, undefined, ◌>>=◌, ◌>>◌, assert,
  ◌==◌, ltb, if◌then◌else◌,
}

-- An element of the list with the time in its connection's context. A connection is a number, its
-- place is where the list has that number, and times are microseconds.
pub record Node : Type 0 where
  pub conn : ℕ
  pub last_receive_time : ℕ

-- `contexts` are the connections whose context is set.
pub record Server : Type 0 where
  pub contexts : List ℕ
  pub connections : List Node

abbrev pub new_server : Server
new_server = record { contexts = []; connections = [] }

abbrev pub has_context : ℕ → List ℕ → Bool
has_context c [] = false
has_context c (d ∷ ds) = let rest = has_context c ds in if d == c then true else rest

-- The place of a node that was erased is an invalid iterator.
unfoldable pub erase : ℕ → List Node → Outcome (List Node)
erase c [] = undefined
erase c (n ∷ ns) =
    let rest = (do ms ← erase c ns; ok (n ∷ ms)) in if n.conn == c then ok ns else rest

-- `now` is what `Timestamp::now()` returns.
unfoldable pub on_connection : Bool → ℕ → ℕ → Server → Outcome Server
unfolding erase
on_connection true now c s = ok (record {
  contexts = c ∷ s.contexts;
  connections = s.connections ++ record { conn = c; last_receive_time = now } ∷ [];
})
on_connection false now c s = do
  assert (has_context c s.contexts)
  rest ← erase c s.connections
  ok (record s { connections = rest })

-- The node is spliced to the end.
unfoldable pub on_message : ℕ → ℕ → Server → Outcome Server
unfolding erase
on_message now c s = do
  assert (has_context c s.contexts)
  rest ← erase c s.connections
  ok (record s { connections = rest ++ record { conn = c; last_receive_time = now } ∷ [] })

-- The connection of a node is shut down if it is up.
abbrev pub shut : (ℕ → Bool) → Node → Outcome (List Node × List ℕ) → Outcome (List Node × List ℕ)
shut connected n later = do
  rest ← later
  ok (n ∷ rest.0, if connected n.conn then n.conn ∷ rest.1 else rest.1)

-- The clock went back.
abbrev pub jumped : ℕ → Node → Outcome (List Node × List ℕ) → Outcome (List Node × List ℕ)
jumped now n later = do rest ← later; ok (record n { last_receive_time = now } ∷ rest.0, rest.1)

module _ (idle_seconds now : ℕ) where
  -- `age > idleSeconds_`.
  abbrev pub expired : Node → Bool
  expired n = ltb (n.last_receive_time + idle_seconds * 1000000) now

  -- The list afterwards, and the connections that are shut down and then closed by force.
  -- `contexts` are the connections with a context, `alive` says whether a connection still exists,
  -- `connected` whether it is up. Each round reads the same time.
  unfoldable pub visit : List ℕ → (ℕ → Bool) → (ℕ → Bool) → List Node → Outcome (List Node × List ℕ)
  visit contexts alive connected [] = ok ([], [])
  visit contexts alive connected (n ∷ ns) =
      let later = visit contexts alive connected ns in
      if alive n.conn
      then assert (has_context n.conn contexts)
        >> (if expired n
            then shut connected n later
            else if ltb now n.last_receive_time
            then jumped now n later
            else ok (n ∷ ns, []))
      else later

  unfoldable pub on_timer : (ℕ → Bool) → (ℕ → Bool) → Server → Outcome (Server × List ℕ)
  unfolding visit
  on_timer alive connected s = do
    visited ← visit s.contexts alive connected s.connections
    ok (record s { connections = visited.0 }, visited.1)
