-- ===== src/Examples/Chat.antt =====
-- arale/examples/asio/chat: the servers that pass each message on to all connections. Here are
-- ChatServer.cc and ChatServerThreaded.cc, whose handlers do the same under a mutex.
pub mod Shared
pub mod Snapshot
pub mod Local
pub mod Passed
mod Tests
use arale.Prelude.{ℕ, Bool, true, false, List, [], ◌∷◌, map, ltb, if◌then◌else◌}
use arale.Net.Http.Text.{Bytes}

-- Connections are numbers; a `std::set` of them is a list in order.
unfoldable pub insert : ℕ → List ℕ → List ℕ
insert c [] = c ∷ []
insert c (d ∷ ds) =
    let rest = insert c ds in if ltb c d then c ∷ d ∷ ds else if ltb d c then d ∷ rest else d ∷ ds

unfoldable pub erase : ℕ → List ℕ → List ℕ
erase c [] = []
erase c (d ∷ ds) =
    let rest = erase c ds in if ltb c d then d ∷ ds else if ltb d c then d ∷ rest else ds

-- A connection is up or down.
abbrev pub on_connection : Bool → ℕ → List ℕ → List ℕ
on_connection true c cs = insert c cs
on_connection false c cs = erase c cs

-- A call of `codec_.sendMessage`.
pub record Send : Type 0 where
  pub to : ℕ
  pub msg : Bytes

abbrev pub on_message : Bytes → List ℕ → List Send
on_message msg cs = map (λ c. record { to = c; msg = msg }) cs
