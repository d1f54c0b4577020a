-- ===== src/Examples/Relay/Traffic.antt =====
-- Tunnel.h and TcpRelay.cc: the bytes that events bring and effects send.
use arale.Prelude.{
  ℕ, ◌≡◌, Bool, true, false, ◌&&◌, none, some, List, [], ◌∷◌, ◌++◌, ◌==◌, if◌then◌else◌,
}
use arale.Net.Http.Text.{Bytes}
use arale.Net.Epoll.{at}
use arale.Net.Connection.{connected, same_state}
use arale.Examples.Relay.{
  Session, Effect, to_client, to_server, connects, disconnects, shuts, Event, server_up,
  server_down, server_message, client_message, client_up, client_down, high_water_mark,
}

-- The bytes that effects send to the client's connection of a session, and to the server's.
abbrev pub at_client : ℕ → Effect → Bytes
at_client s (to_client t bytes) = if t == s then bytes else []
at_client s _ = []

abbrev pub all_at_client : ℕ → List Effect → Bytes
all_at_client s [] = []
all_at_client s (e ∷ es) = at_client s e ++ all_at_client s es

abbrev pub at_server : ℕ → Effect → Bytes
at_server s (to_server t bytes) = if t == s then bytes else []
at_server s _ = []

abbrev pub all_at_server : ℕ → List Effect → Bytes
all_at_server s [] = []
all_at_server s (e ∷ es) = at_server s e ++ all_at_server s es

-- The bytes that arrive from the server's connection of a session.
abbrev pub from_server : ℕ → Event → Bytes
from_server s (server_message t bytes) = if t == s then bytes else []
from_server s _ = []

abbrev pub all_from_server : ℕ → List Event → Bytes
all_from_server s [] = []
all_from_server s (e ∷ es) = from_server s e ++ all_from_server s es

-- Whether the bytes of a session's client are passed on: the client has the tunnel's callbacks, and
-- the server's connection is in the state `kConnected`.
abbrev pub is_carrying : Session → Bool
is_carrying x = x.callbacks && same_state x.server connected

-- Nothing waits while the context has an open connection, and a client without the tunnel's
-- callbacks is no context.
pub record IsSettled (x : Session) : Type 0 where
  pub passed : (c : ℕ) → x.context ≡ some c → same_state x.client connected ≡ true → x.input ≡ []
  pub loose : x.callbacks ≡ false → x.context ≡ none

-- Whether a client's bytes are passed on after an event: from the time when the server's connection comes up to the time when it
-- or the client's connection goes down. And the bytes that arrive from the client while it holds.
abbrev pub attached : ℕ → Event → Bool → Bool
attached s (server_up t) b = if t == s then true else b
attached s (server_down t) b = if t == s then false else b
attached s (client_down t) b = if t == s then false else b
attached s _ b = b

abbrev pub from_client : ℕ → Event → Bool → Bytes
from_client s (client_message t bytes) b = if t == s then (if b then bytes else []) else []
from_client s _ b = []

abbrev pub all_from_client : ℕ → List Event → Bool → Bytes
all_from_client s [] b = []
all_from_client s (e ∷ es) b = from_client s e b ++ all_from_client s es (attached s e b)

-- The connections of the server that are up, and what they allow: one comes up when it is not, and
-- goes down when it is.
abbrev pub ups_after : Event → (ℕ → Bool) → ℕ → Bool
ups_after (server_up s) ups = at s true ups
ups_after (server_down s) ups = at s false ups
ups_after _ ups = ups

abbrev pub IsAllowed : Event → (ℕ → Bool) → Type 0
IsAllowed (server_up s) ups = ups s ≡ false
IsAllowed (server_down s) ups = ups s ≡ true
IsAllowed _ ups = Unit

abbrev pub AreAllowed : List Event → (ℕ → Bool) → Type 0
AreAllowed [] ups = Unit
AreAllowed (e ∷ es) ups = IsAllowed e ups × AreAllowed es (ups_after e ups)

abbrev pub subject : Event → ℕ
subject (server_up s) = s
subject (server_down s) = s
subject (server_message s bytes) = s
subject (client_message s bytes) = s
subject (client_up s c) = s
subject (client_down s) = s
subject (high_water_mark alive s) = s

abbrev pub target : Effect → ℕ
target (to_client s bytes) = s
target (to_server s bytes) = s
target (connects s) = s
target (disconnects s) = s
target (shuts s) = s

abbrev pub AreAbout : ℕ → List Effect → Type 0
AreAbout k [] = Unit
AreAbout k (f ∷ fs) = (target f ≡ k) × AreAbout k fs
