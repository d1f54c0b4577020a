-- ===== src/Examples/Chat/Local.antt =====
-- arale/examples/asio/chat/ChatServerThreadedHighPerformance.cc: each thread has the list of its own
-- connections, and a message is posted to all loops.
use arale.Prelude.{
  ℕ, Bool, true, false, List, [], ◌∷◌, ◌++◌, Option, none, some, Outcome, ok, ◌>>◌, assert,
}
use arale.Net.Http.Text.{Bytes}
use arale.Net.Epoll.{at}
use arale.Examples.Chat.{insert, on_connection, Send, on_message}

-- A thread is named by its loop. `instances` are the thread-local lists that were made, `posted`
-- the messages in the functors of each loop, in the order of the posts.
pub record Server : Type 0 where
  pub loops : List ℕ
  pub instances : ℕ → Option (List ℕ)
  pub posted : ℕ → List Bytes

abbrev pub new_server : Server
new_server = record { loops = []; instances = λ l. none; posted = λ l. [] }

-- `LocalConnections::pointer() == NULL`.
abbrev pub is_null : Option (List ℕ) → Bool
is_null none = true
is_null (some cs) = false

-- `LocalConnections::instance()` makes the list where there is none.
abbrev pub instance_of : Option (List ℕ) → List ℕ
instance_of none = []
instance_of (some cs) = cs

unfoldable pub thread_init : ℕ → Server → Outcome Server
unfolding insert
thread_init l s =
    assert (is_null (s.instances l))
    >> ok (record s { loops = insert l s.loops; instances = at l (some []) s.instances })

-- `onConnection` in the thread of a loop.
abbrev pub connection_changes : Bool → ℕ → ℕ → Server → Server
connection_changes up c l s = record s {
  instances = at l (some (on_connection up c (instance_of (s.instances l)))) s.instances;
}

abbrev pub post : List ℕ → Bytes → (ℕ → List Bytes) → ℕ → List Bytes
post [] msg q = q
post (l ∷ ls) msg q = post ls msg (at l (q l ++ msg ∷ []) q)

-- `onMessage`, in any thread.
abbrev pub post_message : Bytes → Server → Server
post_message msg s = record s { posted = post s.loops msg s.posted }

-- The functors of a loop, each a call of `distributeMessage`.
abbrev pub distribute_message : Bytes → List ℕ → List Send
distribute_message msg cs = on_message msg cs

abbrev pub distribute_each : List Bytes → List ℕ → List Send
distribute_each [] cs = []
distribute_each (m ∷ ms) cs = distribute_message m cs ++ distribute_each ms cs

unfoldable pub run_loop : ℕ → Server → Server × List Send
run_loop l s = (
  record s { posted = at l [] s.posted },
  distribute_each (s.posted l) (instance_of (s.instances l)),
)
