-- ===== src/Net/Acceptor.antt =====
-- arale/net/Acceptor.h and Acceptor.cc: the listening socket and the connections that it accepts.
pub mod Life
mod Tests
use arale.Prelude.{
  ℕ, Bool, true, false, List, [], ◌∷◌, ◌++◌, Option, none, some, ◌==◌, if◌then◌else◌,
}
use arale.Net.Channel.{Channel, new_channel, enable_read, disable_all, remove}
use arale.Net.Sockets.{
  Errno, emfile, Address, no_address, Call, returned, aborted, Opened, opened, failed,
  create_nonblocking_or_die, done_or_die, socket_accept,
}

-- `callback` says whether `newConnectionCallback_` is set, `backup` is `backupFd_`.
pub record Acceptor : Type 0 where
  pub socket : ℕ
  pub channel : Channel
  pub callback : Bool
  pub listening : Bool
  pub backup : Option ℕ

-- Descriptors that the acceptor gets, hands to the callback with the peer, or closes.
pub data Effect : Type 0 where
  gets closes : ℕ → Effect
  hands : ℕ → Address → Effect

-- `open("/dev/null")`.
abbrev pub open_null : Opened → Option ℕ × List Effect
open_null (opened fd) = (some fd, gets fd ∷ [])
open_null (failed e) = (none, [])

-- `close` of a descriptor that may be -1, which does nothing.
abbrev pub close : Option ℕ → List Effect
close none = []
close (some fd) = closes fd ∷ []

abbrev pub started : ℕ → Opened → Acceptor × List Effect
started fd null =
    let backup = open_null null in
    (
      record {
        socket = fd;
        channel = record new_channel {
          callbacks = record { read = true; write = false; error = false; close = false };
        };
        callback = false;
        listening = false;
        backup = backup.0;
      },
      gets fd ∷ backup.1,
    )

-- The constructor: `socket`, `bind`, and `open`.
unfoldable pub new_acceptor : Opened → Bool → Opened → Call (Acceptor × List Effect)
new_acceptor socket bound null = elim (create_nonblocking_or_die socket) [
  | aborted ↦ aborted
  | returned fd ↦ elim (done_or_die bound) [
    | aborted ↦ aborted
    | returned _ ↦ returned (started fd null)
  ]
]

abbrev pub set_new_connection_callback : Acceptor → Acceptor
set_new_connection_callback a = record a { callback = true }

unfoldable pub start_listening : Bool → Acceptor → Call Acceptor
start_listening listens a = elim (done_or_die listens) [
  | aborted ↦ aborted
  | returned _ ↦ returned (record a { channel = enable_read a.channel; listening = true })
]

-- The destructor, and those of the members.
unfoldable pub destroy : Acceptor → Channel × List Effect
destroy a = (
  if a.listening then remove (disable_all a.channel) else a.channel,
  close a.backup ++ closes a.socket ∷ [],
)

abbrev pub is_emfile : Errno → Bool
is_emfile emfile = true
is_emfile _ = false

-- A connection is accepted with the backup's descriptor and closed again.
unfoldable pub turn_away : Opened → Opened → Acceptor → Call (Acceptor × List Effect)
unfolding socket_accept
turn_away second null a = elim (socket_accept second no_address) [
  | aborted ↦ aborted
  | returned (fd, peer) ↦
      let backup = open_null null in
      returned (record a { backup = backup.0 }, close a.backup ++ gets fd ∷ closes fd ∷ backup.1)
]

-- After the first `accept4`.
abbrev pub after_emfile : ℕ → Call (Acceptor × List Effect) → Call (Acceptor × List Effect)
after_emfile fd aborted = aborted
after_emfile fd (returned (a, es)) = returned (a, gets fd ∷ es)

unfoldable pub on_accepted :
    Errno → Opened → Opened → Acceptor → Call (ℕ × Option Address) → Call (Acceptor × List Effect)
unfolding turn_away
on_accepted errno second null a aborted = aborted
on_accepted errno second null a (returned (fd, some p)) =
    returned (a, gets fd ∷ (if a.callback then hands fd p else closes fd) ∷ [])
on_accepted errno second null a (returned (fd, none)) =
    if is_emfile errno
    then after_emfile fd (turn_away second null a)
    else returned (a, gets fd ∷ [])

-- The results of the first and the second `accept4` and of `open`, and `errno` where the first
-- did not set it.
unfoldable pub handle_new_connection :
    Opened → Address → Errno → Opened → Opened → Acceptor → Call (Acceptor × List Effect)
unfolding socket_accept on_accepted
handle_new_connection first peer errno second null a =
    on_accepted errno second null a (socket_accept first peer)
