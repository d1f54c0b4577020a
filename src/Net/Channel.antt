-- ===== src/Net/Channel.antt =====
-- arale/net/Channel.h and Channel.cc: the events that a descriptor waits for, and the callbacks
-- that those which happened lead to. Of an `int` of events the bits are modelled that poll.h names
-- and the code tests. The callbacks themselves belong to the channel's owner.
pub mod Order
mod Tests
use arale.Prelude.{Bool, true, false, not, ◌&&◌, ◌||◌, List, [], ◌∷◌, ◌++◌, ℕ, if◌then◌else◌}

-- The bits of `events_` that the three constants are made of.
pub record Events : Type 0 where
  pub pollin : Bool
  pub pollpri : Bool
  pub pollout : Bool

abbrev pub none_event : Events
none_event = record { pollin = false; pollpri = false; pollout = false }

abbrev pub read_event : Events
read_event = record { pollin = true; pollpri = true; pollout = false }

abbrev pub write_event : Events
write_event = record { pollin = false; pollpri = false; pollout = true }

-- `|`, `&` and `~` on these bits, and the test of a mask against 0.
abbrev pub bits_or : Events → Events → Events
bits_or a b = record {
  pollin = a.pollin || b.pollin;
  pollpri = a.pollpri || b.pollpri;
  pollout = a.pollout || b.pollout;
}

abbrev pub bits_and : Events → Events → Events
bits_and a b = record {
  pollin = a.pollin && b.pollin;
  pollpri = a.pollpri && b.pollpri;
  pollout = a.pollout && b.pollout;
}

abbrev pub bits_not : Events → Events
bits_not a = record { pollin = not a.pollin; pollpri = not a.pollpri; pollout = not a.pollout }

abbrev pub any_bit : Events → Bool
any_bit a = a.pollin || (a.pollpri || a.pollout)

-- What `poll` reports: the bits that `handleEvent` tests.
pub record Revents : Type 0 where
  pub pollin : Bool
  pub pollpri : Bool
  pub pollout : Bool
  pub pollerr : Bool
  pub pollhup : Bool
  pub pollnval : Bool
  pub pollrdhup : Bool

-- Which callbacks are set.
pub record Callbacks : Type 0 where
  pub read : Bool
  pub write : Bool
  pub error : Bool
  pub close : Bool

pub record Channel : Type 0 where
  pub events : Events
  pub revents : Revents
  pub callbacks : Callbacks
  pub is_in_loop : Bool
  pub tied : Bool

abbrev pub no_revents : Revents
no_revents = record {
  pollin = false;
  pollpri = false;
  pollout = false;
  pollerr = false;
  pollhup = false;
  pollnval = false;
  pollrdhup = false;
}

abbrev pub new_channel : Channel
new_channel = record {
  events = none_event;
  revents = no_revents;
  callbacks = record { read = false; write = false; error = false; close = false };
  is_in_loop = false;
  tied = false;
}

-- `update` on the channel's side. The poller's side is told by the caller's effects.
abbrev pub update : Channel → Channel
update c = record c { is_in_loop = true }

abbrev pub remove : Channel → Channel
remove c = record c { is_in_loop = false }

abbrev pub tie_to : Channel → Channel
tie_to c = record c { tied = true }

abbrev pub enable_read : Channel → Channel
enable_read c = update (record c { events = bits_or c.events read_event })

abbrev pub disable_read : Channel → Channel
disable_read c = update (record c { events = bits_and c.events (bits_not read_event) })

abbrev pub enable_write : Channel → Channel
enable_write c = update (record c { events = bits_or c.events write_event })

-- The source has no `~` here.
abbrev pub disable_write : Channel → Channel
disable_write c = update (record c { events = bits_and c.events write_event })

abbrev pub disable_all : Channel → Channel
disable_all c = update (record c { events = none_event })

abbrev pub is_reading : Channel → Bool
is_reading c = any_bit (bits_and c.events read_event)

abbrev pub is_writing : Channel → Bool
is_writing c = any_bit (bits_and c.events write_event)

abbrev pub is_none_event : Channel → Bool
is_none_event c = not (any_bit c.events)

pub data Callback : Type 0 where
  on_close on_error on_read on_write : Callback

abbrev pub when : Bool → Callback → List Callback
when test c = if test then c ∷ [] else []

-- The callbacks that `handleEventWithGuard` makes, in order.
unfoldable pub handle_event_with_guard : Channel → List Callback
handle_event_with_guard c =
    when ((r.pollhup && not r.pollin) && k.close) on_close
    ++ (when ((r.pollerr || r.pollnval) && k.error) on_error
        ++ (when ((r.pollin || (r.pollpri || r.pollrdhup)) && k.read) on_read
            ++ when (r.pollout && k.write) on_write))
  where
    r : Revents
    r = c.revents

    k : Callbacks
    k = c.callbacks

-- `alive`: whether the owner that the channel is tied to still lives.
unfoldable pub handle_event : Bool → Channel → List Callback
unfolding handle_event_with_guard
handle_event alive c =
    if c.tied then (if alive then handle_event_with_guard c else []) else handle_event_with_guard c

-- `eventsToString`, with the descriptor's decimal text.
abbrev pub when_bit : Bool → List ℕ → List ℕ
when_bit test s = if test then s else []

unfoldable pub events_to_string : List ℕ → Revents → List ℕ
events_to_string fd e =
    fd
    ++ (b':' ∷ [])
    ++ when_bit e.pollin (b'I' ∷ b'N' ∷ [])
    ++ when_bit e.pollpri (b'P' ∷ b'R' ∷ b'I' ∷ [])
    ++ when_bit e.pollout (b'O' ∷ b'U' ∷ b'T' ∷ [])
    ++ when_bit e.pollhup (b'H' ∷ b'U' ∷ b'P' ∷ [])
    ++ when_bit e.pollrdhup (b'R' ∷ b'D' ∷ b'H' ∷ b'U' ∷ b'P' ∷ [])
    ++ when_bit e.pollerr (b'E' ∷ b'R' ∷ b'R' ∷ [])
    ++ when_bit e.pollnval (b'N' ∷ b'V' ∷ b'A' ∷ b'L' ∷ [])
