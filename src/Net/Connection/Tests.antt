-- ===== src/Net/Connection/Tests.antt =====
-- The theorems of the connection at concrete inputs.
use arale.Prelude.{ℕ, ◌≡◌, refl, inl, true, false, List, [], ◌∷◌, ok, arith}
use arale.Net.Buffer.{Buffer, retrieve}
use arale.Net.Channel.{
  new_channel, enable_write, enable_read, write_event, update, none_event, disable_all, read_event,
  tie_to,
}
use arale.Net.Connection.{
  string_memory, Connection, Effect, new_connection, connected, disconnecting, disconnected,
  accepted, handle_write, shutdown, wrote, updated, posted, connection_callback, close_callback,
  connection_established, run_in_loop, handle_close, close_channel, shutdown_in_loop, after_write,
  write_some, after_retrieve, drained, post_write_complete, finish_shutdown, force_close_task,
}
use arale.Net.Connection.Sending.{send_in_loop}
use arale.Net.Connection.Control.{force_close, is_open, run_task, force_close_in_loop}
use arale.Net.Connection.Effects.{Streams}
use arale.Net.Connection.Stream.{send_in_loop-Streams}
use arale.Net.Connection.Writing.{Moves, write_each, write_each-Moves}
use arale.Net.Connection.Life.{Sound}
use arale.Net.Connection.Machine.{
  Loop, Event, established, runs, force_closes, writable, shuts_down, happen, step, happen-Sound,
}

abbrev small : Buffer
small = record {
  bytes = 0 ∷ 0 ∷ 0 ∷ 0 ∷ 0 ∷ 0 ∷ 0 ∷ 0 ∷ 0 ∷ 0 ∷ 0 ∷ 0 ∷ [];
  read_index = 8;
  write_index = 8;
}

abbrev fresh : Connection
fresh = new_connection new_channel small small

abbrev idle : Connection
idle = record fresh { state = connected; channel = tie_to (enable_read new_channel) }

abbrev queued : Connection
queued = record idle {
  channel = enable_write idle.channel;
  output = record small {
    bytes = 0 ∷ 0 ∷ 0 ∷ 0 ∷ 0 ∷ 0 ∷ 0 ∷ 0 ∷ b'h' ∷ b'i' ∷ 0 ∷ 0 ∷ [];
    write_index = 10;
  };
}

abbrev hi : List ℕ
hi = b'h' ∷ b'i' ∷ []

send_in_loop-Streams_example : Streams hi idle (send_in_loop (accepted 2) hi idle)
send_in_loop-Streams_example =
    send_in_loop-Streams (accepted 2) hi idle (omega arith) (inl (omega arith)) (inl refl)

abbrev start : Connection → Loop
start c = record { connection = c; pending = [] }

-- The connection is made, closed from another thread, and the loop gets to it.
abbrev short_life : List Event
short_life = established ∷ force_closes false ∷ runs (string_memory []) (accepted 0) ∷ []

abbrev closed : Connection
closed = record fresh { state = disconnected; channel = disable_all idle.channel }

abbrev short_story : List Effect
short_story =
    updated read_event
    ∷ connection_callback connected
    ∷ posted force_close_task
    ∷ updated none_event
    ∷ connection_callback disconnected
    ∷ close_callback
    ∷ []

lives_short : happen short_life (start fresh) ≡ ok (start closed, short_story)
unfolding happen step connection_established force_close run_task run_in_loop force_close_in_loop
    handle_close close_channel is_open
lives_short = refl

happen-Sound_example : Sound fresh closed short_story
happen-Sound_example = happen-Sound short_life (start fresh) (start closed) short_story lives_short

-- A shutdown is asked for while bytes wait, and then all of them leave.
abbrev last_bytes : List Event
last_bytes = shuts_down true ∷ writable (accepted 2) ∷ []

abbrev stuck : Connection
stuck = record queued {
  state = disconnecting;
  output = record queued.output { read_index = 8; write_index = 8 };
  channel = update (record queued.channel { events = write_event });
}

runs_stuck :
    happen last_bytes (start queued) ≡ ok (start stuck, wrote hi ∷ updated write_event ∷ [])
unfolding happen step shutdown shutdown_in_loop run_in_loop handle_write after_write write_some
    after_retrieve drained post_write_complete finish_shutdown retrieve
runs_stuck = refl

write_each-Moves_example : Moves 2 queued (write_each (1 ∷ 1 ∷ []) queued)
write_each-Moves_example =
    write_each-Moves (1 ∷ 1 ∷ []) queued refl (omega arith) (omega arith, (omega arith, tt))
      (omega arith)

moves_bytes :
    write_each (1 ∷ 1 ∷ []) queued
    ≡ ok (
      record stuck { state = connected },
      wrote (b'h' ∷ []) ∷ wrote (b'i' ∷ []) ∷ updated write_event ∷ [],
    )
unfolding write_each handle_write after_write write_some after_retrieve drained post_write_complete
    finish_shutdown retrieve
moves_bytes = refl
