-- ===== src/Net/Connection/Control.antt =====
-- TcpConnection.cc: what ends a connection or its reading, and the tasks that the loop runs later.
use arale.Prelude.{
  ℕ, Bool, true, false, not, ◌||◌, List, [], ◌∷◌, Outcome, ok, ◌>>◌, assert, if◌then◌else◌,
}
use arale.Net.Buffer.{Buffer, retrieve_all}
use arale.Net.Channel.{enable_read, disable_read, is_reading}
use arale.Net.Connection.{
  State, same_state, Connection, Task, Write, Handler, done, emit, with_channel, set_state,
  run_in_loop, handle_close, shutdown_in_loop, connecting, connected, disconnecting, disconnected,
  write_complete, high_water_mark_reached, shutdown_task, start_read_task, stop_read_task,
  force_close_task, send_task, send_string_task, close_later, Memory, ◌then_run◌,
}
use arale.Net.Connection.Sending.{send_data, send_string}

-- The destructor.
unfoldable pub destroy : Connection → Outcome (Unit {0})
destroy c = assert (same_state c.state disconnected)

unfoldable pub force_close_in_loop : Handler
unfolding handle_close
force_close_in_loop c = do assert (same_state c.state disconnecting); handle_close c

unfoldable pub is_open : State → Bool
is_open s = same_state s connected || same_state s disconnecting

unfoldable pub force_close : Bool → Handler
unfolding force_close_in_loop run_in_loop is_open
force_close in_loop c =
    if is_open c.state
    then (set_state disconnecting then_run run_in_loop in_loop force_close_task force_close_in_loop)
        c
    else done c

unfoldable pub force_close_with_delay : Handler
unfolding is_open
force_close_with_delay c =
    if is_open c.state then (set_state disconnecting then_run emit close_later) c else done c

unfoldable pub start_read_in_loop : Handler
start_read_in_loop c =
    if not c.reading || not (is_reading c.channel)
    then (with_channel enable_read then_run (λ d. ok (record d { reading = true }, []))) c
    else done c

unfoldable pub start_read : Bool → Handler
unfolding start_read_in_loop run_in_loop
start_read in_loop c = do
  assert (same_state c.state connected)
  run_in_loop in_loop start_read_task start_read_in_loop c

unfoldable pub stop_read_in_loop : Handler
stop_read_in_loop c =
    if c.reading || is_reading c.channel
    then (with_channel disable_read then_run (λ d. ok (record d { reading = false }, []))) c
    else done c

unfoldable pub stop_read : Bool → Handler
unfolding stop_read_in_loop run_in_loop
stop_read in_loop c = do
  assert (same_state c.state connected)
  run_in_loop in_loop stop_read_task stop_read_in_loop c

-- A task that the loop runs later, with the memory as it is then. The callbacks of the first two belong to the user.
unfoldable pub run_task : Task → Memory → Write → Handler
unfolding shutdown_in_loop start_read_in_loop stop_read_in_loop force_close_in_loop send_data
    send_string
run_task write_complete memory w = done
run_task (high_water_mark_reached n) memory w = done
run_task shutdown_task memory w = shutdown_in_loop
run_task start_read_task memory w = start_read_in_loop
run_task stop_read_task memory w = stop_read_in_loop
run_task force_close_task memory w = force_close_in_loop
run_task (send_task start len) memory w = send_data memory w start len
run_task (send_string_task msg) memory w = send_string true w msg

abbrev pub state_to_string : State → List ℕ
state_to_string disconnected =
    b'k' ∷ b'D' ∷ b'i' ∷ b's' ∷ b'c' ∷ b'o' ∷ b'n' ∷ b'n' ∷ b'e' ∷ b'c' ∷ b't' ∷ b'e' ∷ b'd' ∷ []
state_to_string connected = b'k' ∷ b'C' ∷ b'o' ∷ b'n' ∷ b'n' ∷ b'e' ∷ b'c' ∷ b't' ∷ b'e' ∷ b'd' ∷ []
state_to_string connecting =
    b'k' ∷ b'C' ∷ b'o' ∷ b'n' ∷ b'n' ∷ b'e' ∷ b'c' ∷ b't' ∷ b'i' ∷ b'n' ∷ b'g' ∷ []
state_to_string disconnecting =
    b'k' ∷ b'D' ∷ b'i' ∷ b's' ∷ b'c' ∷ b'o' ∷ b'n' ∷ b'n' ∷ b'e' ∷ b'c' ∷ b't' ∷ b'i' ∷ b'n' ∷ b'g'
    ∷ []

abbrev pub is_connected : Connection → Bool
is_connected c = same_state c.state connected

abbrev pub set_write_complete_callback : Connection → Connection
set_write_complete_callback c = record c { write_complete_callback = true }

abbrev pub set_high_water_mark_callback : ℕ → Connection → Connection
set_high_water_mark_callback mark c = record c {
  high_water_mark_callback = true;
  high_water_mark = mark;
}

abbrev pub default_message_callback : Buffer → Buffer
default_message_callback buf = retrieve_all buf
