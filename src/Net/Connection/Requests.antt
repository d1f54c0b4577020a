-- ===== src/Net/Connection/Requests.antt =====
-- TcpConnection.cc: the requests of the user keep what `Life` says of a run.
use arale.Prelude.{
  ℕ, refl, Bool, true, false, not, List, [], ok, ltb, ◌==◌, arith, ◌-◌, take, length,
}
use arale.Net.Buffer.{append}
use arale.Net.Channel.{enable_read, disable_read, enable_write, is_writing}
use arale.Net.Connection.{
  high_water_mark_reached, start_read_task, stop_read_task, force_close_task, send_task,
  send_string_task, shutdown_task, write_complete, connected, disconnecting, same_state, Connection,
  Memory, string_memory, wrote, posted, close_later, Write, accepted, peer_gone, other_error,
  set_state, Task, emit, with_channel, ◌then_run◌, run_in_loop, shutdown_in_loop,
  post_write_complete, shutdown,
}
use arale.Net.Connection.Sending.{
  signal_high_water, append_output, start_writing, queue_left, write_direct, try_write,
  send_in_loop, send_data, send, send_string,
}
use arale.Net.Connection.Control.{
  force_close_in_loop, force_close, is_open, force_close_with_delay, start_read_in_loop, start_read,
  stop_read_in_loop, stop_read, run_task,
}
use arale.Net.Connection.Life.{
  Keeps, Keeps-if, Keeps-then, Keeps-bind, Keeps-quiet, Keeps-done, Keeps-when, Keeps-assert,
}
use arale.Net.Connection.Handlers.{
  connected_rank, open_rank, shutdown_in_loop-Keeps, Keeps-with_channel, Keeps-emit,
  disconnecting-Keeps, handle_close-Keeps, post_write_complete-Keeps, run_in_loop-Keeps,
}

pub shutdown-Keeps : (b : Bool) (c : Connection) → Keeps c (shutdown b c)
unfolding shutdown
shutdown-Keeps b c =
    Keeps-when (same_state c.state connected)
      (λ e.
        let (r, u, d) = connected_rank c.state e in
        Keeps-then (set_state disconnecting) (run_in_loop b shutdown_task shutdown_in_loop)
          (disconnecting-Keeps c (omega arith, u, d))
          (λ d. run_in_loop-Keeps b shutdown_task shutdown_in_loop d (shutdown_in_loop-Keeps d)))
      (λ _. Keeps-done c)

pub signal_high_water-Keeps : (left : ℕ) (c : Connection) → Keeps c (signal_high_water left c)
unfolding signal_high_water
signal_high_water-Keeps left c =
    Keeps-if _ (Keeps-emit (posted _) c (refl, refl, refl)) (Keeps-done c)

pub append_output-Keeps : (bytes : List ℕ) (c : Connection) → Keeps c (append_output bytes c)
unfolding append_output
append_output-Keeps bytes c =
    Keeps-bind (append bytes c.output) _ (λ b. Keeps-quiet refl refl (refl, refl, refl))

pub start_writing-Keeps : (c : Connection) → Keeps c (start_writing c)
unfolding start_writing
start_writing-Keeps c =
    Keeps-if (not (is_writing c.channel)) (Keeps-with_channel enable_write c (λ h. ground arith))
      (Keeps-done c)

pub queue_left-Keeps :
    (bytes : List ℕ) (left : ℕ) (c : Connection) → Keeps c (queue_left bytes left c)
unfolding queue_left
queue_left-Keeps bytes left c =
    Keeps-if (ltb 0 left)
      (Keeps-then (signal_high_water left) (append_output (take left bytes) then_run start_writing)
        (signal_high_water-Keeps left c)
        (λ d.
          Keeps-then (append_output (take left bytes)) start_writing
            (append_output-Keeps (take left bytes) d) start_writing-Keeps))
      (Keeps-done c)

pub write_direct-Keeps :
    (bytes : List ℕ) (n : ℕ) (c : Connection) → Keeps c (write_direct bytes n c)
unfolding write_direct
write_direct-Keeps bytes n c =
    Keeps-then (emit (wrote (take n bytes)))
      (post_write_complete (length bytes - n == 0) then_run queue_left bytes (length bytes - n))
      (Keeps-emit (wrote _) c (refl, refl, refl))
      (λ d.
        Keeps-then (post_write_complete (length bytes - n == 0))
          (queue_left bytes (length bytes - n)) (post_write_complete-Keeps _ d)
          (queue_left-Keeps bytes (length bytes - n)))

pub try_write-Keeps : (w : Write) (bytes : List ℕ) (c : Connection) → Keeps c (try_write w bytes c)
unfolding try_write
try_write-Keeps (accepted n) bytes c = write_direct-Keeps bytes n c
try_write-Keeps peer_gone bytes c = Keeps-done c
try_write-Keeps other_error bytes c = queue_left-Keeps bytes (length bytes) c

pub send_in_loop-Keeps :
    (w : Write) (bytes : List ℕ) (c : Connection) → Keeps c (send_in_loop w bytes c)
unfolding send_in_loop
send_in_loop-Keeps w bytes c =
    Keeps-if _ (try_write-Keeps w bytes c) (queue_left-Keeps bytes (length bytes) c)

pub send_data-Keeps :
    (memory : Memory) (w : Write) (start len : ℕ) (c : Connection)
    → Keeps c (send_data memory w start len c)
unfolding send_data
send_data-Keeps memory w start len c =
    Keeps-bind (memory start len) _ (λ bytes. send_in_loop-Keeps w bytes c)

pub send-Keeps :
    (b : Bool) (memory : Memory) (w : Write) (start len : ℕ) (c : Connection)
    → Keeps c (send b memory w start len c)
unfolding send
send-Keeps b memory w start len c =
    Keeps-if (same_state c.state connected)
      (run_in_loop-Keeps b (send_task start len) (send_data memory w start len) c
        (send_data-Keeps memory w start len c))
      (Keeps-done c)

pub send_string-Keeps :
    (b : Bool) (w : Write) (msg : List ℕ) (c : Connection) → Keeps c (send_string b w msg c)
unfolding send_string
send_string-Keeps b w msg c = send-Keeps b (string_memory msg) w 0 (length msg) c

pub force_close_in_loop-Keeps : (c : Connection) → Keeps c (force_close_in_loop c)
unfolding force_close_in_loop
force_close_in_loop-Keeps c =
    Keeps-assert (same_state c.state disconnecting) (λ _. handle_close-Keeps c)

pub force_close-Keeps : (b : Bool) (c : Connection) → Keeps c (force_close b c)
unfolding force_close
force_close-Keeps b c =
    Keeps-when (is_open c.state)
      (λ e.
        Keeps-then (set_state disconnecting) (run_in_loop b force_close_task force_close_in_loop)
          (disconnecting-Keeps c (open_rank c.state e))
          (λ d.
            run_in_loop-Keeps b force_close_task force_close_in_loop d
              (force_close_in_loop-Keeps d)))
      (λ _. Keeps-done c)

pub force_close_with_delay-Keeps : (c : Connection) → Keeps c (force_close_with_delay c)
unfolding force_close_with_delay
force_close_with_delay-Keeps c =
    Keeps-when (is_open c.state)
      (λ e.
        Keeps-then (set_state disconnecting) (emit close_later)
          (disconnecting-Keeps c (open_rank c.state e))
          (λ d. Keeps-emit close_later d (refl, refl, refl)))
      (λ _. Keeps-done c)

pub set_reading-Keeps : (b : Bool) (c : Connection) → Keeps c (ok (record c { reading = b }, []))
set_reading-Keeps b c = Keeps-quiet refl refl (refl, refl, refl)

pub start_read_in_loop-Keeps : (c : Connection) → Keeps c (start_read_in_loop c)
unfolding start_read_in_loop
start_read_in_loop-Keeps c =
    Keeps-if _
      (Keeps-then (with_channel enable_read) (λ d. ok (record d { reading = true }, []))
        (Keeps-with_channel enable_read c (λ h. ground arith)) (set_reading-Keeps true))
      (Keeps-done c)

pub start_read-Keeps : (b : Bool) (c : Connection) → Keeps c (start_read b c)
unfolding start_read
start_read-Keeps b c =
    Keeps-assert (same_state c.state connected)
      (λ _. run_in_loop-Keeps b start_read_task start_read_in_loop c (start_read_in_loop-Keeps c))

pub stop_read_in_loop-Keeps : (c : Connection) → Keeps c (stop_read_in_loop c)
unfolding stop_read_in_loop
stop_read_in_loop-Keeps c =
    Keeps-if _
      (Keeps-then (with_channel disable_read) (λ d. ok (record d { reading = false }, []))
        (Keeps-with_channel disable_read c (λ h. ground arith)) (set_reading-Keeps false))
      (Keeps-done c)

pub stop_read-Keeps : (b : Bool) (c : Connection) → Keeps c (stop_read b c)
unfolding stop_read
stop_read-Keeps b c =
    Keeps-assert (same_state c.state connected)
      (λ _. run_in_loop-Keeps b stop_read_task stop_read_in_loop c (stop_read_in_loop-Keeps c))

pub run_task-Keeps :
    (t : Task) (memory : Memory) (w : Write) (c : Connection) → Keeps c (run_task t memory w c)
unfolding run_task
run_task-Keeps write_complete memory w c = Keeps-done c
run_task-Keeps (high_water_mark_reached n) memory w c = Keeps-done c
run_task-Keeps shutdown_task memory w c = shutdown_in_loop-Keeps c
run_task-Keeps start_read_task memory w c = start_read_in_loop-Keeps c
run_task-Keeps stop_read_task memory w c = stop_read_in_loop-Keeps c
run_task-Keeps force_close_task memory w c = force_close_in_loop-Keeps c
run_task-Keeps (send_task start len) memory w c = send_data-Keeps memory w start len c
run_task-Keeps (send_string_task msg) memory w c = send_string-Keeps true w msg c
