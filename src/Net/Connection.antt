-- ===== src/Net/Connection.antt =====
-- arale/net/TcpConnection.h and TcpConnection.cc: the life of one connection. Each handler takes
-- the results of its system calls and returns the connection with its effects, in order. What the
-- code hands to the event loop is a task; EventLoop.cc runs it at once in the loop's thread, and
-- queues it otherwise.
pub mod Sending
pub mod Control
pub mod Effects
pub mod Stream
pub mod Life
pub mod Handlers
pub mod Requests
pub mod Machine
pub mod Drain
pub mod Writing
mod Tests
use arale.Prelude.{
  ℕ, zero, suc, ◌+◌, ◌-◌, ◌*◌, Bool, true, false, not, ◌&&◌, ◌||◌, List, [], ◌∷◌, ◌++◌, Outcome, ok,
  undefined, ◌>>=◌, ◌>>◌, assert, ltb, leb, ◌==◌, if◌then◌else◌, length, take, drop, slice,
}
use arale.Net.Buffer.{
  Buffer, readable_bytes, add_size, retrieve, retrieve_all, retrieve_all_as_string, append, Readv,
  failed, received, read_fd,
}
use arale.Net.Channel.{
  Events, Channel, enable_read, disable_read, enable_write, disable_write, disable_all, remove,
  tie_to, is_reading, is_writing,
}

pub data State : Type 0 where
  connecting connected disconnecting disconnected : State

abbrev pub same_state : State → State → Bool
same_state connecting connecting = true
same_state connected connected = true
same_state disconnecting disconnecting = true
same_state disconnected disconnected = true
same_state _ _ = false

pub record Connection : Type 0 where
  pub state : State
  pub channel : Channel
  pub high_water_mark : ℕ
  pub input : Buffer
  pub output : Buffer
  pub reading : Bool
  -- Whether the two optional callbacks are set.
  pub write_complete_callback : Bool
  pub high_water_mark_callback : Bool

pub data Task : Type 0 where
  write_complete : Task
  high_water_mark_reached : ℕ → Task
  shutdown_task start_read_task stop_read_task force_close_task : Task
  -- `sendInLoop` of a pointer and a length, and `send` of a string, which the task owns.
  send_task : ℕ → ℕ → Task
  send_string_task : List ℕ → Task

-- What the outside sees: bytes given to the socket, its write side shut, the channel's events
-- handed to the poller or taken from it, callbacks, and tasks handed to the loop.
pub data Effect : Type 0 where
  wrote : List ℕ → Effect
  shut_down_write : Effect
  updated : Events → Effect
  removed : Effect
  connection_callback : State → Effect
  message_callback close_callback : Effect
  posted : Task → Effect
  -- `runAfter` with `forceClose`.
  close_later : Effect

-- What `write` does: it takes some of the bytes, or fails, with an error that says that the peer
-- is gone (`EPIPE`, `ECONNRESET`) or with another.
pub data Write : Type 0 where
  accepted : ℕ → Write
  peer_gone other_error : Write

-- What a pointer and a length read at some moment, which is undefined where nothing is.
abbrev pub Memory : Type 0
Memory = ℕ → ℕ → Outcome (List ℕ)

-- The memory of one string, at the pointer 0.
abbrev pub string_memory : List ℕ → Memory
string_memory msg start len =
    if leb (start + len) (length msg) then ok (slice start (start + len) msg) else undefined

abbrev pub Handler : Type 0
Handler = Connection → Outcome (Connection × List Effect)

abbrev pub done : Handler
done c = ok (c, [])

-- A change of the channel's events reaches the poller.
abbrev pub update_channel : (Channel → Channel) → Connection → Connection × List Effect
update_channel f c = (record c { channel = f c.channel }, updated (f c.channel).events ∷ [])

-- One handler after another.
infixr 6 ◌then_run◌
abbrev pub ◌then_run◌ : Handler → Handler → Handler
(f then_run g) c = do (c', es) ← f c; (c'', fs) ← g c'; ok (c'', es ++ fs)

abbrev pub emit : Effect → Handler
emit e c = ok (c, e ∷ [])

abbrev pub with_channel : (Channel → Channel) → Handler
with_channel f c = ok (update_channel f c)

abbrev pub set_state : State → Handler
set_state s c = ok (record c { state = s }, [])

-- The connection callback sees the connection in its present state.
abbrev pub call_connection : Handler
call_connection c = ok (c, connection_callback c.state ∷ [])

pub run_in_loop : Bool → Task → Handler → Handler
run_in_loop in_loop task f = if in_loop then f else emit (posted task)

-- The constructor, on the channel of the socket.
abbrev pub new_connection : Channel → Buffer → Buffer → Connection
new_connection channel input output = record {
  state = connecting;
  channel = channel;
  high_water_mark = 64 * 1024 * 1024;
  input = input;
  output = output;
  reading = false;
  write_complete_callback = false;
  high_water_mark_callback = false;
}

pub connection_established : Handler
connection_established c = do
  assert (same_state c.state connecting)
  (set_state connected
        then_run (λ d. ok (record d { channel = tie_to d.channel }, []))
        then_run with_channel enable_read
        then_run call_connection)
      c

pub close_channel : Handler
close_channel = set_state disconnected then_run with_channel disable_all then_run call_connection

pub connection_destroyed : Handler
unfolding close_channel
connection_destroyed c =
    ((λ d. if same_state d.state connected then close_channel d else done d)
        then_run (λ d. ok (record d { channel = remove d.channel }, removed ∷ [])))
      c

pub handle_close : Handler
unfolding close_channel
handle_close c = do
  assert (same_state c.state connected || same_state c.state disconnecting)
  (close_channel then_run emit close_callback) c

-- `res` is a `size_t`, so that the -1 of a failed `readFd` is greater than 0 as well.
pub after_read : Readv → Handler
unfolding handle_close
after_read (failed errno) c = emit message_callback c
after_read (received d) c = if ltb 0 (length d) then emit message_callback c else handle_close c

pub handle_read : Readv → Handler
unfolding after_read
handle_read r c = do input ← read_fd r c.input; after_read r (record c { input = input })

pub shutdown_in_loop : Handler
shutdown_in_loop c = if not (is_writing c.channel) then emit shut_down_write c else done c

-- The test of `writeCompleteCallback_`, after that of the bytes left.
pub post_write_complete : Bool → Handler
post_write_complete none_left c =
    if none_left && c.write_complete_callback then emit (posted write_complete) c else done c

pub finish_shutdown : Handler
unfolding shutdown_in_loop
finish_shutdown c = if same_state c.state disconnecting then shutdown_in_loop c else done c

-- All queued bytes are written.
pub drained : Handler
unfolding post_write_complete finish_shutdown
drained = with_channel disable_write then_run post_write_complete true then_run finish_shutdown

pub after_retrieve : Handler
unfolding drained
after_retrieve c = if readable_bytes c.output == 0 then drained c else done c

pub write_some : ℕ → Handler
unfolding after_retrieve
write_some n c = do
  output ← retrieve n c.output
  (emit (wrote (take n (drop c.output.read_index c.output.bytes))) then_run after_retrieve)
      (record c { output = output })

pub after_write : Write → Handler
unfolding write_some
after_write (accepted n) c = if ltb 0 n then write_some n c else done c
after_write peer_gone c = done c
after_write other_error c = done c

pub handle_write : Write → Handler
unfolding after_write
handle_write w c = if is_writing c.channel then after_write w c else done c

pub shutdown : Bool → Handler
unfolding shutdown_in_loop run_in_loop
shutdown in_loop c =
    if same_state c.state connected
    then (set_state disconnecting then_run run_in_loop in_loop shutdown_task shutdown_in_loop) c
    else done c
