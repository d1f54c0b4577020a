-- ===== src/Net/Connection/Sending.antt =====
-- TcpConnection.cc: `send` and `sendInLoop`.
use arale.Prelude.{
  ℕ, ◌-◌, Bool, not, ◌&&◌, List, [], ◌∷◌, Outcome, ok, ◌>>=◌, ltb, leb, ◌==◌, if◌then◌else◌, length,
  take, slice,
}
use arale.Net.Buffer.{
  Buffer, readable_bytes, add_size, retrieve_all, retrieve_all_as_string, append,
}
use arale.Net.Channel.{enable_write, is_writing}
use arale.Net.Connection.{
  same_state, Connection, Memory, string_memory, Effect, Write, Handler, done, emit, with_channel,
  run_in_loop, post_write_complete, connected, high_water_mark_reached, send_task, send_string_task,
  wrote, posted, accepted, peer_gone, other_error, ◌then_run◌,
}

unfoldable pub signal_high_water : ℕ → Handler
signal_high_water left c =
    let having = readable_bytes c.output in
    if (ltb having c.high_water_mark && leb c.high_water_mark (add_size having left))
      && c.high_water_mark_callback
    then emit (posted (high_water_mark_reached (add_size having left))) c
    else done c

unfoldable pub append_output : List ℕ → Handler
append_output bytes c = do output ← append bytes c.output; ok (record c { output = output }, [])

unfoldable pub start_writing : Handler
start_writing c = if not (is_writing c.channel) then with_channel enable_write c else done c

-- The second half of `sendInLoop`: `left` bytes go to the output buffer, from the start of `bytes`.
unfoldable pub queue_left : List ℕ → ℕ → Handler
unfolding signal_high_water append_output start_writing
queue_left bytes left c =
    if ltb 0 left
    then (signal_high_water left then_run append_output (take left bytes) then_run start_writing) c
    else done c

-- `write` took `n` of the bytes.
unfoldable pub write_direct : List ℕ → ℕ → Handler
unfolding queue_left post_write_complete
write_direct bytes n =
    emit (wrote (take n bytes))
    then_run post_write_complete (length bytes - n == 0)
    then_run queue_left bytes (length bytes - n)

-- The direct write and what follows it: an error of a peer that is gone drops the bytes.
unfoldable pub try_write : Write → List ℕ → Handler
unfolding write_direct queue_left
try_write (accepted n) bytes = write_direct bytes n
try_write peer_gone bytes = done
try_write other_error bytes = queue_left bytes (length bytes)

unfoldable pub send_in_loop : Write → List ℕ → Handler
unfolding try_write queue_left
send_in_loop w bytes c =
    if not (is_writing c.channel) && (readable_bytes c.output == 0)
    then try_write w bytes c
    else queue_left bytes (length bytes) c

-- `sendInLoop` of a pointer, with the memory as it is when it runs.
unfoldable pub send_data : Memory → Write → ℕ → ℕ → Handler
unfolding send_in_loop
send_data memory w start len c = do bytes ← memory start len; send_in_loop w bytes c

-- Another thread binds the pointer, not the bytes: the task reads what is there when it runs.
unfoldable pub send : Bool → Memory → Write → ℕ → ℕ → Handler
unfolding send_data run_in_loop
send in_loop memory w start len c =
    if same_state c.state connected
    then run_in_loop in_loop (send_task start len) (send_data memory w start len) c
    else done c

-- `send(const std::string &)`, with the string in memory.
unfoldable pub send_string : Bool → Write → List ℕ → Handler
unfolding send
send_string in_loop w msg = send in_loop (string_memory msg) w 0 (length msg)

-- `send(Buffer *)`: the buffer is emptied, also where the bytes are only handed to the loop.
pub send_buffer : Bool → Write → Buffer → Connection → Outcome (Buffer × (Connection × List Effect))
unfolding send_in_loop retrieve_all_as_string
send_buffer in_loop w buf c =
    if same_state c.state connected then (if in_loop then now else later) else ok (buf, done_pair c)
  where
    done_pair : Connection → Connection × List Effect
    done_pair d = (d, [])

    now : Outcome (Buffer × (Connection × List Effect))
    now = do
      r ← send_in_loop w (slice buf.read_index buf.write_index buf.bytes) c
      ok (retrieve_all buf, r)

    later : Outcome (Buffer × (Connection × List Effect))
    later = do
      (bytes, rest) ← retrieve_all_as_string buf
      ok (rest, (c, posted (send_string_task bytes) ∷ []))
