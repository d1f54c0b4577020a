-- ===== src/Net/Connection/Drain.antt =====
-- TcpConnection.cc, `handleWrite` when the last queued bytes leave, and the shutdown that waits
-- for it. `Channel::disableWrite` masks with `kWriteEvent` itself, not with its complement.
use arale.Prelude.{ℕ, ◌<◌, ◌≡◌, true, not, ◌&&◌, [], ◌∷◌, ok, if◌then◌else◌, take, drop, arith}
use arale.Net.Buffer.{Buffer, readable_bytes, retrieve}
use arale.Net.Channel.{is_writing, write_event, update}
use arale.Net.Connection.{
  connected, disconnecting, same_state, Connection, wrote, updated, posted, write_complete,
  shut_down_write, accepted, handle_write, after_write, write_some, after_retrieve, drained,
  post_write_complete, finish_shutdown, shutdown_in_loop, shutdown, run_in_loop,
}

-- When write takes all queued bytes of a channel that waits for writing, the channel is left
-- waiting for writing alone, a write complete callback is queued if there is one, and the write
-- side is not shut.
handle_write-drained :
    (n : ℕ) (c : Connection) (rest : Buffer)
    → is_writing c.channel ≡ true
    → 0 < n
    → retrieve n c.output ≡ ok rest
    → readable_bytes rest ≡ 0
    → handle_write (accepted n) c
      ≡ ok (
        record c { output = rest; channel = update (record c.channel { events = write_event }) },
        wrote (take n (drop c.output.read_index c.output.bytes))
            ∷ updated write_event
            ∷ (if c.write_complete_callback then posted write_complete ∷ [] else []),
      )
unfolding handle_write after_write write_some after_retrieve drained post_write_complete
    finish_shutdown shutdown_in_loop
handle_write-drained n c rest w p r e = ground arith

-- shutdown in the loop thread marks a connected connection and shuts the write side at once unless
-- the channel waits for writing, and does nothing to any other.
shutdown-cases :
    (c : Connection)
    → shutdown true c
      ≡ ok (
        if same_state c.state connected then record c { state = disconnecting } else c,
        if same_state c.state connected && not (is_writing c.channel)
            then shut_down_write ∷ []
            else [],
      )
unfolding shutdown shutdown_in_loop run_in_loop
shutdown-cases c = ground arith
