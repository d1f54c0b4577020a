-- ===== src/Net/Connection/Handlers.antt =====
-- TcpConnection.cc: every handler keeps what `Life` says of a run.
use arale.Prelude.{
  ℕ, ◌≤◌, ◌≡◌, refl, Bool, true, false, not, ◌&&◌, ◌||◌, [], ◌∷◌, ok, ltb, ◌==◌, if◌then◌else◌,
  arith, take, drop, length,
}
use arale.Net.Buffer.{read_fd, retrieve, Readv, failed, received, readable_bytes}
use arale.Net.Channel.{Channel, remove, is_writing, disable_write}
use arale.Net.Connection.{
  write_complete, State, connecting, connected, disconnecting, disconnected, same_state, Connection,
  Handler, Effect, wrote, removed, message_callback, close_callback, posted, Write, accepted,
  peer_gone, other_error, set_state, Task, done, emit, with_channel, ◌then_run◌, run_in_loop,
  connection_established, close_channel, connection_destroyed, handle_close, after_read,
  handle_read, shutdown_in_loop, post_write_complete, finish_shutdown, drained, after_retrieve,
  write_some, after_write, handle_write,
}
use arale.Net.Connection.Life.{
  rank, up, down, one_up, one_down, one_shut, Keeps, Keeps-ok, Keeps-if, Keeps-then, Keeps-bind,
  Keeps-quiet, Keeps-done, Keeps-when, Keeps-assert, Keeps-same,
}

-- What a test of the state tells.
pub connected_rank :
    (s : State) → same_state s connected ≡ true → (rank s ≡ 1) × (up s ≡ 1) × (down s ≡ 0)
connected_rank connecting e = cc
connected_rank connected e = (refl, refl, refl)
connected_rank disconnecting e = cc
connected_rank disconnected e = cc

pub open_rank :
    (s : State)
    → (same_state s connected || same_state s disconnecting) ≡ true
    → (rank s ≤ 2) × (up s ≡ 1) × (down s ≡ 0)
open_rank connecting e = cc
open_rank connected e = (omega arith, refl, refl)
open_rank disconnecting e = (omega arith, refl, refl)
open_rank disconnected e = cc

pub connecting_rank : (s : State) → same_state s connecting ≡ true → s ≡ connecting
connecting_rank connecting e = refl
connecting_rank connected e = cc
connecting_rank disconnecting e = cc
connecting_rank disconnected e = cc

pub shutdown_in_loop-Keeps : (c : Connection) → Keeps c (shutdown_in_loop c)
unfolding shutdown_in_loop
shutdown_in_loop-Keeps c =
    Keeps-when (not (is_writing c.channel))
      (λ e. Keeps-ok (record {
        forward = omega arith;
        ups = omega arith;
        downs = omega arith;
        writing = λ h r. absurd (ground arith);
      }))
      (λ _. Keeps-done c)

pub Keeps-with_channel :
    (f : Channel → Channel) (c : Connection)
    → (is_writing c.channel ≡ true → is_writing (f c.channel) ≡ true)
    → Keeps c (with_channel f c)
Keeps-with_channel f c k = Keeps-ok (record {
  forward = omega arith;
  ups = omega arith;
  downs = omega arith;
  writing = λ h r. (k h, refl);
})

pub close_channel-Keeps :
    (c : Connection)
    → (rank c.state ≤ 2) × (up c.state ≡ 1) × (down c.state ≡ 0)
    → Keeps c (close_channel c)
unfolding close_channel
close_channel-Keeps c (r, u, d) = Keeps-ok (record {
  forward = omega arith;
  ups = omega arith;
  downs = omega arith;
  writing = λ h r. absurd (omega arith);
})

pub Keeps-emit :
    (e : Effect) (c : Connection)
    → (one_up e ≡ 0) × (one_down e ≡ 0) × (one_shut e ≡ 0)
    → Keeps c (emit e c)
Keeps-emit e c (u, d, s) = Keeps-quiet refl refl (omega arith, omega arith, omega arith)

pub disconnecting-Keeps :
    (c : Connection)
    → (rank c.state ≤ 2) × (up c.state ≡ 1) × (down c.state ≡ 0)
    → Keeps c (set_state disconnecting c)
disconnecting-Keeps c (r, u, d) = Keeps-ok (record {
  forward = omega arith;
  ups = omega arith;
  downs = omega arith;
  writing = λ h r. (h, refl);
})

pub run_in_loop-Keeps :
    (b : Bool) (t : Task) (f : Handler) (c : Connection)
    → Keeps c (f c)
    → Keeps c (run_in_loop b t f c)
unfolding run_in_loop
run_in_loop-Keeps true t f c k = k
run_in_loop-Keeps false t f c k = Keeps-emit (posted t) c (refl, refl, refl)

pub connection_established-Keeps : (c : Connection) → Keeps c (connection_established c)
unfolding connection_established
connection_established-Keeps c = Keeps-assert (same_state c.state connecting) (λ e.
    let q = connecting_rank c.state e in
    Keeps-ok (record {
      forward = rw q (omega arith);
      ups = rw q (omega arith);
      downs = rw q (omega arith);
      writing = λ h r. (ground arith, refl);
    }))

pub handle_close-Keeps : (c : Connection) → Keeps c (handle_close c)
unfolding handle_close
handle_close-Keeps c =
    Keeps-assert (same_state c.state connected || same_state c.state disconnecting) (λ e.
      Keeps-then close_channel (emit close_callback) (close_channel-Keeps c (open_rank c.state e))
        (λ d. Keeps-emit close_callback d (refl, refl, refl)))

pub connection_destroyed-Keeps : (c : Connection) → Keeps c (connection_destroyed c)
unfolding connection_destroyed
connection_destroyed-Keeps c =
    Keeps-then (λ d. if same_state d.state connected then close_channel d else done d)
      (λ d. ok (record d { channel = remove d.channel }, removed ∷ []))
      (Keeps-when (same_state c.state connected)
        (λ e. let (r, u, d) = connected_rank c.state e in close_channel-Keeps c (omega arith, u, d))
        (λ _. Keeps-done c))
      (λ d. Keeps-ok (record {
        forward = omega arith;
        ups = omega arith;
        downs = omega arith;
        writing = λ h r. (h, refl);
      }))

pub after_read-Keeps : (r : Readv) (c : Connection) → Keeps c (after_read r c)
unfolding after_read
after_read-Keeps (failed errno) c = Keeps-emit message_callback c (refl, refl, refl)
after_read-Keeps (received d) c =
    Keeps-if (ltb 0 (length d)) (Keeps-emit message_callback c (refl, refl, refl))
      (handle_close-Keeps c)

pub handle_read-Keeps : (r : Readv) (c : Connection) → Keeps c (handle_read r c)
unfolding handle_read
handle_read-Keeps r c =
    Keeps-bind (read_fd r c.input) _
      (λ b. Keeps-same refl refl (after_read-Keeps r (record c { input = b })))

pub post_write_complete-Keeps : (b : Bool) (c : Connection) → Keeps c (post_write_complete b c)
unfolding post_write_complete
post_write_complete-Keeps b c =
    Keeps-if (b && c.write_complete_callback)
      (Keeps-emit (posted write_complete) c (refl, refl, refl)) (Keeps-done c)

pub finish_shutdown-Keeps : (c : Connection) → Keeps c (finish_shutdown c)
unfolding finish_shutdown
finish_shutdown-Keeps c =
    Keeps-if (same_state c.state disconnecting) (shutdown_in_loop-Keeps c) (Keeps-done c)

pub drained-Keeps : (c : Connection) → Keeps c (drained c)
unfolding drained
drained-Keeps c =
    Keeps-then (with_channel disable_write) (post_write_complete true then_run finish_shutdown)
      (Keeps-with_channel disable_write c (λ h. ground arith))
      (λ d.
        Keeps-then (post_write_complete true) finish_shutdown (post_write_complete-Keeps true d)
          finish_shutdown-Keeps)

pub after_retrieve-Keeps : (c : Connection) → Keeps c (after_retrieve c)
unfolding after_retrieve
after_retrieve-Keeps c = Keeps-if (readable_bytes c.output == 0) (drained-Keeps c) (Keeps-done c)

pub write_some-Keeps : (n : ℕ) (c : Connection) → Keeps c (write_some n c)
unfolding write_some
write_some-Keeps n c = Keeps-bind (retrieve n c.output) _ (λ b. Keeps-same refl refl (
    Keeps-then (emit (wrote (take n (drop c.output.read_index c.output.bytes)))) after_retrieve
      (Keeps-emit (wrote _) (record c { output = b }) (refl, refl, refl)) after_retrieve-Keeps))

pub after_write-Keeps : (w : Write) (c : Connection) → Keeps c (after_write w c)
unfolding after_write
after_write-Keeps (accepted n) c = Keeps-if (ltb 0 n) (write_some-Keeps n c) (Keeps-done c)
after_write-Keeps peer_gone c = Keeps-done c
after_write-Keeps other_error c = Keeps-done c

pub handle_write-Keeps : (w : Write) (c : Connection) → Keeps c (handle_write w c)
unfolding handle_write
handle_write-Keeps w c = Keeps-if (is_writing c.channel) (after_write-Keeps w c) (Keeps-done c)
