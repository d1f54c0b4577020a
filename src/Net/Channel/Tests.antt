-- ===== src/Net/Channel/Tests.antt =====
-- The theorems of the channel at concrete inputs.
use arale.Prelude.{◌≡◌, refl, true, false, [], ◌∷◌}
use arale.Net.Channel.{
  Channel, new_channel, no_revents, tie_to, on_read, on_close, on_write, handle_event,
  handle_event_with_guard,
}
use arale.Net.Channel.Order.{IsInOrder, calls, handle_event-IsInOrder}

-- The peer has closed its side and bytes may be written.
abbrev half_closed : Channel
half_closed = record (tie_to new_channel) {
  revents = record no_revents { pollrdhup = true; pollout = true };
  callbacks = record { read = true; write = true; error = true; close = true };
}

runs_half_closed : handle_event true half_closed ≡ on_read ∷ on_write ∷ []
unfolding handle_event handle_event_with_guard
runs_half_closed = refl

handle_event-IsInOrder_example :
    IsInOrder 0 (handle_event true half_closed)
    × (calls on_close (handle_event true half_closed) ≡ false)
handle_event-IsInOrder_example = handle_event-IsInOrder true half_closed on_close
