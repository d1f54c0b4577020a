-- ===== src/Net/Timers/Tests.antt =====
-- Timers of arale/net/TimerQueue.cc at concrete times.
use mathlib.Core.List.Perm
use arale.Prelude.{◌≡◌, refl, inr, true, false, List, [], ◌∷◌, ok, Ensures}
use arale.Net.Timers.Sets.{contains, put, remove}
use arale.Net.Timers.{
  Timer, Queue, new_queue, how_much_time_from_now, Event, asks, times_out, adds, happen,
  handle_timeout, run_requests, run_callbacks, cancel_timer_in_loop, add_timer, add_timer_in_loop,
  insert, get_expired_timers, expired, waiting, erase_active, reset_each, reset_timers, address_of,
  sequence_of,
}
use arale.Net.Timers.Invariant.{IsValid, IsReady}
use arale.Net.Timers.Expiry.{happen-IsReady}

abbrev tick : Timer
tick = record { address = 16; expiration = 100; interval = 50; sequence = 1 }

abbrev once : Timer
once = record { address = 8; expiration = 300; interval = 0; sequence = 2 }

abbrev two_timers : Queue
two_timers = record {
  timers = tick ∷ once ∷ [];
  active = once ∷ tick ∷ [];
  handling = false;
  cancelled = [];
  counter = 2;
  alarm = 100;
}

two_timers-IsValid : IsValid two_timers
two_timers-IsValid = record {
  by_time = ((refl, tt), (tt, tt));
  by_address = ((refl, tt), (tt, tt));
  agree = Perm.swap once tick [];
}

-- Two timers are added, the repeated one expires and adds another timer.
abbrev additions : List Event
additions =
    asks (adds 16 100 50) ∷ asks (adds 8 300 0) ∷ times_out (λ t. adds 24 120 0 ∷ []) 110 ∷ []

additions_test :
    happen additions (new_queue true)
    ≡ ok (record {
      timers =
          record { address = 24; expiration = 120; interval = 0; sequence = 3 }
          ∷ record { address = 16; expiration = 160; interval = 50; sequence = 1 }
          ∷ once
          ∷ [];
      active =
          once
          ∷ record { address = 16; expiration = 160; interval = 50; sequence = 1 }
          ∷ record { address = 24; expiration = 120; interval = 0; sequence = 3 }
          ∷ [];
      handling = false;
      cancelled = [];
      counter = 3;
      alarm = 120;
    })
unfolding happen handle_timeout run_requests run_callbacks cancel_timer_in_loop add_timer
    add_timer_in_loop insert get_expired_timers expired waiting erase_active reset_each reset_timers
    contains put remove
additions_test = refl

how_much_test : how_much_time_from_now 3000050 50 ≡ (3, 0)
how_much_test = refl

happen-IsReady_example : Ensures IsReady (happen additions two_timers)
happen-IsReady_example = happen-IsReady additions two_timers (two_timers-IsValid, inr refl)

tick_active : contains address_of sequence_of tick two_timers.active ≡ true
unfolding contains
tick_active = refl
