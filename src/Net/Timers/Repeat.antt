-- ===== src/Net/Timers/Repeat.antt =====
-- arale/net/TimerQueue.cc: a timer that is alone in the queue, when it expires.
use arale.Prelude.{
  ℕ, ◌+◌, ◌≡◌, ◌<◌, refl, Bool, true, false, List, [], ◌∷◌, ok, arith, ltb, Bool-cases, inl, inr,
  undefined,
}
use arale.Net.Timers.Invariant.{IsValid, sizes_ok}
use arale.Net.Timers.Sets.{same, contains, put, remove}
use arale.Net.Timers.{
  Timer, is_repeated, address_of, sequence_of, Queue, is_due, cancels, insert, cancel_timer_in_loop,
  expired, waiting, erase_active, get_expired_timers, reset_each, reset_timers, run_requests,
  run_callbacks, handle_timeout,
}

abbrev pub alone : Timer → Bool → List Timer → ℕ → ℕ → Queue
alone t h cancelled counter alarm = record {
  timers = t ∷ [];
  active = t ∷ [];
  handling = h;
  cancelled = cancelled;
  counter = counter;
  alarm = alarm;
}

found : (t : Timer) → same address_of sequence_of t t ≡ true
found t = ground arith

-- A repeated timer that is alone in the queue and due is in the queue again after handleTimeout,
-- one interval after now, with the timerfd set for it, where its callback asks for nothing.
handle_timeout-repeats :
    (t : Timer) (h : Bool) (cs : List Timer) (n a now : ℕ)
    → is_due now t ≡ true
    → 0 < t.interval
    → handle_timeout (λ _. []) now (alone t h cs n a)
      ≡ ok (alone (record t { expiration = now + t.interval }) false [] n (now + t.interval))
unfolding handle_timeout get_expired_timers expired waiting erase_active contains remove
    run_callbacks run_requests reset_timers reset_each insert put
handle_timeout-repeats t h cs n a now d r =
    let i : ltb 0 t.interval ≡ true = ground arith in
    let p : ltb 0 (now + t.interval) ≡ true = ground arith in
    rw d (rw (found t) (rw i (rw i (rw p refl))))

-- A timer that is alone in the queue and due, and whose callback cancels it, is in neither set
-- after handleTimeout, and the timerfd is not set again.
handle_timeout-cancels :
    (t : Timer) (h : Bool) (cs : List Timer) (n a now : ℕ)
    → is_due now t ≡ true
    → handle_timeout (λ u. cancels u ∷ []) now (alone t h cs n a)
      ≡ ok (record {
        timers = [];
        active = [];
        handling = false;
        cancelled = t ∷ [];
        counter = n;
        alarm = a;
      })
unfolding handle_timeout get_expired_timers expired waiting erase_active contains remove
    run_callbacks run_requests cancel_timer_in_loop reset_timers reset_each insert put
handle_timeout-cancels t h cs n a now d = elim (Bool-cases (is_repeated t)) [
  | inl r ↦ rw d (rw (found t) (rw (found t, r) refl))
  | inr r ↦ rw d (rw (found t) (rw r refl))
]

-- On a queue whose two sets agree, cancelling a timer that is in them is undefined behaviour.
cancel_timer_in_loop-undefined :
    (q : Queue) (t : Timer)
    → IsValid q
    → contains address_of sequence_of t q.active ≡ true
    → cancel_timer_in_loop t q ≡ undefined
unfolding cancel_timer_in_loop
cancel_timer_in_loop-undefined q t v h = rw (sizes_ok q v) (rw h refl)
