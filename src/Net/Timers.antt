-- ===== src/Net/Timers.antt =====
-- arale/net/TimerQueue.cc, Timer.cc: the timers of a loop.
pub mod Sets
pub mod Order
pub mod Invariant
pub mod Expiry
pub mod Repeat
mod Tests
use arale.Prelude.{
  ℕ, suc, ◌+◌, ◌-◌, ◌*◌, ◌/◌, ◌%◌, ◌^◌, Bool, true, false, not, ◌&&◌, ◌||◌, List, [], ◌∷◌, Outcome,
  ok, undefined, ◌>>=◌, ◌>>◌, assert, ltb, ◌==◌, if◌then◌else◌, length,
}
use arale.Net.Timers.Sets.{contains, put, remove}

-- A `Timer`, with the address that its pointers hold. A time is a number of microseconds; the
-- interval is one as well, and 0 for a timer that is not repeated.
pub record Timer : Type 0 where
  pub address : ℕ
  pub expiration : ℕ
  pub interval : ℕ
  pub sequence : ℕ

abbrev pub is_repeated : Timer → Bool
is_repeated t = ltb 0 t.interval

-- `Timer::reset`; `Timestamp::invalid()` is 0.
abbrev pub reset : ℕ → Timer → Timer
reset now t = record t { expiration = if is_repeated t then now + t.interval else 0 }

-- `TimerSet` is in the order of the expiration and the address, `ActiveTimerSet` in that of the
-- address and the sequence number.
abbrev pub expiration_of : Timer → ℕ
expiration_of t = t.expiration

abbrev pub address_of : Timer → ℕ
address_of t = t.address

abbrev pub sequence_of : Timer → ℕ
sequence_of t = t.sequence

-- `counter` is `Timer::counter_`, and `alarm` the last time that the timerfd was set to.
pub record Queue : Type 0 where
  pub timers : List Timer
  pub active : List Timer
  pub handling : Bool
  pub cancelled : List Timer
  pub counter : ℕ
  pub alarm : ℕ

-- `isHandlingTimeout_` is not initialised.
abbrev pub new_queue : Bool → Queue
new_queue h = record {
  timers = [];
  active = [];
  handling = h;
  cancelled = [];
  counter = 0;
  alarm = 0;
}

-- `howMuchTimeFromNow`, as `tv_sec` and `tv_nsec`. A time that has passed makes a negative number,
-- which is below 100 as well as the 0 of a subtraction here.
abbrev pub how_much_time_from_now : ℕ → ℕ → ℕ × ℕ
how_much_time_from_now when now =
    let microseconds = if ltb (when - now) 100 then 100 else when - now in
    (microseconds / 10 ^ 6, microseconds % 10 ^ 6 * 1000)

abbrev pub assert_sizes : Queue → Outcome (Unit {0})
assert_sizes q = assert (length q.timers == length q.active)

-- `begin() == end() || when < begin()->first`.
abbrev pub is_earlier : ℕ → List Timer → Bool
is_earlier when [] = true
is_earlier when (t ∷ ts) = ltb when t.expiration

-- With `needResetTimerfd`.
unfoldable pub insert : Timer → Queue → Outcome (Bool × Queue)
insert t q = do
  assert_sizes q
  assert (not (contains expiration_of address_of t q.timers))
  assert (not (contains address_of sequence_of t q.active))
  let r = record q {
    timers = put expiration_of address_of t q.timers;
    active = put address_of sequence_of t q.active;
  }
  assert_sizes r
  ok (is_earlier t.expiration q.timers, r)

unfoldable pub add_timer_in_loop : Timer → Queue → Outcome Queue
unfolding insert
add_timer_in_loop t q = do
  (earliest, r) ← insert t q
  ok (if earliest then record r { alarm = t.expiration } else r)

-- `addTimer`; `new` returns the address.
unfoldable pub add_timer : ℕ → ℕ → ℕ → Queue → Outcome Queue
unfolding add_timer_in_loop
add_timer address when interval q =
    let n = suc q.counter in
    add_timer_in_loop
      (record { address = address; expiration = when; interval = interval; sequence = n })
      (record q { counter = n })

-- A `TimerID` is the address and the sequence number of a timer. The timer that is found is deleted
-- through an iterator to the element that has just been erased.
unfoldable pub cancel_timer_in_loop : Timer → Queue → Outcome Queue
cancel_timer_in_loop id q = do
  assert_sizes q
  elim (contains address_of sequence_of id q.active) [
    | true ↦ undefined
    | false ↦ elim q.handling [
      | true ↦ do
        assert (not (contains address_of sequence_of id q.cancelled))
        ok (record q { cancelled = put address_of sequence_of id q.cancelled })
      | false ↦ ok q
    ]
  ]

-- `before` the sentry, whose address is `UINTPTR_MAX`.
abbrev pub is_due : ℕ → Timer → Bool
is_due now t = ltb t.expiration now || (t.expiration == now && ltb t.address (2 ^ 64 - 1))

-- The timers from `begin()` to `lower_bound(sentry)`, and the others.
unfoldable pub expired : ℕ → List Timer → List Timer
expired now [] = []
expired now (t ∷ ts) = if is_due now t then t ∷ expired now ts else []

unfoldable pub waiting : ℕ → List Timer → List Timer
waiting now [] = []
waiting now (t ∷ ts) = if is_due now t then waiting now ts else t ∷ ts

unfoldable pub erase_active : List Timer → List Timer → Outcome (List Timer)
erase_active [] rest = ok rest
erase_active (t ∷ ts) rest = do
  assert (contains address_of sequence_of t rest)
  erase_active ts (remove address_of sequence_of t rest)

unfoldable pub get_expired_timers : ℕ → Queue → Outcome (List Timer × Queue)
unfolding expired waiting erase_active
get_expired_timers now q = do
  assert_sizes q
  rest ← erase_active (expired now q.timers) q.active
  let r = record q { timers = waiting now q.timers; active = rest }
  assert_sizes r
  ok (expired now q.timers, r)

-- The loop of `resetTimers`.
unfoldable pub reset_each : ℕ → List Timer → Queue → Outcome Queue
unfolding insert
reset_each now [] q = ok q
reset_each now (t ∷ ts) q = do
  r ← elim (is_repeated t && not (contains address_of sequence_of t q.cancelled)) [
    | true ↦ do (b, r) ← insert (reset now t) q; ok r
    | false ↦ ok q
  ]
  reset_each now ts r

-- `valid()` is `> 0`.
abbrev pub set_alarm : List Timer → ℕ → ℕ
set_alarm [] alarm = alarm
set_alarm (t ∷ ts) alarm = if ltb 0 t.expiration then t.expiration else alarm

unfoldable pub reset_timers : List Timer → ℕ → Queue → Outcome Queue
unfolding reset_each
reset_timers ts now q = do
  assert_sizes q
  r ← reset_each now ts q
  let s = record r { alarm = set_alarm r.timers r.alarm }
  assert_sizes s
  ok s

-- What a callback asks of the queue: `addTimer` and `cancelTimer`.
pub data Request : Type 0 where
  adds : (address when interval : ℕ) → Request
  cancels : Timer → Request

unfoldable pub run_requests : List Request → Queue → Outcome Queue
unfolding add_timer cancel_timer_in_loop
run_requests [] q = ok q
run_requests (adds a w i ∷ rs) q = add_timer a w i q >>= λ r. run_requests rs r
run_requests (cancels id ∷ rs) q = cancel_timer_in_loop id q >>= λ r. run_requests rs r

-- The loop over `run()`, with the callbacks of the timers.
unfoldable pub run_callbacks : (Timer → List Request) → List Timer → Queue → Outcome Queue
unfolding run_requests
run_callbacks callback [] q = ok q
run_callbacks callback (t ∷ ts) q = run_requests (callback t) q >>= λ r. run_callbacks callback ts r

unfoldable pub handle_timeout : (Timer → List Request) → ℕ → Queue → Outcome Queue
unfolding get_expired_timers run_callbacks reset_timers
handle_timeout callback now q = do
  assert_sizes q
  (ts, r) ← get_expired_timers now q
  s ← run_callbacks callback ts (record r { handling = true; cancelled = [] })
  u ← reset_timers ts now (record s { handling = false })
  assert_sizes u
  ok u

-- What reaches the queue in the loop: a request, or the timerfd.
pub data Event : Type 0 where
  asks : Request → Event
  times_out : (Timer → List Request) → ℕ → Event

unfoldable pub happen : List Event → Queue → Outcome Queue
unfolding handle_timeout
happen [] q = ok q
happen (asks r ∷ es) q = run_requests (r ∷ []) q >>= λ s. happen es s
happen (times_out callback now ∷ es) q = handle_timeout callback now q >>= λ s. happen es s
