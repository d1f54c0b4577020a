-- ===== src/Net/Timers/Invariant.antt =====
-- arale/net/TimerQueue.cc: what holds of the two sets, whatever the callbacks do.
use mathlib.Core.List.{Perm}
use mathlib.Core.List.Perm
use arale.Prelude.{
  ℕ, ◌≡◌, refl, Bool, true, false, not, ◌&&◌, List, [], ◌∷◌, ok, ◌>>=◌, ◌>>◌, ◌==◌, if◌then◌else◌,
  inr, ◌⊎◌, arith, Ensures, Ensures->>=,
}
use arale.Net.Timers.Sets.{contains, put}
use arale.Net.Timers.Order.{Sorted, put-Sorted, put-Perm, length-Perm}
use arale.Net.Timers.{
  Timer, is_repeated, reset, expiration_of, address_of, sequence_of, Queue, assert_sizes,
  is_earlier, insert, add_timer_in_loop, add_timer, cancel_timer_in_loop, reset_each, set_alarm,
  reset_timers, Request, adds, cancels, run_requests, run_callbacks,
}

-- Both sets are in their order, and have the same timers.
pub record Consistent (ts active : List Timer) : Type 0 where
  pub by_time : Sorted expiration_of address_of ts
  pub by_address : Sorted address_of sequence_of active
  pub agree : Perm ts active

abbrev pub IsValid : Queue → Type 0
IsValid q = Consistent q.timers q.active

-- The timerfd is set to the earliest timer.
abbrev pub IsArmed : List Timer → ℕ → Type 0
IsArmed [] alarm = Unit
IsArmed (t ∷ ts) alarm = (t.expiration ≡ 0) ⊎ (alarm ≡ t.expiration)

pub sizes_ok : (q : Queue) → IsValid q → assert_sizes q ≡ ok tt
sizes_ok q v = let l = length-Perm v.agree in rw (test l) refl
  where
    test : {m n : ℕ} → m ≡ n → (m == n) ≡ true
    test e = ground arith

not-true : {b : Bool} → not b ≡ true → b ≡ false
not-true {b} e = ground arith

put-IsValid :
    (t : Timer) (q : Queue)
    → IsValid q
    → contains expiration_of address_of t q.timers ≡ false
    → contains address_of sequence_of t q.active ≡ false
    → IsValid (record q {
      timers = put expiration_of address_of t q.timers;
      active = put address_of sequence_of t q.active;
    })
put-IsValid t q v h k = record {
  by_time = put-Sorted expiration_of address_of t q.timers h v.by_time;
  by_address = put-Sorted address_of sequence_of t q.active k v.by_address;
  agree =
      Perm.trans (put-Perm expiration_of address_of t q.timers h) (
        Perm.trans (Perm.cons t v.agree)
          (Perm.symm (put-Perm address_of sequence_of t q.active k)));
}

insert-IsValid : (t : Timer) (q : Queue) → IsValid q → Ensures (λ r. IsValid r.1) (insert t q)
unfolding insert
insert-IsValid t q v = ground (arith, put-IsValid t q v)

put-IsArmed :
    (t : Timer) (ts : List Timer) (alarm : ℕ)
    → IsArmed ts alarm
    → IsArmed
        (put expiration_of address_of t ts)
        (if is_earlier t.expiration ts then t.expiration else alarm)
unfolding put
put-IsArmed t [] alarm s = inr refl
put-IsArmed t (x ∷ ts) alarm s = ground arith

-- Between two calls.
abbrev pub IsReady : Queue → Type 0
IsReady q = IsValid q × IsArmed q.timers q.alarm

add_timer_in_loop-IsReady :
    (t : Timer) (q : Queue) → IsReady q → Ensures IsReady (add_timer_in_loop t q)
unfolding add_timer_in_loop insert
add_timer_in_loop-IsReady t q (v, s) =
    ground (arith, put-IsValid t q v, put-IsArmed t q.timers q.alarm s)

add_timer_in_loop-IsValid :
    (t : Timer) (q : Queue) → IsValid q → Ensures IsValid (add_timer_in_loop t q)
unfolding add_timer_in_loop insert
add_timer_in_loop-IsValid t q v = ground (arith, put-IsValid t q v)

pub cancel_timer_in_loop-IsReady :
    (id : Timer) (q : Queue) → IsReady q → Ensures IsReady (cancel_timer_in_loop id q)
unfolding cancel_timer_in_loop
cancel_timer_in_loop-IsReady id q (v, s) = ground arith

pub cancel_timer_in_loop-IsValid :
    (id : Timer) (q : Queue) → IsValid q → Ensures IsValid (cancel_timer_in_loop id q)
unfolding cancel_timer_in_loop
cancel_timer_in_loop-IsValid id q v = ground arith

-- What holds through single requests holds through all of them.
module _ (P : Queue → Type 0) (add : (a w i : ℕ) (q : Queue) → P q → Ensures P (add_timer a w i q))
    (cancel : (id : Timer) (q : Queue) → P q → Ensures P (cancel_timer_in_loop id q)) where
  pub run_requests-Ensures : (rs : List Request) (q : Queue) → P q → Ensures P (run_requests rs q)
  unfolding run_requests
  run_requests-Ensures [] q h = h
  run_requests-Ensures (adds a w i ∷ rs) q h =
      Ensures->>= P P (add_timer a w i q) (run_requests rs) (add a w i q h)
        (run_requests-Ensures rs)
  run_requests-Ensures (cancels id ∷ rs) q h =
      Ensures->>= P P (cancel_timer_in_loop id q) (run_requests rs) (cancel id q h)
        (run_requests-Ensures rs)

  pub run_callbacks-Ensures :
      (callback : Timer → List Request) (ts : List Timer) (q : Queue)
      → P q
      → Ensures P (run_callbacks callback ts q)
  unfolding run_callbacks
  run_callbacks-Ensures callback [] q h = h
  run_callbacks-Ensures callback (t ∷ ts) q h =
      Ensures->>= P P (run_requests (callback t) q) (run_callbacks callback ts)
        (run_requests-Ensures (callback t) q h) (run_callbacks-Ensures callback ts)

pub add_timer-IsReady : (a w i : ℕ) (q : Queue) → IsReady q → Ensures IsReady (add_timer a w i q)
unfolding add_timer
add_timer-IsReady a w i q (v, s) = add_timer_in_loop-IsReady _ _ (v, s)

pub add_timer-IsValid : (a w i : ℕ) (q : Queue) → IsValid q → Ensures IsValid (add_timer a w i q)
unfolding add_timer
add_timer-IsValid a w i q v = add_timer_in_loop-IsValid _ _ v

reset_each-IsValid :
    (now : ℕ) (ts : List Timer) (q : Queue) → IsValid q → Ensures IsValid (reset_each now ts q)
unfolding reset_each insert
reset_each-IsValid now [] q v = v
reset_each-IsValid now (t ∷ ts) q v =
    Ensures->>= IsValid IsValid _ (reset_each now ts) step (reset_each-IsValid now ts)
  where
    step :
        Ensures IsValid
          (elim (is_repeated t && not (contains address_of sequence_of t q.cancelled)) [
            | true ↦ do (b, r) ← insert (reset now t) q; ok r
            | false ↦ ok q
          ])
    step = ground (arith, put-IsValid (reset now t) q v)

set_alarm-IsArmed : (ts : List Timer) (a : ℕ) → IsArmed ts (set_alarm ts a)
set_alarm-IsArmed [] a = tt
set_alarm-IsArmed (t ∷ ts) a = ground arith

pub reset_timers-IsReady :
    (ts : List Timer) (now : ℕ) (q : Queue) → IsValid q → Ensures IsReady (reset_timers ts now q)
unfolding reset_timers
reset_timers-IsReady ts now q v =
    rw (sizes_ok q v)
      (Ensures->>= IsValid IsReady (reset_each now ts q) _ (reset_each-IsValid now ts q v) last)
  where
    last :
        (r : Queue)
        → IsValid r
        → Ensures IsReady
            (do let s = record r { alarm = set_alarm r.timers r.alarm }; assert_sizes s; ok s)
    last r v = rw (sizes_ok r v) (v, set_alarm-IsArmed r.timers r.alarm)
