-- ===== src/Net/Timers/Expiry.antt =====
-- arale/net/TimerQueue.cc: what `getExpiredTimers` takes out, and any sequence of requests and
-- timeouts.
use mathlib.Core.List.{Perm}
use arale.Prelude.{
  ℕ, ◌≡◌, ◌≤◌, ◌<◌, refl, sym, ap, subst, ◌-◌, ◌^◌, true, false, List, [], ◌∷◌, ◌++◌, Outcome, ok,
  ◌>>=◌, ◌>>◌, Bool-cases, inl, inr, arith, Ensures, Ensures->>=,
}
use arale.Net.Timers.Sets.{remove}
use arale.Net.Timers.Order.{Below, Sorted, contains-Perm, remove-Sorted, remove-Perm}
use arale.Net.Timers.{
  Timer, expiration_of, address_of, sequence_of, Queue, assert_sizes, is_due, expired, waiting,
  erase_active, get_expired_timers, reset_timers, Request, run_requests, run_callbacks,
  handle_timeout, Event, asks, times_out, happen,
}
use arale.Net.Timers.Invariant.{
  IsValid, IsReady, sizes_ok, cancel_timer_in_loop-IsReady, cancel_timer_in_loop-IsValid,
  add_timer-IsReady, add_timer-IsValid, reset_timers-IsReady, run_requests-Ensures,
  run_callbacks-Ensures,
}

-- Erasing the expired timers one by one.
erase_active-Sorted :
    (ts rest active : List Timer)
    → Sorted address_of sequence_of active
    → Perm (ts ++ rest) active
    → (as' : List Timer) × (erase_active ts active ≡ ok as')
      × Sorted address_of sequence_of as'
      × Perm rest as'
unfolding erase_active
erase_active-Sorted [] rest active s h = (active, refl, s, h)
erase_active-Sorted (t ∷ ts) rest active s h =
    let c = contains-Perm address_of sequence_of t (ts ++ rest) active h in
    rw c (
      erase_active-Sorted ts rest (remove address_of sequence_of t active)
        (remove-Sorted address_of sequence_of t active s)
        (remove-Perm address_of sequence_of t (ts ++ rest) active s h))

expired-waiting : (now : ℕ) (ts : List Timer) → expired now ts ++ waiting now ts ≡ ts
unfolding expired waiting
expired-waiting now [] = refl
expired-waiting now (t ∷ ts) = elim (Bool-cases (is_due now t)) [
  | inl k ↦ rw k (ap (λ us. t ∷ us) (expired-waiting now ts))
  | inr k ↦ rw k refl
]

waiting-Sorted :
    (now : ℕ) (ts : List Timer)
    → Sorted expiration_of address_of ts
    → Sorted expiration_of address_of (waiting now ts)
unfolding waiting
waiting-Sorted now [] s = tt
waiting-Sorted now (t ∷ ts) s = elim (Bool-cases (is_due now t)) [
  | inl k ↦ rw k (waiting-Sorted now ts s.1)
  | inr k ↦ rw k s
]

-- What `getExpiredTimers` returns for the timers `ts`.
abbrev pub All {ℓ κ} : {A : Type ℓ} → (A → Type κ) → List A → Type κ
All P [] = Unit
All P (x ∷ xs) = P x × All P xs

expired-All : (now : ℕ) (ts : List Timer) → All (λ t. t.expiration ≤ now) (expired now ts)
unfolding expired
expired-All now [] = tt
expired-All now (t ∷ ts) = elim (Bool-cases (is_due now t)) [
  | inl k ↦ rw k (ground arith, expired-All now ts)
  | inr k ↦ rw k tt
]

-- No timer is at the largest address.
abbrev pub IsPlaced : Timer → Type 0
IsPlaced t = t.address < 2 ^ 64 - 1

Below-All :
    (now : ℕ) (t : Timer) (ts : List Timer)
    → now < t.expiration
    → Below expiration_of address_of t ts
    → All (λ u. now < u.expiration) ts
Below-All now t [] h b = tt
Below-All now t (u ∷ ts) h b = (ground arith, Below-All now t ts h b.1)

waiting-All :
    (now : ℕ) (ts : List Timer)
    → Sorted expiration_of address_of ts
    → All IsPlaced ts
    → All (λ t. now < t.expiration) (waiting now ts)
unfolding waiting
waiting-All now [] s p = tt
waiting-All now (t ∷ ts) s p = elim (Bool-cases (is_due now t)) [
  | inl k ↦ rw k (waiting-All now ts s.1 p.1)
  | inr k ↦
      let q = p.0 in
      let later : now < t.expiration = ground arith in rw k (later, Below-All now t ts later s.0)
]

-- What `getExpiredTimers` has done where it returns `es`.
pub record Expires (now : ℕ) (q : Queue) (es : List Timer) (r : Queue) : Type 0 where
  pub returns : get_expired_timers now q ≡ ok (es, r)
  pub parts : es ++ r.timers ≡ q.timers
  pub due : All (λ t. t.expiration ≤ now) es
  pub later : All IsPlaced q.timers → All (λ t. now < t.expiration) r.timers
  pub valid : IsValid r

-- On a queue whose two sets agree getExpiredTimers passes its assertions, returns the first timers
-- of the queue, each due by now, and leaves the others in both sets, all of them later than now
-- where no timer is at the largest address.
get_expired_timers-Expires :
    (now : ℕ) (q : Queue) → IsValid q → (es : List Timer) × (r : Queue) × Expires now q es r
unfolding get_expired_timers
get_expired_timers-Expires now q v =
    let e = expired-waiting now q.timers in
    let (rest, f, s, h) =
      erase_active-Sorted (expired now q.timers) (waiting now q.timers) q.active v.by_address
        (subst (λ ts. Perm ts q.active) (sym e) v.agree) in
    let r = record q { timers = waiting now q.timers; active = rest } in
    let w : IsValid r = record {
      by_time = waiting-Sorted now q.timers v.by_time;
      by_address = s;
      agree = h;
    } in
    (
      expired now q.timers,
      r,
      record {
        returns = rw (sizes_ok q v) (rw f (rw (sizes_ok r w) refl));
        parts = e;
        due = expired-All now q.timers;
        later = waiting-All now q.timers v.by_time;
        valid = w;
      },
    )

get_expired_timers-IsValid :
    (now : ℕ) (q : Queue) → IsValid q → Ensures (λ p. IsValid p.1) (get_expired_timers now q)
get_expired_timers-IsValid now q v =
    let (es, r, x) = get_expired_timers-Expires now q v in rw x.returns x.valid

handle_timeout-IsReady :
    (callback : Timer → List Request) (now : ℕ) (q : Queue)
    → IsValid q
    → Ensures IsReady (handle_timeout callback now q)
unfolding handle_timeout
handle_timeout-IsReady callback now q v =
    subst (λ o. Ensures IsReady (o >>= λ _. handled)) (sym (sizes_ok q v))
      (Ensures->>= (λ p. IsValid p.1) IsReady (get_expired_timers now q) callbacks
        (get_expired_timers-IsValid now q v) (λ p w. after_expiry p.0 p.1 w))
  where
    resets : List Timer → Queue → Outcome Queue
    resets es s = do u ← reset_timers es now (record s { handling = false }); assert_sizes u; ok u

    callbacks : List Timer × Queue → Outcome Queue
    callbacks (es, r) =
        run_callbacks callback es (record r { handling = true; cancelled = [] }) >>= resets es

    handled : Outcome Queue
    handled = get_expired_timers now q >>= callbacks

    after_reset : (es : List Timer) (s : Queue) → IsValid s → Ensures IsReady (resets es s)
    after_reset es s w =
        Ensures->>= IsReady IsReady (reset_timers es now (record s { handling = false })) _
          (reset_timers-IsReady es now (record s { handling = false }) w)
          (λ u i. rw (sizes_ok u i.0) i)

    after_expiry : (es : List Timer) (r : Queue) → IsValid r → Ensures IsReady (callbacks (es, r))
    after_expiry es r w =
        Ensures->>= IsValid IsReady
          (run_callbacks callback es (record r { handling = true; cancelled = [] })) (resets es)
          (run_callbacks-Ensures IsValid add_timer-IsValid cancel_timer_in_loop-IsValid callback es
            (record r { handling = true; cancelled = [] }) w)
          (after_reset es)

-- From a queue whose two sets are in order and hold the same timers, with the timerfd set for the
-- earliest one, any sequence of requests and timeouts, whatever the callbacks ask, that returns
-- leaves such a queue.
pub happen-IsReady : (es : List Event) (q : Queue) → IsReady q → Ensures IsReady (happen es q)
unfolding happen
happen-IsReady [] q h = h
happen-IsReady (asks r ∷ es) q h =
    Ensures->>= IsReady IsReady (run_requests (r ∷ []) q) (happen es)
      (run_requests-Ensures IsReady add_timer-IsReady cancel_timer_in_loop-IsReady (r ∷ []) q h)
      (happen-IsReady es)
happen-IsReady (times_out callback now ∷ es) q h =
    Ensures->>= IsReady IsReady (handle_timeout callback now q) (happen es)
      (handle_timeout-IsReady callback now q h.0) (happen-IsReady es)
