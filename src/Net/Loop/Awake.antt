-- ===== src/Net/Loop/Awake.antt =====
-- EventLoop.cc: no functor waits while the loop sleeps.
use arale.Prelude.{
  ℕ, ◌≡◌, ◌<◌, refl, Bool, true, false, not, ◌||◌, List, [], ◌∷◌, ◌++◌, ◌⊎◌, inl, inr, arith,
}
use arale.Net.Loop.{
  Loop, post_functor, quit_loop, Action, posts, quits, acts, run_functors, swapped,
  do_pending_functors, Event, handle_events, round,
}

-- Nothing is pending, or `poll` will return at once.
abbrev pub IsAwake : Loop → Type 0
IsAwake s = (s.pending ≡ []) ⊎ (0 < s.wakeups)

-- While functors are run.
abbrev Handles : Loop → Type 0
Handles s = (s.handling ≡ true) × IsAwake s

post_functor-Handles : (b : Bool) (f : ℕ) (s : Loop) → Handles s → Handles (post_functor b f s)
unfolding post_functor
post_functor-Handles b f s (h, a) =
    let t : (not b || s.handling) ≡ true = ground arith in rw t (h, inr (omega arith))

quit_loop-Handles : (b : Bool) (s : Loop) → Handles s → Handles (quit_loop b s)
unfolding quit_loop
quit_loop-Handles true s h = h
quit_loop-Handles false s h = (h.0, inr (omega arith))

acts-Handles : (xs : List Action) (s : Loop) → Handles s → Handles (acts xs s)
unfolding acts
acts-Handles [] s h = h
acts-Handles (posts b f ∷ xs) s h = acts-Handles xs _ (post_functor-Handles b f s h)
acts-Handles (quits b ∷ xs) s h = acts-Handles xs _ (quit_loop-Handles b s h)

run_functors-Handles :
    (body : ℕ → List Action) (fs : List ℕ) (s : Loop) → Handles s → Handles (run_functors body fs s)
unfolding run_functors
run_functors-Handles body [] s h = h
run_functors-Handles body (f ∷ fs) s h =
    run_functors-Handles body fs _ (acts-Handles (body f) (record s { ran = s.ran ++ f ∷ [] }) h)

-- After a round of the loop, with any events, callbacks, functors and posts of other threads while
-- it runs, either no functor is pending or the wakeup descriptor is readable, so that poll
-- returns, and the loop is not in its functors.
pub round-IsAwake :
    (body : ℕ → List Action) (es : List Event) (s : Loop)
    → ((round body es s).handling ≡ false) × IsAwake (round body es s)
unfolding do_pending_functors
round-IsAwake body es s =
    let t = handle_events es s in
    (refl, (run_functors-Handles body t.pending (swapped t) (refl, inl refl)).1)
