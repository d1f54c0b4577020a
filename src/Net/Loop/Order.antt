-- ===== src/Net/Loop/Order.antt =====
-- EventLoop.cc: every functor that is posted runs once, in the order of the posts.
use arale.Prelude.{
  ℕ, ◌≡◌, sym, ap, ◌∙◌, Bool, true, false, not, ◌||◌, List, [], ◌∷◌, ◌++◌, append-nil, append_assoc,
  if◌then◌else◌, Bool-cases, inl, inr, Ensures,
}
use arale.Net.Loop.{
  Loop, post_functor, quit_loop, Action, posts, quits, acts, run_functors, swapped,
  do_pending_functors, Event, wakeup, callback, handle_events, round, rounds, loop,
}

-- What was posted is what ran, then `fs`, which are taken out to run, then what is pending.
abbrev pub InOrder : List ℕ → Loop → Type 0
InOrder fs s = s.ran ++ (fs ++ s.pending) ≡ s.posted

post_functor-InOrder :
    (b : Bool) (f : ℕ) (fs : List ℕ) (s : Loop) → InOrder fs s → InOrder fs (post_functor b f s)
unfolding post_functor
post_functor-InOrder b f fs s h =
    let e : s.ran ++ (fs ++ (s.pending ++ f ∷ [])) ≡ s.posted ++ f ∷ [] =
      ap (λ l. s.ran ++ l) (sym (append_assoc fs s.pending (f ∷ [])))
      ∙ sym (append_assoc s.ran (fs ++ s.pending) (f ∷ []))
      ∙ ap (λ l. l ++ f ∷ []) h in
    elim (Bool-cases (not b || s.handling)) [ inl t ↦ rw t e | inr t ↦ rw t e ]

quit_loop-InOrder : (b : Bool) (fs : List ℕ) (s : Loop) → InOrder fs s → InOrder fs (quit_loop b s)
unfolding quit_loop
quit_loop-InOrder true fs s h = h
quit_loop-InOrder false fs s h = h

acts-InOrder : (xs : List Action) (fs : List ℕ) (s : Loop) → InOrder fs s → InOrder fs (acts xs s)
unfolding acts
acts-InOrder [] fs s h = h
acts-InOrder (posts b f ∷ xs) fs s h =
    acts-InOrder xs fs (post_functor b f s) (post_functor-InOrder b f fs s h)
acts-InOrder (quits b ∷ xs) fs s h = acts-InOrder xs fs (quit_loop b s) (quit_loop-InOrder b fs s h)

run_functors-InOrder :
    (body : ℕ → List Action) (fs : List ℕ) (s : Loop)
    → InOrder fs s
    → InOrder [] (run_functors body fs s)
unfolding run_functors
run_functors-InOrder body [] s h = h
run_functors-InOrder body (f ∷ fs) s h =
    run_functors-InOrder body fs (acts (body f) (record s { ran = s.ran ++ f ∷ [] })) (
      acts-InOrder (body f) fs (record s { ran = s.ran ++ f ∷ [] })
        (append_assoc s.ran (f ∷ []) (fs ++ s.pending) ∙ h))

do_pending_functors-InOrder :
    (body : ℕ → List Action) (s : Loop) → InOrder [] s → InOrder [] (do_pending_functors body s)
unfolding do_pending_functors
do_pending_functors-InOrder body s h =
    run_functors-InOrder body s.pending (swapped s)
      (ap (λ l. s.ran ++ l) (append-nil s.pending) ∙ h)

handle_events-InOrder :
    (es : List Event) (s : Loop) → InOrder [] s → InOrder [] (handle_events es s)
unfolding handle_events
handle_events-InOrder [] s h = h
handle_events-InOrder (wakeup ∷ es) s h = handle_events-InOrder es _ h
handle_events-InOrder (callback xs ∷ es) s h =
    handle_events-InOrder es (acts xs s) (acts-InOrder xs [] s h)

pick : (b : Bool) (s t : Loop) → InOrder [] s → InOrder [] t → InOrder [] (if b then s else t)
pick true s t h i = h
pick false s t h i = i

rounds-InOrder :
    (body : ℕ → List Action) (ess : List (List Event)) (s : Loop)
    → InOrder [] s
    → InOrder [] (rounds body ess s)
unfolding rounds
rounds-InOrder body [] s h = h
rounds-InOrder body (es ∷ ess) s h =
    let i =
      rounds-InOrder body ess (round body es s)
        (do_pending_functors-InOrder body (handle_events es s) (handle_events-InOrder es s h)) in
    pick s.quit s (rounds body ess (round body es s)) h i

-- When what ran and then what is pending is what was posted, in order, the same holds after any
-- number of rounds of the loop with any events, callbacks and functors, other threads posting in
-- between: every functor runs once, in the order of the posts.
pub loop-InOrder :
    (body : ℕ → List Action) (ess : List (List Event)) (s : Loop)
    → InOrder [] s
    → Ensures (InOrder []) (loop body ess s)
unfolding loop
loop-InOrder body ess s h =
    let i = rounds-InOrder body ess (record s { looping = true; quit = false }) h in
    elim (Bool-cases s.looping) [ inl t ↦ rw t tt | inr t ↦ rw t i ]
