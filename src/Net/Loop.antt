-- ===== src/Net/Loop.antt =====
-- arale/net/EventLoop.cc: the loop, the functors that are posted to it, and when it is woken up.
pub mod Order
pub mod Awake
mod Tests
use arale.Prelude.{
  ℕ, zero, suc, ◌+◌, Bool, true, false, not, ◌||◌, List, [], ◌∷◌, ◌++◌, Outcome, ok, ◌>>=◌, ◌>>◌,
  assert, if◌then◌else◌,
}

-- Functors are numbers. `wakeups` is the counter of the eventfd that `weakup` writes to and
-- `handleWakeup` reads. `ran` and `posted` are the functors that were run and posted so far.
pub record Loop : Type 0 where
  pub looping : Bool
  pub handling : Bool
  pub quit : Bool
  pub pending : List ℕ
  pub wakeups : ℕ
  pub ran : List ℕ
  pub posted : List ℕ

abbrev pub new_loop : Loop
new_loop = record {
  looping = false;
  handling = false;
  quit = false;
  pending = [];
  wakeups = 0;
  ran = [];
  posted = [];
}

abbrev pub weakup : Loop → Loop
weakup s = record s { wakeups = suc s.wakeups }

abbrev pub push_back : ℕ → Loop → Loop
push_back f s = record s { pending = s.pending ++ f ∷ []; posted = s.posted ++ f ∷ [] }

-- `in_loop` says whether the caller is the loop's thread.
unfoldable pub post_functor : Bool → ℕ → Loop → Loop
post_functor in_loop f s =
    let t = push_back f s in if not in_loop || s.handling then weakup t else t

unfoldable pub quit_loop : Bool → Loop → Loop
quit_loop in_loop s = let t = record s { quit = true } in if in_loop then t else weakup t

-- What a functor or a callback does, and what other threads do meanwhile.
pub data Action : Type 0 where
  posts : Bool → ℕ → Action
  quits : Bool → Action

unfoldable pub acts : List Action → Loop → Loop
unfolding post_functor quit_loop
acts [] s = s
acts (posts b f ∷ xs) s = acts xs (post_functor b f s)
acts (quits b ∷ xs) s = acts xs (quit_loop b s)

-- `body` is what happens while a functor runs.
unfoldable pub run_functors : (ℕ → List Action) → List ℕ → Loop → Loop
unfolding acts
run_functors body [] s = s
run_functors body (f ∷ fs) s =
    run_functors body fs (acts (body f) (record s { ran = s.ran ++ f ∷ [] }))

-- The functors are taken out before the first one runs.
abbrev pub swapped : Loop → Loop
swapped s = record s { handling = true; pending = [] }

unfoldable pub do_pending_functors : (ℕ → List Action) → Loop → Loop
unfolding run_functors
do_pending_functors body s = record (run_functors body s.pending (swapped s)) { handling = false }

-- An active channel: the eventfd's, or one with a callback.
pub data Event : Type 0 where
  wakeup : Event
  callback : List Action → Event

abbrev pub handle_wakeup : Loop → Loop
handle_wakeup s = record s { wakeups = 0 }

unfoldable pub handle_events : List Event → Loop → Loop
unfolding acts
handle_events [] s = s
handle_events (wakeup ∷ es) s = handle_events es (handle_wakeup s)
handle_events (callback xs ∷ es) s = handle_events es (acts xs s)

-- One round, with the events that `poll` reports.
abbrev pub round : (ℕ → List Action) → List Event → Loop → Loop
round body es s = do_pending_functors body (handle_events es s)

-- As many rounds as there are lists of events, unless the loop quits before.
unfoldable pub rounds : (ℕ → List Action) → List (List Event) → Loop → Loop
unfolding do_pending_functors handle_events
rounds body [] s = s
rounds body (es ∷ ess) s =
    let next = rounds body ess (round body es s) in if s.quit then s else next

unfoldable pub loop : (ℕ → List Action) → List (List Event) → Loop → Outcome Loop
unfolding rounds
loop body ess s = do
  assert (not s.looping)
  ok (record (rounds body ess (record s { looping = true; quit = false })) { looping = false })
