-- ===== src/Net/Loop/Tests.antt =====
-- A loop whose functor 1 posts functor 2.
use arale.Prelude.{ℕ, ◌≡◌, refl, true, false, List, [], ◌∷◌, ok, Ensures, if◌then◌else◌, ◌==◌}
use arale.Net.Loop.{
  new_loop, Action, posts, quits, Event, wakeup, callback, loop, round, rounds, handle_events,
  do_pending_functors, run_functors, acts, post_functor, quit_loop,
}
use arale.Net.Loop.Order.{InOrder, loop-InOrder}
use arale.Net.Loop.Awake.{IsAwake, round-IsAwake}

abbrev chain : ℕ → List Action
chain f = if f == 1 then posts true 2 ∷ [] else quits true ∷ []

abbrev two_rounds : List (List Event)
two_rounds = (callback (posts true 1 ∷ []) ∷ []) ∷ (wakeup ∷ []) ∷ [] ∷ []

loop_test :
    loop chain two_rounds new_loop
    ≡ ok (record new_loop { quit = true; ran = 1 ∷ 2 ∷ []; posted = 1 ∷ 2 ∷ [] })
unfolding loop rounds handle_events do_pending_functors run_functors acts post_functor quit_loop
loop_test = refl

loop-InOrder_example : Ensures (InOrder []) (loop chain two_rounds new_loop)
loop-InOrder_example = loop-InOrder chain two_rounds new_loop refl

round-IsAwake_example :
    ((round chain (wakeup ∷ []) new_loop).handling ≡ false)
    × IsAwake (round chain (wakeup ∷ []) new_loop)
round-IsAwake_example = round-IsAwake chain (wakeup ∷ []) new_loop
