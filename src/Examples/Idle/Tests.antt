-- ===== src/Examples/Idle/Tests.antt =====
-- A ring of three seconds.
use arale.Prelude.{◌≡◌, refl, List, [], ◌∷◌, ok}
use arale.Examples.Idle.{Bucket, insert_back, on_timer}
use arale.Examples.Idle.Ring.{Idles, insert_back-Idles}

timer_test : on_timer ((5 ∷ 6 ∷ []) ∷ (6 ∷ []) ∷ [] ∷ []) ≡ ((6 ∷ []) ∷ [] ∷ [] ∷ [], 5 ∷ [])
unfolding on_timer
timer_test = refl

insert_back-Idles_example :
    (ring : List Bucket) × (insert_back 5 ((4 ∷ []) ∷ [] ∷ (6 ∷ []) ∷ []) ≡ ok ring)
    × Idles 5 ((4 ∷ []) ∷ [] ∷ []) ring
insert_back-Idles_example = insert_back-Idles 5 ((4 ∷ []) ∷ [] ∷ []) (6 ∷ [])
