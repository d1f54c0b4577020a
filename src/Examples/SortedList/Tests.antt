-- ===== src/Examples/SortedList/Tests.antt =====
-- SortedList.cc: a server whose connections are idle after ten seconds.
use arale.Prelude.{ℕ, ◌≡◌, refl, true, not, ◌==◌, List, [], ◌∷◌, ok}
use arale.Examples.SortedList.{Node, Server, new_server, erase, on_message, visit, on_timer}
use arale.Examples.SortedList.Idle.{Event, up, down, message, timer, handle_all, ShutsIdle}
use arale.Examples.SortedList.Legal.{handle_all-ShutsIdle}

abbrev node : ℕ → ℕ → Node
node c t = record { conn = c; last_receive_time = t }

-- Connection 1 is gone, 2 is idle, 3 is not.
timer_test :
    (on_timer 10 11000001
      ((λ c. not (c == 1)))
      (λ c. true)
      (record {
        contexts = 2 ∷ 3 ∷ [];
        connections = node 1 0 ∷ node 2 1000000 ∷ node 3 1000001 ∷ [];
      }))
    ≡ ok (
      record { contexts = 2 ∷ 3 ∷ []; connections = node 2 1000000 ∷ node 3 1000001 ∷ [] },
      2 ∷ [],
    )
unfolding on_timer visit
timer_test = refl

-- A clock that went back.
jump_test :
    (on_timer 10 5
      (λ c. true)
      (λ c. true)
      (record { contexts = 1 ∷ []; connections = node 1 7 ∷ [] }))
    ≡ ok (record { contexts = 1 ∷ []; connections = node 1 5 ∷ [] }, [])
unfolding on_timer visit
jump_test = refl

message_test :
    on_message 9 1 (record { contexts = 1 ∷ []; connections = node 1 3 ∷ node 2 4 ∷ [] })
    ≡ ok (record { contexts = 1 ∷ []; connections = node 2 4 ∷ node 1 9 ∷ [] })
unfolding on_message erase
message_test = refl

abbrev events : List (ℕ × Event)
events =
    (0, up 1)
    ∷ (1000000, up 2)
    ∷ (500, message 1)
    ∷ (10000000, timer (λ c. true) (λ c. true))
    ∷ (3, down 2)
    ∷ []

handle_all-ShutsIdle_example :
    (p : ℕ × Server) × (handle_all 10 0 events new_server ≡ ok p) × ShutsIdle 10 p
handle_all-ShutsIdle_example = handle_all-ShutsIdle 10 0 events (refl, ((λ d u. refl), (refl, tt)))
