-- ===== src/Net/Epoll/Tests.antt =====
-- The theorems of the poller at concrete inputs.
use arale.Prelude.{ℕ, refl, Bool, true, false, List, [], ◌∷◌, ◌≡◌, ◌≤◌, length, arith}
use arale.Net.Channel.{none_event, read_event, Revents, no_revents}
use arale.Net.Epoll.{new_poller, Call, updates, removes, run, update_channel, remove_channel}
use arale.Net.Epoll.Kernel.{Agrees}
use arale.Net.Epoll.Allowed.{AreAllowed}
use arale.Net.Epoll.Wait.{AreIn, WaitsOn, FollowsAndPolls, run-FollowsAndPolls}

empty_set : ℕ → Bool
empty_set fd = false

new_poller-Agrees : Agrees new_poller empty_set
unfolding empty_set
new_poller-Agrees = record { in_set = λ fd. refl; known = λ fd. refl }

-- Descriptor 3 is added, disabled and removed, and 4 is added.
abbrev some_calls : List Call
some_calls =
    updates 3 read_event ∷ updates 3 none_event ∷ removes 3 none_event ∷ updates 4 read_event ∷ []

-- A kernel that reports that 4 can be read, if it is in the set.
abbrev four_if : Bool → List (ℕ × Revents)
four_if true = (4, record no_revents { pollin = true }) ∷ []
four_if false = []

abbrev wait_for_four : (ℕ → Bool) → List (ℕ × Revents)
wait_for_four s = four_if (s 4)

wait_for_four-WaitsOn : WaitsOn 16 wait_for_four
wait_for_four-WaitsOn = record { in_set = λ s. in_set s (s 4) refl; fits = λ s. fits (s 4) }
  where
    in_set : (s : ℕ → Bool) (b : Bool) → s 4 ≡ b → AreIn s (four_if b)
    in_set s true e = (e, tt)
    in_set s false e = tt

    fits : (b : Bool) → length (four_if b) ≤ 16
    fits true = omega arith
    fits false = omega arith

some_calls-AreAllowed : AreAllowed some_calls new_poller
unfolding update_channel remove_channel
some_calls-AreAllowed = (refl, (refl, ((refl, refl), (refl, tt))))

run-FollowsAndPolls_example : FollowsAndPolls 16 wait_for_four empty_set (run some_calls new_poller)
run-FollowsAndPolls_example =
    run-FollowsAndPolls 16 wait_for_four some_calls new_poller empty_set (omega arith)
      wait_for_four-WaitsOn new_poller-Agrees some_calls-AreAllowed
