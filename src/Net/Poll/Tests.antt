-- ===== src/Net/Poll/Tests.antt =====
-- Runs of arale/net/PollPoller.cc at concrete inputs.
use arale.Prelude.{
  ℕ, ◌≡◌, refl, pos, negsuc, true, false, List, [], ◌∷◌, Option, none, some, Outcome, ok, ◌>>=◌,
  inl, inr,
}
use arale.Net.Channel.{none_event, read_event}
use arale.Net.Epoll.{at}
use arale.Net.Poll.{
  Pollfd, Poller, Call, updates, removes, run, new_poller, no_revents, update_channel,
  remove_channel, add_channel, change_channel, move_last, poll, happened, fill_active_channels,
}
use arale.Net.Poll.Runs.{IsIndexed}
use arale.Net.Poll.Allowed.{AreAllowed, Indexes, run-Indexes}

-- Two channels, the first disabled.
abbrev two_channels : Poller
two_channels = record {
  pollfds =
      record { fd = negsuc 5; events = none_event; revents = no_revents }
      ∷ record { fd = pos 8; events = read_event; revents = no_revents }
      ∷ [];
  has = at 5 true (at 8 true (λ fd. false));
  index = at 5 (some 0) (at 8 (some 1) (λ fd. none));
}

new_poller-IsIndexed : IsIndexed new_poller
new_poller-IsIndexed = record { placed = λ fd e. absurd (cc e); named = λ i fd e. absurd (cc e) }

calls : List Call
calls =
    updates 5 read_event ∷ updates 8 read_event ∷ updates 5 none_event ∷ removes 5 none_event ∷ []

calls-AreAllowed : AreAllowed calls new_poller
unfolding calls update_channel remove_channel add_channel change_channel move_last
calls-AreAllowed = (inr refl, (inr refl, (inl refl, ((refl, refl), tt))))

run-Indexes_example : Indexes (run calls new_poller)
run-Indexes_example = run-Indexes calls new_poller new_poller-IsIndexed calls-AreAllowed

-- The last entry takes the place of the one that is removed.
abbrev first_places : Poller → List Pollfd × Option ℕ
first_places p = (p.pollfds, p.index 8)

abbrev outcome_places : Outcome Poller → Outcome (List Pollfd × Option ℕ)
outcome_places o = o >>= λ p. ok (first_places p)

removal_test :
    outcome_places (run calls new_poller)
    ≡ ok (record { fd = pos 8; events = read_event; revents = no_revents } ∷ [], some 0)
unfolding calls run update_channel remove_channel add_channel change_channel move_last
removal_test = refl

poll_test :
    poll (happened 1 (no_revents ∷ record no_revents { pollin = true } ∷ [])) two_channels
    ≡ ok (
      record two_channels {
        pollfds =
            record { fd = negsuc 5; events = none_event; revents = no_revents }
            ∷ record {
              fd = pos 8;
              events = read_event;
              revents = record no_revents { pollin = true };
            }
            ∷ [];
      },
      (8, record no_revents { pollin = true }) ∷ [],
    )
unfolding poll fill_active_channels
poll_test = refl
