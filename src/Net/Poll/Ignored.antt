-- ===== src/Net/Poll/Ignored.antt =====
-- arale/net/PollPoller.cc: a channel that was disabled is ignored from then on.
use arale.Prelude.{
  ℕ, ◌≡◌, refl, negsuc, true, ◌||◌, List, [], ◌∷◌, map, some, arith, Bool-cases, inl, inr, Ensures,
  Ensures->>=,
}
use arale.Net.Channel.{Events}
use arale.Net.Epoll.{is_none}
use arale.Net.Poll.Places.{get, get-set_same, get-bound}
use arale.Net.Poll.{
  Pollfd, Poller, is_fd, is_negated, changed, change_channel, update_channel, updates, run,
}

-- The entry of the channel has the negated descriptor.
abbrev pub IsIgnored : ℕ → Poller → Type 0
IsIgnored fd p =
    (i : ℕ) × (x : Pollfd) × (p.index fd ≡ some i) × (get i p.pollfds ≡ some x) × (x.fd ≡ negsuc fd)

changed_fd : (fd : ℕ) (e : Events) (x : Pollfd) → x.fd ≡ negsuc fd → (changed fd e x).fd ≡ negsuc fd
changed_fd fd e x q = elim (Bool-cases (is_none e)) [ inl t ↦ rw t refl | inr t ↦ rw t q ]

update_channel-IsIgnored :
    (fd : ℕ) (e : Events) (p : Poller)
    → IsIgnored fd p
    → Ensures (IsIgnored fd) (update_channel fd e p)
unfolding update_channel change_channel
update_channel-IsIgnored fd e p (i, x, k, g, q) = elim (Bool-cases (p.has fd)) [
  | inr t ↦ rw (update_channel, k) (rw t tt)
  | inl t ↦
      let u : (is_fd x.fd fd || is_negated x.fd fd) ≡ true = rw q (ground arith) in
      rw (update_channel, k)
        (rw (t, g)
          (rw u (
            i,
            changed fd e x,
            k,
            get-set_same i (changed fd e x) p.pollfds (get-bound i p.pollfds x g),
            changed_fd fd e x q,
          )))
]

-- A channel whose entry in pollfds_ has the negated descriptor keeps such an entry, which poll
-- ignores, through any updates of the channel that return, whatever events it waits for.
run-IsIgnored :
    (fd : ℕ) (es : List Events) (p : Poller)
    → IsIgnored fd p
    → Ensures (IsIgnored fd) (run (map (updates fd) es) p)
unfolding run
run-IsIgnored fd [] p h = h
run-IsIgnored fd (e ∷ es) p h =
    Ensures->>= (IsIgnored fd) (IsIgnored fd) (update_channel fd e p) (run (map (updates fd) es))
      (update_channel-IsIgnored fd e p h) (run-IsIgnored fd es)
