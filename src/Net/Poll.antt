-- ===== src/Net/Poll.antt =====
-- arale/net/PollPoller.cc: the vector that `poll` takes, and the indexes that the channels have in
-- it. A channel is named by its descriptor, as in Net/Epoll.
pub mod Places
pub mod Indexes
pub mod Runs
pub mod Allowed
pub mod Ignored
mod Tests
use arale.Prelude.{
  ℕ, zero, suc, ◌+◌, ◌-◌, ℤ, pos, negsuc, Bool, true, false, not, ◌&&◌, ◌||◌, List, [], ◌∷◌, ◌++◌,
  map, Option, none, some, Outcome, ok, undefined, ◌>>=◌, ◌>>◌, assert, ltb, ◌==◌, if◌then◌else◌,
  length, take,
}
use arale.Net.Channel.{Events, Revents, any_bit}
use arale.Net.Epoll.{at, is_none}
use arale.Net.Poll.Places.{get, set}

-- `struct pollfd`. A negative descriptor is one that `poll` ignores.
pub record Pollfd : Type 0 where
  pub fd : ℤ
  pub events : Events
  pub revents : Revents

abbrev pub no_revents : Revents
no_revents = record {
  pollin = false;
  pollpri = false;
  pollout = false;
  pollerr = false;
  pollhup = false;
  pollnval = false;
  pollrdhup = false;
}

-- `revents > 0`.
abbrev pub has_revents : Revents → Bool
has_revents r =
    r.pollin
    || (r.pollpri || (r.pollout || (r.pollerr || (r.pollhup || (r.pollnval || r.pollrdhup)))))

-- `pollfds_`, which descriptors `channels_` has, and the index that each channel carries, none
-- for -1.
pub record Poller : Type 0 where
  pub pollfds : List Pollfd
  pub has : ℕ → Bool
  pub index : ℕ → Option ℕ

abbrev pub new_poller : Poller
new_poller = record { pollfds = []; has = λ fd. false; index = λ fd. none }

-- `fd == n`, and the channel of a descriptor that may be negated: `-fd - 1`.
abbrev pub is_fd : ℤ → ℕ → Bool
is_fd (pos m) n = m == n
is_fd (negsuc m) n = false

abbrev pub is_negated : ℤ → ℕ → Bool
is_negated (pos m) n = false
is_negated (negsuc m) n = m == n

abbrev pub owner : ℤ → ℕ
owner (pos m) = m
owner (negsuc m) = m

unfoldable pub add_channel : ℕ → Events → Poller → Outcome Poller
add_channel fd e p = do
  assert (not (p.has fd))
  ok (record {
    pollfds = p.pollfds ++ record { fd = pos fd; events = e; revents = no_revents } ∷ [];
    has = at fd true p.has;
    index = at fd (some (length p.pollfds)) p.index;
  })

-- The entry of a channel that is known, with its new events.
abbrev pub changed : ℕ → Events → Pollfd → Pollfd
changed fd e x = record {
  fd = if is_none e then negsuc fd else x.fd;
  events = e;
  revents = no_revents;
}

unfoldable pub change_channel : ℕ → ℕ → Events → Poller → Outcome Poller
change_channel i fd e p = do
  assert (p.has fd)
  elim (get i p.pollfds) [
    | none ↦ undefined
    | some x ↦ do
      assert (is_fd x.fd fd || is_negated x.fd fd)
      ok (record p { pollfds = set i (changed fd e x) p.pollfds })
  ]

unfoldable pub update_channel : ℕ → Events → Poller → Outcome Poller
unfolding add_channel change_channel
update_channel fd e p = elim (p.index fd) [
  | none ↦ add_channel fd e p
  | some i ↦ change_channel i fd e p
]

-- The entry at `i` gives its place to the last one, whose channel gets the index. `channels_[fd]`
-- of a descriptor that is not there is a null pointer.
unfoldable pub move_last : ℕ → Poller → Outcome Poller
move_last i p =
    let n = length p.pollfds in
    elim (get (n - 1) p.pollfds) [
      | none ↦ undefined
      | some x ↦ elim (i == n - 1) [
        | true ↦ ok (record p { pollfds = take (n - 1) p.pollfds })
        | false ↦ elim (p.has (owner x.fd)) [
          | true ↦ ok (record p {
            pollfds = take (n - 1) (set i x p.pollfds);
            index = at (owner x.fd) (some i) p.index;
          })
          | false ↦ undefined
        ]
      ]
    ]

-- `events` is what the channel waits for.
unfoldable pub remove_channel : ℕ → Events → Poller → Outcome Poller
unfolding move_last
remove_channel fd events p = do
  assert (p.has fd)
  elim (p.index fd) [
    | none ↦ assert false >> ok p
    | some i ↦ do
      assert (ltb i (length p.pollfds))
      assert (is_none events)
      move_last i (record p { has = at fd false p.has })
  ]

-- The channels with something to do, and what; the loop ends after `n` of them.
unfoldable pub fill_active_channels : (ℕ → Bool) → ℕ → List Pollfd → Outcome (List (ℕ × Revents))
fill_active_channels has n [] = ok []
fill_active_channels has zero (x ∷ xs) = ok []
fill_active_channels has (suc n) (x ∷ xs) = elim (has_revents x.revents) [
  | false ↦ fill_active_channels has (suc n) xs
  | true ↦ elim x.fd [
    | negsuc m ↦ assert false >> ok []
    | pos fd ↦ do assert (has fd); rest ← fill_active_channels has n xs; ok ((fd, x.revents) ∷ rest)
  ]
]

-- What `poll` does with the entries: nothing on an error or after the timeout, or `revents` of each.
pub data Polled : Type 0 where
  failed timed_out : Polled
  happened : ℕ → List Revents → Polled

abbrev pub write_revents : List Revents → List Pollfd → List Pollfd
write_revents [] xs = xs
write_revents (r ∷ rs) [] = []
write_revents (r ∷ rs) (x ∷ xs) = record x { revents = r } ∷ write_revents rs xs

unfoldable pub poll : Polled → Poller → Outcome (Poller × List (ℕ × Revents))
unfolding fill_active_channels
poll failed p = ok (p, [])
poll timed_out p = ok (p, [])
poll (happened n rs) p = do
  let q = record p { pollfds = write_revents rs p.pollfds }
  active ← fill_active_channels q.has n q.pollfds
  ok (q, active)

pub data Call : Type 0 where
  updates removes : ℕ → Events → Call

abbrev pub apply : Call → Poller → Outcome Poller
apply (updates fd e) p = update_channel fd e p
apply (removes fd e) p = remove_channel fd e p

unfoldable pub run : List Call → Poller → Outcome Poller
unfolding update_channel remove_channel
run [] p = ok p
run (c ∷ cs) p = apply c p >>= λ q. run cs q
