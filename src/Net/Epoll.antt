-- ===== src/Net/Epoll.antt =====
-- arale/net/EPollPoller.cc: which channels the poller knows, and its calls of `epoll_ctl`. A
-- descriptor has one channel, so that a channel is named by its descriptor, and `channels_[fd]`
-- is the channel itself or nothing.
pub mod Kernel
pub mod Allowed
pub mod Wait
mod Tests
use arale.Prelude.{
  ℕ, Bool, true, false, not, ◌&&◌, ◌||◌, List, [], ◌∷◌, ◌++◌, Outcome, ok, assertion, ◌>>=◌, ◌>>◌,
  assert, ◌==◌, leb, length, ◌*◌, if◌then◌else◌,
}
use arale.Net.Channel.{Events, Revents, any_bit}

-- `kNew`, `kAdded` and `kDeleted`.
pub data Index : Type 0 where
  new added deleted : Index

abbrev pub same_index : Index → Index → Bool
same_index new new = true
same_index added added = true
same_index deleted deleted = true
same_index _ _ = false

-- A function that is changed at one argument.
abbrev pub at {ℓ} : {A : Type ℓ} → ℕ → A → (ℕ → A) → ℕ → A
at fd a f x = if x == fd then a else f x

-- Whether `channels_` has the descriptor, and the index that its channel carries.
pub record Poller : Type 0 where
  pub has : ℕ → Bool
  pub index : ℕ → Index

abbrev pub new_poller : Poller
new_poller = record { has = λ fd. false; index = λ fd. new }

-- A call of `epoll_ctl`.
pub data Control : Type 0 where
  adds modifies : ℕ → Events → Control
  deletes : ℕ → Control

abbrev pub is_none : Events → Bool
is_none e = not (any_bit e)

unfoldable pub update_channel : ℕ → Events → Poller → Outcome (Poller × List Control)
update_channel fd e p = elim (p.index fd) [
  | new ↦ do
    assert (not (p.has fd))
    ok (record { has = at fd true p.has; index = at fd added p.index }, adds fd e ∷ [])
  | deleted ↦ do
    assert (not (p.has fd))
    assert (p.has fd)
    ok (record p { index = at fd added p.index }, adds fd e ∷ [])
  | added ↦ do
    assert (p.has fd)
    ok (
        if is_none e
        then (record p { index = at fd deleted p.index }, deletes fd ∷ [])
        else (p, modifies fd e ∷ []))
]

-- `events` is what the channel waits for.
unfoldable pub remove_channel : ℕ → Events → Poller → Outcome (Poller × List Control)
remove_channel fd events p = do
  assert (p.has fd)
  assert (is_none events)
  assert (same_index (p.index fd) added || same_index (p.index fd) deleted)
  ok (
    record { has = at fd false p.has; index = at fd new p.index },
    (if same_index (p.index fd) added then deletes fd ∷ [] else []),
  )

-- What `epoll_wait` returns: the events that happened, none after the timeout, or an error, which
-- is logged unless it is `EINTR`.
pub data Waited : Type 0 where
  reports : List (ℕ × Revents) → Waited
  fails : Waited

abbrev pub init_event_list_size : ℕ
init_event_list_size = 16

unfoldable pub check_known : (ℕ → Bool) → List (ℕ × Revents) → Outcome (Unit {0})
check_known has [] = ok tt
check_known has ((fd, r) ∷ es) = assert (has fd) >> check_known has es

-- The channels, by their descriptors, with their revents.
unfoldable pub fill_active_channels :
    ℕ → (ℕ → Bool) → List (ℕ × Revents) → Outcome (List (ℕ × Revents))
unfolding check_known
fill_active_channels size has es = do assert (leb (length es) size); check_known has es; ok es

-- `size` is that of `epollEvents_`, which is doubled when it was full.
unfoldable pub poll : Waited → ℕ → Poller → Outcome (ℕ × List (ℕ × Revents))
unfolding fill_active_channels
poll fails size p = ok (size, [])
poll (reports []) size p = ok (size, [])
poll (reports (e ∷ es)) size p = do
  active ← fill_active_channels size p.has (e ∷ es)
  ok (if length (e ∷ es) == size then size * 2 else size, active)

pub data Call : Type 0 where
  updates removes : ℕ → Events → Call

abbrev pub apply : Call → Poller → Outcome (Poller × List Control)
apply (updates fd e) p = update_channel fd e p
apply (removes fd e) p = remove_channel fd e p

-- One call after another, with all calls of `epoll_ctl`.
unfoldable pub run : List Call → Poller → Outcome (Poller × List Control)
unfolding update_channel remove_channel
run [] p = ok (p, [])
run (c ∷ cs) p = do (q, es) ← apply c p; (r, fs) ← run cs q; ok (r, es ++ fs)
