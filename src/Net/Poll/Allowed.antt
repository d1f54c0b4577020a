-- ===== src/Net/Poll/Allowed.antt =====
-- arale/net/PollPoller.cc: calls of updateChannel and removeChannel that do not fail.
use arale.Prelude.{
  ℕ, zero, suc, ◌-◌, ◌≡◌, ◌<◌, refl, sym, ap, ◌∙◌, subst, ℤ, pos, negsuc, true, false, ◌||◌, List,
  [], ◌∷◌, none, some, Outcome, ok, ◌==◌, length, ltb, arith, Bool-cases, inl, inr, ◌⊎◌, Ensures,
}
use arale.Net.Channel.{Events}
use arale.Net.Epoll.{at, is_none}
use arale.Net.Poll.Places.{get, get-bound}
use arale.Net.Poll.Indexes.{owners}
use arale.Net.Poll.Runs.{
  IsIndexed, length-owners, get-owners, update_channel-IsIndexed, remove_channel-IsIndexed,
}
use arale.Net.Poll.{
  Pollfd, Poller, is_fd, is_negated, owner, add_channel, change_channel, update_channel, move_last,
  remove_channel, Call, updates, removes, apply, run,
}

-- A channel that is updated is known or was never in the poller, and one that is removed is known
-- and waits for nothing.
abbrev pub IsAllowed : Call → Poller → Type 0
IsAllowed (updates fd e) p = (p.has fd ≡ true) ⊎ (p.index fd ≡ none)
IsAllowed (removes fd e) p = (p.has fd ≡ true) × (is_none e ≡ true)

abbrev pub AreAllowed : List Call → Poller → Type 0
AreAllowed [] p = Unit
AreAllowed (c ∷ cs) p = IsAllowed c p × Ensures (AreAllowed cs) (apply c p)

get-some : {A : Type 0} (i : ℕ) (xs : List A) → i < length xs → (x : A) × (get i xs ≡ some x)
get-some i [] h = absurd (omega arith)
get-some zero (x ∷ xs) h = (x, refl)
get-some (suc i) (x ∷ xs) h = get-some i xs (omega arith)

is_fd-owner : (z : ℤ) (fd : ℕ) → owner z ≡ fd → (is_fd z fd || is_negated z fd) ≡ true
is_fd-owner (pos m) fd e = ground arith
is_fd-owner (negsuc m) fd e = ground arith

-- The entry of a channel that is known.
entry :
    (fd : ℕ) (p : Poller)
    → IsIndexed p
    → p.has fd ≡ true
    → (i : ℕ) × (p.index fd ≡ some i)
      × (i < length p.pollfds)
      × (x : Pollfd) × (get i p.pollfds ≡ some x)
      × (owner x.fd ≡ fd)
entry fd p v h =
    let (i, k, g) = v.placed fd h in
    let l : i < length p.pollfds =
      omega (arith, get-bound i (owners p.pollfds) fd g, length-owners p.pollfds) in
    let (x, q) = get-some i p.pollfds l in
    let r = get-owners i x p.pollfds q in
    let s : some (owner x.fd) ≡ some fd = sym r ∙ g in (i, k, l, x, q, cc)

update_channel-returns :
    (fd : ℕ) (e : Events) (p : Poller)
    → IsIndexed p
    → IsAllowed (updates fd e) p
    → (q : Poller) × (update_channel fd e p ≡ ok q)
unfolding update_channel add_channel change_channel
update_channel-returns fd e p v a = elim (Bool-cases (p.has fd)) [
  | inl h ↦
      let (i, k, l, x, g, o) = entry fd p v h in
      let t = is_fd-owner x.fd fd o in rw (update_channel, k) (rw (h, g) (rw t (_, refl)))
  | inr h ↦ elim a [ inl b ↦ absurd cc | inr k ↦ rw (update_channel, k) (rw h (_, refl)) ]
]

move_last-returns :
    (i fd : ℕ) (p : Poller)
    → IsIndexed p
    → p.index fd ≡ some i
    → i < length p.pollfds
    → (q : Poller) × (move_last i (record p { has = at fd false p.has }) ≡ ok q)
unfolding move_last
move_last-returns i fd p v k l =
    let n = length p.pollfds in
    let (x, g) = get-some (n - 1) p.pollfds (omega arith) in
    elim (Bool-cases (i == n - 1)) [
      | inl t ↦ rw (move_last, g) (rw t (_, refl))
      | inr t ↦
          let (h, m) = v.named (n - 1) (owner x.fd) (get-owners (n - 1) x p.pollfds g) in
          let w : at fd false p.has (owner x.fd) ≡ true = elim (Bool-cases (owner x.fd == fd)) [
            | inl u ↦
                let r : owner x.fd ≡ fd = ground arith in
                let y : some i ≡ some (n - 1) = sym k ∙ ap p.index (sym r) ∙ m in
                let z : i ≡ n - 1 = cc in absurd (ground arith)
            | inr u ↦ rw u h
          ] in
          rw (move_last, g) (rw t (rw w (_, refl)))
    ]

remove_channel-returns :
    (fd : ℕ) (e : Events) (p : Poller)
    → IsIndexed p
    → IsAllowed (removes fd e) p
    → (q : Poller) × (remove_channel fd e p ≡ ok q)
unfolding remove_channel
remove_channel-returns fd e p v (h, n) =
    let (i, k, l, x, g, o) = entry fd p v h in
    let t : ltb i (length p.pollfds) ≡ true = ground arith in
    rw (remove_channel, h, k) (rw t (rw n (move_last-returns i fd p v k l)))

-- A call that is allowed, and what holds of the poller then.
step :
    (c : Call) (p : Poller)
    → IsIndexed p
    → IsAllowed c p
    → (q : Poller) × (apply c p ≡ ok q) × IsIndexed q
step (updates fd e) p v a =
    let (q, r) = update_channel-returns fd e p v a in
    (q, r, subst (Ensures IsIndexed) r (update_channel-IsIndexed fd e p v))
step (removes fd e) p v a =
    let (q, r) = remove_channel-returns fd e p v a in
    (q, r, subst (Ensures IsIndexed) r (remove_channel-IsIndexed fd e p v))

-- The calls return, and leave a poller whose channels have their indexes.
pub record Indexes (o : Outcome Poller) : Type 0 where
  pub after : Poller
  pub returns : o ≡ ok after
  pub indexed : IsIndexed after

-- From a poller where every known channel stands in pollfds_ at its index, and every entry there
-- is of a known channel with that index, any sequence of updateChannel and removeChannel in which
-- a channel that is updated is known or has the index -1, and one that is removed is known and
-- waits for nothing, returns, with no assertion failing and no access out of bounds, and leaves
-- such a poller.
pub run-Indexes : (cs : List Call) (p : Poller) → IsIndexed p → AreAllowed cs p → Indexes (run cs p)
unfolding run
run-Indexes [] p v a = record { after = p; returns = refl; indexed = v }
run-Indexes (c ∷ cs) p v (a, b) =
    let (q, r, w) = step c p v a in
    let i = run-Indexes cs q w (subst (Ensures (AreAllowed cs)) r b) in
    record { after = i.after; returns = rw r (i.returns); indexed = i.indexed }
