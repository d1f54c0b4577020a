-- ===== src/Net/Epoll/Kernel.antt =====
-- EPollPoller.cc against `epoll_ctl` as its manual describes it: it adds a descriptor that is not
-- in the set, and changes or takes out one that is.
use arale.Prelude.{
  ℕ, ◌≡◌, refl, sym, ap, ◌∙◌, Bool, true, false, not, List, [], ◌∷◌, ◌++◌, Outcome, ok, assertion,
  thrown, undefined, ◌>>=◌, ◌==◌, if◌then◌else◌, arith, Option, none, some, Bool-cases, inl, inr,
}
use arale.Net.Channel.{Events}
use arale.Net.Epoll.{
  Index, new, added, deleted, same_index, at, Poller, Control, adds, modifies, deletes, is_none,
  update_channel, remove_channel, Call, updates, removes, apply, run,
}

-- The set of `epoll`, and a call, which fails with `EEXIST` or `ENOENT` otherwise.
abbrev pub control : Control → (ℕ → Bool) → Option (ℕ → Bool)
control (adds fd e) s = if s fd then none else some (at fd true s)
control (modifies fd e) s = if s fd then some s else none
control (deletes fd) s = if s fd then some (at fd false s) else none

abbrev pub controls : List Control → (ℕ → Bool) → Option (ℕ → Bool)
controls [] s = some s
controls (c ∷ cs) s = elim (control c s) [ none ↦ none | some t ↦ controls cs t ]

-- The poller and the set agree: in the set are the descriptors that are added, and `channels_` has
-- all that are not new.
pub record Agrees (p : Poller) (s : ℕ → Bool) : Type 0 where
  pub in_set : (fd : ℕ) → s fd ≡ same_index (p.index fd) added
  pub known : (fd : ℕ) → p.has fd ≡ not (same_index (p.index fd) new)

-- A run that returns: `epoll_ctl` has taken all calls, and the two agree again.
abbrev pub Follows : (ℕ → Bool) → Outcome (Poller × List Control) → Type 0
Follows s (ok (p, cs)) = (t : ℕ → Bool) × (controls cs s ≡ some t) × Agrees p t
Follows s assertion = Unit
Follows s thrown = Unit
Follows s undefined = Unit

change-Agrees :
    (fd : ℕ) (h b : Bool) (i : Index) (p : Poller) (s : ℕ → Bool)
    → Agrees p s
    → b ≡ same_index i added
    → h ≡ not (same_index i new)
    → Agrees (record { has = at fd h p.has; index = at fd i p.index }) (at fd b s)
change-Agrees fd h b i p s a e f = record { in_set = in_set; known = known }
  where
    in_set : (x : ℕ) → at fd b s x ≡ same_index (at fd i p.index x) added
    in_set x = elim (Bool-cases (x == fd)) [ inl q ↦ rw q e | inr q ↦ rw q (a.in_set x) ]

    known : (x : ℕ) → at fd h p.has x ≡ not (same_index (at fd i p.index x) new)
    known x = elim (Bool-cases (x == fd)) [ inl q ↦ rw q f | inr q ↦ rw q (a.known x) ]

-- As far as the index alone is changed.
keep-Agrees :
    (fd : ℕ) (b : Bool) (i : Index) (p : Poller) (s : ℕ → Bool)
    → Agrees p s
    → b ≡ same_index i added
    → p.has fd ≡ not (same_index i new)
    → Agrees (record p { index = at fd i p.index }) (at fd b s)
keep-Agrees fd b i p s a e f = record { in_set = in_set; known = known }
  where
    in_set : (x : ℕ) → at fd b s x ≡ same_index (at fd i p.index x) added
    in_set x = elim (Bool-cases (x == fd)) [ inl q ↦ rw q e | inr q ↦ rw q (a.in_set x) ]

    same : (x : ℕ) → (x == fd) ≡ true → p.has x ≡ not (same_index i new)
    same x q = let r : x ≡ fd = ground arith in rw r f

    known : (x : ℕ) → p.has x ≡ not (same_index (at fd i p.index x) new)
    known x = elim (Bool-cases (x == fd)) [ inl q ↦ rw q (same x q) | inr q ↦ rw q (a.known x) ]

at-same : (fd : ℕ) (s : ℕ → Bool) → s fd ≡ false → (x : ℕ) → at fd false s x ≡ s x
at-same fd s k x = elim (Bool-cases (x == fd)) [
  | inl q ↦ let r : x ≡ fd = ground arith in rw q (sym (rw r k))
  | inr q ↦ rw q
]

update_channel-Follows :
    (fd : ℕ) (e : Events) (p : Poller) (s : ℕ → Bool)
    → Agrees p s
    → Follows s (update_channel fd e p)
unfolding update_channel
update_channel-Follows fd e p s a = go (p.index fd) refl
  where
    go : (i : Index) → p.index fd ≡ i → Follows s (update_channel fd e p)
    go new q =
        let h : p.has fd ≡ false = a.known fd ∙ ap (λ i. not (same_index i new)) q in
        let k : s fd ≡ false = a.in_set fd ∙ ap (λ i. same_index i added) q in
        rw (update_channel, q, h)
          (at fd true s, rw (controls, k), change-Agrees fd true true added p s a refl refl)
    go deleted q =
        let h : p.has fd ≡ true = a.known fd ∙ ap (λ i. not (same_index i new)) q in
        rw (update_channel, q, h) tt
    go added q =
        let h : p.has fd ≡ true = a.known fd ∙ ap (λ i. not (same_index i new)) q in
        let k : s fd ≡ true = a.in_set fd ∙ ap (λ i. same_index i added) q in
        rw (update_channel, q, h)
          (elim (Bool-cases (is_none e)) [
            | inl n ↦
                rw n (at fd false s, rw (controls, k), keep-Agrees fd false deleted p s a refl h)
            | inr n ↦ rw n (s, rw (controls, k), a)
          ])

remove_channel-Follows :
    (fd : ℕ) (e : Events) (p : Poller) (s : ℕ → Bool)
    → Agrees p s
    → Follows s (remove_channel fd e p)
unfolding remove_channel
remove_channel-Follows fd e p s a = go (p.has fd) (is_none e) (p.index fd) refl refl refl
  where
    go :
        (h n : Bool) (i : Index)
        → p.has fd ≡ h
        → is_none e ≡ n
        → p.index fd ≡ i
        → Follows s (remove_channel fd e p)
    go false n i h m q = rw (remove_channel, h) tt
    go true false i h m q = rw (remove_channel, h, m) tt
    go true true new h m q = rw (remove_channel, h, m, q) tt
    go true true added h m q =
        let k : s fd ≡ true = a.in_set fd ∙ ap (λ i. same_index i added) q in
        rw (remove_channel, h, m, q)
          (at fd false s, rw (controls, k), change-Agrees fd false false new p s a refl refl)
    go true true deleted h m q =
        let k : s fd ≡ false = a.in_set fd ∙ ap (λ i. same_index i added) q in
        let c = change-Agrees fd false false new p s a refl refl in
        rw (remove_channel, h, m, q)
          (s, refl, record { in_set = λ x. sym (at-same fd s k x) ∙ c.in_set x; known = c.known })

pub apply-Follows : (c : Call) (p : Poller) (s : ℕ → Bool) → Agrees p s → Follows s (apply c p)
apply-Follows (updates fd e) p s a = update_channel-Follows fd e p s a
apply-Follows (removes fd e) p s a = remove_channel-Follows fd e p s a

controls-append :
    (cs ds : List Control) (s t : ℕ → Bool)
    → controls cs s ≡ some t
    → controls (cs ++ ds) s ≡ controls ds t
controls-append [] ds s t e = cc
controls-append (c ∷ cs) ds s t e = go (control c s) (λ u. controls-append cs ds u t) e
  where
    go :
        (o : Option (ℕ → Bool))
        → ((u : ℕ → Bool) → controls cs u ≡ some t → controls (cs ++ ds) u ≡ controls ds t)
        → elim o [ none ↦ none | some u ↦ controls cs u ] ≡ some t
        → elim o [ none ↦ none | some u ↦ controls (cs ++ ds) u ] ≡ controls ds t
    go none k q = cc
    go (some u) k q = k u q

-- From a poller that agrees with the set of epoll, any sequence of updateChannel and removeChannel
-- in which no assertion fails makes only calls that epoll_ctl takes, and the poller agrees with
-- the set again.
pub run-Follows : (cs : List Call) (p : Poller) (s : ℕ → Bool) → Agrees p s → Follows s (run cs p)
unfolding run
run-Follows [] p s a = (s, refl, a)
run-Follows (c ∷ cs) p s a = go (apply c p) (apply-Follows c p s a) (run-Follows cs)
  where
    after :
        (es : List Control) (t : ℕ → Bool) (o : Outcome (Poller × List Control))
        → controls es s ≡ some t
        → Follows t o
        → Follows s (o >>= λ r. ok (r.0, es ++ r.1))
    after es t (ok (q, fs)) e (u, f, b) = (u, controls-append es fs s t e ∙ f, b)
    after es t assertion e b = tt
    after es t thrown e b = tt
    after es t undefined e b = tt

    go :
        (o : Outcome (Poller × List Control))
        → Follows s o
        → ((q : Poller) (t : ℕ → Bool) → Agrees q t → Follows t (run cs q))
        → Follows s (o >>= λ r. run cs r.0 >>= λ q. ok (q.0, r.1 ++ q.1))
    go (ok (q, es)) (t, e, b) k = after es t (run cs q) e (k q t b)
    go assertion b k = tt
    go thrown b k = tt
    go undefined b k = tt

disabled :
    (fd : ℕ) (d : Events) (p : Poller)
    → p.has fd ≡ true
    → p.index fd ≡ added
    → is_none d ≡ true
    → update_channel fd d p ≡ ok (record p { index = at fd deleted p.index }, deletes fd ∷ [])
unfolding update_channel
disabled fd d p h q n = rw (update_channel, q, h) (rw n)

refused :
    (fd : ℕ) (e : Events) (p : Poller)
    → p.has fd ≡ true
    → p.index fd ≡ deleted
    → update_channel fd e p ≡ assertion
unfolding update_channel
refused fd e p h q = rw (update_channel, q, h)

-- A channel that was added, and then disabled and not removed, cannot be enabled again:
-- updateChannel fails an assertion.
update_channel-again :
    (fd : ℕ) (d e : Events) (p : Poller)
    → p.has fd ≡ true
    → p.index fd ≡ added
    → is_none d ≡ true
    → run (updates fd d ∷ updates fd e ∷ []) p ≡ assertion
unfolding run
update_channel-again fd d e p h q n =
    let r : (fd == fd) ≡ true = ground arith in
    rw (disabled fd d p h q n, refused fd e (record p { index = at fd deleted p.index }) h (rw r))
