-- ===== src/Net/Epoll/Allowed.antt =====
-- EPollPoller.cc: calls of updateChannel and removeChannel that fail no assertion.
use arale.Prelude.{
  ℕ, ◌≡◌, refl, ap, ◌∙◌, subst, Bool, true, false, not, List, [], ◌∷◌, ◌++◌, ok, Ensures,
}
use arale.Net.Channel.{Events}
use arale.Net.Epoll.{
  Index, new, added, deleted, same_index, Poller, Control, is_none, update_channel, remove_channel,
  Call, updates, removes, apply, run,
}
use arale.Net.Epoll.Kernel.{Agrees, Follows, apply-Follows}

-- A channel that was disabled is not updated before it is removed, and one is removed when it is
-- known and waits for nothing.
abbrev pub IsAllowed : Call → Poller → Type 0
IsAllowed (updates fd e) p = same_index (p.index fd) deleted ≡ false
IsAllowed (removes fd e) p = (p.has fd ≡ true) × (is_none e ≡ true)

abbrev pub AreAllowed : List Call → Poller → Type 0
AreAllowed [] p = Unit
AreAllowed (c ∷ cs) p = IsAllowed c p × Ensures (λ r. AreAllowed cs r.0) (apply c p)

update_channel-returns :
    (fd : ℕ) (e : Events) (p : Poller) (s : ℕ → Bool)
    → Agrees p s
    → same_index (p.index fd) deleted ≡ false
    → (r : Poller × List Control) × (update_channel fd e p ≡ ok r)
unfolding update_channel
update_channel-returns fd e p s a d = go (p.index fd) refl
  where
    go : (i : Index) → p.index fd ≡ i → (r : Poller × List Control) × (update_channel fd e p ≡ ok r)
    go new q =
        let h : p.has fd ≡ false = a.known fd ∙ ap (λ i. not (same_index i new)) q in
        rw (update_channel, q, h) (_, refl)
    go deleted q = let h = ap (λ i. same_index i deleted) q in absurd cc
    go added q =
        let h : p.has fd ≡ true = a.known fd ∙ ap (λ i. not (same_index i new)) q in
        rw (update_channel, q, h) (_, refl)

remove_channel-returns :
    (fd : ℕ) (e : Events) (p : Poller) (s : ℕ → Bool)
    → Agrees p s
    → p.has fd ≡ true
    → is_none e ≡ true
    → (r : Poller × List Control) × (remove_channel fd e p ≡ ok r)
unfolding remove_channel
remove_channel-returns fd e p s a h n = go (p.index fd) refl
  where
    go : (i : Index) → p.index fd ≡ i → (r : Poller × List Control) × (remove_channel fd e p ≡ ok r)
    go new q =
        let k : p.has fd ≡ false = a.known fd ∙ ap (λ i. not (same_index i new)) q in absurd cc
    go deleted q = rw (remove_channel, h, n, q) (_, refl)
    go added q = rw (remove_channel, h, n, q) (_, refl)

apply-returns :
    (c : Call) (p : Poller) (s : ℕ → Bool)
    → Agrees p s
    → IsAllowed c p
    → (r : Poller × List Control) × (apply c p ≡ ok r)
apply-returns (updates fd e) p s a h = update_channel-returns fd e p s a h
apply-returns (removes fd e) p s a (h, n) = remove_channel-returns fd e p s a h n

pub run-returns :
    (cs : List Call) (p : Poller) (s : ℕ → Bool)
    → Agrees p s
    → AreAllowed cs p
    → (r : Poller × List Control) × (run cs p ≡ ok r)
unfolding run
run-returns [] p s a h = ((p, []), refl)
run-returns (c ∷ cs) p s a (h, k) =
    let ((q, es), e) = apply-returns c p s a h in
    let (t, x, b) = subst (Follows s) e (apply-Follows c p s a) in
    let ((r, fs), f) = run-returns cs q t b (subst (Ensures (λ r. AreAllowed cs r.0)) e k) in
    ((r, es ++ fs), rw e (rw f refl))
