-- ===== src/Net/Epoll/Wait.antt =====
-- EPollPoller.cc, `poll`: what `epoll_wait` reports, which as its manual says is about descriptors
-- in the set, and not more than there is room for.
use arale.Prelude.{
  subst, ℕ, ◌*◌, ◌≡◌, ◌≤◌, ◌<◌, refl, sym, ◌∙◌, Bool, true, not, List, [], ◌∷◌, Outcome, ok, ◌==◌,
  leb, arith, some, length, Bool-cases, inl, inr,
}
use arale.Net.Channel.{Revents}
use arale.Net.Epoll.{
  Index, new, added, deleted, same_index, Poller, Control, reports, check_known,
  fill_active_channels, poll, Call, run,
}
use arale.Net.Epoll.Allowed.{AreAllowed, run-returns}
use arale.Net.Epoll.Kernel.{controls, Agrees, Follows, run-Follows}

abbrev pub AreIn : (ℕ → Bool) → List (ℕ × Revents) → Type 0
AreIn s [] = Unit
AreIn s ((fd, r) ∷ es) = (s fd ≡ true) × AreIn s es

-- `wait` is what `epoll_wait` reports for a set, into room for `size` events.
pub record WaitsOn (size : ℕ) (wait : (ℕ → Bool) → List (ℕ × Revents)) : Type 0 where
  pub in_set : (s : ℕ → Bool) → AreIn s (wait s)
  pub fits : (s : ℕ → Bool) → length (wait s) ≤ size

added-known : (i : Index) → same_index i added ≡ true → not (same_index i new) ≡ true
added-known new e = cc
added-known added e = refl
added-known deleted e = cc

check_known-Agrees :
    (p : Poller) (s : ℕ → Bool) (es : List (ℕ × Revents))
    → Agrees p s
    → AreIn s es
    → check_known p.has es ≡ ok tt
unfolding check_known
check_known-Agrees p s [] a i = refl
check_known-Agrees p s ((fd, r) ∷ es) a (e, i) =
    let h : p.has fd ≡ true = a.known fd ∙ added-known (p.index fd) (sym (a.in_set fd) ∙ e) in
    rw h (check_known-Agrees p s es a i)

-- The poll returns all events, and has room for more afterwards.
pub record Polls (size : ℕ) (p : Poller) (es : List (ℕ × Revents)) : Type 0 where
  pub after : ℕ
  pub returns : poll (reports es) size p ≡ ok (after, es)
  pub room : length es < after

poll-Polls :
    (size : ℕ) (p : Poller) (s : ℕ → Bool) (es : List (ℕ × Revents))
    → Agrees p s
    → AreIn s es
    → 0 < size
    → length es ≤ size
    → Polls size p es
unfolding poll fill_active_channels
poll-Polls size p s [] a i h l = record { after = size; returns = refl; room = h }
poll-Polls size p s (e ∷ es) a i h l =
    let t : leb (length (e ∷ es)) size ≡ true = ground arith in
    let k = check_known-Agrees p s (e ∷ es) a i in
    elim (Bool-cases (length (e ∷ es) == size)) [
      | inl q ↦ record { after = size * 2; returns = rw (t, k, q) refl; room = ground arith }
      | inr q ↦ record { after = size; returns = rw (t, k, q) refl; room = ground arith }
    ]

-- The calls return, `epoll_ctl` has taken all its own, and `poll` is as `Polls` says.
pub record FollowsAndPolls (size : ℕ) (wait : (ℕ → Bool) → List (ℕ × Revents)) (s : ℕ → Bool)
    (o : Outcome (Poller × List Control)) : Type 0 where
  pub after : Poller
  pub calls : List Control
  pub returns : o ≡ ok (after, calls)
  pub set : ℕ → Bool
  pub taken : controls calls s ≡ some set
  pub agrees : Agrees after set
  pub polls : Polls size after (wait set)

-- From a poller that agrees with the set of epoll, any sequence of updateChannel and removeChannel
-- in which a channel that was disabled is not updated before it is removed, and one that is
-- removed is known and waits for nothing, fails no assertion and makes only calls that epoll_ctl
-- takes, and the poller agrees with the set again. When then epoll_wait reports events of
-- descriptors in the set, and not more than there is room for, poll passes its assertions and
-- gives all of them, in order, to their channels, and afterwards has room for more events.
pub run-FollowsAndPolls :
    (size : ℕ) (wait : (ℕ → Bool) → List (ℕ × Revents)) (cs : List Call) (p : Poller) (s : ℕ → Bool)
    → 0 < size
    → WaitsOn size wait
    → Agrees p s
    → AreAllowed cs p
    → FollowsAndPolls size wait s (run cs p)
run-FollowsAndPolls size wait cs p s h w a k =
    let ((q, ds), r) = run-returns cs p s a k in
    let (t, e, b) = subst (Follows s) r (run-Follows cs p s a) in
    record {
      after = q;
      calls = ds;
      returns = r;
      set = t;
      taken = e;
      agrees = b;
      polls = poll-Polls size q t (wait t) b (w.in_set t) h (w.fits t);
    }
