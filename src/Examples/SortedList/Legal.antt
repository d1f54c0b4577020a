-- ===== src/Examples/SortedList/Legal.antt =====
-- SortedList.cc: nothing fails where connections come up before they send and go down.
use arale.Prelude.{
  ℕ, ◌+◌, ◌≡◌, refl, sym, ◌∙◌, Bool, true, false, List, [], ◌∷◌, ◌++◌, Outcome, ok, ◌==◌, Ensures,
  subst, if◌then◌else◌, Bool-cases, inl, inr, arith,
}
use arale.Examples.SortedList.{
  Node, Server, new_server, has_context, erase, on_connection, on_message, on_timer,
}
use arale.Examples.SortedList.Idle.{
  Event, up, down, message, timer, handle, handle_all, ShutsIdle, present, Ordered, Until-mono,
  From-zero, handle-Ordered, Ordered-ShutsIdle, visit-Visited,
}

abbrev pub set : ℕ → Bool → (ℕ → Bool) → ℕ → Bool
set c b ups d = if c == d then b else ups d

-- The events that TcpConnection reports: only a connection that is up sends or goes down, and one
-- that is up exists.
abbrev pub Legal : (ℕ → Bool) → List (ℕ × Event) → Type 0
Legal ups [] = Unit
Legal ups ((t, up c) ∷ es) = Legal (set c true ups) es
Legal ups ((t, down c) ∷ es) = (ups c ≡ true) × Legal (set c false ups) es
Legal ups ((t, message c) ∷ es) = (ups c ≡ true) × Legal ups es
Legal ups ((t, timer alive connected) ∷ es) =
    ((d : ℕ) → ups d ≡ true → alive d ≡ true) × Legal ups es

-- The connections that are up have a context and a node.
abbrev pub Known : (ℕ → Bool) → Server → Type 0
Known ups s =
    (d : ℕ) → ups d ≡ true → (has_context d s.contexts ≡ true) × (present d s.connections ≡ true)

present-append :
    (d : ℕ) (ns : List Node) (n : Node) → present d ns ≡ true → present d (ns ++ n ∷ []) ≡ true
present-append d [] n h = cc
present-append d (m ∷ ns) n h = elim (Bool-cases (m.conn == d)) [
  | inl e ↦ rw e refl
  | inr e ↦ rw e (present-append d ns n (ground arith))
]

present-last :
    (d : ℕ) (ns : List Node) (n : Node) → (n.conn == d) ≡ true → present d (ns ++ n ∷ []) ≡ true
present-last d [] n h = rw h refl
present-last d (m ∷ ns) n h = elim (Bool-cases (m.conn == d)) [
  | inl e ↦ rw e refl
  | inr e ↦ rw e (present-last d ns n h)
]

-- The node of `c` is erased, and no other.
abbrev Erased : ℕ → List Node → Type 0
Erased c ns =
    (ms : List Node) × (erase c ns ≡ ok ms)
    × ((d : ℕ) → (c == d) ≡ false → present d ns ≡ true → present d ms ≡ true)

erase-Erased : (c : ℕ) (ns : List Node) → present c ns ≡ true → Erased c ns
unfolding erase
erase-Erased c [] h = cc
erase-Erased c (n ∷ ns) h = elim (Bool-cases (n.conn == c)) [
  | inl e ↦ (
    ns,
    rw e refl,
    λ d q p. let r : (n.conn == d) ≡ false = ground arith in sym (present_other d r) ∙ p,
  )
  | inr e ↦
      let i = erase-Erased c ns (ground arith) in
      (
        n ∷ i.0,
        rw (e, i.1) refl,
        λ d q p. elim (Bool-cases (n.conn == d)) [
          | inl r ↦ rw r refl
          | inr r ↦ rw r (i.2 d q (ground arith))
        ],
      )
]
  where
    present_other : (d : ℕ) → (n.conn == d) ≡ false → present d (n ∷ ns) ≡ present d ns
    present_other d r = rw r refl

-- The event is handled, and what is up afterwards is known.
abbrev Handled : (ℕ → Bool) → Outcome Server → Type 0
Handled ups o = (t : Server) × (o ≡ ok t) × Known ups t

module _ (now c : ℕ) (ups : ℕ → Bool) (s : Server) (k : Known ups s) where
  up-Handled : Handled (set c true ups) (on_connection true now c s)
  unfolding on_connection
  up-Handled = (
    _,
    refl,
    λ d u. elim (Bool-cases (c == d)) [
      | inl e ↦ (rw e refl, present-last d s.connections _ e)
      | inr e ↦
          let v = k d (sym (set_other d e) ∙ u) in (rw e v.0, present-append d s.connections _ v.1)
    ],
  )
    where
      set_other : (d : ℕ) → (c == d) ≡ false → set c true ups d ≡ ups d
      set_other d e = rw e refl

  down-Handled : ups c ≡ true → Handled (set c false ups) (on_connection false now c s)
  unfolding on_connection
  down-Handled h =
      let i = erase-Erased c s.connections (k c h).1 in
      (
        record s { connections = i.0 },
        rw ((k c h).0, i.1) refl,
        λ d u. elim (Bool-cases (c == d)) [
          | inl e ↦ absurd (set_same d e u)
          | inr e ↦ let v = k d (sym (set_other d e) ∙ u) in (v.0, i.2 d e v.1)
        ],
      )
    where
      set_same : (d : ℕ) → (c == d) ≡ true → ¬ (set c false ups d ≡ true)
      set_same d e = rw e (λ u. cc)

      set_other : (d : ℕ) → (c == d) ≡ false → set c false ups d ≡ ups d
      set_other d e = rw e refl

  message-Handled : ups c ≡ true → Handled ups (on_message now c s)
  unfolding on_message
  message-Handled h =
      let i = erase-Erased c s.connections (k c h).1 in
      let n : Node = record { conn = c; last_receive_time = now } in
      (
        record s { connections = i.0 ++ n ∷ [] },
        rw ((k c h).0, i.1) refl,
        λ d u.
            let v = k d u in
            (
              v.0,
              elim (Bool-cases (c == d)) [
                | inl e ↦ present-last d i.0 n e
                | inr e ↦ present-append d i.0 n (i.2 d e v.1)
              ],
            ),
      )

timer-Handled :
    (now idle : ℕ) (alive connected : ℕ → Bool) (ups : ℕ → Bool) (s : Server)
    → Known ups s
    → Ordered now s
    → ((d : ℕ) → ups d ≡ true → alive d ≡ true)
    → Handled ups (handle idle now (timer alive connected) s)
unfolding handle on_timer
timer-Handled now idle alive connected ups s k o a =
    let v =
      visit-Visited idle now s.contexts alive connected 0 s.connections
        (From-zero s.connections, o) in
    (record s { connections = v.0 }, rw v.1 refl, λ d u. let w = k d u in (w.0, v.3 d (a d u) w.1))

returned : {A : Type 0} (P : A → Type 0) {o : Outcome A} (a : A) → o ≡ ok a → Ensures P o → P a
returned P a e h = subst (Ensures P) e h

module _ (idle : ℕ) where
  -- All events are handled, and the list is in order afterwards.
  abbrev HandledAll : ℕ → List (ℕ × Event) → Server → Type 0
  HandledAll now es s = (p : ℕ × Server) × (handle_all idle now es s ≡ ok p) × Ordered p.0 p.1

  -- An event, when the others are handled.
  step :
      (now t : ℕ) (e : Event) (es : List (ℕ × Event)) (vps : ℕ → Bool) (s : Server)
      → Ordered now s
      → Handled vps (handle idle (now + t) e s)
      → ((u : Server) → Known vps u → Ordered (now + t) u → HandledAll (now + t) es u)
      → HandledAll now ((t, e) ∷ es) s
  unfolding handle_all
  step now t e es vps s o h k =
      let later : Ordered (now + t) s =
        (o.0, Until-mono s.contexts now (now + t) s.connections (omega arith) o.1) in
      let r =
        k h.0 h.2
          (returned (Ordered (now + t)) h.0 h.1 (handle-Ordered idle (now + t) s later e)) in
      (r.0, rw h.1 r.1, r.2)

  handle_all-Handled :
      (now : ℕ) (es : List (ℕ × Event)) (ups : ℕ → Bool) (s : Server)
      → Known ups s
      → Ordered now s
      → Legal ups es
      → HandledAll now es s
  unfolding handle_all handle
  handle_all-Handled now [] ups s k o l = ((now, s), refl, o)
  handle_all-Handled now ((t, up c) ∷ es) ups s k o l =
      let vps = set c true ups in
      step now t (up c) es vps s o (up-Handled (now + t) c ups s k)
        (λ u k' o'. handle_all-Handled (now + t) es vps u k' o' l)
  handle_all-Handled now ((t, down c) ∷ es) ups s k o l =
      let vps = set c false ups in
      step now t (down c) es vps s o (down-Handled (now + t) c ups s k l.0)
        (λ u k' o'. handle_all-Handled (now + t) es vps u k' o' l.1)
  handle_all-Handled now ((t, message c) ∷ es) ups s k o l =
      step now t (message c) es ups s o (message-Handled (now + t) c ups s k l.0)
        (λ u k' o'. handle_all-Handled (now + t) es ups u k' o' l.1)
  handle_all-Handled now ((t, timer alive connected) ∷ es) ups s k o l =
      step now t (timer alive connected) es ups s o
        (timer-Handled (now + t) idle alive connected ups s k
          (o.0, Until-mono s.contexts now (now + t) s.connections (omega arith) o.1) l.0)
        (λ u k' o'. handle_all-Handled (now + t) es ups u k' o' l.1)

-- From the start, after any events in which only connections that are up send, go down and have to
-- exist, and between which the clock does not go back, no assertion failed and no invalid iterator
-- was used, and the timer shuts exactly the connections that are idle, in the order of the list,
-- though it looks at the list only up to the first that is not idle.
pub handle_all-ShutsIdle :
    (idle now : ℕ) (es : List (ℕ × Event))
    → Legal (λ c. false) es
    → (p : ℕ × Server) × (handle_all idle now es new_server ≡ ok p) × ShutsIdle idle p
handle_all-ShutsIdle idle now es l =
    let h =
      handle_all-Handled idle now es (λ c. false) new_server (λ d u. absurd (impossible u)) (tt, tt)
        l in
    (h.0, h.1, Ordered-ShutsIdle idle h.0.0 h.0.1 h.2)
  where
    impossible : ¬ (false ≡ true)
    impossible e = cc
