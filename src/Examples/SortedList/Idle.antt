-- ===== src/Examples/SortedList/Idle.antt =====
-- SortedList.cc: the timer finds every idle connection, though it stops at the first that is not.
use arale.Prelude.{
  ℕ, ◌+◌, ◌*◌, ◌≤◌, ◌≡◌, refl, sym, ap, ◌∙◌, Bool, true, false, List, [], ◌∷◌, ◌++◌, Outcome, ok,
  ◌>>=◌, ◌==◌, ltb, if◌then◌else◌, Bool-cases, inl, inr, arith, Ensures, Ensures->>=,
  Ensures-assert,
}
use arale.Examples.SortedList.{
  Node, Server, has_context, erase, on_connection, on_message, expired, visit, on_timer,
}

-- No time is after `t`, and each node's connection has a context.
abbrev pub Until : List ℕ → ℕ → List Node → Type 0
Until cs t [] = Unit
Until cs t (n ∷ ns) = ((n.last_receive_time ≤ t) × (has_context n.conn cs ≡ true)) × Until cs t ns

abbrev pub From : ℕ → List Node → Type 0
From t [] = Unit
From t (n ∷ ns) = (t ≤ n.last_receive_time) × From t ns

abbrev pub Sorted : List Node → Type 0
Sorted [] = Unit
Sorted (n ∷ ns) = From n.last_receive_time ns × Sorted ns

-- The list is in order, no time is later than the clock's, and there are contexts.
abbrev pub IsOrdered : List ℕ → ℕ → List Node → Type 0
IsOrdered cs t ns = Sorted ns × Until cs t ns

-- What happens to a connection, or a second that passes.
pub data Event : Type 0 where
  up down message : ℕ → Event
  timer : (ℕ → Bool) → (ℕ → Bool) → Event

unfoldable pub handle : ℕ → ℕ → Event → Server → Outcome Server
unfolding on_connection on_message on_timer
handle idle now (up c) s = on_connection true now c s
handle idle now (down c) s = on_connection false now c s
handle idle now (message c) s = on_message now c s
handle idle now (timer alive connected) s = do t ← on_timer idle now alive connected s; ok t.0

-- Events, with the time that passes before each, and the time after them.
unfoldable pub handle_all : ℕ → ℕ → List (ℕ × Event) → Server → Outcome (ℕ × Server)
unfolding handle
handle_all idle now [] s = ok (now, s)
handle_all idle now ((d, e) ∷ es) s = do
  t ← handle idle (now + d) e s
  handle_all idle (now + d) es t

-- The connections that are idle, of all of them.
abbrev pub idle_connections : ℕ → ℕ → (ℕ → Bool) → (ℕ → Bool) → List Node → List ℕ
idle_connections idle now alive connected [] = []
idle_connections idle now alive connected (n ∷ ns) =
    let rest = idle_connections idle now alive connected ns in
    if alive n.conn
    then if expired idle now n then if connected n.conn then n.conn ∷ rest else rest else rest
    else rest

pub Until-mono : (cs : List ℕ) (t u : ℕ) (ns : List Node) → t ≤ u → Until cs t ns → Until cs u ns
Until-mono cs t u [] h b = tt
Until-mono cs t u (n ∷ ns) h b = ((omega arith, b.0.1), Until-mono cs t u ns h b.1)

abbrev pub present : ℕ → List Node → Bool
present d [] = false
present d (n ∷ ns) = let rest = present d ns in if n.conn == d then true else rest

-- One more connection has a context.
Until-more : (c : ℕ) (cs : List ℕ) (t : ℕ) (ns : List Node) → Until cs t ns → Until (c ∷ cs) t ns
Until-more c cs t [] b = tt
Until-more c cs t (n ∷ ns) b = ((b.0.0, more (c == n.conn) b.0.1), Until-more c cs t ns b.1)
  where
    more : (x : Bool) {y : Bool} → y ≡ true → (if x then true else y) ≡ true
    more true h = refl
    more false h = h

From-append :
    (t : ℕ) (ns : List Node) (n : Node)
    → From t ns
    → t ≤ n.last_receive_time
    → From t (ns ++ n ∷ [])
From-append t [] n b h = (h, tt)
From-append t (m ∷ ns) n b h = (b.0, From-append t ns n b.1 h)

append-IsOrdered :
    (cs : List ℕ) (ns : List Node) (c t : ℕ)
    → has_context c cs ≡ true
    → IsOrdered cs t ns
    → IsOrdered cs t (ns ++ record { conn = c; last_receive_time = t } ∷ [])
append-IsOrdered cs [] c t h o = ((tt, tt), ((omega arith, h), tt))
append-IsOrdered cs (n ∷ ns) c t h ((f, s), (l, u)) =
    let i = append-IsOrdered cs ns c t h (s, u) in
    ((From-append n.last_receive_time ns _ f l.0, i.0), (l, i.1))

From-mono : (t u : ℕ) (ns : List Node) → t ≤ u → From u ns → From t ns
From-mono t u [] h b = tt
From-mono t u (n ∷ ns) h b = (omega arith, From-mono t u ns h b.1)

pub From-zero : (ns : List Node) → From 0 ns
From-zero [] = tt
From-zero (n ∷ ns) = (omega arith, From-zero ns)

-- In order, and from a time on.
abbrev pub IsOrderedFrom : List ℕ → ℕ → ℕ → List Node → Type 0
IsOrderedFrom cs b t ns = From b ns × IsOrdered cs t ns

erase-IsOrderedFrom :
    (cs : List ℕ) (c t b : ℕ) (ns : List Node)
    → IsOrderedFrom cs b t ns
    → Ensures (IsOrderedFrom cs b t) (erase c ns)
unfolding erase
erase-IsOrderedFrom cs c t b [] o = tt
erase-IsOrderedFrom cs c t b (n ∷ ns) ((g, f'), ((f, s), (l, u))) =
    elim (Bool-cases (n.conn == c)) [
      | inl e ↦ rw e (f', (s, u))
      | inr e ↦ rw e (
          Ensures->>= (IsOrderedFrom cs n.last_receive_time t) (IsOrderedFrom cs b t) (erase c ns) _
            (erase-IsOrderedFrom cs c t n.last_receive_time ns (f, (s, u)))
            (λ ms o. ((g, From-mono b n.last_receive_time ms g o.0), ((o.0, o.1.0), (l, o.1.1)))))
    ]

module _ (idle now : ℕ) (cs : List ℕ) (alive connected : ℕ → Bool) where
  none_idle :
      (t : ℕ) (ns : List Node)
      → now ≤ t + idle * 1000000
      → From t ns
      → idle_connections idle now alive connected ns ≡ []
  none_idle t [] h f = refl
  none_idle t (n ∷ ns) h f =
      let e : expired idle now n ≡ false = ground arith in
      let i = none_idle t ns h f.1 in
      elim (Bool-cases (alive n.conn)) [ inl a ↦ rw (a, e) i | inr a ↦ rw a i ]

  -- The nodes that are left are in order, and the idle connections are those that are shut.
  abbrev pub Visited : ℕ → List Node → Type 0
  Visited b ns =
      (ms : List Node) × (visit idle now cs alive connected ns
        ≡ ok (ms, idle_connections idle now alive connected ns))
      × IsOrderedFrom cs b now ms
      × ((d : ℕ) → alive d ≡ true → present d ns ≡ true → present d ms ≡ true)

  pub visit-Visited : (b : ℕ) (ns : List Node) → IsOrderedFrom cs b now ns → Visited b ns
  unfolding visit
  visit-Visited b [] o = ([], refl, o, λ d a h. h)
  visit-Visited b (n ∷ ns) ((g, f'), ((f, s), (l, u))) =
      let i = visit-Visited n.last_receive_time ns (f, (s, u)) in
      let kept = From-mono b n.last_receive_time _ g i.2.0 in
      let jump : ltb now n.last_receive_time ≡ false = ground arith in
      elim (Bool-cases (alive n.conn)) [
        | inr a ↦
            (i.0, rw (a, i.1) refl, (kept, i.2.1), λ d x h. i.3 d x (skipped d (no_other d a x) h))
        | inl a ↦ elim (Bool-cases (expired idle now n)) [
          | inl e ↦ (
            n ∷ i.0,
            rw (a, l.1, e, i.1) refl,
            ((g, kept), ((i.2.0, i.2.1.0), (l, i.2.1.1))),
            λ d x h. first d i.0 (i.3 d x) h,
          )
          | inr e ↦
              let none = none_idle n.last_receive_time ns (ground arith) f in
              (n ∷ ns, rw (a, l.1, e, jump, none) refl, ((g, f'), ((f, s), (l, u))), λ d x h. h)
        ]
      ]
    where
      impossible : ¬ (false ≡ true)
      impossible e = cc

      no_other : (d : ℕ) → alive n.conn ≡ false → alive d ≡ true → (n.conn == d) ≡ false
      no_other d a x = elim (Bool-cases (n.conn == d)) [
        | inl e ↦ let p : n.conn ≡ d = ground arith in absurd (impossible (sym a ∙ ap alive p ∙ x))
        | inr e ↦ e
      ]

      skipped : (d : ℕ) → (n.conn == d) ≡ false → present d (n ∷ ns) ≡ true → present d ns ≡ true
      skipped d e h = ground arith

      first :
          (d : ℕ) (ms : List Node)
          → (present d ns ≡ true → present d ms ≡ true)
          → present d (n ∷ ns) ≡ true
          → present d (n ∷ ms) ≡ true
      first d ms f h = elim (Bool-cases (n.conn == d)) [
        | inl e ↦ rw e refl
        | inr e ↦ rw e (f (skipped d e h))
      ]

-- The server's list is in order at a time.
abbrev pub Ordered : ℕ → Server → Type 0
Ordered t s = IsOrdered s.contexts t s.connections

module _ (idle now : ℕ) (s : Server) (o : Ordered now s) where
  erased : (c : ℕ) → Ensures (IsOrderedFrom s.contexts 0 now) (erase c s.connections)
  erased c = erase-IsOrderedFrom s.contexts c now 0 s.connections (From-zero s.connections, o)

  pub handle-Ordered : (e : Event) → Ensures (Ordered now) (handle idle now e s)
  unfolding handle on_connection on_message on_timer
  handle-Ordered (up c) =
      append-IsOrdered (c ∷ s.contexts) s.connections c now first
        (o.0, Until-more c s.contexts now s.connections o.1)
    where
      first : has_context c (c ∷ s.contexts) ≡ true
      first = let e : (c == c) ≡ true = ground arith in rw e refl
  handle-Ordered (down c) = Ensures-assert (Ordered now) (has_context c s.contexts) _ (λ h.
      Ensures->>= (IsOrderedFrom s.contexts 0 now) (Ordered now) (erase c s.connections) _
        (erased c) (λ ns p. p.1))
  handle-Ordered (message c) = Ensures-assert (Ordered now) (has_context c s.contexts) _ (λ h.
      Ensures->>= (IsOrderedFrom s.contexts 0 now) (Ordered now) (erase c s.connections) _
        (erased c) (λ ns p. append-IsOrdered s.contexts ns c now h p.1))
  handle-Ordered (timer alive connected) =
      let v =
        visit-Visited idle now s.contexts alive connected 0 s.connections
          (From-zero s.connections, o) in
      rw v.1 v.2.1

-- The timer shuts the idle connections.
abbrev pub ShutsIdle : ℕ → ℕ × Server → Type 0
ShutsIdle idle (now, s) =
    (alive connected : ℕ → Bool)
    → (t : Server) × (on_timer idle now alive connected s
        ≡ ok (t, idle_connections idle now alive connected s.connections))

pub Ordered-ShutsIdle : (idle now : ℕ) (s : Server) → Ordered now s → ShutsIdle idle (now, s)
unfolding on_timer
Ordered-ShutsIdle idle now s o alive connected =
    let v =
      visit-Visited idle now s.contexts alive connected 0 s.connections
        (From-zero s.connections, o) in
    (record s { connections = v.0 }, rw v.1 refl)
