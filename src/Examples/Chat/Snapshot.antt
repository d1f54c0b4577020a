-- ===== src/Examples/Chat/Snapshot.antt =====
-- ChatServerThreadedEfficient.cc: sharing the list is as good as giving each reader its own.
use arale.Prelude.{
  ℕ, zero, suc, ◌≡◌, ◌<◌, refl, ap, ◌∙◌, Bool, true, false, List, [], ◌∷◌, ◌++◌, ok, ◌==◌, drop,
  Bool-cases, inl, inr, arith,
}
use arale.Net.Http.Text.{Bytes}
use arale.Net.Epoll.{at}
use arale.Examples.Chat.{on_connection, Send}
use arale.Examples.Chat.Shared.{
  Reader, Server, new_server, is_read, change, begin_reading, round_on, round, put_back, go_on,
  Turn, changes, begins, goes_on, turn, turns,
}

-- A server whose readers have lists of their own, of the connections that are still to be sent to.
pub record Copies : Type 0 where
  pub list : List ℕ
  pub reading : List (List ℕ × Bytes)

abbrev pub send_next : ℕ → List (List ℕ × Bytes) → List (List ℕ × Bytes) × List Send
send_next i [] = ([], [])
send_next zero (([], msg) ∷ rs) = (rs, [])
send_next zero ((c ∷ cs, msg) ∷ rs) = ((cs, msg) ∷ rs, record { to = c; msg = msg } ∷ [])
send_next (suc i) (r ∷ rs) = let later = send_next i rs in (r ∷ later.0, later.1)

abbrev pub copies_turn : Turn → Copies → Copies × List Send
copies_turn (changes up c) s = (record s { list = on_connection up c s.list }, [])
copies_turn (begins msg) s = (record s { reading = s.reading ++ (s.list, msg) ∷ [] }, [])
copies_turn (goes_on i) s =
    let went = send_next i s.reading in (record s { reading = went.0 }, went.1)

abbrev pub copies_turns : List Turn → Copies → Copies × List Send
copies_turns [] s = (s, [])
copies_turns (t ∷ ts) s =
    let first = copies_turn t s in let rest = copies_turns ts first.0 in (rest.0, first.1 ++ rest.1)

-- What each reader has left of its list.
abbrev pub left : (ℕ → List ℕ) → List Reader → List (List ℕ × Bytes)
left cell [] = []
left cell (r ∷ rs) = (drop r.position (cell r.address), r.msg) ∷ left cell rs

abbrev pub copies : Server → Copies
copies s = record { list = s.cell s.connections; reading = left s.cell s.readers }

-- All addresses are below `n`.
abbrev AreBelow : ℕ → List Reader → Type 0
AreBelow n [] = Unit
AreBelow n (r ∷ rs) = (r.address < n) × AreBelow n rs

abbrev Fits : Server → Type 0
Fits s = (s.connections < s.next) × AreBelow s.next s.readers

AreBelow-suc : (n : ℕ) (rs : List Reader) → AreBelow n rs → AreBelow (suc n) rs
AreBelow-suc n [] h = tt
AreBelow-suc n (r ∷ rs) h = (omega arith, AreBelow-suc n rs h.1)

AreBelow-append :
    (n : ℕ) (rs : List Reader) (r : Reader)
    → r.address < n
    → AreBelow n rs
    → AreBelow n (rs ++ r ∷ [])
AreBelow-append n [] r l h = (l, tt)
AreBelow-append n (x ∷ rs) r l h = (h.0, AreBelow-append n rs r l h.1)

is_read-next : (n : ℕ) (rs : List Reader) → AreBelow n rs → is_read n rs ≡ false
is_read-next n [] h = refl
is_read-next n (r ∷ rs) h =
    let e : (r.address == n) ≡ false = ground arith in rw e (is_read-next n rs h.1)

-- A list that no reader has may change.
left-at :
    (a : ℕ) (l : List ℕ) (cell : ℕ → List ℕ) (rs : List Reader)
    → is_read a rs ≡ false
    → left (at a l cell) rs ≡ left cell rs
left-at a l cell [] h = refl
left-at a l cell (r ∷ rs) h =
    let e : (r.address == a) ≡ false = ground arith in
    let i = left-at a l cell rs (ground arith) in rw (e, i) refl

left-append :
    (cell : ℕ → List ℕ) (rs : List Reader) (r : Reader)
    → left cell (rs ++ r ∷ []) ≡ left cell rs ++ left cell (r ∷ [])
left-append cell [] r = refl
left-append cell (x ∷ rs) r = rw (left-append cell rs r) refl

drop-suc : (n c : ℕ) (xs cs : List ℕ) → drop n xs ≡ c ∷ cs → drop (suc n) xs ≡ cs
drop-suc zero c [] cs h = cc
drop-suc (suc n) c [] cs h = cc
drop-suc zero c (x ∷ xs) cs h = cc
drop-suc (suc n) c (x ∷ xs) cs h = drop-suc n c xs cs h

-- The reader at an index goes on alike.
abbrev GoesOn : (ℕ → List ℕ) → ℕ → List Reader → Type 0
GoesOn cell i rs =
    (left cell (go_on cell i rs).0 ≡ (send_next i (left cell rs)).0)
    × ((go_on cell i rs).1 ≡ (send_next i (left cell rs)).1)

go_on-first :
    (cell : ℕ → List ℕ) (r : Reader) (rs : List Reader) (d : List ℕ)
    → drop r.position (cell r.address) ≡ d
    → GoesOn cell zero (r ∷ rs)
unfolding go_on
go_on-first cell r rs [] e = rw e (refl, refl)
go_on-first cell r rs (c ∷ cs) e =
    let f : drop (suc r.position) (cell r.address) ≡ cs =
      drop-suc r.position c (cell r.address) cs e in
    rw e (rw f refl, refl)

go_on-GoesOn : (cell : ℕ → List ℕ) (i : ℕ) (rs : List Reader) → GoesOn cell i rs
unfolding go_on
go_on-GoesOn cell i [] = (refl, refl)
go_on-GoesOn cell zero (r ∷ rs) = go_on-first cell r rs (drop r.position (cell r.address)) refl
go_on-GoesOn cell (suc i) (r ∷ rs) = let h = go_on-GoesOn cell i rs in (rw h.0 refl, h.1)

put_back-AreBelow :
    (n : ℕ) (cell : ℕ → List ℕ) (r : Reader) (rs : List Reader)
    → AreBelow n (r ∷ rs)
    → AreBelow n (put_back (round cell r).0 rs)
put_back-AreBelow n cell r rs h = by_rest (drop r.position (cell r.address))
  where
    by_rest : (d : List ℕ) → AreBelow n (put_back (round_on r d).0 rs)
    by_rest [] = h.1
    by_rest (c ∷ cs) = h

go_on-AreBelow :
    (n : ℕ) (cell : ℕ → List ℕ) (i : ℕ) (rs : List Reader)
    → AreBelow n rs
    → AreBelow n (go_on cell i rs).0
unfolding go_on
go_on-AreBelow n cell i [] h = tt
go_on-AreBelow n cell zero (r ∷ rs) h = put_back-AreBelow n cell r rs h
go_on-AreBelow n cell (suc i) (r ∷ rs) h = (h.0, go_on-AreBelow n cell i rs h.1)

-- A turn does what it does to a server whose readers have copies.
abbrev Turned : Turn → Server → Type 0
Turned t s =
    (u : Server) × (turn t s ≡ ok (u, (copies_turn t (copies s)).1))
    × (copies u ≡ (copies_turn t (copies s)).0)
    × Fits u

change-Turned : (up : Bool) (c : ℕ) (s : Server) → Fits s → Turned (changes up c) s
unfolding turn change
change-Turned up c s (b, f) =
    let new = on_connection up c (s.cell s.connections) in
    elim (Bool-cases (is_read s.connections s.readers)) [
      | inr e ↦
          let q : (s.connections == s.connections) ≡ true = ground arith in
          (
            record s { cell = at s.connections new s.cell },
            rw (e, e) refl,
            rw (q, left-at s.connections new s.cell s.readers e) refl,
            (b, f),
          )
      | inl e ↦
          let q : (s.next == s.next) ≡ true = ground arith in
          let n = is_read-next s.next s.readers f in
          let first = at s.next (s.cell s.connections) s.cell in
          let same : left (at s.next new first) s.readers ≡ left s.cell s.readers =
            left-at s.next new first s.readers n
            ∙ left-at s.next (s.cell s.connections) s.cell s.readers n in
          (
            record s { next = suc s.next; cell = at s.next new first; connections = s.next },
            rw (e, n, q) refl,
            rw (q, same) refl,
            (omega arith, AreBelow-suc s.next s.readers f),
          )
    ]

turn-Turned : (t : Turn) (s : Server) → Fits s → Turned t s
unfolding turn
turn-Turned (changes up c) s f = change-Turned up c s f
turn-Turned (begins msg) s (b, f) =
    let r : Reader = record { address = s.connections; position = 0; msg = msg } in
    (
      begin_reading msg s,
      refl,
      rw (left-append s.cell s.readers r) refl,
      (b, AreBelow-append s.next s.readers r b f),
    )
turn-Turned (goes_on i) s (b, f) =
    let h = go_on-GoesOn s.cell i s.readers in
    (
      record s { readers = (go_on s.cell i s.readers).0 },
      rw h.1 refl,
      rw h.0 refl,
      (b, go_on-AreBelow s.next s.cell i s.readers f),
    )

turns-copies :
    (ts : List Turn) (s : Server)
    → Fits s
    → (u : Server) × (turns ts s ≡ ok (u, (copies_turns ts (copies s)).1))
      × (copies u ≡ (copies_turns ts (copies s)).0)
unfolding turns
turns-copies [] s f = (s, refl, refl)
turns-copies (t ∷ ts) s f =
    let h = turn-Turned t s f in
    let i = turns-copies ts h.0 h.3 in
    (i.0, rw h.1 (rw i.1 (rw h.2 refl)), i.2 ∙ ap (λ c. (copies_turns ts c).0) h.2)

-- However the threads take turns to connect, disconnect and pass on messages, the assertion that
-- the list is not shared holds before each change, each message goes to the connections that were
-- in the list when its thread had the lock, in order, as it would if each thread had a copy of its
-- own, and the list ends as what the changes alone make of an empty set.
pub new_server-copies :
    (ts : List Turn)
    → (u : Server) × (turns ts new_server
        ≡ ok (u, (copies_turns ts (record { list = []; reading = [] })).1))
      × (copies u ≡ (copies_turns ts (record { list = []; reading = [] })).0)
new_server-copies ts = turns-copies ts new_server (omega arith, tt)
