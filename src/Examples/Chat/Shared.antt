-- ===== src/Examples/Chat/Shared.antt =====
-- arale/examples/asio/chat/ChatServerThreadedEfficient.cc: the list of connections is shared, and
-- copied before a change while another thread reads it.
use arale.Prelude.{
  ℕ, zero, suc, Bool, false, not, ◌||◌, List, [], ◌∷◌, ◌++◌, Option, none, some, Outcome, ok, ◌>>=◌,
  ◌>>◌, assert, ◌==◌, if◌then◌else◌, drop,
}
use arale.Net.Http.Text.{Bytes}
use arale.Net.Epoll.{at}
use arale.Examples.Chat.{on_connection, Send}

-- A thread in the loop of `onMessage`: the address of the list that it has a pointer to, and how
-- many of the list's elements it has sent to.
pub record Reader : Type 0 where
  pub address : ℕ
  pub position : ℕ
  pub msg : Bytes

-- `cell` has the lists by their addresses, which are below `next`. `connections` is the address in
-- `connections_`. A reader is counted as an owner of its list from the lock to the end of its loop.
pub record Server : Type 0 where
  pub next : ℕ
  pub cell : ℕ → List ℕ
  pub connections : ℕ
  pub readers : List Reader

abbrev pub new_server : Server
new_server = record { next = 1; cell = λ a. []; connections = 0; readers = [] }

abbrev pub is_read : ℕ → List Reader → Bool
is_read a [] = false
is_read a (r ∷ rs) = (r.address == a) || is_read a rs

-- `connections_.unique()`.
abbrev pub unique : Server → Bool
unique s = not (is_read s.connections s.readers)

-- `connections_.reset(new ConnectionList(*connections_))`.
abbrev pub reset : Server → Server
reset s = record s {
  next = suc s.next;
  cell = at s.next (s.cell s.connections) s.cell;
  connections = s.next;
}

-- `onConnection`, all under the lock.
unfoldable pub change : Bool → ℕ → Server → Outcome Server
change up c s =
    let t = if unique s then s else reset s in
    assert (unique t)
    >> ok (record t { cell = at t.connections (on_connection up c (t.cell t.connections)) t.cell })

-- `onMessage` up to its loop.
abbrev pub begin_reading : Bytes → Server → Server
begin_reading msg s = record s {
  readers = s.readers ++ record { address = s.connections; position = 0; msg = msg } ∷ [];
}

-- A round of the loop of the reader at index `i`, or its end.
abbrev pub round_on : Reader → List ℕ → Option Reader × List Send
round_on r [] = (none, [])
round_on r (c ∷ cs) =
    (some (record r { position = suc r.position }), record { to = c; msg = r.msg } ∷ [])

abbrev pub round : (ℕ → List ℕ) → Reader → Option Reader × List Send
round cell r = round_on r (drop r.position (cell r.address))

abbrev pub put_back : Option Reader → List Reader → List Reader
put_back none rs = rs
put_back (some r) rs = r ∷ rs

unfoldable pub go_on : (ℕ → List ℕ) → ℕ → List Reader → List Reader × List Send
go_on cell i [] = ([], [])
go_on cell zero (r ∷ rs) = let done = round cell r in (put_back done.0 rs, done.1)
go_on cell (suc i) (r ∷ rs) = let later = go_on cell i rs in (r ∷ later.0, later.1)

-- What the threads do, in the order in which they get the lock.
pub data Turn : Type 0 where
  changes : Bool → ℕ → Turn
  begins : Bytes → Turn
  goes_on : ℕ → Turn

unfoldable pub turn : Turn → Server → Outcome (Server × List Send)
unfolding change go_on
turn (changes up c) s = do t ← change up c s; ok (t, [])
turn (begins msg) s = ok (begin_reading msg s, [])
turn (goes_on i) s =
    let went = go_on s.cell i s.readers in ok (record s { readers = went.0 }, went.1)

unfoldable pub turns : List Turn → Server → Outcome (Server × List Send)
unfolding turn
turns [] s = ok (s, [])
turns (t ∷ ts) s = do (u, es) ← turn t s; (v, fs) ← turns ts u; ok (v, es ++ fs)
