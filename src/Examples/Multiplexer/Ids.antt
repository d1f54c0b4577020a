-- ===== src/Examples/Multiplexer/Ids.antt =====
-- Multiplexer.cc: who has which id, after any callbacks.
use arale.Prelude.{
  ℕ, ◌≡◌, ◌≤◌, ◌<◌, refl, ap, subst, true, false, List, [], ◌∷◌, none, some, Outcome, ok, arith,
  length, Bool-cases, Option-cases, List-cases, inl, inr, Ensures,
}
use arale.Net.Buffer.{Buffer, retrieve_all}
use arale.Net.Buffer.Layout.{IsValid}
use arale.Net.Http.Text.{Bytes}
use arale.Examples.Multiplexer.{
  max_conns, header_len, Server, Effect, shuts, is_empty, find_client, client_up, client_down,
  send_backend_buffer, on_client_message, ids_from, backend_up, backend_down,
}
use arale.Examples.Multiplexer.Backend.{finished, on_backend_message}
use arale.Examples.Multiplexer.Send.{sends, send_backend_buffer-Packed}
use arale.Examples.Multiplexer.Turns.{
  Event, opens, closes, writes, backend_opens, backend_closes, backend_writes, Done, done, leaves,
  of_session, step, run, Along, followed_by,
}
use arale.Examples.Multiplexer.Table.{count, ids_of}
use arale.Examples.Multiplexer.Owners.{
  IsAccounted, assigned, assigned-IsAccounted, client_up-assigned, released, released-IsAccounted,
  client_down-returned, client_down-kept,
}

-- Texts of addresses have at most 200 bytes. A connection comes up without a context. When it goes
-- down, the id in its context is below 10 and, with a backend, still its own. One with an id
-- writes when there is a backend, in a buffer with room in front. A backend comes up when there is
-- none, and the loop over its packets ends.
abbrev pub IsAllowed : Event → Server → Type 0
IsAllowed (opens conn peer) s = (s.context conn ≡ none) × (length peer ≤ 200)
IsAllowed (closes conn peer) s =
    (length peer ≤ 200)
    × ((id : ℕ)
        → s.context conn ≡ some id
        → (id < max_conns) × (s.backend ≡ true → find_client id s.clients ≡ some conn))
IsAllowed (writes conn buf) s =
    (id : ℕ)
    → s.context conn ≡ some id
    → (s.backend ≡ true) × IsValid buf × (header_len ≤ buf.read_index)
IsAllowed backend_opens s = s.backend ≡ false
IsAllowed backend_closes s = Unit
IsAllowed (backend_writes fuel buf) s =
    (es : List Effect) × (rest : Buffer) × (on_backend_message fuel buf s ≡ finished es rest)

-- An outcome that is a value, with a state as above.
pub record Accounts (o : Outcome Done) : Type 0 where
  pub after : Done
  pub returns : o ≡ ok after
  pub accounted : IsAccounted after.server

opens-Accounts :
    (conn : ℕ) (peer : Bytes) (s : Server)
    → IsAccounted s
    → IsAllowed (opens conn peer) s
    → Accounts (step (opens conn peer) s)
unfolding step client_up
opens-Accounts conn peer s a (n, h) = elim (List-cases s.avail_ids) [
  | inl e ↦
      let q : client_up conn peer s ≡ ok (s, shuts conn ∷ []) = simp (client_up, e) refl in
      record { after = done s (shuts conn ∷ []); returns = rw (step, q) refl; accounted = a }
  | inr (id, ids, e) ↦ elim (Bool-cases s.backend) [
    | inl b ↦
        let (es, q) = client_up-assigned conn peer id ids s e h in
        record {
          after = done (assigned conn id ids s) es;
          returns = rw (step, q) refl;
          accounted = assigned-IsAccounted conn id ids s a n e b;
        }
    | inr b ↦ let f = (a.none_left b).0 in absurd cc
  ]
]

closes-Accounts :
    (conn : ℕ) (peer : Bytes) (s : Server)
    → IsAccounted s
    → IsAllowed (closes conn peer) s
    → Accounts (step (closes conn peer) s)
unfolding step client_down
closes-Accounts conn peer s a (h, k) = elim (Option-cases (s.context conn)) [
  | inl e ↦
      let q : client_down conn peer s ≡ ok (s, []) = rw (client_down, e) refl in
      record { after = done s []; returns = rw (step, q) refl; accounted = a }
  | inr (id, e) ↦
      let (l, own) = k id e in
      let w : (0 < id) × (id < max_conns) = ((a.is_id conn id e).0, l) in
      elim (Bool-cases s.backend) [
        | inl b ↦
            let (es, q) = client_down-returned conn peer id s e w h b in
            record {
              after = done (released id s) es;
              returns = rw (step, q) refl;
              accounted = released-IsAccounted conn id s a (own b) b;
            }
        | inr b ↦
            let (es, q) = client_down-kept conn peer id s e w h a b in
            record { after = done s es; returns = rw (step, q) refl; accounted = a }
      ]
]

writes-Accounts :
    (conn : ℕ) (buf : Buffer) (s : Server)
    → IsAccounted s
    → IsAllowed (writes conn buf) s
    → Accounts (step (writes conn buf) s)
unfolding step on_client_message
writes-Accounts conn buf s a h = elim (Option-cases (s.context conn)) [
  | inl e ↦
      let q : on_client_message conn buf s ≡ ok (retrieve_all buf, []) =
        rw (on_client_message, e) refl in
      record { after = leaves s [] (retrieve_all buf); returns = rw (step, q) refl; accounted = a }
  | inr (id, e) ↦
      let (b, v, r) = h id e in
      let p = send_backend_buffer-Packed id buf v r in
      let q : on_client_message conn buf s ≡ send_backend_buffer true id buf =
        rw (on_client_message, e, b) refl in
      record {
        after = leaves s (sends id p.pieces) p.rest;
        returns = rw (step, q) (rw (p.returns) refl);
        accounted = a;
      }
]

backend_opens-Accounts :
    (s : Server) → IsAccounted s → s.backend ≡ false → Accounts (step backend_opens s)
unfolding step backend_up
backend_opens-Accounts s a b =
    let (f, g) = a.none_left b in
    let p : is_empty s.avail_ids ≡ true = ap is_empty f in
    record {
      after = done (record s { backend = true; avail_ids = ids_from 1 max_conns }) [];
      returns = simp p refl;
      accounted = record {
        shared = λ e i. let q = ap (λ l. count i (ids_of l)) g in omega arith;
        none_left = λ e. absurd cc;
        known = a.known;
        is_id = a.is_id;
      };
    }

backend_closes-Accounts : (s : Server) → IsAccounted s → Accounts (step backend_closes s)
unfolding step backend_down find_client
backend_closes-Accounts s a = record {
  after = done (backend_down s).0 (backend_down s).1;
  returns = refl;
  accounted = record {
    shared = λ e. let f : false ≡ true = e in absurd cc;
    none_left = λ e. (refl, refl);
    known = λ i conn e. let f : find_client i [] ≡ some conn = e in absurd cc;
    is_id = a.is_id;
  };
}

step-Accounts : (e : Event) (s : Server) → IsAccounted s → IsAllowed e s → Accounts (step e s)
unfolding step
step-Accounts (opens conn peer) s a h = opens-Accounts conn peer s a h
step-Accounts (closes conn peer) s a h = closes-Accounts conn peer s a h
step-Accounts (writes conn buf) s a h = writes-Accounts conn buf s a h
step-Accounts backend_opens s a h = backend_opens-Accounts s a h
step-Accounts backend_closes s a h = backend_closes-Accounts s a
step-Accounts (backend_writes fuel buf) s a (es, rest, q) = record {
  after = leaves s es rest;
  returns = ap (of_session s) q;
  accounted = a;
}

-- From a state in which, with a backend, each id from 1 to 10 is free or one client's, only once,
-- and without one there are neither free ids nor clients, and in which the clients have their ids
-- as their contexts, and these are from 1 to 10, any callbacks return and lead to such a state;
-- when the texts of addresses have at most 200 bytes, each connection that comes up has no
-- context, one that goes down with an id has one below 10, which with a backend is still its own,
-- one with an id writes while there is a backend in a well-formed buffer with three bytes of room
-- in front, the backend comes up only while there is none, and the loop over its packets ends.
pub run-Accounts :
    (es : List Event) (s : Server) → IsAccounted s → Along IsAllowed es s → Accounts (run es s)
unfolding run
run-Accounts [] s a h = record { after = done s []; returns = refl; accounted = a }
run-Accounts (e ∷ es) s a (h, k) =
    let t = step-Accounts e s a h in
    let i =
      run-Accounts es t.after.server t.accounted
        (subst (Ensures (λ d. Along IsAllowed es d.server)) t.returns k) in
    record {
      after = followed_by t.after i.after;
      returns = rw (t.returns) (rw (i.returns) refl);
      accounted = i.accounted;
    }
