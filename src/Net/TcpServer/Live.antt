-- ===== src/Net/TcpServer/Live.antt =====
-- TcpServer.cc: `connections_` holds the open connections, whatever is accepted and closed.
use arale.Prelude.{
  ltb, ℕ, zero, suc, ◌+◌, ◌^◌, ◌≡◌, ◌≢◌, ◌≤◌, ◌<◌, refl, sym, ap, ◌∙◌, Bool, true, false, List, [],
  ◌∷◌, Option, none, some, Outcome, ok, ◌==◌, leb, length, if◌then◌else◌, arith, Bool-cases,
  Option-cases, inl, inr, ◌⊎◌,
}
use arale.Net.Epoll.{at}
use arale.Net.Http.Text.{same_bytes, same_bytes_refl}
use arale.Net.ThreadPool.{Pool, loop_at, advance, is_empty, get_next_loop}
use arale.Net.TcpServer.Names.{IsShort, ten_to, same_bytes-conn_name}
use arale.Net.TcpServer.{
  Conn, Server, conn_name, put_name, accepted, new_connection, remove_connection_in_loop, Event,
  accepts, closes, Log, step, run,
}

-- The index of the next loop is one of the pool's, if it has loops.
abbrev pub IsTurning : Pool → Type 0
IsTurning p = (is_empty p.loops ≡ true) ⊎ (p.next < length p.loops)

loop_at-bound : (i : ℕ) (ls : List ℕ) → i < length ls → (l : ℕ) × (loop_at i ls ≡ ok l)
loop_at-bound i [] h = absurd (omega arith)
loop_at-bound zero (l ∷ ls) h = (l, refl)
loop_at-bound (suc i) (l ∷ ls) h = loop_at-bound i ls (omega arith)

get_next_loop-IsTurning :
    (p : Pool) → IsTurning p → (l : ℕ) × (q : Pool) × (get_next_loop p ≡ ok (l, q)) × IsTurning q
unfolding get_next_loop
get_next_loop-IsTurning p (inl e) = (p.base_loop, p, rw (get_next_loop, e) refl, inl e)
get_next_loop-IsTurning p (inr h) = elim (Bool-cases (is_empty p.loops)) [
  | inl e ↦ (p.base_loop, p, rw (get_next_loop, e) refl, inl e)
  | inr e ↦
      let (l, f) = loop_at-bound p.next p.loops h in
      (
        l,
        advance p,
        rw (get_next_loop, e) (rw f refl),
        inr (turned (leb (length p.loops) (p.next + 1)) refl),
      )
]
  where
    turned :
        (b : Bool)
        → leb (length p.loops) (p.next + 1) ≡ b
        → (if b then 0 else p.next + 1) < length p.loops
    turned true e = omega arith
    turned false e = ground arith

-- The server's map has the open connections under their names, all of numbers that have been given.
pub record Tracks (s : Server) (log : Log) : Type 0 where
  pub short : IsShort s
  pub turning : IsTurning s.pool
  pub held : (id : ℕ) → id < ten_to 20 → s.connections (conn_name s id) ≡ log id
  pub given : (id : ℕ) → s.next_conn_id ≤ id → log id ≡ none
  pub named : (id : ℕ) (c : Conn) → log id ≡ some c → c.name ≡ conn_name s id

put-held :
    (s : Server) (log : Log) (k : ℕ) (o : Option Conn)
    → Tracks s log
    → k < ten_to 20
    → (id : ℕ) → id < ten_to 20
    → put_name (conn_name s k) o s.connections (conn_name s id) ≡ at k o log id
put-held s log k o t h id l = elim (Bool-cases (id == k)) [
  | inl e ↦
      let q : id ≡ k = ground arith in
      let r : same_bytes (conn_name s id) (conn_name s k) ≡ true =
        ap (λ i. same_bytes (conn_name s i) (conn_name s k)) q ∙ same_bytes_refl (conn_name s k) in
      rw (e, r) refl
  | inr e ↦
      let n : id ≢ k = λ q. absurd (ground arith) in
      rw (e, same_bytes-conn_name s id k t.short l h n) (t.held id l)
]

at-named :
    (s : Server) (log : Log) (k : ℕ) (o : Option Conn)
    → Tracks s log
    → ((c : Conn) → o ≡ some c → c.name ≡ conn_name s k)
    → (id : ℕ) (c : Conn) → at k o log id ≡ some c
    → c.name ≡ conn_name s id
at-named s log k o t f id c e = elim (Bool-cases (id == k)) [
  | inl q ↦
      let r : id ≡ k = ground arith in
      f c (sym (at_true (id == k) q) ∙ e) ∙ ap (conn_name s) (sym r)
  | inr q ↦ t.named id c (sym (at_false (id == k) q) ∙ e)
]
  where
    at_true : (b : Bool) → b ≡ true → (if b then o else log id) ≡ o
    at_true b q = rw q refl

    at_false : (b : Bool) → b ≡ false → (if b then o else log id) ≡ log id
    at_false b q = rw q refl

-- A step that returns, and what it keeps.
pub record Steps (s : Server) (o : Outcome (Server × Log)) : Type 0 where
  pub server : Server
  pub log : Log
  pub returns : o ≡ ok (server, log)
  pub tracks : Tracks server log
  pub next : server.next_conn_id ≤ suc s.next_conn_id

accepts-Steps :
    (fd : ℕ) (s : Server) (log : Log)
    → Tracks s log
    → suc s.next_conn_id < 2 ^ 31
    → Steps s (step (accepts fd) s log)
unfolding step new_connection conn_name
accepts-Steps fd s log t h =
    let (l, q, e, r) = get_next_loop-IsTurning s.pool t.turning in
    let k = s.next_conn_id in
    let m : ltb (suc k) (2 ^ 31) ≡ true = ground arith in
    let c = accepted l fd s in
    record {
      server = record s {
        next_conn_id = suc k;
        pool = q;
        connections = put_name c.name (some c) s.connections;
      };
      log = at k (some c) log;
      returns = rw e (rw m refl);
      tracks = record {
        short = t.short;
        turning = r;
        held = put-held s log k (some c) t (omega arith);
        given = λ id i. let n : (id == k) ≡ false = ground arith in rw n (t.given id (omega arith));
        named = at-named s log k (some c) t (λ d i. let j : c ≡ d = cc in ap (λ x. x.name) (sym j));
      };
      next = omega arith;
    }

closes-Steps :
    (id : ℕ) (s : Server) (log : Log)
    → Tracks s log
    → s.next_conn_id ≤ ten_to 20
    → Steps s (step (closes id) s log)
unfolding step remove_connection_in_loop conn_name
closes-Steps id s log t h = elim (Option-cases (log id)) [
  | inl e ↦ record {
    server = s;
    log = log;
    returns = rw (step, e) refl;
    tracks = t;
    next = omega arith;
  }
  | inr (c, e) ↦
      let l : id < s.next_conn_id = elim (Bool-cases (leb s.next_conn_id id)) [
        | inl q ↦ absurd (cc (sym (t.given id (ground arith)) ∙ e))
        | inr q ↦ ground arith
      ] in
      let n = t.named id c e in
      let k : s.connections c.name ≡ some c = ap s.connections n ∙ (t.held id (omega arith) ∙ e) in
      record {
        server = record s { connections = put_name c.name none s.connections };
        log = at id none log;
        returns = rw (step, e) (rw k refl);
        tracks = record {
          short = t.short;
          turning = t.turning;
          held = λ j i.
              ap (λ x. put_name x none s.connections (conn_name s j)) n
              ∙ put-held s log id none t (omega arith) j i;
          given = λ j i. let m : (j == id) ≡ false = ground arith in rw m (t.given j i);
          named = at-named s log id none t (λ d i. absurd (cc i));
        };
        next = omega arith;
      }
]

-- All events, with what is kept at the end. `nextConnId_` is an `int`.
pub record Runs (o : Outcome (Server × Log)) : Type 0 where
  pub server : Server
  pub log : Log
  pub returns : o ≡ ok (server, log)
  pub tracks : Tracks server log

-- From a server with an address of at most 41 characters, whose map of connections is the log of
-- the open ones by their numbers, and as long as the next number stays below 2^31, any sequence of
-- accepted connections and of closes of open ones returns, with no assertion failing, and leaves
-- such a server.
pub run-Runs :
    (es : List Event) (s : Server) (log : Log)
    → Tracks s log
    → s.next_conn_id + length es < 2 ^ 31
    → Runs (run es s log)
unfolding run
run-Runs [] s log t h = record { server = s; log = log; returns = refl; tracks = t }
run-Runs (accepts fd ∷ es) s log t h =
    let i = accepts-Steps fd s log t (omega arith) in
    let n = i.next in
    let r = run-Runs es i.server i.log i.tracks (omega arith) in
    record {
      server = r.server;
      log = r.log;
      returns = rw (i.returns) (r.returns);
      tracks = r.tracks;
    }
run-Runs (closes id ∷ es) s log t h =
    let i = closes-Steps id s log t (omega arith) in
    let n = i.next in
    let r = run-Runs es i.server i.log i.tracks (omega arith) in
    record {
      server = r.server;
      log = r.log;
      returns = rw (i.returns) (r.returns);
      tracks = r.tracks;
    }
