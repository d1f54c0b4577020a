-- ===== src/Examples/Multiplexer/Owners.antt =====
-- Multiplexer.cc: who has which id, in a state, and when an id is given out or comes back.
use arale.Prelude.{
  ℕ, ◌+◌, ◌≡◌, refl, sym, ap, ◌∙◌, Bool, true, false, List, [], ◌∷◌, ◌++◌, none, some, Outcome, ok,
  ◌>>◌, assert, ◌==◌, arith, Bool-cases, inl, inr, ltb, ◌&&◌, length, ◌≤◌, ◌<◌, if◌then◌else◌,
}
use arale.Net.Http.Text.{Bytes}
use arale.Examples.Multiplexer.{
  max_conns, Server, Effect, notice, is_up_text, is_empty, find_client, put_client, erase_client,
  client_up, ids_from, is_down_text, client_down,
}
use arale.Examples.Multiplexer.Notices.{notice-fits, send_backend_string-returns}
use arale.Examples.Multiplexer.Table.{
  hit, count, ids_of, count-append, count-ids_from, ids_from-within, find_client-absent,
  count-put_client, find_client-put_client, count-erase_client, find_client-erase_client,
}

-- With a backend each id from 1 to 10 is free or a client's, and only once; without one no id is.
-- A client that has an id has it in its context, and all contexts are such ids.
pub record IsAccounted (s : Server) : Type 0 where
  pub shared :
      s.backend ≡ true
      → (i : ℕ) → count i s.avail_ids + count i (ids_of s.clients) ≡ count i (ids_from 1 max_conns)
  pub none_left : s.backend ≡ false → (s.avail_ids ≡ []) × (s.clients ≡ [])
  pub known : (i conn : ℕ) → find_client i s.clients ≡ some conn → s.context conn ≡ some i
  pub is_id : (conn id : ℕ) → s.context conn ≡ some id → (0 < id) × (id ≤ max_conns)

abbrev pub assigned : ℕ → ℕ → List ℕ → Server → Server
assigned conn id ids s = record s {
  avail_ids = ids;
  clients = put_client id conn s.clients;
  context = λ c. if c == conn then some id else s.context c;
}

pub assigned-IsAccounted :
    (conn id : ℕ) (ids : List ℕ) (s : Server)
    → IsAccounted s
    → s.context conn ≡ none
    → s.avail_ids ≡ id ∷ ids
    → s.backend ≡ true
    → IsAccounted (assigned conn id ids s)
assigned-IsAccounted conn id ids s a n e b =
    let absent : find_client id s.clients ≡ none = find_client-absent id s.clients (
      let q = a.shared b id in
      let w = ap (count id) e in
      let l = count-ids_from id 1 max_conns in
      let h : hit id id ≡ 1 = ground arith in omega arith) in
    let within : (0 < id) × (id ≤ max_conns) =
      (let q = a.shared b id in
        let w = ap (count id) e in
        let h : hit id id ≡ 1 = ground arith in
        let (l, m) = ids_from-within id 1 max_conns (omega arith) in (omega arith, omega arith)) in
    record {
      shared = λ b' i.
          (let q = a.shared b i in
            let w = ap (count i) e in
            let c = count-put_client i id conn s.clients absent in omega arith);
      none_left = λ f. absurd cc;
      known = λ i c p.
          (let q = sym (find_client-put_client i id conn s.clients) ∙ p in
            elim (Bool-cases (id == i)) [
              | inl t ↦
                  let m : some conn ≡ some c = sym (rw t refl) ∙ q in
                  let v : conn ≡ c = cc in
                  let x : id ≡ i = ground arith in
                  let y : (c == conn) ≡ true = ground arith in rw y (ap some x)
              | inr t ↦
                  let m : find_client i s.clients ≡ some c = sym (rw t refl) ∙ q in
                  let k = a.known i c m in
                  elim (Bool-cases (c == conn)) [
                    | inl u ↦ let v : c ≡ conn = ground arith in let w = ap s.context v in absurd cc
                    | inr u ↦ rw u k
                  ]
            ]);
      is_id = λ c i p. elim (Bool-cases (c == conn)) [
        | inl u ↦
            let m : some id ≡ some i = sym (rw u refl) ∙ p in
            let v : id ≡ i = cc in let (l, n) = within in (omega arith, omega arith)
        | inr u ↦ a.is_id c i (sym (rw u refl) ∙ p)
      ];
    }

pub client_up-assigned :
    (conn : ℕ) (peer : Bytes) (id : ℕ) (ids : List ℕ) (s : Server)
    → s.avail_ids ≡ id ∷ ids
    → length peer ≤ 200
    → (es : List Effect) × (client_up conn peer s ≡ ok (assigned conn id ids s, es))
unfolding client_up
client_up-assigned conn peer id ids s e h =
    let l = notice-fits id peer is_up_text h (omega arith) in
    let (es, q) = send_backend_string-returns s.backend 0 (notice id peer is_up_text) l in
    (es, rw (client_up, e) (rw q refl))

abbrev pub released : ℕ → Server → Server
released id s = record s { avail_ids = s.avail_ids ++ id ∷ []; clients = erase_client id s.clients }

pub released-IsAccounted :
    (conn id : ℕ) (s : Server)
    → IsAccounted s
    → find_client id s.clients ≡ some conn
    → s.backend ≡ true
    → IsAccounted (released id s)
released-IsAccounted conn id s a e b = record {
  shared = λ b' i.
      (let q = a.shared b i in
        let w = count-append i id s.avail_ids in
        let c = count-erase_client i id conn s.clients e in omega arith);
  none_left = λ f. absurd cc;
  known = λ i c p. elim (Bool-cases (id == i)) [
    | inl t ↦
        (let q = a.shared b i in
          let w = count-erase_client i id conn s.clients e in
          let l = count-ids_from i 1 max_conns in
          let h : hit id i ≡ 1 = ground arith in
          let n = find_client-absent i (erase_client id s.clients) (omega arith) in absurd cc)
    | inr t ↦ a.known i c (sym (find_client-erase_client i id s.clients t) ∙ p)
  ];
  is_id = a.is_id;
}

-- What closing a client comes to, behind the notice.
abbrev settled : Bool → ℕ → Server → List Effect → Outcome (Server × List Effect)
settled backend id s es = elim backend [
  | true ↦ ok (released id s, es)
  | false ↦ do assert (is_empty s.avail_ids); assert (is_empty s.clients); ok (s, es)
]

settled-released :
    (backend : Bool) (id : ℕ) (s : Server) (es : List Effect)
    → backend ≡ true
    → settled backend id s es ≡ ok (released id s, es)
settled-released true id s es b = refl
settled-released false id s es b = absurd cc

settled-kept :
    (backend : Bool) (id : ℕ) (s : Server) (es : List Effect)
    → backend ≡ false
    → s.avail_ids ≡ []
    → s.clients ≡ []
    → settled backend id s es ≡ ok (s, es)
settled-kept true id s es b f g = absurd cc
settled-kept false id s es b f g =
    let p : is_empty s.avail_ids ≡ true = ap is_empty f in
    let q : is_empty s.clients ≡ true = ap is_empty g in simp (p, q) refl

pub client_down-returned :
    (conn : ℕ) (peer : Bytes) (id : ℕ) (s : Server)
    → s.context conn ≡ some id
    → (0 < id) × (id < max_conns)
    → length peer ≤ 200
    → s.backend ≡ true
    → (es : List Effect) × (client_down conn peer s ≡ ok (released id s, es))
unfolding client_down
client_down-returned conn peer id s e (k, m) h b =
    let l = notice-fits id peer is_down_text h (omega arith) in
    let (es, q) = send_backend_string-returns s.backend 0 (notice id peer is_down_text) l in
    let t : (ltb 0 id && ltb id max_conns) ≡ true = ground arith in
    (es, rw (client_down, e, t) (rw q (settled-released s.backend id s es b)))

pub client_down-kept :
    (conn : ℕ) (peer : Bytes) (id : ℕ) (s : Server)
    → s.context conn ≡ some id
    → (0 < id) × (id < max_conns)
    → length peer ≤ 200
    → IsAccounted s
    → s.backend ≡ false
    → (es : List Effect) × (client_down conn peer s ≡ ok (s, es))
unfolding client_down
client_down-kept conn peer id s e (k, m) h a b =
    let l = notice-fits id peer is_down_text h (omega arith) in
    let (es, q) = send_backend_string-returns s.backend 0 (notice id peer is_down_text) l in
    let t : (ltb 0 id && ltb id max_conns) ≡ true = ground arith in
    let (f, g) = a.none_left b in
    (es, rw (client_down, e, t) (rw q (settled-kept s.backend id s es b f g)))
