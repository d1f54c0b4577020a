-- ===== src/Examples/Socks/Granted.antt =====
-- Socks4a.cc: a whole request, and what follows it in the buffer.
use arale.Prelude.{
  ℕ, suc, ◌+◌, ◌≡◌, ◌≤◌, ◌<◌, refl, sym, ap, ◌∙◌, Bool, true, false, ◌&&◌, List, [], ◌∷◌, ◌++◌,
  Option, none, some, Outcome, ok, ltb, ◌==◌, length, drop, arith, length-append,
  drop-append_length, leb, subst,
}
use arale.Net.Buffer.{Buffer, readable_bytes, retrieve, retrieve_until, sub_size}
use arale.Net.Buffer.Layout.{IsValid, content, length-content}
use arale.Net.Buffer.Space.{Yields}
use arale.Net.Buffer.Retrieve.{retrieve-Yields}
use arale.Net.Http.Text.{Bytes, split_at_byte-append, Lacks}
use arale.Examples.Socks.{
  Target, Request, Effect, tunnels, sends, is_socks4a, byte_at, request, with_host, parse, grant,
  answer, on_request, on_server_message,
}

-- The bytes of a request to connect, and of what follows it.
abbrev pub print_request : ℕ → ℕ → ℕ → ℕ → ℕ → ℕ → Bytes → Bytes → Bytes
print_request p q i j k l user more = 4 ∷ 1 ∷ p ∷ q ∷ i ∷ j ∷ k ∷ l ∷ (user ++ 0 ∷ more)

-- A tunnel to `t` is made, the reply grants it, and `more` stays in the buffer.
pub record Grants (t : Target) (more : Bytes) (o : Outcome (Bool × Buffer × List Effect))
    : Type 0 where
  pub rest : Buffer
  pub returns : o ≡ ok (true, rest, tunnels t ∷ sends (0 ∷ 0x5a ∷ (t.port ++ t.ip)) ∷ [])
  pub valid : IsValid rest
  pub holds : content rest ≡ more

retrieve_until-Yields :
    (n : ℕ) (b : Buffer)
    → IsValid b
    → n ≤ length (content b)
    → Yields (drop n (content b)) (retrieve_until (b.read_index + n) b)
unfolding retrieve_until
retrieve_until-Yields n b v h =
    let k = length-content b v in
    let y = retrieve-Yields n b v h in
    let t : leb (b.read_index + n) b.write_index ≡ true = ground arith in
    let u : leb b.read_index (b.read_index + n) ≡ true = ground arith in
    let e : sub_size (b.read_index + n) b.read_index ≡ n = omega arith in
    record {
      result = y.result;
      returns = rw (t, u) (ap (λ m. retrieve m b) e ∙ y.returns);
      valid = y.valid;
      holds = y.holds;
    }

grant-Grants :
    (resolve : Bytes → Option Bytes) (r : Request) (ip more : Bytes) (b : Buffer)
    → IsValid b
    → r.size ≤ length (content b)
    → drop r.size (content b) ≡ more
    → Grants (record { port = r.port; ip = ip }) more (grant resolve r ip b)
grant-Grants resolve r ip more b v h e =
    let y = retrieve_until-Yields r.size b v h in
    record { rest = y.result; returns = rw (y.returns) refl; valid = y.valid; holds = y.holds ∙ e }

-- A buffer that is neither too short nor too long, with a request that is all there.
on_request-answer :
    (resolve : Bytes → Option Bytes) (r : Request) (ip : Bytes) (b : Buffer)
    → 8 < readable_bytes b
    → readable_bytes b ≤ 128
    → parse resolve (content b) ≡ some r
    → r.ver ≡ 4
    → r.cmd ≡ 1
    → r.ip ≡ some ip
    → on_server_message resolve false none b ≡ grant resolve r ip b
unfolding on_server_message on_request answer
on_request-answer resolve r ip b h k e f g i =
    let t : ltb 128 (readable_bytes b) ≡ false = ground arith in
    let u : ltb 8 (readable_bytes b) ≡ true = ground arith in
    let w : (r.ver == 4 && r.cmd == 1) ≡ true = ground arith in
    rw (on_server_message, on_request, t, u, e) (rw (answer, w, i) refl)

user_size :
    (user : Bytes)
    → 8 + length user + 1 ≡ suc (suc (suc (suc (suc (suc (suc (suc (length user + 1))))))))
user_size user = omega arith

-- On a well-formed buffer of at most 128 bytes that holds a request to connect to an address from
-- 256 on, with a user name without a zero byte, and then other bytes, onServerMessage makes a
-- tunnel to the port and address, sends the reply that grants it, and leaves the other bytes.
on_server_message-Grants :
    (resolve : Bytes → Option Bytes) (p q i j k l : ℕ) (user more : Bytes) (b : Buffer)
    → IsValid b
    → readable_bytes b ≤ 128
    → is_socks4a (i ∷ j ∷ k ∷ l ∷ []) ≡ false
    → Lacks 0 user
    → content b ≡ print_request p q i j k l user more
    → Grants
        (record { port = p ∷ q ∷ []; ip = i ∷ j ∷ k ∷ l ∷ [] })
        more
        (on_server_message resolve false none b)
unfolding parse with_host byte_at
on_server_message-Grants resolve p q i j k l user more b v m s a e =
    let c = print_request p q i j k l user more in
    let ip = i ∷ j ∷ k ∷ l ∷ [] in
    let r = request c (some ip) (8 + length user + 1) in
    let f : parse resolve c ≡ some r =
      rw (parse, split_at_byte-append 0 user more a) (rw (with_host, s) refl) in
    let n : length (content b)
        ≡ suc (suc (suc (suc (suc (suc (suc (suc (length (user ++ 0 ∷ more))))))))) =
      ap length e in
    let o = length-append user (0 ∷ more) in
    let w = length-content b v in
    let d : drop (8 + length user + 1) (content b) ≡ more =
      ap (drop (8 + length user + 1)) e
      ∙ ap (λ x. drop x c) (user_size user)
      ∙ drop-append_length (length user + 1) 1 user (0 ∷ more) (omega arith) in
    subst (Grants (record { port = p ∷ q ∷ []; ip = ip }) more)
      (sym (
        on_request-answer resolve r ip b (omega arith) m (ap (parse resolve) e ∙ f) refl refl refl))
      (grant-Grants resolve r ip more b v (omega arith) d)

-- On a well-formed buffer of at most 128 bytes that holds a request to connect with an address
-- below 256, a user name and the name of a host that is resolved, both without a zero byte, and
-- then other bytes, onServerMessage makes a tunnel to the port and the address of the host, sends
-- the reply that grants it, and leaves the other bytes.
pub on_server_message-resolves :
    (resolve : Bytes → Option Bytes) (p q i j k l : ℕ) (user host more ip : Bytes) (b : Buffer)
    → IsValid b
    → readable_bytes b ≤ 128
    → is_socks4a (i ∷ j ∷ k ∷ l ∷ []) ≡ true
    → Lacks 0 user
    → Lacks 0 host
    → resolve host ≡ some ip
    → content b ≡ print_request p q i j k l user (host ++ 0 ∷ more)
    → Grants (record { port = p ∷ q ∷ []; ip = ip }) more (on_server_message resolve false none b)
unfolding parse with_host byte_at
on_server_message-resolves resolve p q i j k l user host more ip b v m s a g t e =
    let c = print_request p q i j k l user (host ++ 0 ∷ more) in
    let size = 8 + length user + 1 + length host + 1 in
    let r = request c (resolve host) size in
    let f : parse resolve c ≡ some r =
      rw (parse, split_at_byte-append 0 user (host ++ 0 ∷ more) a)
        (rw (with_host, s) (rw (split_at_byte-append 0 host more g) refl)) in
    let n : length (content b)
        ≡ suc (suc (suc (suc (suc (suc (suc (suc (length (user ++ 0 ∷ (host ++ 0 ∷ more)))))))))) =
      ap length e in
    let o = length-append user (0 ∷ (host ++ 0 ∷ more)) in
    let u = length-append host (0 ∷ more) in
    let w = length-content b v in
    let z : size
        ≡ suc (suc (suc (suc (suc (suc (suc (suc (length user + suc (length host + 1))))))))) =
      omega arith in
    let d : drop size (content b) ≡ more =
      ap (drop size) e
      ∙ ap (λ x. drop x c) z
      ∙ drop-append_length (length user + suc (length host + 1)) (suc (length host + 1)) user
          (0 ∷ (host ++ 0 ∷ more)) (omega arith)
      ∙ drop-append_length (length host + 1) 1 host (0 ∷ more) (omega arith) in
    subst (Grants (record { port = p ∷ q ∷ []; ip = ip }) more)
      (sym
        (on_request-answer resolve r ip b (omega arith) m (ap (parse resolve) e ∙ f) refl refl t))
      (grant-Grants resolve r ip more b v (omega arith) d)
