-- ===== src/Examples/Codec/Receive.antt =====
-- Codec.h, `onMessage`: it delivers every complete message, in order, and keeps the rest.
use arale.Prelude.{
  ℕ, zero, suc, ◌+◌, ◌^◌, ◌≤◌, ◌<◌, ◌≡◌, ap, ◌∙◌, ◌⊎◌, inl, inr, true, false, List, [], ◌∷◌, ◌++◌,
  append_assoc, Outcome, ok, leb, arith, length, take, drop, length-append, take-append_left,
  take_all, drop-append_length,
}
use arale.Net.Buffer.{Buffer, be_bytes, readable_bytes, add_size}
use arale.Net.Buffer.Layout.{IsValid, content, length-content}
use arale.Net.Buffer.Retrieve.{retrieve-Yields, retrieve_as_string-Splits}
use arale.Net.Buffer.Ints.{length-be_bytes, peek_int_lem}
use arale.Examples.Codec.{
  header_length, is_invalid, read_message, on_length, Round, stop, message, round, Session,
  finished, on_message,
}

-- A message as it goes over the wire, and a sequence of them.
abbrev pub frame : List ℕ → List ℕ
frame m = be_bytes header_length (length m) ++ m

abbrev pub frames : List (List ℕ) → List ℕ
frames [] = []
frames (m ∷ ms) = frame m ++ frames ms

abbrev pub AllSmall : List (List ℕ) → Type 0
AllSmall [] = Unit
AllSmall (m ∷ ms) = (length m ≤ 65535) × AllSmall ms

-- No complete message: too short for a length, or for the message that the length announces.
abbrev pub IsPartial : List ℕ → Type 0
IsPartial c =
    (length c < header_length)
    ⊎ ((len : ℕ) × (r : List ℕ) × (c ≡ be_bytes header_length len ++ r)
        × (len ≤ 65535)
        × (length r < len))

-- A round on one complete message delivers it.
record Delivered (m c : List ℕ) (o : Outcome Round) : Type 0 where
  rest : Buffer
  returns : o ≡ ok (message m rest)
  valid : IsValid rest
  holds : content rest ≡ c

round-header :
    (len : ℕ) (r : List ℕ) (b : Buffer)
    → IsValid b
    → len < 2 ^ 32
    → content b ≡ be_bytes header_length len ++ r
    → round b ≡ on_length len b
unfolding round
round-header len r b v l e =
    let n = ap length e in
    let t : leb header_length (readable_bytes b) ≡ true = ground (
      arith,
      length-content b v,
      length-be_bytes header_length len,
      length-append (be_bytes header_length len) r,
    ) in
    rw (t, peek_int_lem header_length len r b v l e)

length-frame : (m c : List ℕ) → length (frame m ++ c) ≡ header_length + length m + length c
length-frame m c = omega (
  arith,
  length-append (frame m) c,
  length-append (be_bytes header_length (length m)) m,
  length-be_bytes header_length (length m),
)

read_message-Delivered :
    (m c : List ℕ) (b : Buffer)
    → IsValid b
    → content b ≡ frame m ++ c
    → Delivered m c (read_message (length m) b)
read_message-Delivered m c b v e =
    let k = length-be_bytes header_length (length m) in
    let y = retrieve-Yields header_length b v (omega (arith, ap length e, length-frame m c)) in
    let d : content y.result ≡ m ++ c =
      y.holds
      ∙ ap (drop header_length) (e ∙ append_assoc _ m c)
      ∙ drop-append_length header_length 0 _ (m ++ c) (omega arith) in
    let short : length m ≤ length (content y.result) =
      omega (arith, ap length d, length-append m c) in
    let z = retrieve_as_string-Splits (length m) y.result y.valid short in
    let text : take (length m) (content y.result) ≡ m =
      ap (take (length m)) d
      ∙ take-append_left (length m) m c (omega arith)
      ∙ take_all (length m) m (omega arith) in
    record {
      rest = z.rest;
      returns = rw (y.returns, z.returns, text);
      valid = z.valid;
      holds = z.holds ∙ ap (drop (length m)) d ∙ drop-append_length (length m) 0 m c (omega arith);
    }

round-Delivered :
    (m c : List ℕ) (b : Buffer)
    → IsValid b
    → length m ≤ 65535
    → content b ≡ frame m ++ c
    → Delivered m c (round b)
unfolding on_length
round-Delivered m c b v l e =
    let h = round-header (length m) (m ++ c) b v (omega arith) (e ∙ append_assoc _ m c) in
    let i : is_invalid (length m) ≡ false = ground arith in
    let t : leb (add_size (length m) header_length) (readable_bytes b) ≡ true =
      ground (arith, length-content b v, ap length e, length-frame m c) in
    let d = read_message-Delivered m c b v e in
    record { rest = d.rest; returns = h ∙ rw (i, t) d.returns; valid = d.valid; holds = d.holds }

round-partial :
    (c : List ℕ) (b : Buffer)
    → IsValid b
    → IsPartial c
    → content b ≡ c
    → round b ≡ ok (stop false b)
unfolding round on_length
round-partial c b v (inl h) e =
    let n = ap length e in
    let t : leb header_length (readable_bytes b) ≡ false = ground (arith, length-content b v) in
    rw t
round-partial c b v (inr (len, r, q, l, h)) e =
    let n = ap length (e ∙ q) in
    let i : is_invalid len ≡ false = ground arith in
    let t : leb (add_size len header_length) (readable_bytes b) ≡ false = ground (
      arith,
      length-content b v,
      length-be_bytes header_length len,
      length-append (be_bytes header_length len) r,
    ) in
    round-header len r b v (omega arith) (e ∙ q) ∙ rw (i, t)

-- What a session comes to: the messages, no shutdown, and the bytes that are left.
pub record Receives (ms : List (List ℕ)) (c : List ℕ) (s : Session) : Type 0 where
  pub rest : Buffer
  pub returns : s ≡ finished ms false rest
  pub valid : IsValid rest
  pub holds : content rest ≡ c

-- With fuel for each message and one more round, on messages of at most 65535 bytes and a rest
-- that is no complete message, onMessage delivers the complete messages at the front of a well-
-- formed buffer in order, does not shut down, and leaves exactly the incomplete rest.
pub on_message-Receives :
    (ms : List (List ℕ)) (c : List ℕ) (fuel : ℕ) (b : Buffer)
    → IsValid b
    → AllSmall ms
    → IsPartial c
    → content b ≡ frames ms ++ c
    → length ms < fuel
    → Receives ms c (on_message fuel b)
unfolding on_message
on_message-Receives ms c zero b v l p e h = absurd (omega arith)
on_message-Receives [] c (suc fuel) b v l p e h = record {
  rest = b;
  returns = rw (round-partial c b v p e, on_message);
  valid = v;
  holds = e;
}
on_message-Receives (m ∷ ms) c (suc fuel) b v l p e h =
    let d = round-Delivered m (frames ms ++ c) b v l.0 (e ∙ append_assoc (frame m) (frames ms) c) in
    let r = on_message-Receives ms c fuel d.rest d.valid l.1 p d.holds (omega arith) in
    record {
      rest = r.rest;
      returns = rw (d.returns, on_message, r.returns);
      valid = r.valid;
      holds = r.holds;
    }

-- A length above 65535 as an unsigned number, which includes the negative ones, ends the loop in
-- its first round with a shutdown and an unchanged buffer.
on_message-shutdown :
    (len fuel : ℕ) (r : List ℕ) (b : Buffer)
    → IsValid b
    → len < 2 ^ 32
    → 65535 < len
    → content b ≡ be_bytes header_length len ++ r
    → on_message (suc fuel) b ≡ finished [] true b
unfolding on_message on_length
on_message-shutdown len fuel r b v l k e =
    let i : is_invalid len ≡ true = ground arith in
    let h : round b ≡ ok (stop true b) = round-header len r b v l e ∙ rw i in rw (h, on_message)
