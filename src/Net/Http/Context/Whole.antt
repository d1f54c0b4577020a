-- ===== src/Net/Http/Context/Whole.antt =====
-- HttpContext.cc, `parseRequest`: a whole request in the buffer, and the states in which the loop
-- makes no progress.
use arale.Prelude.{
  ℕ, zero, suc, ◌+◌, ◌-◌, ◌≡◌, ◌≢◌, refl, sym, ap, ◌∙◌, Bool, true, false, ◌&&◌, List, [], ◌∷◌,
  ◌++◌, Option, none, some, Outcome, ok, arith, append-nil, ◌⊎◌, inl, inr, leb, ◌==◌, length, take,
  drop, take-take, length-append, take-append_length, drop-append_length,
}
use arale.Net.Buffer.{Buffer, find_crlf, search_crlf, retrieve_until, sub_size}
use arale.Net.Buffer.Layout.{IsValid, content, length-slice}
use arale.Net.Buffer.Retrieve.{retrieve-Yields}
use arale.Net.Http.Text.{Bytes, split_at_byte-append, Lacks}
use arale.Net.Http.Request.{Request, Method, invalid, Version, unknown, add_header}
use arale.Net.Http.Context.{
  Context, ParseState, expect_request_line, expect_headers, expect_body, got_all, line_to,
  round_line, round_header, round, rounds, parse_request, parse_request_line,
}
use arale.Net.Http.Context.Line.{print_line, parse_request_line-print_line}

abbrev pub crlf_then : Bytes → Bytes
crlf_then t = b'\r' ∷ b'\n' ∷ t

search_crlf-append :
    (i : ℕ) (s t : Bytes) → Lacks b'\r' s → search_crlf i (s ++ crlf_then t) ≡ some (i + length s)
unfolding search_crlf
search_crlf-append i [] t l = ground arith
search_crlf-append i (x ∷ []) t (n, l) = ground arith
search_crlf-append i (x ∷ y ∷ s) t (n, l) =
    let r = search_crlf-append (suc i) (y ∷ s) t l in
    let e : ((x == b'\r') && (y == b'\n')) ≡ false = ground arith in
    rw e (r ∙ ap some (omega arith))

-- A buffer whose readable bytes start with the line `s`: it is found, read and taken off.
record StartsLine (s t : Bytes) (b : Buffer) : Type 0 where
  rest : Buffer
  found : search_crlf b.read_index (content b) ≡ some (b.read_index + length s)
  text : line_to (b.read_index + length s) b ≡ s
  taken : retrieve_until (b.read_index + length s + 2) b ≡ ok rest
  valid : IsValid rest
  holds : content rest ≡ t

content-StartsLine :
    (s t : Bytes) (b : Buffer)
    → IsValid b
    → Lacks b'\r' s
    → content b ≡ s ++ crlf_then t
    → StartsLine s t b
unfolding find_crlf retrieve_until
content-StartsLine s t b v l c =
    let n : length (content b) ≡ length s + (length t + 2) =
      ap length c ∙ (length-append s (crlf_then t) ∙ omega arith) in
    let w = length-slice b.read_index b.write_index b.bytes v.write_le_size in
    let y = retrieve-Yields (length s + 2) b v (omega arith) in
    let a : leb (b.read_index + length s + 2) b.write_index ≡ true = ground arith in
    let z : leb b.read_index (b.read_index + length s + 2) ≡ true = ground arith in
    let k : sub_size (b.read_index + length s + 2) b.read_index ≡ length s + 2 = omega arith in
    let e : b.read_index + length s - b.read_index ≡ length s = omega arith in
    let first : take (length s) (content b) ≡ s =
      ap (take (length s)) c
      ∙ (take-append_length (length s) 0 s (crlf_then t) (omega arith) ∙ append-nil s) in
    record {
      rest = y.result;
      found = rw c (search_crlf-append b.read_index s t l);
      text = rw e (
          sym (
            take-take (length s) (b.write_index - b.read_index) (drop b.read_index b.bytes)
              (omega arith))
          ∙ first);
      taken = rw (a, z, k) y.returns;
      valid = y.valid;
      holds =
          y.holds
          ∙ (ap (drop (length s + 2)) c
              ∙ drop-append_length (length s + 2) 2 s (crlf_then t) (omega arith));
    }

-- The fields of a request, one to a line, as they stand in the text.
abbrev pub print_headers : List (Bytes × Bytes) → Bytes → Bytes
print_headers [] rest = crlf_then rest
print_headers (h ∷ hs) rest = (h.0 ++ b':' ∷ h.1) ++ crlf_then (print_headers hs rest)

abbrev pub AreFields : List (Bytes × Bytes) → Type 0
AreFields [] = Unit
AreFields (h ∷ hs) = (Lacks b':' h.0 × Lacks b'\r' (h.0 ++ b':' ∷ h.1)) × AreFields hs

abbrev pub add_headers : List (Bytes × Bytes) → Request → Request
add_headers [] r = r
add_headers (h ∷ hs) r = add_headers hs (add_header h.0 h.1 r)

-- The loop ends with everything: the request `r`, and the buffer holds `rest`.
pub record GotAll (r : Request) (rest : Bytes) (o : Outcome (Option (Bool × (Context × Buffer))))
    : Type 0 where
  pub buffer : Buffer
  pub returns : o ≡ ok (some (true, (record { request = r; parse_state = got_all }, buffer)))
  pub valid : IsValid buffer
  pub holds : content buffer ≡ rest

last_round :
    (good : Bool) (t : Bytes) (c : Context) (b : Buffer) (l : StartsLine [] t b)
    → round_header good c b
      ≡ ok (record {
        more = false;
        good = good;
        context = record c { parse_state = got_all };
        buffer = l.rest;
      })
unfolding round_header
last_round good t c b l = rw (round_header, l.found, l.taken, l.text)

header_round :
    (good : Bool) (name value t : Bytes) (c : Context) (b : Buffer)
    (l : StartsLine (name ++ b':' ∷ value) t b)
    → Lacks b':' name
    → round_header good c b
      ≡ ok (record {
        more = true;
        good = good;
        context = record c { request = add_header name value c.request };
        buffer = l.rest;
      })
unfolding round_header
header_round good name value t c b l k =
    rw (round_header, l.found, l.taken, l.text, split_at_byte-append b':' name value k)

line_round :
    (time : ℕ) (good : Bool) (line t : Bytes) (c : Context) (b : Buffer) (q : Request)
    (l : StartsLine line t b)
    → parse_request_line line c.request ≡ ok (true, q)
    → round_line time good c b
      ≡ ok (record {
        more = true;
        good = true;
        context = record {
          request = record q { receive_time = time };
          parse_state = expect_headers;
        };
        buffer = l.rest;
      })
unfolding round_line
line_round time good line t c b q l e = rw (round_line, l.found, l.text, e, l.taken)

rounds-headers :
    (hs : List (Bytes × Bytes)) (rest : Bytes) (time : ℕ) (r : Request) (b : Buffer)
    → IsValid b
    → AreFields hs
    → content b ≡ print_headers hs rest
    → GotAll (add_headers hs r) rest (
        rounds (suc (length hs)) time true (record { request = r; parse_state = expect_headers }) b)
unfolding rounds round
rounds-headers [] rest time r b v f c =
    let l = content-StartsLine [] rest b v tt c in
    record {
      buffer = l.rest;
      returns =
          rw (last_round true rest (record { request = r; parse_state = expect_headers }) b l);
      valid = l.valid;
      holds = l.holds;
    }
rounds-headers (h ∷ hs) rest time r b v ((k, l), f) c =
    let s = content-StartsLine (h.0 ++ b':' ∷ h.1) (print_headers hs rest) b v l c in
    let i = rounds-headers hs rest time (add_header h.0 h.1 r) s.rest s.valid f s.holds in
    record {
      buffer = i.buffer;
      returns =
          rw
            (header_round true h.0 h.1 (print_headers hs rest)
              (record { request = r; parse_state = expect_headers }) b s k)
            i.returns;
      valid = i.valid;
      holds = i.holds;
    }

-- On a well-formed buffer that starts with a printed request line of a method, a version and a
-- target without a space, fields whose names have no colon, and an empty line, no line with a
-- carriage return in it, parseRequest with one round for each line returns true with everything
-- read, the fields in the request, and exactly what follows left in the buffer.
pub parse_request-GotAll :
    (m : Method) (target : Bytes) (v : Version) (hs : List (Bytes × Bytes)) (rest : Bytes)
    (time : ℕ) (r : Request) (b : Buffer)
    → IsValid b
    → (m ≢ invalid) × (v ≢ unknown)
    → Lacks b' ' target
    → Lacks b'\r' (print_line m target v)
    → AreFields hs
    → content b ≡ print_line m target v ++ crlf_then (print_headers hs rest)
    → GotAll
        (add_headers hs (record r { method = m; path = target; version = v; receive_time = time }))
        rest
        (parse_request
          (suc (suc (length hs)))
          time
          (record { request = r; parse_state = expect_request_line })
          b)
unfolding parse_request rounds round
parse_request-GotAll m target v hs rest time r b w (n, k) l cr f c =
    let s = content-StartsLine (print_line m target v) (print_headers hs rest) b w cr c in
    let q : Request = record r { method = m; path = target; version = v; receive_time = time } in
    let i = rounds-headers hs rest time q s.rest s.valid f s.holds in
    record {
      buffer = i.buffer;
      returns =
          rw
            (line_round time true (print_line m target v) (print_headers hs rest)
              (record { request = r; parse_state = expect_request_line }) b
              (record r { method = m; path = target; version = v }) s
              (parse_request_line-print_line m target v r n k l))
            i.returns;
      valid = i.valid;
      holds = i.holds;
    }

-- In the states kExpectBody and kGotAll no number of rounds ends the loop of parseRequest.
rounds-stuck :
    (fuel time : ℕ) (good : Bool) (s : ParseState) (r : Request) (b : Buffer)
    → (s ≡ expect_body) ⊎ (s ≡ got_all)
    → rounds fuel time good (record { request = r; parse_state = s }) b ≡ ok none
unfolding rounds round
rounds-stuck zero time good s r b h = refl
rounds-stuck (suc fuel) time good expect_body r b h =
    rounds-stuck fuel time good expect_body r b (inl refl)
rounds-stuck (suc fuel) time good got_all r b h = rounds-stuck fuel time good got_all r b (inr refl)
rounds-stuck (suc fuel) time good expect_request_line r b (inl e) = cc
rounds-stuck (suc fuel) time good expect_request_line r b (inr e) = cc
rounds-stuck (suc fuel) time good expect_headers r b (inl e) = cc
rounds-stuck (suc fuel) time good expect_headers r b (inr e) = cc
