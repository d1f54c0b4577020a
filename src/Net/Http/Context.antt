-- ===== src/Net/Http/Context.antt =====
-- arale/net/http/HttpContext.h and HttpContext.cc: the request line and the loop over the buffer.
pub mod Line
pub mod Whole
use arale.Prelude.{
  ℕ, zero, suc, ◌+◌, ◌-◌, ◌≡◌, Bool, true, false, not, ◌&&◌, ◌||◌, List, [], ◌∷◌, ◌++◌, Option,
  none, some, if◌then◌else◌, ◌==◌, Outcome, ok, undefined, ◌>>=◌, length, slice,
}
use arale.Net.Buffer.{Buffer, find_crlf, retrieve_until, sub_size}
use arale.Net.Http.Text.{Bytes, same_bytes, split_at_byte}
use arale.Net.Http.Request.{
  Request, new_request, Version, unknown, http10, http11, set_method, add_header,
}

pub data ParseState : Type 0 where
  expect_request_line expect_headers expect_body got_all : ParseState

pub record Context : Type 0 where
  pub request : Request
  pub parse_state : ParseState

-- The constructor, and `reset`.
abbrev pub new_context : Context
new_context = record { request = new_request; parse_state = expect_request_line }

abbrev pub reset : Context → Context
reset c = new_context

abbrev pub is_got_all : Context → Bool
is_got_all c = elim c.parse_state [ ParseState.got_all ↦ true | _ ↦ false ]

abbrev pub http1_text : Bytes
http1_text = b'H' ∷ b'T' ∷ b'T' ∷ b'P' ∷ b'/' ∷ b'1' ∷ b'.' ∷ []

-- The end of the request line: "HTTP/1." and a digit.
unfoldable pub set_version : Bytes → Request → Bool × Request
unfolding same_bytes
set_version s r =
    if same_bytes s (http1_text ++ b'1' ∷ [])
    then (true, record r { version = http11 })
    else if same_bytes s (http1_text ++ b'0' ∷ [])
    then (true, record r { version = http10 })
    else (false, r)

-- `question` is looked for from the space behind the target on. If it is there, `setQuery` gets a
-- range whose end lies before its start.
unfoldable pub set_target : Bytes → Bytes → Request → Outcome Request
unfolding split_at_byte
set_target target rest r = elim (split_at_byte b'?' rest) [
  | none ↦ ok (record r { path = target })
  | some q ↦ undefined
]

unfoldable pub parse_target : Bytes → Request → Outcome (Bool × Request)
unfolding split_at_byte set_target set_version
parse_target line r = elim (split_at_byte b' ' line) [
  | none ↦ ok (false, r)
  | some parts ↦ set_target parts.0 parts.1 r >>= λ r'. ok (set_version parts.1 r')
]

-- `parseRequestLine` on the bytes from `start` to `end`.
unfoldable pub parse_request_line : Bytes → Request → Outcome (Bool × Request)
unfolding split_at_byte set_method parse_target
parse_request_line line r = elim (split_at_byte b' ' line) [
  | none ↦ ok (false, r)
  | some parts ↦ let m = set_method parts.0 r in if m.0 then parse_target parts.1 m.1 else ok m
]

-- What one round of the loop gives: whether there is more, and `ok`.
pub record Round : Type 0 where
  pub more : Bool
  pub good : Bool
  pub context : Context
  pub buffer : Buffer

-- The bytes from `peek()` to `crlf`.
abbrev pub line_to : ℕ → Buffer → Bytes
line_to crlf b = slice b.read_index crlf b.bytes

unfoldable pub round_line : ℕ → Bool → Context → Buffer → Outcome Round
unfolding find_crlf parse_request_line retrieve_until
round_line time good c b = elim (find_crlf b) [
  | none ↦ ok (record { more = false; good = good; context = c; buffer = b })
  | some crlf ↦ do
    r ← parse_request_line (line_to crlf b) c.request
    if r.0
        then accept crlf r.1
        else ok (record {
          more = false;
          good = false;
          context = record c { request = r.1 };
          buffer = b;
        })
]
  where
    accept : ℕ → Request → Outcome Round
    accept crlf r = do
      b' ← retrieve_until (crlf + 2) b
      ok (record {
        more = true;
        good = true;
        context = record {
          request = record r { receive_time = time };
          parse_state = expect_headers;
        };
        buffer = b';
      })

unfoldable pub round_header : Bool → Context → Buffer → Outcome Round
unfolding find_crlf split_at_byte add_header retrieve_until
round_header good c b = elim (find_crlf b) [
  | none ↦ ok (record { more = false; good = good; context = c; buffer = b })
  | some crlf ↦ do
    b' ← retrieve_until (crlf + 2) b
    ok (elim (split_at_byte b':' (line_to crlf b)) [
      | none ↦ record {
        more = false;
        good = good;
        context = record c { parse_state = got_all };
        buffer = b';
      }
      | some h ↦ record {
        more = true;
        good = good;
        context = record c { request = add_header h.0 h.1 c.request };
        buffer = b';
      }
    ])
]

-- One round. In the two other states it does nothing, and `hasMore` stays set.
unfoldable pub round : ℕ → Bool → Context → Buffer → Outcome Round
unfolding round_line round_header
round time good c b = elim c.parse_state [
  | expect_request_line ↦ round_line time good c b
  | expect_headers ↦ round_header good c b
  | expect_body ↦ ok (record { more = true; good = good; context = c; buffer = b })
  | got_all ↦ ok (record { more = true; good = good; context = c; buffer = b })
]

-- The loop of `parseRequest`; `none` is out of fuel.
unfoldable pub rounds :
    ℕ → ℕ → Bool → Context → Buffer → Outcome (Option (Bool × (Context × Buffer)))
unfolding round
rounds zero time good c b = ok none
rounds (suc fuel) time good c b = do
  r ← round time good c b
  let rest = rounds fuel time r.good r.context r.buffer
  if r.more then rest else ok (some (r.good, (r.context, r.buffer)))

unfoldable pub parse_request :
    ℕ → ℕ → Context → Buffer → Outcome (Option (Bool × (Context × Buffer)))
unfolding rounds
parse_request fuel time c b = rounds fuel time true c b
