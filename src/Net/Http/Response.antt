-- ===== src/Net/Http/Response.antt =====
-- arale/net/http/HttpResponse.h and HttpResponse.cc: a response, and its text in a buffer.
pub mod Text
use arale.Prelude.{
  ℕ, ◌+◌, ◌≡◌, Bool, true, false, List, [], ◌∷◌, ◌++◌, map, if◌then◌else◌, Outcome, ok, ◌>>=◌, take,
  length,
}
use arale.Net.Buffer.{Buffer, append}
use arale.Net.Http.Text.{Bytes, Headers, decimal, digits, put}

pub data StatusCode : Type 0 where
  unknown ok_200 moved_permanently_301 bad_request_400 not_found_404 : StatusCode

-- The value of the enumerator.
abbrev pub code : StatusCode → ℕ
code unknown = 0
code ok_200 = 200
code moved_permanently_301 = 301
code bad_request_400 = 400
code not_found_404 = 404

pub record Response : Type 0 where
  pub status_code : StatusCode
  pub status_message : Bytes
  pub headers : Headers
  pub body : Bytes
  pub close_connection : Bool

-- The constructor, and the setters that are more than an assignment.
abbrev pub new_response : Bool → Response
new_response close = record {
  status_code = unknown;
  status_message = [];
  headers = [];
  body = [];
  close_connection = close;
}

unfoldable pub add_header : Bytes → Bytes → Response → Response
unfolding put
add_header name value r = record r { headers = put name value r.headers }

abbrev pub content_type_text : Bytes
content_type_text =
    b'C' ∷ b'o' ∷ b'n' ∷ b't' ∷ b'e' ∷ b'n' ∷ b't' ∷ b'-' ∷ b'T' ∷ b'y' ∷ b'p' ∷ b'e' ∷ []

unfoldable pub set_content_type : Bytes → Response → Response
unfolding add_header
set_content_type value r = add_header content_type_text value r

abbrev pub version_text : Bytes
version_text = b'H' ∷ b'T' ∷ b'T' ∷ b'P' ∷ b'/' ∷ b'1' ∷ b'.' ∷ b'1' ∷ b' ' ∷ []

abbrev pub crlf_text : Bytes
crlf_text = b'\r' ∷ b'\n' ∷ []

abbrev pub close_text : Bytes
close_text =
    b'C' ∷ b'o' ∷ b'n' ∷ b'n' ∷ b'e' ∷ b'c' ∷ b't' ∷ b'i' ∷ b'o' ∷ b'n' ∷ b':' ∷ b' ' ∷ b'c' ∷ b'l'
    ∷ b'o' ∷ b's' ∷ b'e' ∷ crlf_text

abbrev pub keep_alive_text : Bytes
keep_alive_text =
    b'C' ∷ b'o' ∷ b'n' ∷ b'n' ∷ b'e' ∷ b'c' ∷ b't' ∷ b'i' ∷ b'o' ∷ b'n' ∷ b':' ∷ b' ' ∷ b'K' ∷ b'e'
    ∷ b'e' ∷ b'p' ∷ b'-' ∷ b'A' ∷ b'l' ∷ b'i' ∷ b'v' ∷ b'e' ∷ crlf_text

abbrev pub content_length_text : Bytes
content_length_text =
    b'C' ∷ b'o' ∷ b'n' ∷ b't' ∷ b'e' ∷ b'n' ∷ b't' ∷ b'-' ∷ b'L' ∷ b'e' ∷ b'n' ∷ b'g' ∷ b't' ∷ b'h'
    ∷ b':' ∷ b' ' ∷ []

-- `snprintf` into `buf2` of 32 bytes keeps 31 of them at most.
abbrev pub in_buf2 : Bytes → Bytes
in_buf2 s = take 31 s

-- Calls of `append` one after another.
unfoldable pub append_each : List Bytes → Buffer → Outcome Buffer
unfolding append
append_each [] b = ok b
append_each (s ∷ ss) b = do b' ← append s b; append_each ss b'

-- What `appendToBuffer` appends, in its calls.
unfoldable pub header_pieces : Headers → List Bytes
header_pieces [] = []
header_pieces (h ∷ hs) = h.0 ∷ (b':' ∷ b' ' ∷ []) ∷ h.1 ∷ crlf_text ∷ header_pieces hs

unfoldable pub connection_pieces : Response → List Bytes
unfolding digits
connection_pieces r =
    if r.close_connection
    then close_text ∷ []
    else in_buf2 (content_length_text ++ (decimal (length r.body) ++ crlf_text))
      ∷ keep_alive_text
      ∷ []

unfoldable pub pieces : Response → List Bytes
unfolding digits header_pieces connection_pieces
pieces r =
    in_buf2 (version_text ++ decimal (code r.status_code))
    ∷ r.status_message
    ∷ crlf_text
    ∷ (connection_pieces r ++ (header_pieces r.headers ++ crlf_text ∷ r.body ∷ []))

unfoldable pub append_to_buffer : Response → Buffer → Outcome Buffer
unfolding pieces append_each
append_to_buffer r b = append_each (pieces r) b
