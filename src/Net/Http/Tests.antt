-- ===== src/Net/Http/Tests.antt =====
-- The theorems of arale/net/http at concrete inputs.
use arale.Prelude.{◌≡◌, refl, true, List, [], ◌∷◌, ok, arith, undefined, map}
use arale.Net.Buffer.{Buffer, append, ensure_writable_bytes, write_out, has_written, copy_in}
use arale.Net.Buffer.Layout.{IsValid}
use arale.Net.Buffer.Queue.{appends, AllShort}
use arale.Net.Http.Text.{Bytes, split_at_byte, same_bytes, digits}
use arale.Net.Http.Request.{Request, new_request, get, http11, add_header, set_method, method_of}
use arale.Net.Http.Context.{
  new_context, parse_request, parse_request_line, parse_target, set_target,
}
use arale.Net.Http.Context.Whole.{GotAll, parse_request-GotAll}
use arale.Net.Http.Response.{
  Response, ok_200, append_to_buffer, append_each, pieces, header_pieces, connection_pieces,
}
use arale.Net.Http.Server.{Answers, on_message, on_message-Answers}

abbrev root_query : Bytes
root_query = b'/' ∷ b'?' ∷ b'q' ∷ []

-- A question mark behind the target, as in "GET / ?", ends in an invalid range.
runs_question :
    parse_request_line (b'G' ∷ b'E' ∷ b'T' ∷ b' ' ∷ b'/' ∷ b' ' ∷ b'?' ∷ []) new_request ≡ undefined
unfolding parse_request_line split_at_byte set_method method_of same_bytes parse_target set_target
runs_question = refl

abbrev host : List (Bytes × Bytes)
host = (b'A' ∷ [], b' ' ∷ b'b' ∷ []) ∷ []

-- "GET /?q HTTP/1.1", "A: b" and an empty line, and then one byte more.
abbrev request_text : Bytes
request_text =
    b'G' ∷ b'E' ∷ b'T' ∷ b' ' ∷ b'/' ∷ b'?' ∷ b'q' ∷ b' ' ∷ b'H' ∷ b'T' ∷ b'T' ∷ b'P' ∷ b'/' ∷ b'1'
    ∷ b'.' ∷ b'1' ∷ b'\r' ∷ b'\n' ∷ b'A' ∷ b':' ∷ b' ' ∷ b'b' ∷ b'\r' ∷ b'\n' ∷ b'\r' ∷ b'\n' ∷ 7
    ∷ []

abbrev arrived : Buffer
arrived = record { bytes = request_text; read_index = 0; write_index = 27 }

arrived-IsValid : IsValid arrived
arrived-IsValid = omega arith

abbrev asked : Request
asked = record new_request { method = get; path = root_query; version = http11; receive_time = 5 }

parse_request-GotAll_example :
    GotAll
      (add_header (b'A' ∷ []) (b' ' ∷ b'b' ∷ []) asked)
      (7 ∷ [])
      (parse_request 3 5 new_context arrived)
parse_request-GotAll_example =
    parse_request-GotAll get root_query http11 host (7 ∷ []) 5 new_request arrived arrived-IsValid
      ((λ e. cc), (λ e. cc)) (omega arith) (omega arith) (omega arith) refl

-- The callback that answers "OK" and keeps the connection.
abbrev answer_ok : Request → Response → Response
answer_ok r p = record p { status_code = ok_200; status_message = b'O' ∷ b'K' ∷ [] }

on_message-Answers_example :
    Answers answer_ok
      (add_header (b'A' ∷ []) (b' ' ∷ b'b' ∷ []) asked)
      (7 ∷ [])
      (on_message answer_ok 3 5 new_context arrived)
on_message-Answers_example =
    on_message-Answers answer_ok get root_query http11 host (7 ∷ []) 5 arrived arrived-IsValid
      ((λ e. cc), (λ e. cc)) (omega arith) (omega arith) (omega arith) refl

abbrev short_response : Response
short_response = record {
  status_code = ok_200;
  status_message = b'O' ∷ b'K' ∷ [];
  headers = [];
  body = [];
  close_connection = true;
}

-- 8 bytes of room in front, and 40 free bytes.
abbrev empty_48 : Buffer
empty_48 = record {
  bytes =
      0 ∷ 0 ∷ 0 ∷ 0 ∷ 0 ∷ 0 ∷ 0 ∷ 0 ∷ 0 ∷ 0 ∷ 0 ∷ 0 ∷ 0 ∷ 0 ∷ 0 ∷ 0 ∷ 0 ∷ 0 ∷ 0 ∷ 0 ∷ 0 ∷ 0 ∷ 0 ∷ 0
      ∷ 0 ∷ 0 ∷ 0 ∷ 0 ∷ 0 ∷ 0 ∷ 0 ∷ 0 ∷ 0 ∷ 0 ∷ 0 ∷ 0 ∷ 0 ∷ 0 ∷ 0 ∷ 0 ∷ 0 ∷ 0 ∷ 0 ∷ 0 ∷ 0 ∷ 0 ∷ 0
      ∷ 0 ∷ [];
  read_index = 8;
  write_index = 8;
}

-- "HTTP/1.1 200OK", the header of the connection and an empty line.
abbrev written : Buffer
written = record {
  bytes =
      0 ∷ 0 ∷ 0 ∷ 0 ∷ 0 ∷ 0 ∷ 0 ∷ 0 ∷ b'H' ∷ b'T' ∷ b'T' ∷ b'P' ∷ b'/' ∷ b'1' ∷ b'.' ∷ b'1' ∷ b' '
      ∷ b'2' ∷ b'0' ∷ b'0' ∷ b'O' ∷ b'K' ∷ b'\r' ∷ b'\n' ∷ b'C' ∷ b'o' ∷ b'n' ∷ b'n' ∷ b'e' ∷ b'c'
      ∷ b't' ∷ b'i' ∷ b'o' ∷ b'n' ∷ b':' ∷ b' ' ∷ b'c' ∷ b'l' ∷ b'o' ∷ b's' ∷ b'e' ∷ b'\r' ∷ b'\n'
      ∷ b'\r' ∷ b'\n' ∷ 0 ∷ 0 ∷ 0 ∷ [];
  read_index = 8;
  write_index = 45;
}

writes_short : append_to_buffer short_response empty_48 ≡ ok written
unfolding append_to_buffer append_each pieces header_pieces connection_pieces digits append
    ensure_writable_bytes write_out has_written copy_in
writes_short = refl

short_pieces : AllShort (map appends (pieces short_response))
unfolding pieces header_pieces connection_pieces digits
short_pieces = omega arith
