-- ===== src/Net/Http/Server.antt =====
-- arale/net/http/HttpServer.cc: from the bytes of a connection to the replies. The user's callback
-- is a parameter; what the connection is asked to do is a list of replies.
use arale.Prelude.{
  ℕ, suc, ◌≡◌, ◌≢◌, Bool, true, false, not, ◌&&◌, ◌||◌, List, [], ◌∷◌, ◌++◌, Option, none, some,
  if◌then◌else◌, Outcome, ok, ◌>>=◌, length, slice, >>=-ok,
}
use arale.Net.Buffer.{Buffer, new, default_initial_size}
use arale.Net.Buffer.Layout.{IsValid, content}
use arale.Net.Http.Text.{Bytes, same_bytes, Lacks}
use arale.Net.Http.Request.{
  Request, Method, invalid, Version, unknown, http10, get_header, new_request,
}
use arale.Net.Http.Response.{Response, new_response, append_to_buffer, not_found_404, not_found_404}
use arale.Net.Http.Context.{Context, new_context, reset, is_got_all, parse_request}
use arale.Net.Http.Context.Line.{print_line}
use arale.Net.Http.Context.Whole.{
  AreFields, crlf_then, print_headers, add_headers, parse_request-GotAll,
}

pub data Reply : Type 0 where
  sends : Bytes → Reply
  shuts_down : Reply

abbrev pub connection_text : Bytes
connection_text = b'C' ∷ b'o' ∷ b'n' ∷ b'n' ∷ b'e' ∷ b'c' ∷ b't' ∷ b'i' ∷ b'o' ∷ b'n' ∷ []

abbrev pub close_word : Bytes
close_word = b'c' ∷ b'l' ∷ b'o' ∷ b's' ∷ b'e' ∷ []

abbrev pub keep_alive_word : Bytes
keep_alive_word = b'K' ∷ b'e' ∷ b'e' ∷ b'p' ∷ b'-' ∷ b'A' ∷ b'l' ∷ b'i' ∷ b'v' ∷ b'e' ∷ []

abbrev pub bad_request_text : Bytes
bad_request_text =
    b'H' ∷ b'T' ∷ b'T' ∷ b'P' ∷ b'/' ∷ b'1' ∷ b'.' ∷ b'1' ∷ b' ' ∷ b'4' ∷ b'0' ∷ b'0' ∷ b' ' ∷ b'B'
    ∷ b'a' ∷ b'd' ∷ b' ' ∷ b'R' ∷ b'e' ∷ b'q' ∷ b'u' ∷ b'e' ∷ b's' ∷ b't' ∷ b'\r' ∷ b'\n' ∷ b'\r'
    ∷ b'\n' ∷ []

abbrev pub is_http10 : Version → Bool
is_http10 http10 = true
is_http10 _ = false

-- `defaultHttpCallback`, and `onConnection` of a connection that is up or down.
abbrev pub not_found_text : Bytes
not_found_text = b'N' ∷ b'o' ∷ b't' ∷ b' ' ∷ b'F' ∷ b'o' ∷ b'u' ∷ b'n' ∷ b'd' ∷ []

abbrev pub default_http_callback : Request → Response → Response
default_http_callback r p = record p {
  status_code = not_found_404;
  status_message = not_found_text;
  close_connection = true;
}

abbrev pub on_connection : Bool → Option Context → Option Context
on_connection is_connected c = if is_connected then some new_context else c

-- Whether `onRequest` asks for the connection to be closed.
unfoldable pub wants_close : Request → Bool
unfolding get_header same_bytes
wants_close r =
    same_bytes (get_header connection_text r) close_word
    || (is_http10 r.version && not (same_bytes (get_header connection_text r) keep_alive_word))

module _ (http_callback : Request → Response → Response) where
  unfoldable pub on_request : Request → Outcome (List Reply)
  unfolding wants_close append_to_buffer new
  on_request r = do
    let response = http_callback r (new_response (wants_close r))
    empty ← new default_initial_size
    buf ← append_to_buffer response empty
    ok (
        sends (slice buf.read_index buf.write_index buf.bytes)
        ∷ (if response.close_connection then shuts_down ∷ [] else []))

  -- What `onMessage` leaves: the context, the buffer and the replies.
  unfoldable pub respond : Bool × (Context × Buffer) → Outcome (Context × (Buffer × List Reply))
  unfolding on_request
  respond r =
      let reply = on_request r.1.0.request in
      if r.0
      then (if is_got_all r.1.0
          then (reply >>= λ rs. ok (reset r.1.0, (r.1.1, rs)))
          else ok (r.1.0, (r.1.1, [])))
      else ok (r.1.0, (r.1.1, sends bad_request_text ∷ shuts_down ∷ []))

  abbrev pub handle_parsed :
      Option (Bool × (Context × Buffer)) → Outcome (Option (Context × (Buffer × List Reply)))
  handle_parsed none = ok none
  handle_parsed (some p) = respond p >>= λ q. ok (some q)

  -- `none` is out of fuel in `parseRequest`.
  unfoldable pub on_message :
      ℕ → ℕ → Context → Buffer → Outcome (Option (Context × (Buffer × List Reply)))
  unfolding respond parse_request
  on_message fuel time c b = parse_request fuel time c b >>= handle_parsed

  -- One reply to one request: what came behind the request stays in the buffer, and the context is
  -- ready for the next.
  pub record Answers (r : Request) (rest : Bytes)
      (o : Outcome (Option (Context × (Buffer × List Reply)))) : Type 0 where
    pub buffer : Buffer
    pub returns : o ≡ (on_request r >>= λ rs. ok (some (new_context, (buffer, rs))))
    pub valid : IsValid buffer
    pub holds : content buffer ≡ rest

  -- On a well-formed buffer that starts with a whole request as printed (a method, a version, a
  -- target without a space, fields whose names have no colon, no line with a carriage return in
  -- it), onMessage in its first state answers this request alone and resets the context: what came
  -- behind it stays in the buffer unanswered.
  pub on_message-Answers :
      (m : Method) (target : Bytes) (v : Version) (hs : List (Bytes × Bytes)) (rest : Bytes)
      (time : ℕ) (b : Buffer)
      → IsValid b
      → (m ≢ invalid) × (v ≢ unknown)
      → Lacks b' ' target
      → Lacks b'\r' (print_line m target v)
      → AreFields hs
      → content b ≡ print_line m target v ++ crlf_then (print_headers hs rest)
      → Answers
          (add_headers hs
            (record new_request { method = m; path = target; version = v; receive_time = time }))
          rest
          (on_message (suc (suc (length hs))) time new_context b)
  unfolding on_message respond
  on_message-Answers m target v hs rest time b w k l cr f c =
      let g = parse_request-GotAll m target v hs rest time new_request b w k l cr f c in
      record {
        buffer = g.buffer;
        returns =
            rw (on_message, g.returns, respond)
              (>>=-ok (on_request _) (λ rs. (new_context, (g.buffer, rs))) (λ q. some q));
        valid = g.valid;
        holds = g.holds;
      }
