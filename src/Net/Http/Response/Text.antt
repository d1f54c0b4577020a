-- ===== src/Net/Http/Response/Text.antt =====
-- HttpResponse.cc, `appendToBuffer`: the bytes that it leaves in the buffer.
use arale.Prelude.{
  ◌≡◌, refl, sym, ap, ◌∙◌, Bool, true, false, List, [], ◌∷◌, ◌++◌, map, if◌then◌else◌, Outcome, ok,
  assertion, thrown, undefined, ◌>>=◌, length, append_assoc, append-nil,
}
use arale.Net.Buffer.{Buffer, append}
use arale.Net.Buffer.Layout.{IsValid, content}
use arale.Net.Buffer.Queue.{appends, run, run_queue, run-run_queue, AllShort}
use arale.Net.Http.Text.{Bytes, Headers, decimal}
use arale.Net.Http.Response.{
  Response, code, version_text, crlf_text, close_text, keep_alive_text, content_length_text,
  in_buf2, append_each, header_pieces, connection_pieces, pieces, append_to_buffer,
}

join : List Bytes → Bytes
join [] = []
join (s ∷ ss) = s ++ join ss

join-append : (ss ts : List Bytes) → join (ss ++ ts) ≡ join ss ++ join ts
unfolding join
join-append [] ts = refl
join-append (s ∷ ss) ts = rw (join-append ss ts) (sym (append_assoc s (join ss) (join ts)))

run-append_each : (ss : List Bytes) (b : Buffer) → append_each ss b ≡ run (map appends ss) b
unfolding append_each run
run-append_each [] b = refl
run-append_each (s ∷ ss) b = go (append s b) (run-append_each ss)
  where
    go :
        (o : Outcome Buffer)
        → ((x : Buffer) → append_each ss x ≡ run (map appends ss) x)
        → (o >>= λ x. append_each ss x) ≡ (o >>= λ x. run (map appends ss) x)
    go (ok x) k = k x
    go assertion k = refl
    go thrown k = refl
    go undefined k = refl

run_queue-join : (ss : List Bytes) (q : Bytes) → run_queue (map appends ss) q ≡ q ++ join ss
unfolding join
run_queue-join [] q = sym (append-nil q)
run_queue-join (s ∷ ss) q = run_queue-join ss (q ++ s) ∙ append_assoc q s (join ss)

-- The text of a response, from its fields.
abbrev pub print_headers : Headers → Bytes
print_headers [] = []
print_headers (h ∷ hs) = h.0 ++ (b':' ∷ b' ' ∷ (h.1 ++ (crlf_text ++ print_headers hs)))

abbrev pub print_connection : Response → Bytes
print_connection r =
    if r.close_connection
    then close_text
    else in_buf2 (content_length_text ++ (decimal (length r.body) ++ crlf_text)) ++ keep_alive_text

abbrev pub print_response : Response → Bytes
print_response r =
    (in_buf2 (version_text ++ decimal (code r.status_code)) ++ (r.status_message ++ crlf_text))
    ++ (print_connection r ++ (print_headers r.headers ++ (crlf_text ++ r.body)))

join-header_pieces : (hs : Headers) → join (header_pieces hs) ≡ print_headers hs
unfolding join header_pieces
join-header_pieces [] = refl
join-header_pieces (h ∷ hs) =
    ap (λ l. h.0 ++ (b':' ∷ b' ' ∷ (h.1 ++ (crlf_text ++ l)))) (join-header_pieces hs)

join-connection_pieces : (r : Response) → join (connection_pieces r) ≡ print_connection r
unfolding join connection_pieces
join-connection_pieces r = go r.close_connection
  where
    go :
        (b : Bool)
        → join (
            if b
            then close_text ∷ []
            else in_buf2 (content_length_text ++ (decimal (length r.body) ++ crlf_text))
              ∷ keep_alive_text
              ∷ [])
          ≡ (if b
              then close_text
              else in_buf2 (content_length_text ++ (decimal (length r.body) ++ crlf_text))
                ++ keep_alive_text)
    go true = append-nil close_text
    go false =
        ap (λ l. in_buf2 (content_length_text ++ (decimal (length r.body) ++ crlf_text)) ++ l)
          (append-nil keep_alive_text)

join_end :
    (hs : Headers) (body : Bytes)
    → join (header_pieces hs ++ crlf_text ∷ body ∷ []) ≡ print_headers hs ++ (crlf_text ++ body)
unfolding join
join_end hs body =
    join-append (header_pieces hs) (crlf_text ∷ body ∷ [])
    ∙ rw (join-header_pieces hs, append-nil body)

join_start :
    (a b c x y : Bytes) (xs ys : List Bytes)
    → join xs ≡ x
    → join ys ≡ y
    → join (a ∷ b ∷ c ∷ (xs ++ ys)) ≡ (a ++ (b ++ c)) ++ (x ++ y)
unfolding join
join_start a b c x y xs ys p q =
    rw (join-append xs ys, p, q)
      (sym (append_assoc a (b ++ c) (x ++ y) ∙ ap (λ l. a ++ l) (append_assoc b c (x ++ y))))

join-pieces : (r : Response) → join (pieces r) ≡ print_response r
unfolding pieces
join-pieces r =
    join_start (in_buf2 (version_text ++ decimal (code r.status_code))) r.status_message crlf_text
      (print_connection r) (print_headers r.headers ++ (crlf_text ++ r.body)) (connection_pieces r)
      (header_pieces r.headers ++ crlf_text ∷ r.body ∷ []) (join-connection_pieces r)
      (join_end r.headers r.body)

-- When appendToBuffer returns on a well-formed buffer, with no part longer than the largest
-- vector, the text of the response stands behind the readable bytes, with no space between the
-- status code and the message.
append_to_buffer-print_response :
    (r : Response) (b c : Buffer)
    → IsValid b
    → AllShort (map appends (pieces r))
    → append_to_buffer r b ≡ ok c
    → IsValid c × (content c ≡ content b ++ print_response r)
unfolding append_to_buffer
append_to_buffer-print_response r b c v s e =
    let (w, h) =
      run-run_queue (map appends (pieces r)) b c v s (sym (run-append_each (pieces r) b) ∙ e) in
    (w, h ∙ (run_queue-join (pieces r) (content b) ∙ ap (λ l. content b ++ l) (join-pieces r)))
