-- ===== src/Net/Http/Context/Line.antt =====
-- HttpContext.cc, `parseRequestLine`: what it reads from a well-formed line, and from a target with
-- a query.
use arale.Prelude.{◌≡◌, ◌≢◌, refl, true, [], ◌∷◌, ◌++◌, ok, arith}
use arale.Net.Http.Text.{Bytes, same_bytes, split_at_byte-append, split_at_byte-none, Lacks}
use arale.Net.Http.Request.{
  Request, Method, invalid, get, post, head, put_method, delete, Version, unknown, http10, http11,
  method_to_string, method_of-method_to_string, set_method, is_valid,
}
use arale.Net.Http.Context.{http1_text, set_version, set_target, parse_target, parse_request_line}

-- The text of a request line.
abbrev pub version_to_string : Version → Bytes
version_to_string http11 = http1_text ++ b'1' ∷ []
version_to_string http10 = http1_text ++ b'0' ∷ []
version_to_string unknown = []

abbrev pub print_line : Method → Bytes → Version → Bytes
print_line m target v = method_to_string m ++ b' ' ∷ (target ++ b' ' ∷ version_to_string v)

method-Lacks : (m : Method) → Lacks b' ' (method_to_string m)
method-Lacks invalid = omega arith
method-Lacks get = omega arith
method-Lacks post = omega arith
method-Lacks head = omega arith
method-Lacks put_method = omega arith
method-Lacks delete = omega arith

set_version-print :
    (v : Version) (r : Request)
    → v ≢ unknown
    → set_version (version_to_string v) r ≡ (true, record r { version = v })
unfolding set_version same_bytes
set_version-print http11 r n = refl
set_version-print http10 r n = refl
set_version-print unknown r n = absurd (n refl)

version-Lacks : (v : Version) → Lacks b'?' (version_to_string v)
version-Lacks http11 = omega arith
version-Lacks http10 = omega arith
version-Lacks unknown = tt

parse_target-print :
    (target : Bytes) (v : Version) (r : Request)
    → v ≢ unknown
    → Lacks b' ' target
    → parse_target (target ++ b' ' ∷ version_to_string v) r
      ≡ ok (true, record r { path = target; version = v })
unfolding parse_target set_target
parse_target-print target v r n l = rw (
  parse_target,
  split_at_byte-append b' ' target (version_to_string v) l,
  set_target,
  split_at_byte-none b'?' (version_to_string v) (version-Lacks v),
  set_version-print v (record r { path = target }) n,
)

-- A printed request line of a method, a target without a space and a version is accepted and read
-- back, the whole target as the path and the query as it was.
pub parse_request_line-print_line :
    (m : Method) (target : Bytes) (v : Version) (r : Request)
    → m ≢ invalid
    → v ≢ unknown
    → Lacks b' ' target
    → parse_request_line (print_line m target v) r
      ≡ ok (true, record r { method = m; path = target; version = v })
unfolding parse_request_line set_method
parse_request_line-print_line m target v r n k l =
    rw
      (
        parse_request_line,
        split_at_byte-append b' ' (method_to_string m) (target ++ b' ' ∷ version_to_string v)
            (method-Lacks m),
        method_of-method_to_string m,
        valid m n,
      )
      (parse_target-print target v (record r { method = m }) k l)
  where
    valid : (m : Method) → m ≢ invalid → is_valid m ≡ true
    valid invalid n = absurd (n refl)
    valid get n = refl
    valid post n = refl
    valid head n = refl
    valid put_method n = refl
    valid delete n = refl
