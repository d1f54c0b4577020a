-- ===== src/Net/Http/Request.antt =====
-- arale/net/http/HttpRequest.h. The time of receipt is a number of microseconds.
use arale.Prelude.{ℕ, ◌≡◌, ◌≢◌, refl, Bool, true, false, [], ◌∷◌, none, some, if◌then◌else◌}
use arale.Net.Http.Text.{
  Bytes, Headers, same_bytes, skip_space, strip_end, put, look_up, look_up-put, look_up-put_other,
}

pub data Method : Type 0 where
  invalid get post head put_method delete : Method

pub data Version : Type 0 where
  unknown http10 http11 : Version

pub record Request : Type 0 where
  pub version : Version
  pub method : Method
  pub path : Bytes
  pub query : Bytes
  pub receive_time : ℕ
  pub headers : Headers

-- The constructor; a `Timestamp` starts at 0.
abbrev pub new_request : Request
new_request = record {
  version = unknown;
  method = invalid;
  path = [];
  query = [];
  receive_time = 0;
  headers = [];
}

abbrev pub get_text : Bytes
get_text = b'G' ∷ b'E' ∷ b'T' ∷ []

abbrev pub post_text : Bytes
post_text = b'P' ∷ b'O' ∷ b'S' ∷ b'T' ∷ []

abbrev pub put_text : Bytes
put_text = b'P' ∷ b'U' ∷ b'T' ∷ []

abbrev pub head_text : Bytes
head_text = b'H' ∷ b'E' ∷ b'A' ∷ b'D' ∷ []

abbrev pub delete_text : Bytes
delete_text = b'D' ∷ b'E' ∷ b'L' ∷ b'E' ∷ b'T' ∷ b'E' ∷ []

abbrev pub unknown_text : Bytes
unknown_text = b'U' ∷ b'N' ∷ b'K' ∷ b'N' ∷ b'O' ∷ b'W' ∷ b'N' ∷ []

unfoldable pub method_of : Bytes → Method
unfolding same_bytes
method_of s =
    if same_bytes s get_text
    then get
    else if same_bytes s post_text
    then post
    else if same_bytes s put_text
    then put_method
    else if same_bytes s head_text
    then head
    else if same_bytes s delete_text
    then delete
    else invalid

abbrev pub is_valid : Method → Bool
is_valid invalid = false
is_valid _ = true

-- `setMethod`: the request with its method, and whether it is one.
unfoldable pub set_method : Bytes → Request → Bool × Request
unfolding method_of
set_method s r = (is_valid (method_of s), record r { method = method_of s })

abbrev pub method_to_string : Method → Bytes
method_to_string get = get_text
method_to_string post = post_text
method_to_string head = head_text
method_to_string put_method = put_text
method_to_string delete = delete_text
method_to_string invalid = unknown_text

-- `addHeader`: the name is what stands before the colon, the value what stands behind it.
unfoldable pub add_header : Bytes → Bytes → Request → Request
unfolding put skip_space strip_end
add_header name value r = record r { headers = put name (strip_end (skip_space value)) r.headers }

-- The empty string for a header that is not there.
unfoldable pub get_header : Bytes → Request → Bytes
unfolding look_up
get_header name r = elim (look_up name r.headers) [ none ↦ [] | some v ↦ v ]

-- What methods print as is what they are read from; `UNKNOWN` is read as no method.
pub method_of-method_to_string : (m : Method) → method_of (method_to_string m) ≡ m
unfolding method_of same_bytes
method_of-method_to_string invalid = refl
method_of-method_to_string get = refl
method_of-method_to_string post = refl
method_of-method_to_string head = refl
method_of-method_to_string put_method = refl
method_of-method_to_string delete = refl

-- An added header is found with the spaces around its value taken off, and every other header is
-- found as before.
get_header-add_header :
    (name value other : Bytes) (r : Request)
    → other ≢ name
    → (get_header name (add_header name value r) ≡ strip_end (skip_space value))
      × (get_header other (add_header name value r) ≡ get_header other r)
unfolding get_header add_header
get_header-add_header name value other r n = (
  rw (get_header, look_up-put name (strip_end (skip_space value)) r.headers),
  rw (get_header, look_up-put_other other name (strip_end (skip_space value)) r.headers n),
)
