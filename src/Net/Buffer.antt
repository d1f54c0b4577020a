-- ===== src/Net/Buffer.antt =====
-- arale/net/Buffer.h and Buffer.cc: a growing byte buffer with room in front, and its big-endian
-- integers (net/Endian.h). A `char` is its byte value, a pointer into the vector is the index that
-- it stands for, and `size_t` wraps at 2 ^ 64. A failed `assert` is the outcome `assertion`.
pub mod Layout
pub mod Space
pub mod Append
pub mod Fresh
pub mod Retrieve
pub mod ReadFd
pub mod Queue
pub mod Allowed
pub mod Ints
mod Tests
use arale.Prelude.{
  ℕ, zero, suc, ◌+◌, ◌-◌, ◌*◌, ◌/◌, ◌%◌, ◌^◌, Bool, ◌&&◌, Option, none, some, List, [], ◌∷◌, ◌++◌,
  Outcome, ok, thrown, ◌>>=◌, ◌>>◌, assert, access, ltb, leb, ◌==◌, if◌then◌else◌, length, take,
  drop, slice, replicate,
}

abbrev pub cheap_prepend_size : ℕ
cheap_prepend_size = 8

abbrev pub default_initial_size : ℕ
default_initial_size = 1024

-- `std::vector<char>::max_size()`.
abbrev pub max_size : ℕ
max_size = 2 ^ 63 - 1

-- `size_t`: a + b and a - b.
abbrev pub add_size : ℕ → ℕ → ℕ
add_size a b = (a + b) % 2 ^ 64

abbrev pub sub_size : ℕ → ℕ → ℕ
sub_size a b = (a + 2 ^ 64 - b) % 2 ^ 64

pub record Buffer : Type 0 where
  pub bytes : List ℕ
  pub read_index : ℕ
  pub write_index : ℕ

-- `std::copy` of the bytes `d` to position `i`, defined inside the vector only. On `char` it is
-- `memmove`, so that a source that overlaps the target is read first.
abbrev pub splice : List ℕ → ℕ → List ℕ → List ℕ
splice d i bs = take i bs ++ (d ++ drop (i + length d) bs)

unfoldable pub copy_in : List ℕ → ℕ → List ℕ → Outcome (List ℕ)
copy_in d i bs = do access (leb (i + length d) (length bs)); ok (splice d i bs)

-- The `len` bytes from position `i`.
pub copy_out : ℕ → ℕ → List ℕ → Outcome (List ℕ)
copy_out i len bs = do access (leb (i + len) (length bs)); ok (slice i (i + len) bs)

-- `std::vector::resize`.
pub resize : ℕ → List ℕ → Outcome (List ℕ)
resize n bs = if ltb max_size n then thrown else ok (take n bs ++ replicate (n - length bs) 0)

abbrev pub readable_bytes : Buffer → ℕ
readable_bytes b = sub_size b.write_index b.read_index

abbrev pub writable_bytes : Buffer → ℕ
writable_bytes b = sub_size (length b.bytes) b.write_index

abbrev pub prependable_size : Buffer → ℕ
prependable_size b = b.read_index

unfoldable pub new : ℕ → Outcome Buffer
new initial_size = do
  let b : Buffer = record {
    bytes = replicate (cheap_prepend_size + default_initial_size) 0;
    read_index = cheap_prepend_size;
    write_index = cheap_prepend_size;
  }
  assert (writable_bytes b == initial_size)
  assert (readable_bytes b == 0)
  ok b

pub swap : Buffer → Buffer → Buffer × Buffer
swap this rhs = (rhs, this)

unfoldable pub retrieve_all : Buffer → Buffer
retrieve_all b = record b { read_index = cheap_prepend_size; write_index = cheap_prepend_size }

unfoldable pub retrieve : ℕ → Buffer → Outcome Buffer
unfolding retrieve_all
retrieve len b = do
  assert (leb len (readable_bytes b))
  if ltb len (readable_bytes b)
      then ok (record b { read_index = add_size b.read_index len })
      else ok (retrieve_all b)

unfoldable pub retrieve_until : ℕ → Buffer → Outcome Buffer
retrieve_until end b = do
  assert (leb end b.write_index)
  assert (leb b.read_index end)
  retrieve (sub_size end b.read_index) b

unfoldable pub retrieve_as_string : ℕ → Buffer → Outcome (List ℕ × Buffer)
retrieve_as_string len b = do
  assert (leb len (readable_bytes b))
  result ← copy_out b.read_index len b.bytes
  b' ← retrieve len b
  ok (result, b')

unfoldable pub retrieve_all_as_string : Buffer → Outcome (List ℕ × Buffer)
retrieve_all_as_string b = retrieve_as_string (readable_bytes b) b

unfoldable pub has_written : ℕ → Buffer → Outcome Buffer
has_written len b = do
  assert (leb len (writable_bytes b))
  ok (record b { write_index = add_size b.write_index len })

pub unwrite : ℕ → Buffer → Outcome Buffer
unwrite len b = do
  assert (ltb len (readable_bytes b))
  ok (record b { write_index = add_size b.write_index len })

-- Both branches of `makeSpace`: the data to the front, or a longer vector.
pub move_to_front : Buffer → Outcome Buffer
move_to_front b = do
  let copylen = readable_bytes b
  moved ← copy_out b.read_index copylen b.bytes
  bs ← copy_in moved cheap_prepend_size b.bytes
  ok (record {
    bytes = bs;
    read_index = cheap_prepend_size;
    write_index = add_size cheap_prepend_size copylen;
  })

pub grow : ℕ → Buffer → Outcome Buffer
grow len b = do bs ← resize (add_size b.write_index len) b.bytes; ok (record b { bytes = bs })

pub make_space : ℕ → Buffer → Outcome Buffer
make_space len b =
    if leb len (add_size (writable_bytes b) cheap_prepend_size) then move_to_front b else grow len b

unfoldable pub ensure_writable_bytes : ℕ → Buffer → Outcome Buffer
ensure_writable_bytes len b = do
  b' ← if ltb (writable_bytes b) len then make_space len b else ok b
  assert (leb len (writable_bytes b'))
  ok b'

-- The rest of `append`, once there is room.
unfoldable pub write_out : List ℕ → Buffer → Outcome Buffer
write_out d b = do
  bs ← copy_in d b.write_index b.bytes
  has_written (length d) (record b { bytes = bs })

unfoldable pub append : List ℕ → Buffer → Outcome Buffer
append d b = do b' ← ensure_writable_bytes (length d) b; write_out d b'

unfoldable pub prepend : List ℕ → Buffer → Outcome Buffer
prepend d b = do
  assert (leb (length d) (prependable_size b))
  let start = sub_size b.read_index (length d)
  bs ← copy_in d start b.bytes
  ok (record b { read_index = start; bytes = bs })

-- An integer of `k` bytes is its bit pattern. `hostToNetwork` and `memcpy` lay it out from the
-- most significant byte; `memcpy` and `networkToHost` read it back.
unfoldable pub be_bytes : ℕ → ℕ → List ℕ
be_bytes zero x = []
be_bytes (suc k) x = be_bytes k (x / 256) ++ x % 256 ∷ []

unfoldable pub of_be : ℕ → List ℕ → ℕ
of_be acc [] = acc
of_be acc (b ∷ bs) = of_be (acc * 256 + b) bs

unfoldable pub peek_int : ℕ → Buffer → Outcome ℕ
peek_int k b = do
  assert (leb k (readable_bytes b))
  x ← copy_out b.read_index k b.bytes
  ok (of_be 0 x)

pub read_int : ℕ → Buffer → Outcome (ℕ × Buffer)
read_int k b = do res ← peek_int k b; b' ← retrieve k b; ok (res, b')

pub append_int : ℕ → ℕ → Buffer → Outcome Buffer
append_int k x b = append (be_bytes k x) b

pub prepend_int : ℕ → ℕ → Buffer → Outcome Buffer
prepend_int k x b = prepend (be_bytes k x) b

-- `std::search` for "\r\n": the index of its first place.
unfoldable pub search_crlf : ℕ → List ℕ → Option ℕ
search_crlf i [] = none
search_crlf i (x ∷ []) = none
search_crlf i (x ∷ y ∷ rest) =
    if (x == b'\r') && (y == b'\n') then some i else search_crlf (suc i) (y ∷ rest)

unfoldable pub find_crlf : Buffer → Option ℕ
find_crlf b = search_crlf b.read_index (slice b.read_index b.write_index b.bytes)

-- What `readv` does: an error code, or the bytes that it delivers, over the two areas in turn.
pub data Readv : Type 0 where
  failed : ℕ → Readv
  received : List ℕ → Readv

abbrev pub extrabuf_size : ℕ
extrabuf_size = 65535

-- The buffer after `readFd`; the result of the call is that of `readv`.
pub read_fd : Readv → Buffer → Outcome Buffer
read_fd (failed errno) b = ok b
read_fd (received d) b = do
  let writable = writable_bytes b
  if leb (length d) writable then write_out d b else do
    bs ← copy_in (take writable d) b.write_index b.bytes
    append (drop writable d) (record b { bytes = bs; write_index = length bs })
