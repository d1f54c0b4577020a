-- ===== src/Net/Buffer/Retrieve.antt =====
-- Buffer.h, reading: `retrieve` and its variants take bytes off the front, `findCRLF` finds the
-- first line end.
use arale.Prelude.{
  ℕ, zero, suc, ◌+◌, ◌-◌, ◌≤◌, ◌<◌, ◌≡◌, sym, true, ◌&&◌, Option, none, some, List, [], ◌∷◌,
  Outcome, ok, assertion, leb, ◌==◌, Bool-cases, inl, inr, arith, length, take, drop, slice,
  drop-drop, drop-take, drop_all, take-take,
}
use native.Mathlib.Decide.{dec_lt}
use arale.Net.Buffer.{
  Buffer, readable_bytes, retrieve_all, retrieve, retrieve_as_string, search_crlf, find_crlf,
}
use arale.Net.Buffer.Layout.{IsValid, content, copy_out_lem, length-slice}
use arale.Net.Buffer.Space.{Yields}

pub retrieve_all-IsValid : (b : Buffer) → IsValid b → IsValid (retrieve_all b)
unfolding retrieve_all
retrieve_all-IsValid b v = omega arith

drop-content :
    (len : ℕ) (b : Buffer)
    → IsValid b
    → len ≤ b.write_index - b.read_index
    → slice (b.read_index + len) b.write_index b.bytes ≡ drop len (content b)
drop-content len b v h =
    let e : b.write_index - (b.read_index + len) ≡ b.write_index - b.read_index - len =
      omega arith in
    rw (drop-take, drop-drop len b.read_index b.bytes, e)

-- `retrieve` takes `len` bytes off the front of the readable ones.
pub retrieve-Yields :
    (len : ℕ) (b : Buffer)
    → IsValid b
    → len ≤ length (content b)
    → Yields (drop len (content b)) (retrieve len b)
unfolding retrieve
retrieve-Yields len b v h =
    let n = length-slice b.read_index b.write_index b.bytes v.write_le_size in
    elim (dec_lt len (b.write_index - b.read_index)) [
      | yes k ↦ record {
        result = record b { read_index = b.read_index + len };
        returns = ground arith;
        valid = omega arith;
        holds = drop-content len b v (omega arith);
      }
      | no k ↦ record {
        result = retrieve_all b;
        returns = ground arith;
        valid = retrieve_all-IsValid b v;
        holds = sym (drop_all len (content b) (omega arith));
      }
    ]

pub retrieve-assertion :
    (len : ℕ) (b : Buffer) → IsValid b → length (content b) < len → retrieve len b ≡ assertion
unfolding retrieve
retrieve-assertion len b v h =
    let n = length-slice b.read_index b.write_index b.bytes v.write_le_size in ground arith

-- `retrieveAsString` returns the first `len` readable bytes and takes them off.
pub record Splits (len : ℕ) (c : List ℕ) (o : Outcome (List ℕ × Buffer)) : Type 0 where
  pub rest : Buffer
  pub returns : o ≡ ok (take len c, rest)
  pub valid : IsValid rest
  pub holds : content rest ≡ drop len c

-- retrieveAsString of at most the readable bytes returns the first bytes of that number, and
-- leaves a well-formed buffer with the others.
pub retrieve_as_string-Splits :
    (len : ℕ) (b : Buffer)
    → IsValid b
    → len ≤ length (content b)
    → Splits len (content b) (retrieve_as_string len b)
unfolding retrieve_as_string
retrieve_as_string-Splits len b v h =
    let n = length-slice b.read_index b.write_index b.bytes v.write_le_size in
    let y = retrieve-Yields len b v h in
    let t : leb len (readable_bytes b) ≡ true = ground arith in
    let e : b.read_index + len - b.read_index ≡ len = omega arith in
    record {
      rest = y.result;
      returns =
          rw (t, copy_out_lem b.read_index len b.bytes (omega arith), y.returns, e)
            (rw (
              take-take len (b.write_index - b.read_index) (drop b.read_index b.bytes)
                (omega arith)));
      valid = y.valid;
      holds = y.holds;
    }

-- "\r\n" stands at position `k`.
abbrev pub CrlfAt : ℕ → List ℕ → Type 0
CrlfAt k [] = ⊥
CrlfAt k (x ∷ []) = ⊥
CrlfAt zero (x ∷ y ∷ xs) = (x ≡ b'\r') × (y ≡ b'\n')
CrlfAt (suc k) (x ∷ y ∷ xs) = CrlfAt k (y ∷ xs)

-- What `findCRLF` promises of the bytes `c` from index `i` on: the first place, or none at all.
abbrev pub Finds : ℕ → List ℕ → Option ℕ → Type 0
Finds i c none = (k : ℕ) → ¬ CrlfAt k c
Finds i c (some j) = (n : ℕ) × (j ≡ i + n) × CrlfAt n c × ((k : ℕ) → k < n → ¬ CrlfAt k c)

-- Past a first byte that begins no line end, the places are those of the tail, one further.
not-CrlfAt-cons :
    (x y : ℕ) (c : List ℕ) (n : ℕ)
    → ¬ CrlfAt 0 (x ∷ y ∷ c)
    → ((k : ℕ) → k < n → ¬ CrlfAt k (y ∷ c))
    → (k : ℕ) → k < suc n
    → ¬ CrlfAt k (x ∷ y ∷ c)
not-CrlfAt-cons x y c n first rest zero lt h = first h
not-CrlfAt-cons x y c n first rest (suc k) lt h = rest k (omega arith) h

Finds-cons :
    (i x y : ℕ) (c : List ℕ) (o : Option ℕ)
    → ¬ CrlfAt 0 (x ∷ y ∷ c)
    → Finds (suc i) (y ∷ c) o
    → Finds i (x ∷ y ∷ c) o
Finds-cons i x y c none first f = λ k. not-CrlfAt-cons x y c k first (λ m _. f m) k (omega arith)
Finds-cons i x y c (some j) first (n, e, h, least) =
    (suc n, omega arith, h, not-CrlfAt-cons x y c n first least)

search_crlf-Finds : (i : ℕ) (c : List ℕ) → Finds i c (search_crlf i c)
unfolding search_crlf
search_crlf-Finds i [] = λ k h. h
search_crlf-Finds i (x ∷ []) = λ k h. h
search_crlf-Finds i (x ∷ y ∷ c) = elim (Bool-cases ((x == b'\r') && (y == b'\n'))) [
  | inl e ↦ rw e (0, omega arith, (ground arith, ground arith), λ k lt. absurd (omega arith))
  | inr e ↦ rw e (Finds-cons i x y c _ (ground arith) (search_crlf-Finds (suc i) (y ∷ c)))
]

-- findCRLF returns the index of the first line end among the readable bytes, and none exactly when
-- there is no line end.
pub find_crlf-Finds : (b : Buffer) → Finds b.read_index (content b) (find_crlf b)
unfolding find_crlf
find_crlf-Finds b = search_crlf-Finds b.read_index (content b)
