-- ===== src/Net/Buffer/Queue.antt =====
-- Buffer.h and Buffer.cc against a plain queue of bytes: any sequence of calls that returns has
-- done to the readable bytes what the queue's operations do.
use native.Mathlib.Decide.{dec_le}
use mathlib.Core.Path.{subst}
use arale.Prelude.{
  ℕ, ◌+◌, ◌≤◌, ◌≡◌, refl, sym, ap, ◌∙◌, inl, false, List, [], ◌∷◌, ◌++◌, Outcome, ok, assertion,
  ◌>>=◌, leb, arith, >>=-Passes, length, drop,
}
use arale.Net.Buffer.{
  Buffer, max_size, retrieve_all, retrieve, append, prepend, Readv, failed, received, read_fd,
}
use arale.Net.Buffer.Layout.{IsValid, content}
use arale.Net.Buffer.Space.{Yields}
use arale.Net.Buffer.Append.{
  AppendCase, stored, refused, overran, too_long, append_cases, prepend-Yields,
}
use arale.Net.Buffer.Retrieve.{retrieve-Yields, retrieve-assertion, retrieve_all-IsValid}
use arale.Net.Buffer.ReadFd.{
  excess, filled, filled-IsValid, content-filled, read_fd_more, length-excess, read_fd-Yields,
}

pub data Call : Type 0 where
  appends prepends : List ℕ → Call
  retrieves : ℕ → Call
  retrieves_all : Call
  reads : Readv → Call

abbrev pub apply : Call → Buffer → Outcome Buffer
apply (appends d) b = append d b
apply (prepends d) b = prepend d b
apply (retrieves len) b = retrieve len b
apply retrieves_all b = ok (retrieve_all b)
apply (reads r) b = read_fd r b

unfoldable pub run : List Call → Buffer → Outcome Buffer
run [] b = ok b
run (c ∷ cs) b = apply c b >>= run cs

-- The same calls on a queue of bytes.
abbrev pub on_queue : Call → List ℕ → List ℕ
on_queue (appends d) q = q ++ d
on_queue (prepends d) q = d ++ q
on_queue (retrieves len) q = drop len q
on_queue retrieves_all q = []
on_queue (reads (failed e)) q = q
on_queue (reads (received d)) q = q ++ d

abbrev pub run_queue : List Call → List ℕ → List ℕ
run_queue [] q = q
run_queue (c ∷ cs) q = run_queue cs (on_queue c q)

-- No byte sequence is longer than a vector can be.
abbrev pub IsShort : Call → Type 0
IsShort (appends d) = length d ≤ max_size
IsShort (prepends d) = length d ≤ max_size
IsShort (retrieves len) = Unit
IsShort retrieves_all = Unit
IsShort (reads (failed e)) = Unit
IsShort (reads (received d)) = length d ≤ max_size

abbrev pub AllShort : List Call → Type 0
AllShort [] = Unit
AllShort (c ∷ cs) = IsShort c × AllShort cs

Yields-result :
    {c : List ℕ} {o : Outcome Buffer} {b : Buffer}
    → Yields c o
    → o ≡ ok b
    → IsValid b × (content b ≡ c)
Yields-result {c} {b} y e =
    let q : y.result ≡ b = cc (sym y.returns ∙ e) in
    subst (λ r. IsValid r × (content r ≡ c)) q (y.valid, y.holds)

AppendCase-result :
    {d : List ℕ} {b r : Buffer} {o : Outcome Buffer}
    → AppendCase d b o
    → o ≡ ok r
    → IsValid r × (content r ≡ content b ++ d)
AppendCase-result (stored f y) e = Yields-result y e
AppendCase-result (refused c n) e = cc
AppendCase-result (overran c n) e = cc
AppendCase-result (too_long c n) e = cc

prepend-assertion :
    (d : List ℕ) (b : Buffer) → ¬ (length d ≤ b.read_index) → prepend d b ≡ assertion
unfolding prepend
prepend-assertion d b h = let t : leb (length d) b.read_index ≡ false = ground arith in rw t

read_fd-result :
    (d : List ℕ) {b r : Buffer}
    → IsValid b
    → length d ≤ max_size
    → read_fd (received d) b ≡ ok r
    → IsValid r × (content r ≡ content b ++ d)
read_fd-result d {b} v l e = elim (dec_le (b.write_index + length d) (length b.bytes)) [
  | yes h ↦ Yields-result (read_fd-Yields d b v (inl h)) e
  | no h ↦
      let n = length-excess d b v (omega arith) in
      let (w, c) =
        AppendCase-result
          (append_cases (excess d b) (filled d b) (filled-IsValid d b v (omega arith))
            (omega arith))
          (sym (read_fd_more d b v (omega arith)) ∙ e) in
      (w, c ∙ content-filled d b v (omega arith))
]

pub retrieve_all-Yields : (b : Buffer) → IsValid b → Yields [] (ok (retrieve_all b))
unfolding retrieve_all
retrieve_all-Yields b v = record {
  result = retrieve_all b;
  returns = refl;
  valid = retrieve_all-IsValid b v;
  holds = refl;
}

pub read_fd-failed : (e : ℕ) (b : Buffer) → IsValid b → Yields (content b) (read_fd (failed e) b)
unfolding read_fd
read_fd-failed e b v = record { result = b; returns = refl; valid = v; holds = refl }

apply-queue :
    (c : Call) {b r : Buffer}
    → IsValid b
    → IsShort c
    → apply c b ≡ ok r
    → IsValid r × (content r ≡ on_queue c (content b))
apply-queue (appends d) {b} v l e = AppendCase-result (append_cases d b v l) e
apply-queue (prepends d) {b} v l e = elim (dec_le (length d) b.read_index) [
  | yes h ↦ Yields-result (prepend-Yields d b v h) e
  | no h ↦ cc (sym (prepend-assertion d b h) ∙ e)
]
apply-queue (retrieves len) {b} v l e = elim (dec_le len (length (content b))) [
  | yes h ↦ Yields-result (retrieve-Yields len b v h) e
  | no h ↦ cc (sym (retrieve-assertion len b v (omega arith)) ∙ e)
]
apply-queue retrieves_all {b} v l e = Yields-result (retrieve_all-Yields b v) e
apply-queue (reads (failed n)) {b} v l e = Yields-result (read_fd-failed n b v) e
apply-queue (reads (received d)) v l e = read_fd-result d v l e

-- Any sequence of append, prepend, retrieve, retrieveAll and readFd calls, of byte sequences no
-- longer than the largest vector, that returns from a well-formed buffer leaves a well-formed
-- buffer whose readable bytes are those of a plain byte queue after the same calls.
pub run-run_queue :
    (cs : List Call) (b r : Buffer)
    → IsValid b
    → AllShort cs
    → run cs b ≡ ok r
    → IsValid r × (content r ≡ run_queue cs (content b))
unfolding run
run-run_queue [] b r v l e =
    Yields-result (record { result = b; returns = refl; valid = v; holds = refl }) e
run-run_queue (c ∷ cs) b r v l e =
    let p = >>=-Passes (run cs) (apply c b) e in
    let (w, q) = apply-queue c v l.0 p.first in
    let (x, h) = run-run_queue cs p.between r w l.1 p.second in (x, h ∙ ap (run_queue cs) q)
