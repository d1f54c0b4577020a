-- ===== src/Net/Buffer/Allowed.antt =====
-- Buffer.h and Buffer.cc: calls that a buffer has room and bytes for.
use mathlib.Core.Path.{subst}
use arale.Prelude.{◌≤◌, ◌∙◌, refl, ap, List, [], ◌∷◌, length, Ensures}
use arale.Net.Buffer.{Buffer, failed, received}
use arale.Net.Buffer.Layout.{IsValid, content}
use arale.Net.Buffer.Space.{Fits, Yields}
use arale.Net.Buffer.Append.{append-Yields, prepend-Yields}
use arale.Net.Buffer.Retrieve.{retrieve-Yields}
use arale.Net.Buffer.ReadFd.{Delivers, read_fd-Yields}
use arale.Net.Buffer.Queue.{
  Call, appends, prepends, retrieves, retrieves_all, reads, apply, run, on_queue, run_queue,
  retrieve_all-Yields, read_fd-failed,
}

-- What is appended or read fits, there is room in front for what is prepended, and no more bytes
-- are taken than there are.
abbrev pub IsAllowed : Call → Buffer → Type 0
IsAllowed (appends d) b = Fits (length d) b
IsAllowed (prepends d) b = length d ≤ b.read_index
IsAllowed (retrieves len) b = len ≤ length (content b)
IsAllowed retrieves_all b = Unit
IsAllowed (reads (failed e)) b = Unit
IsAllowed (reads (received d)) b = Delivers (length d) b

abbrev pub AreAllowed : List Call → Buffer → Type 0
AreAllowed [] b = Unit
AreAllowed (c ∷ cs) b = IsAllowed c b × Ensures (AreAllowed cs) (apply c b)

apply-Yields :
    (c : Call) (b : Buffer)
    → IsValid b
    → IsAllowed c b
    → Yields (on_queue c (content b)) (apply c b)
apply-Yields (appends d) b v a = append-Yields d b v a
apply-Yields (prepends d) b v a = prepend-Yields d b v a
apply-Yields (retrieves len) b v a = retrieve-Yields len b v a
apply-Yields retrieves_all b v a = retrieve_all-Yields b v
apply-Yields (reads (failed e)) b v a = read_fd-failed e b v
apply-Yields (reads (received d)) b v a = read_fd-Yields d b v a

-- Any sequence of append, prepend, retrieve, retrieveAll and readFd calls on a well-formed buffer
-- returns a well-formed buffer whose readable bytes are those of a plain byte queue after the same
-- calls, when before each call the bytes to append or read fit the free bytes, make the vector
-- grow by more than eight or fit after moving the data, those to prepend fit in front of the data,
-- and those to retrieve are there.
pub run-Yields :
    (cs : List Call) (b : Buffer)
    → IsValid b
    → AreAllowed cs b
    → Yields (run_queue cs (content b)) (run cs b)
unfolding run
run-Yields [] b v a = record { result = b; returns = refl; valid = v; holds = refl }
run-Yields (c ∷ cs) b v (a, k) =
    let y = apply-Yields c b v a in
    let z = run-Yields cs y.result y.valid (subst (Ensures (AreAllowed cs)) y.returns k) in
    record {
      result = z.result;
      returns = rw (y.returns) (z.returns);
      valid = z.valid;
      holds = z.holds ∙ ap (run_queue cs) y.holds;
    }
