-- ===== src/Net/Connection/Stream.antt =====
-- TcpConnection.cc, `sendInLoop`: what becomes of the bytes that are sent.
use mathlib.Core.Path.{subst}
use arale.Prelude.{
  ℕ, ◌-◌, ◌≤◌, ◌<◌, ◌≡◌, ◌≢◌, refl, sym, ap, ◌∙◌, ◌⊎◌, inl, inr, true, false, not, ◌&&◌, List, [],
  ◌++◌, append-nil, ◌==◌, arith, Bool-cases, length, take, drop, length-take, take_all,
  drop-append_length,
}
use arale.Net.Buffer.{Buffer, readable_bytes}
use arale.Net.Buffer.Layout.{IsValid, content}
use arale.Net.Buffer.Space.{Fits}
use arale.Net.Channel.{is_writing, disable_write}
use arale.Net.Connection.{
  Connection, Write, accepted, peer_gone, other_error, with_channel, ◌then_run◌,
  post_write_complete, finish_shutdown, after_retrieve, drained,
}
use arale.Net.Connection.Sending.{queue_left, write_direct, try_write, send_in_loop}
use arale.Net.Connection.Effects.{
  Streams, IsQuiet, IsQuiet-if, IsQuiet-done, quiet_then, queue_left_at,
  post_write_complete-IsQuiet, IsQuiet-with_channel, finish_shutdown-IsQuiet, wrote_then,
  IsQuiet-IsQuiet, Streams-unique,
}

no_bytes : (b : Buffer) → IsValid b → readable_bytes b ≡ 0 → content b ≡ []
no_bytes b v e = take-zero (b.write_index - b.read_index) (drop b.read_index b.bytes) (omega arith)
  where
    take-zero : (n : ℕ) (l : List ℕ) → n ≡ 0 → take n l ≡ []
    take-zero n l h = ap (λ k. take k l) h

-- What is queued and what is written, when `write` takes `n` bytes of an idle connection's.
write_direct-Streams :
    (bytes : List ℕ) (n : ℕ) (c : Connection)
    → IsValid c.output
    → Fits (length (take (length bytes - n) bytes)) c.output
    → Streams
        (take n bytes ++ (content c.output ++ take (length bytes - n) bytes))
        c
        (write_direct bytes n c)
unfolding write_direct
write_direct-Streams bytes n c v f =
    let q = post_write_complete-IsQuiet (length bytes - n == 0) c in
    wrote_then (take n bytes)
      (post_write_complete (length bytes - n == 0) then_run queue_left bytes (length bytes - n))
      (quiet_then (post_write_complete (length bytes - n == 0))
        (queue_left bytes (length bytes - n)) q
        (queue_left_at bytes (length bytes - n) q.after q.same_output v f))

-- Nothing waits to be written.
abbrev pub IsIdle : Connection → Type 0
IsIdle c = (is_writing c.channel ≡ false) × (readable_bytes c.output ≡ 0)

direct-IsIdle :
    (c : Connection)
    → (not (is_writing c.channel) && (readable_bytes c.output == 0)) ≡ true
    → IsIdle c
direct-IsIdle c e = ground arith

-- `write` took all bytes or none of them, if it was called.
abbrev pub IsWhole : Write → ℕ → Connection → Type 0
IsWhole (accepted n) len c = (n ≡ len) ⊎ ((n ≡ 0) ⊎ ¬ IsIdle c)
IsWhole peer_gone len c = ¬ IsIdle c
IsWhole other_error len c = Unit

queue_all-Streams :
    (bytes : List ℕ) (c : Connection)
    → IsValid c.output
    → Fits (length bytes) c.output
    → Streams (content c.output ++ bytes) c (queue_left bytes (length bytes) c)
queue_all-Streams bytes c v f =
    let t : take (length bytes) bytes ≡ bytes = take_all (length bytes) bytes (omega arith) in
    subst (λ l. Streams (content c.output ++ l) c (queue_left bytes (length bytes) c)) t
      (queue_left_at bytes (length bytes) c refl v
        (subst (λ l. Fits (length l) c.output) (sym t) f))

-- The direct write of a whole message, or of nothing.
write_whole-Streams :
    (bytes : List ℕ) (n : ℕ) (c : Connection)
    → IsIdle c
    → IsValid c.output
    → Fits (length bytes) c.output
    → (n ≡ length bytes) ⊎ (n ≡ 0)
    → Streams (content c.output ++ bytes) c (write_direct bytes n c)
write_whole-Streams bytes n c i v f (inl e) =
    let none : take (length bytes - n) bytes ≡ [] =
      let z : length bytes - n ≡ 0 = omega arith in ap (λ k. take k bytes) z in
    let all : take n bytes ≡ bytes = take_all n bytes (omega arith) in
    let empty : content c.output ≡ [] = no_bytes c.output v i.1 in
    subst (λ l. Streams l c (write_direct bytes n c)) (rw (all, none, empty) (append-nil bytes))
      (write_direct-Streams bytes n c v
        (subst (λ l. Fits (length l) c.output) (sym none) (inl (omega arith))))
write_whole-Streams bytes n c i v f (inr e) =
    let none : take n bytes ≡ [] = ap (λ k. take k bytes) e in
    let all : take (length bytes - n) bytes ≡ bytes =
      take_all (length bytes - n) bytes (omega arith) in
    subst (λ l. Streams l c (write_direct bytes n c)) (rw (all, none))
      (write_direct-Streams bytes n c v (subst (λ l. Fits (length l) c.output) (sym all) f))

try_write-Streams :
    (w : Write) (bytes : List ℕ) (c : Connection)
    → IsIdle c
    → IsValid c.output
    → Fits (length bytes) c.output
    → IsWhole w (length bytes) c
    → Streams (content c.output ++ bytes) c (try_write w bytes c)
unfolding try_write
try_write-Streams (accepted n) bytes c i v f (inl e) = write_whole-Streams bytes n c i v f (inl e)
try_write-Streams (accepted n) bytes c i v f (inr (inl e)) =
    write_whole-Streams bytes n c i v f (inr e)
try_write-Streams (accepted n) bytes c i v f (inr (inr e)) = absurd (e i)
try_write-Streams peer_gone bytes c i v f h = absurd (h i)
try_write-Streams other_error bytes c i v f h = queue_all-Streams bytes c v f

-- On a connection with a well-formed output buffer with room for the bytes, sendInLoop whose
-- direct write, if it is made, takes all bytes or none returns, and the bytes written followed by
-- those queued are those queued before followed by the new ones.
pub send_in_loop-Streams :
    (w : Write) (bytes : List ℕ) (c : Connection)
    → IsValid c.output
    → Fits (length bytes) c.output
    → IsWhole w (length bytes) c
    → Streams (content c.output ++ bytes) c (send_in_loop w bytes c)
unfolding send_in_loop
send_in_loop-Streams w bytes c v f h =
    elim (Bool-cases (not (is_writing c.channel) && (readable_bytes c.output == 0))) [
      | inl e ↦ rw e (try_write-Streams w bytes c (direct-IsIdle c e) v f h)
      | inr e ↦ rw e (queue_all-Streams bytes c v f)
    ]

idle-direct :
    (c : Connection)
    → IsIdle c
    → (not (is_writing c.channel) && (readable_bytes c.output == 0)) ≡ true
idle-direct c (w, r) = ground arith

-- A direct write that takes a part of the bytes is followed in the stream by the bytes from the
-- start again, not by those that were left.
pub send_in_loop-partial :
    (bytes : List ℕ) (n : ℕ) (c : Connection)
    → IsIdle c
    → IsValid c.output
    → n < length bytes
    → Fits (length bytes - n) c.output
    → Streams (take n bytes ++ take (length bytes - n) bytes) c (send_in_loop (accepted n) bytes c)
unfolding send_in_loop
send_in_loop-partial bytes n c i v h f =
    let empty : content c.output ≡ [] = no_bytes c.output v i.1 in
    let len : length (take (length bytes - n) bytes) ≡ length bytes - n =
      omega (arith, length-take (length bytes - n) bytes) in
    rw (idle-direct c i) (
      subst
        (λ l.
          Streams (take n bytes ++ (l ++ take (length bytes - n) bytes)) c (write_direct bytes n c))
        empty (write_direct-Streams bytes n c v (subst (λ k. Fits k c.output) (sym len) f)))

drop-take_append : (n : ℕ) (l m : List ℕ) → n ≤ length l → drop n (take n l ++ m) ≡ m
drop-take_append n l m h = drop-append_length n 0 (take n l) m (omega (arith, length-take n l))

-- A direct write of an idle connection, with a well-formed output buffer that has room for the
-- bytes left, that takes a part of the bytes queues bytes from the start again: the stream is not
-- the one sent, unless the bytes queued happen to be those left.
not-Streams-partial :
    (bytes : List ℕ) (n : ℕ) (c : Connection)
    → IsIdle c
    → IsValid c.output
    → n < length bytes
    → Fits (length bytes - n) c.output
    → take (length bytes - n) bytes ≢ drop n bytes
    → ¬ Streams bytes c (send_in_loop (accepted n) bytes c)
not-Streams-partial bytes n c i v h f differ s =
    let e = Streams-unique (send_in_loop-partial bytes n c i v h f) s in
    differ (sym (drop-take_append n bytes _ (omega arith)) ∙ ap (drop n) e)

drained-IsQuiet : (c : Connection) → IsQuiet c (drained c)
unfolding drained
drained-IsQuiet c =
    IsQuiet-IsQuiet (with_channel disable_write) (post_write_complete true then_run finish_shutdown)
      (IsQuiet-with_channel disable_write c)
      (IsQuiet-IsQuiet (post_write_complete true) finish_shutdown
        (post_write_complete-IsQuiet true _) (finish_shutdown-IsQuiet _))

pub after_retrieve-IsQuiet : (c : Connection) → IsQuiet c (after_retrieve c)
unfolding after_retrieve
after_retrieve-IsQuiet c = IsQuiet-if _ (drained-IsQuiet c) (IsQuiet-done c)
