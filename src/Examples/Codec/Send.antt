-- ===== src/Examples/Codec/Send.antt =====
-- Codec.h, `sendMessage`: the frame that it sends, and its way back through `onMessage`.
use mathlib.Core.Path.{subst}
use arale.Prelude.{
  ℕ, ◌%◌, ◌^◌, ◌≤◌, ◌<◌, ◌≡◌, sym, ap, ◌∙◌, inl, inr, List, [], ◌∷◌, ◌++◌, append-nil, ok,
  assertion, arith, length,
}
use arale.Net.Buffer.{Buffer, prepend, be_bytes}
use arale.Net.Buffer.Space.{Yields}
use arale.Net.Buffer.Append.{append-assertion, prepend-Yields}
use arale.Net.Buffer.Fresh.{
  fresh, fresh_layout, fresh-IsValid, new-fresh, IsSendable, append-Filled,
}
use arale.Net.Buffer.Ints.{length-be_bytes}
use arale.Examples.Codec.{header_length, send_message, on_message}
use arale.Examples.Codec.Receive.{frame, Receives, on_message-Receives}

IsSendable-mod : (n : ℕ) → IsSendable n → n % 2 ^ 32 ≡ n
IsSendable-mod n (inl h) = omega arith
IsSendable-mod n (inr h) = omega arith

-- `sendMessage` sends the length in four bytes and then the message, for every length up to
-- 1024 and from 1033 up.
pub send_message-Yields : (m : List ℕ) → IsSendable (length m) → Yields (frame m) (send_message m)
unfolding send_message
send_message-Yields m s =
    let y = append-Filled m s in
    let k : length m % 2 ^ 32 ≡ length m = IsSendable-mod (length m) s in
    let n = length-be_bytes header_length (length m) in
    let front = y.front in
    let z = prepend-Yields (be_bytes header_length (length m)) y.result y.valid (omega arith) in
    record {
      result = z.result;
      returns =
          rw (new-fresh, y.returns)
            (ap (λ n. prepend (be_bytes header_length n) y.result) k ∙ z.returns);
      valid = z.valid;
      holds = z.holds ∙ ap (λ p. be_bytes header_length (length m) ++ p) y.holds;
    }

-- sendMessage of a message of 1025 to 1032 bytes fails an assertion of its fresh buffer.
send_message-assertion :
    (m : List ℕ) → 1024 < length m → length m ≤ 1032 → send_message m ≡ assertion
unfolding send_message
send_message-assertion m h k = rw (
  new-fresh,
  append-assertion m fresh fresh-IsValid (
    omega (arith, fresh_layout),
    omega (arith, fresh_layout),
    omega (arith, fresh_layout),
    omega (arith, fresh_layout),
  ),
)

-- What sendMessage sends for a message of a sendable length up to 65535 is one message to
-- onMessage, which leaves nothing in the buffer.
pub on_message-send_message :
    (m : List ℕ) (b : Buffer)
    → IsSendable (length m)
    → length m ≤ 65535
    → send_message m ≡ ok b
    → Receives (m ∷ []) [] (on_message 2 b)
on_message-send_message m b l k e =
    let y = send_message-Yields m l in
    let q : y.result ≡ b = cc (sym y.returns ∙ e) in
    subst (λ r. Receives (m ∷ []) [] (on_message 2 r)) q
      (on_message-Receives (m ∷ []) [] 2 y.result y.valid (k, tt) (inl (omega arith))
        (y.holds ∙ sym (append-nil (frame m)) ∙ sym (append-nil (frame m ++ []))) (omega arith))
