-- ===== src/Examples/Codec/Tests.antt =====
-- The theorems of the codec at concrete inputs.
use arale.Prelude.{ℕ, ◌≡◌, refl, inl, List, [], ◌∷◌, replicate, length, length-replicate, arith}
use arale.Net.Buffer.{Buffer, be_bytes}
use arale.Examples.Codec.{on_message}
use arale.Examples.Codec.Receive.{Receives, on_message-Receives}
use arale.Examples.Codec.Send.{on_message-send_message, send_message-Yields}

-- Two messages, "hi" and an empty one, and the first two bytes of a third.
abbrev arrived : Buffer
arrived = record {
  bytes = 0 ∷ 0 ∷ 0 ∷ 2 ∷ b'h' ∷ b'i' ∷ 0 ∷ 0 ∷ 0 ∷ 0 ∷ 0 ∷ 0 ∷ [];
  read_index = 0;
  write_index = 12;
}

on_message-Receives_example :
    Receives ((b'h' ∷ b'i' ∷ []) ∷ [] ∷ []) (0 ∷ 0 ∷ []) (on_message 3 arrived)
unfolding be_bytes
on_message-Receives_example =
    on_message-Receives ((b'h' ∷ b'i' ∷ []) ∷ [] ∷ []) (0 ∷ 0 ∷ []) 3 arrived (omega arith)
      (omega arith) (inl (omega arith)) refl (omega arith)

abbrev hostile : Buffer
hostile = record arrived { bytes = 255 ∷ 255 ∷ 255 ∷ 255 ∷ 7 ∷ 7 ∷ 0 ∷ 0 ∷ []; write_index = 6 }

long_text : ℕ → List ℕ
long_text n = replicate n b'x'

length-long_text : (n : ℕ) → length (long_text n) ≡ n
unfolding long_text
length-long_text n = length-replicate n b'x'

abbrev greeting : List ℕ
greeting = b'h' ∷ b'i' ∷ []

-- The buffer that holds the greeting's frame.
abbrev sent_greeting : Buffer
sent_greeting = (send_message-Yields greeting (inl (omega arith))).result

on_message-send_message_example : Receives (greeting ∷ []) [] (on_message 2 sent_greeting)
on_message-send_message_example =
    on_message-send_message greeting sent_greeting (inl (omega arith)) (omega arith)
      (send_message-Yields greeting (inl (omega arith))).returns
