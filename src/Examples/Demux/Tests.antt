-- ===== src/Examples/Demux/Tests.antt =====
-- Runs of Demux.cc at concrete inputs.
use arale.Prelude.{◌+◌, ◌≡◌, refl, true, [], ◌∷◌, ◌++◌, some, arith, length}
use arale.Net.Buffer.{Buffer}
use arale.Net.Http.Text.{Bytes}
use arale.Examples.Multiplexer.{header}
use arale.Examples.Demux.{Demux, new_demux, faulted, on_server_message, has_text, is_up_text}
use arale.Examples.Demux.Faults.{on_server_message-faulted}

-- Bytes behind eight bytes of room, and three free bytes.
abbrev holding : Bytes → Buffer
holding bs = record {
  bytes = 0 ∷ 0 ∷ 0 ∷ 0 ∷ 0 ∷ 0 ∷ 0 ∷ 0 ∷ (bs ++ 0 ∷ 0 ∷ 0 ∷ []);
  read_index = 8;
  write_index = 8 + length bs;
}

abbrev served : Demux
served = record new_demux { server_connection = some 3 }

up_test :
    has_text is_up_text (b'C' ∷ b' ' ∷ b'1' ∷ b' ' ∷ b'I' ∷ b'S' ∷ b' ' ∷ b'U' ∷ b'P' ∷ b'!' ∷ [])
    ≡ true
unfolding has_text arale.Examples.Multiplexer.Backend.after_prefix
up_test = refl

on_server_message-faulted_example :
    on_server_message 9 (holding (3 ∷ 5 ∷ 0 ∷ b'h' ∷ [])) served ≡ faulted
on_server_message-faulted_example =
    on_server_message-faulted 8 3 5 0 (b'h' ∷ []) (holding (3 ∷ 5 ∷ 0 ∷ b'h' ∷ [])) served
      (omega arith) refl (omega arith) (omega arith) (omega arith) (omega arith)
