-- ===== src/Examples/Socks/Tests.antt =====
-- A request with the name of a host.
use arale.Prelude.{◌+◌, ◌≡◌, refl, true, false, [], ◌∷◌, Option, none, some, arith, length}
use arale.Net.Buffer.{Buffer, of_be}
use arale.Net.Http.Text.{Bytes}
use arale.Examples.Socks.{is_socks4a, on_server_message}
use arale.Examples.Socks.Granted.{Grants, on_server_message-resolves}

abbrev holding : Bytes → Buffer
holding bs = record {
  bytes = 0 ∷ 0 ∷ 0 ∷ 0 ∷ 0 ∷ 0 ∷ 0 ∷ 0 ∷ bs;
  read_index = 8;
  write_index = 8 + length bs;
}

abbrev local_host : Bytes → Option Bytes
local_host name = some (127 ∷ 0 ∷ 0 ∷ 1 ∷ [])

is_socks4a_test : is_socks4a (0 ∷ 0 ∷ 0 ∷ 7 ∷ []) ≡ true
unfolding is_socks4a of_be
is_socks4a_test = refl

not_socks4a_test : is_socks4a (10 ∷ 0 ∷ 0 ∷ 7 ∷ []) ≡ false
unfolding is_socks4a of_be
not_socks4a_test = refl

on_server_message-resolves_example :
    Grants
      (record { port = 0 ∷ 80 ∷ []; ip = 127 ∷ 0 ∷ 0 ∷ 1 ∷ [] })
      []
      (on_server_message local_host false none
        (holding (4 ∷ 1 ∷ 0 ∷ 80 ∷ 0 ∷ 0 ∷ 0 ∷ 7 ∷ 0 ∷ b'h' ∷ 0 ∷ [])))
on_server_message-resolves_example =
    on_server_message-resolves local_host 0 80 0 0 0 7 [] (b'h' ∷ []) [] (127 ∷ 0 ∷ 0 ∷ 1 ∷ [])
      (holding (4 ∷ 1 ∷ 0 ∷ 80 ∷ 0 ∷ 0 ∷ 0 ∷ 7 ∷ 0 ∷ b'h' ∷ 0 ∷ [])) (omega arith) (omega arith)
      is_socks4a_test tt ((λ e. cc), tt) refl refl
