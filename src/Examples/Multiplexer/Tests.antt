-- ===== src/Examples/Multiplexer/Tests.antt =====
-- Runs of Multiplexer.cc at concrete inputs.
use arale.Prelude.{
  ◌≡◌, refl, true, List, [], ◌∷◌, none, some, arith, length, ◌+◌, Ensures-any, Ensures-all, subst,
  if◌then◌else◌, ◌==◌,
}
use arale.Net.Buffer.{Buffer}
use arale.Net.Http.Text.{Bytes, is_space}
use arale.Examples.Multiplexer.{
  Server, shuts, send_backend_buffer, find_client, new_server, ids_from, put_client, backend_up,
  backend_down,
}
use arale.Examples.Multiplexer.Backend.{
  atoi, do_command, on_backend_message, starved, signed, number_from, after_prefix,
}
use arale.Examples.Multiplexer.Turns.{
  Event, opens, closes, writes, backend_opens, backend_closes, Along, step, run,
}
use arale.Examples.Multiplexer.Owners.{IsAccounted, assigned, client_up-assigned}
use arale.Examples.Multiplexer.Ids.{IsAllowed, Accounts, run-Accounts}
use arale.Examples.Multiplexer.Simple.{simple_run}
use arale.Examples.Multiplexer.Same.{IsServed, simple_run-same}
use arale.Examples.Multiplexer.Packets.{
  Delivers, on_backend_message-Delivers, on_backend_message-starved,
}
use arale.Examples.Multiplexer.Send.{Packed, send_backend_buffer-Packed}

-- Bytes behind eight bytes of room.
abbrev holding : Bytes → Buffer
holding bs = record {
  bytes = 0 ∷ 0 ∷ 0 ∷ 0 ∷ 0 ∷ 0 ∷ 0 ∷ 0 ∷ bs;
  read_index = 8;
  write_index = 8 + length bs;
}

abbrev two_packets : Buffer
two_packets = holding (2 ∷ 5 ∷ 0 ∷ b'h' ∷ b'i' ∷ 1 ∷ 5 ∷ 0 ∷ b'!' ∷ [])

abbrev two_clients : Server
two_clients = record {
  backend = true;
  clients = (2, 70) ∷ (5, 71) ∷ [];
  avail_ids = 7 ∷ [];
  context = λ conn. none;
}

disconnect_test :
    do_command
      (b'D' ∷ b'I' ∷ b'S' ∷ b'C' ∷ b'O' ∷ b'N' ∷ b'N' ∷ b'E' ∷ b'C' ∷ b'T' ∷ b' ' ∷ b'5' ∷ b'\r'
        ∷ [])
      two_clients
    ≡ shuts 71 ∷ []
unfolding do_command atoi signed number_from after_prefix find_client is_space
disconnect_test = refl

on_backend_message-Delivers_example :
    Delivers 71
      ((b'h' ∷ b'i' ∷ []) ∷ (b'!' ∷ []) ∷ [])
      (on_backend_message 3 two_packets two_clients)
unfolding find_client
on_backend_message-Delivers_example =
    on_backend_message-Delivers 4 71 ((b'h' ∷ b'i' ∷ []) ∷ (b'!' ∷ []) ∷ []) two_packets two_clients
      (omega arith) refl (omega arith) (omega arith, omega arith, (omega arith, omega arith, tt))
      refl

on_backend_message-starved_example :
    on_backend_message 1000 (holding (253 ∷ 200 ∷ 0 ∷ 1 ∷ [])) two_clients ≡ starved
on_backend_message-starved_example =
    on_backend_message-starved 1000 200 0 1 [] (holding (253 ∷ 200 ∷ 0 ∷ 1 ∷ [])) two_clients
      (omega arith) (omega arith) refl

send_backend_buffer-Packed_example :
    Packed 5 (b'h' ∷ b'i' ∷ []) (send_backend_buffer true 5 (holding (b'h' ∷ b'i' ∷ [])))
send_backend_buffer-Packed_example =
    send_backend_buffer-Packed 5 (holding (b'h' ∷ b'i' ∷ [])) (omega arith) (omega arith)

abbrev peer : Bytes
peer = b'1' ∷ b'.' ∷ b'2' ∷ []

new_server-IsAccounted : IsAccounted new_server
unfolding find_client
new_server-IsAccounted = record {
  shared = λ e. absurd cc;
  none_left = λ e. (refl, refl);
  known = λ i conn e. let f : find_client i [] ≡ some conn = e in absurd cc;
  is_id = λ conn id e. absurd cc;
}

-- The backend comes up, and then a client, which goes down again.
abbrev up_and_down : List Event
up_and_down = backend_opens ∷ opens 70 peer ∷ closes 70 peer ∷ []

abbrev with_backend : Server
with_backend = record new_server { backend = true; avail_ids = ids_from 1 10 }

abbrev with_client : Server
with_client = assigned 70 1 (ids_from 2 9) with_backend

closes-IsAllowed : IsAllowed (closes 70 peer) with_client
unfolding put_client find_client
closes-IsAllowed = (
  omega arith,
  λ id e.
      (let f : some 1 ≡ some id = e in
        let g : 1 ≡ id = cc in
        (omega arith, λ b. subst (λ x. find_client x ((1, 70) ∷ []) ≡ some 70) g refl)),
)

up_and_down-IsAllowed : Along IsAllowed up_and_down new_server
unfolding step backend_up ids_from
up_and_down-IsAllowed =
    let (es, q) = client_up-assigned 70 peer 1 (ids_from 2 9) with_backend refl (omega arith) in
    (
      refl,
      (
        (refl, omega arith),
        rw q (closes-IsAllowed, Ensures-any (step (closes 70 peer) with_client)),
      ),
    )

run-Accounts_example : Accounts (run up_and_down new_server)
run-Accounts_example =
    run-Accounts up_and_down new_server new_server-IsAccounted up_and_down-IsAllowed

abbrev one_client : Server
one_client = record {
  backend = true;
  clients = (2, 70) ∷ [];
  avail_ids = 7 ∷ [];
  context = λ conn. if conn == 70 then some 2 else none;
}

-- A client writes, and the backend goes down.
abbrev write_and_close : List Event
write_and_close = writes 70 (holding (b'h' ∷ b'i' ∷ [])) ∷ backend_closes ∷ []

write_and_close-IsServed : Along IsServed write_and_close one_client
unfolding step backend_down
write_and_close-IsServed = (
  (refl, 2, refl),
  Ensures-all (λ d. Along IsServed (backend_closes ∷ []) d.server)
      (step (writes 70 (holding (b'h' ∷ b'i' ∷ []))) one_client) (λ d. (tt, tt)),
)

simple_run-same_example : simple_run write_and_close one_client ≡ run write_and_close one_client
simple_run-same_example = simple_run-same write_and_close one_client write_and_close-IsServed
