-- ===== src/Examples/Balancer/Tests.antt =====
-- A balancer of three backends that are named, of which it uses two.
use arale.Prelude.{ℕ, Option, ◌≡◌, refl, true, List, [], ◌∷◌, some, undefined}
use arale.Net.Http.Text.{Bytes, is_space, split_at_byte}
use arale.Examples.Multiplexer.Backend.{number_from}
use arale.Examples.Balancer.{
  Backend, parse_backend, port_of, signed_port, new_balancer, on_server_connection, next_backend,
}

-- An `inet_pton` that gives one address for all names.
abbrev pton : Bytes → Option Bytes
pton ip = some (10 ∷ 0 ∷ 0 ∷ 1 ∷ [])

abbrev backend : ℕ → Backend
backend port = record { ip = 10 ∷ 0 ∷ 0 ∷ 1 ∷ []; port = port }

parse_backend_test : parse_backend pton (b'b' ∷ b':' ∷ b'8' ∷ []) ≡ some (backend 8)
unfolding parse_backend split_at_byte port_of signed_port is_space number_from
parse_backend_test = refl

negative_port_test : port_of (b' ' ∷ b'-' ∷ b'1' ∷ []) ≡ 65535
unfolding port_of signed_port is_space number_from
negative_port_test = refl

-- With one backend on the command line there is none.
one_backend_test : on_server_connection true 7 (new_balancer []) ≡ undefined
unfolding on_server_connection next_backend
one_backend_test = refl

abbrev two : List Backend
two = backend 8 ∷ backend 9 ∷ []
