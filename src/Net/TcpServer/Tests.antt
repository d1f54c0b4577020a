-- ===== src/Net/TcpServer/Tests.antt =====
-- A server whose connections come and go.
use arale.Prelude.{◌≡◌, refl, inl, List, [], ◌∷◌, none, arith}
use arale.Net.TcpServer.{Server, new_server, conn_name, Event, accepts, closes, run}
use arale.Net.TcpServer.Live.{Tracks, Runs, run-Runs}

-- "s" at "h:1".
abbrev server : Server
server = new_server 7 (b's' ∷ []) (b'h' ∷ b':' ∷ b'1' ∷ [])

name_test : conn_name server 12 ≡ b's' ∷ b'-' ∷ b'h' ∷ b':' ∷ b'1' ∷ b'#' ∷ b'1' ∷ b'2' ∷ []
unfolding conn_name arale.Net.Http.Text.digits
name_test = refl

server-Tracks : Tracks server (λ id. none)
server-Tracks = record {
  short = omega arith;
  turning = inl refl;
  held = λ id h. refl;
  given = λ id h. refl;
  named = λ id c e. absurd (cc e);
}

abbrev visits : List Event
visits = accepts 4 ∷ accepts 5 ∷ closes 1 ∷ accepts 4 ∷ closes 1 ∷ closes 3 ∷ []

run-Runs_example : Runs (run visits server (λ id. none))
run-Runs_example = run-Runs visits server (λ id. none) server-Tracks (omega arith)
