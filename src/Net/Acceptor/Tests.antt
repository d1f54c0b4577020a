-- ===== src/Net/Acceptor/Tests.antt =====
-- An acceptor that gets two connections, and runs of SocketsOps.cc.
use arale.Prelude.{◌≡◌, refl, true, false, List, [], ◌∷◌, some, arith}
use arale.Net.Sockets.{
  Address, inet, inet6, eagain, emfile, opened, failed, aborted, is_self_connect,
}
use arale.Net.Acceptor.{started, handle_new_connection, on_accepted}
use arale.Net.Acceptor.Life.{Arrival, life, EndsWith, hand_over_each, life-EndsWith}

abbrev peer : Address
peer = record { family = inet; port = 80; addr4 = 7; addr6 = [] }

-- Nothing but the first call counts.
abbrev arrivals : List Arrival
arrivals =
    (opened 8, peer, eagain, failed emfile, failed emfile)
    ∷ (opened 9, peer, eagain, failed emfile, failed emfile)
    ∷ []

life-EndsWith_example :
    EndsWith 5 6 (hand_over_each arrivals) (life (opened 5) true true (opened 6) arrivals)
life-EndsWith_example = life-EndsWith 5 6 arrivals (omega arith)

-- No descriptor is left, and the process is aborted.
emfile_test :
    handle_new_connection (failed emfile) peer emfile (opened 6) (opened 6) (started 5 (opened 6)).0
    ≡ aborted
unfolding handle_new_connection on_accepted
emfile_test = refl

-- A connection to itself by IPv6 is not found.
self_connect_test :
    is_self_connect
      (some (record { family = inet6; port = 80; addr4 = 0; addr6 = 1 ∷ [] }))
      (some (record { family = inet6; port = 80; addr4 = 0; addr6 = 1 ∷ [] }))
    ≡ false
unfolding is_self_connect
self_connect_test = refl
