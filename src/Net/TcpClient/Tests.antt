-- ===== src/Net/TcpClient/Tests.antt =====
-- A client at concrete inputs.
use arale.Prelude.{ℕ, List, ◌≡◌, refl, true, [], ◌∷◌, ok}
use arale.Net.Connector
use arale.Net.Connector.{under_way, connecting, polled}
use arale.Net.Http.Text.{Bytes}
use arale.Net.TcpClient.{new_client, enable_retry, connect, by_connector, connector_does}
use arale.Net.TcpClient.Cycles.{waiting}

connect_test :
    connect true under_way (enable_retry (new_client (b'c' ∷ [])))
    ≡ ok (waiting (b'c' ∷ []) 1 500, connector_does Connector.opened ∷ [])
unfolding connect by_connector Connector.start Connector.start_in_loop Connector.connect
    Connector.begin_connecting
connect_test = refl

abbrev rounds : List (ℕ × Bytes)
rounds = (3, b'l' ∷ []) ∷ (4, b'm' ∷ []) ∷ []
