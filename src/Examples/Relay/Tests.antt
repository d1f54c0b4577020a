-- ===== src/Examples/Relay/Tests.antt =====
-- A connection that sends before its client is up.
use arale.Prelude.{◌≡◌, refl, true, List, [], ◌∷◌, Outcome, ok, ◌>>=◌}
use arale.Net.Http.Text.{Bytes}
use arale.Examples.Relay.Traffic.{IsSettled}
use arale.Examples.Relay.{
  Relay, Effect, connects, disconnects, new_session, high_water_mark, run, step,
  on_server_connection, on_server_message, on_client_connection, on_client_message,
  on_high_water_mark, new_relay, Event, server_up, server_message, client_up, client_message,
  client_down, server_down,
}
use arale.Examples.Relay.Stream.{Relays, run-Relays}

abbrev events : List Event
events =
    server_up 3
    ∷ server_message 3 (b'h' ∷ [])
    ∷ client_up 3 4
    ∷ server_message 3 (b'i' ∷ [])
    ∷ client_message 3 (b'!' ∷ [])
    ∷ client_down 3
    ∷ server_down 3
    ∷ []

new_session-IsSettled : IsSettled new_session
new_session-IsSettled = record { passed = λ c e q. refl; loose = λ e. refl }

run-Relays_example : Relays events new_relay
run-Relays_example =
    run-Relays events new_relay (refl, (tt, (tt, (tt, (tt, (tt, (refl, tt)))))))
      (λ s. new_session-IsSettled)

-- After the client has gone, nothing is sent to the server's connection, and what arrives from it
-- waits.
abbrev late : List Event
late =
    server_up 3
    ∷ client_up 3 4
    ∷ high_water_mark true 3
    ∷ server_message 3 (b'h' ∷ [])
    ∷ server_down 3
    ∷ client_message 3 (b'!' ∷ [])
    ∷ []

abbrev waiting : Outcome (Relay × List Effect) → Outcome (Bytes × List Effect)
waiting o = o >>= λ p. ok ((p.0.sessions 3).input, p.1)

late_test :
    waiting (run late new_relay) ≡ ok (b'h' ∷ [], connects 3 ∷ disconnects 3 ∷ disconnects 3 ∷ [])
unfolding run step on_server_connection on_server_message on_client_connection on_client_message
    on_high_water_mark
late_test = refl
