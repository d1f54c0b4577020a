-- ===== src/Examples/Relay/Steps.antt =====
-- Tunnel.h and TcpRelay.cc: what an event does to each session.
use arale.Prelude.{
  ℕ, ◌≡◌, refl, sym, ◌∙◌, Bool, true, false, ◌&&◌, List, [], ◌∷◌, ◌++◌, Option, none, some, ok,
  ◌==◌, append-nil, Bool-cases, inl, inr, arith,
}
use arale.Net.Http.Text.{Bytes}
use arale.Net.Epoll.{at}
use arale.Net.Connection.{State, connecting, connected, disconnecting, disconnected, same_state}
use arale.Examples.Relay.{
  Session, Relay, Effect, to_server, connects, disconnects, shuts, put_session,
  on_server_connection, pass_on, on_server_message, teardown, send_waiting, turn_client,
  on_client_connection, on_client_message, Event, server_up, server_down, server_message,
  client_message, client_up, client_down, high_water_mark, step, shut, disconnect_client,
  on_high_water_mark,
}
use arale.Examples.Relay.Traffic.{ups_after, IsAllowed, subject, AreAbout, is_carrying}
use arale.Examples.Relay.Changes.{Changed, every-Changed, same_if}

-- A step that returns.
pub record Stepped (e : Event) (r : Relay) : Type 0 where
  pub after : Relay
  pub effects : List Effect
  pub returns : step e r ≡ ok (after, effects)
  pub tunnels : after.tunnels ≡ ups_after e r.tunnels
  pub changed : (s : ℕ) → Changed s e (r.sessions s) (after.sessions s) effects

same : (k : ℕ) → (k == k) ≡ true
same k = ground arith

and_false : (b : Bool) → (b && false) ≡ false
and_false true = refl
and_false false = refl

shut_closed : (t : State) → same_state (shut t) connected ≡ true → ⊥
shut_closed connecting q = absurd cc
shut_closed connected q = absurd cc
shut_closed disconnecting q = absurd cc
shut_closed disconnected q = absurd cc

-- A session whose client has come up.
abbrev up : ℕ → Bytes → Bool → State → Session
up c i b t = record { context = some c; input = i; callbacks = b; server = t; client = connected }

module _ (k : ℕ) (r : Relay) where
  server_up-Stepped : r.tunnels k ≡ false → Stepped (server_up k) r
  unfolding step on_server_connection
  server_up-Stepped h =
      let x : Session = record (r.sessions k) { callbacks = true; server = connected } in
      record {
        after = put_session k x (record r { tunnels = at k true r.tunnels });
        effects = connects k ∷ [];
        returns = rw h refl;
        tunnels = refl;
        changed =
            every-Changed (server_up k) x (connects k ∷ []) r.sessions (at k x r.sessions)
              (refl, tt)
              (record {
                client = append-nil (r.sessions k).input;
                server = refl;
                carrying = rw (same k) refl;
                settled = λ a. record { passed = a.passed; loose = λ f. absurd cc };
              })
              (λ s. refl);
      }

  -- The session stays as it is.
  kept :
      (e : Event) (fs : List Effect)
      → AreAbout (subject e) fs
      → Changed (subject e) e (r.sessions (subject e)) (r.sessions (subject e)) fs
      → (s : ℕ) → Changed s e (r.sessions s) (r.sessions s) fs
  kept e fs a c =
      every-Changed e (r.sessions (subject e)) fs r.sessions r.sessions a c
        (same_if (subject e) r.sessions)

  -- The session becomes `x`.
  put :
      (e : Event) (x : Session) (fs : List Effect)
      → AreAbout (subject e) fs
      → Changed (subject e) e (r.sessions (subject e)) x fs
      → (s : ℕ) → Changed s e (r.sessions s) (at (subject e) x r.sessions s) fs
  put e x fs a c = every-Changed e x fs r.sessions (at (subject e) x r.sessions) a c (λ s. refl)

  server_down-Stepped : r.tunnels k ≡ true → Stepped (server_down k) r
  unfolding step on_server_connection
  server_down-Stepped h =
      let x = disconnect_client (record (r.sessions k) { server = disconnected }) in
      record {
        after = put_session k x (record r { tunnels = at k false r.tunnels });
        effects = disconnects k ∷ [];
        returns = rw h refl;
        tunnels = refl;
        changed =
            put (server_down k) x (disconnects k ∷ []) (refl, tt)
              (record {
                client = append-nil (r.sessions k).input;
                server = refl;
                carrying = rw (same k) (and_false (r.sessions k).callbacks);
                settled = λ a. record {
                  passed = λ c e q. absurd (shut_closed (r.sessions k).client q);
                  loose = a.loose;
                };
              });
      }

  high_water_mark-Stepped : (alive : Bool) → Stepped (high_water_mark alive k) r
  unfolding step on_high_water_mark
  high_water_mark-Stepped true =
      let x = disconnect_client (r.sessions k) in
      record {
        after = put_session k x r;
        effects = disconnects k ∷ [];
        returns = refl;
        tunnels = refl;
        changed =
            put (high_water_mark true k) x (disconnects k ∷ []) (refl, tt)
              (record {
                client = append-nil x.input;
                server = refl;
                carrying = refl;
                settled = λ a. record {
                  passed = λ c e q. absurd (shut_closed (r.sessions k).client q);
                  loose = a.loose;
                };
              });
      }
  high_water_mark-Stepped false = record {
    after = r;
    effects = [];
    returns = refl;
    tunnels = refl;
    changed = kept (high_water_mark false k) [] tt (record {
      client = append-nil (r.sessions k).input;
      server = refl;
      carrying = refl;
      settled = λ a. a;
    });
  }

  client_message-Stepped : (bytes : Bytes) → Stepped (client_message k bytes) r
  unfolding step on_client_message
  client_message-Stepped bytes = elim (Bool-cases (is_carrying (r.sessions k))) [
    | inl h ↦ record {
      after = r;
      effects = to_server k bytes ∷ [];
      returns = rw h refl;
      tunnels = refl;
      changed =
          kept (client_message k bytes) (to_server k bytes ∷ []) (refl, tt)
            (record {
              client = append-nil (r.sessions k).input;
              server = rw (same k, h) (append-nil bytes);
              carrying = refl;
              settled = λ a. a;
            });
    }
    | inr h ↦ record {
      after = r;
      effects = [];
      returns = rw h refl;
      tunnels = refl;
      changed = kept (client_message k bytes) [] tt (record {
        client = append-nil (r.sessions k).input;
        server = rw (same k, h) refl;
        carrying = refl;
        settled = λ a. a;
      });
    }
  ]

  passed :
      (bytes : Bytes) (x : Session)
      → AreAbout k (pass_on k (record x { input = x.input ++ bytes })).1
        × Changed k
            (server_message k bytes)
            x
            (pass_on k (record x { input = x.input ++ bytes })).0
            (pass_on k (record x { input = x.input ++ bytes })).1
  passed bytes x = by_client x.context x.client refl
    where
      y : Option ℕ → State → Session
      y c t = record {
        context = c;
        input = x.input ++ bytes;
        callbacks = x.callbacks;
        server = x.server;
        client = t;
      }

      waits :
          (c : Option ℕ) (t : State)
          → x.context ≡ c
          → ((d : ℕ) → c ≡ some d → same_state t connected ≡ true → x.input ++ bytes ≡ [])
          → AreAbout k [] × Changed k (server_message k bytes) x (y c t) []
      waits c t e h = (
        tt,
        record {
          client = rw (same k) refl;
          server = refl;
          carrying = refl;
          settled = λ a. record { passed = h; loose = λ f. sym e ∙ a.loose f };
        },
      )

      by_client :
          (c : Option ℕ) (t : State)
          → x.context ≡ c
          → AreAbout k (pass_on k (y c t)).1
            × Changed k (server_message k bytes) x (pass_on k (y c t)).0 (pass_on k (y c t)).1
      by_client none t e = waits none t e (λ d p q. absurd cc)
      by_client (some c) connected e = (
        (refl, tt),
        record {
          client =
              rw (same k)
                (sym (append-nil ((x.input ++ bytes) ++ []) ∙ append-nil (x.input ++ bytes)));
          server = refl;
          carrying = refl;
          settled = λ a. record { passed = λ d p q. refl; loose = λ f. sym e ∙ a.loose f };
        },
      )
      by_client (some c) connecting e = waits (some c) connecting e (λ d p q. absurd cc)
      by_client (some c) disconnecting e = waits (some c) disconnecting e (λ d p q. absurd cc)
      by_client (some c) disconnected e = waits (some c) disconnected e (λ d p q. absurd cc)

  server_message-Stepped : (bytes : Bytes) → Stepped (server_message k bytes) r
  unfolding step on_server_message
  server_message-Stepped bytes =
      let p = passed bytes (r.sessions k) in
      record {
        after = (on_server_message k bytes r).0;
        effects = (on_server_message k bytes r).1;
        returns = refl;
        tunnels = refl;
        changed = put (server_message k bytes) _ _ p.0 p.1;
      }

  turned :
      (c : ℕ) (i : Bytes) (b : Bool) (t : State)
      → b ≡ true
      → AreAbout k (send_waiting k (up c i b t)).1
        × Changed k
            (client_up k c)
            (record {
              context = (r.sessions k).context;
              input = i;
              callbacks = b;
              server = t;
              client = (r.sessions k).client;
            })
            (send_waiting k (up c i b t)).0
            (send_waiting k (up c i b t)).1
  turned c [] b t h = (
    tt,
    record {
      client = refl;
      server = refl;
      carrying = refl;
      settled = λ a. record { passed = λ d p q. refl; loose = λ f. absurd cc };
    },
  )
  turned c (y ∷ ys) b t h = (
    (refl, tt),
    record {
      client = rw (same k) (sym (append-nil ((y ∷ ys) ++ [])));
      server = refl;
      carrying = refl;
      settled = λ a. record { passed = λ d p q. refl; loose = λ f. absurd cc };
    },
  )

  client_up-Stepped : (c : ℕ) → Stepped (client_up k c) r
  unfolding step on_client_connection
  client_up-Stepped c =
      let x : Session = record (r.sessions k) { client = connected } in
      elim (Bool-cases x.callbacks) [
        | inl h ↦
            let t = turned c x.input x.callbacks x.server h in
            record {
              after = put_session k (turn_client (some c) k x).0 r;
              effects = (turn_client (some c) k x).1;
              returns = rw h refl;
              tunnels = refl;
              changed = put (client_up k c) _ _ t.0 t.1;
            }
        | inr h ↦ record {
          after = put_session k x r;
          effects = [];
          returns = rw h refl;
          tunnels = refl;
          changed = put (client_up k c) x [] tt (record {
            client = append-nil x.input;
            server = refl;
            carrying = refl;
            settled =
                λ a. record { passed = λ d p q. (let n = a.loose h in absurd cc); loose = a.loose };
          });
        }
      ]

  client_down-Stepped : Stepped (client_down k) r
  unfolding step on_client_connection
  client_down-Stepped =
      let x : Session = record (r.sessions k) { client = disconnected } in
      elim (Bool-cases x.callbacks) [
        | inl h ↦ record {
          after = put_session k (teardown k x).0 r;
          effects = shuts k ∷ [];
          returns = rw h refl;
          tunnels = refl;
          changed =
              put (client_down k) (teardown k x).0 (shuts k ∷ []) (refl, tt)
                (record {
                  client = append-nil x.input;
                  server = refl;
                  carrying = rw (same k) refl;
                  settled = λ a. record { passed = λ d p q. absurd cc; loose = λ f. refl };
                });
        }
        | inr h ↦ record {
          after = put_session k x r;
          effects = [];
          returns = rw h refl;
          tunnels = refl;
          changed = put (client_down k) x [] tt (record {
            client = append-nil x.input;
            server = refl;
            carrying = rw (same k, h) refl;
            settled = λ a. record { passed = λ d p q. absurd cc; loose = a.loose };
          });
        }
      ]

pub step-Stepped : (e : Event) (r : Relay) → IsAllowed e r.tunnels → Stepped e r
step-Stepped (server_up k) r a = server_up-Stepped k r a
step-Stepped (server_down k) r a = server_down-Stepped k r a
step-Stepped (server_message k bytes) r a = server_message-Stepped k r bytes
step-Stepped (client_message k bytes) r a = client_message-Stepped k r bytes
step-Stepped (client_up k c) r a = client_up-Stepped k r c
step-Stepped (client_down k) r a = client_down-Stepped k r
step-Stepped (high_water_mark alive k) r a = high_water_mark-Stepped k r alive
