-- ===== src/Examples/Relay/Stream.antt =====
-- Tunnel.h and TcpRelay.cc: no byte is lost or passed on out of order.
use arale.Prelude.{
  ℕ, ◌≡◌, refl, sym, ap, subst, ◌∙◌, List, [], ◌∷◌, ◌++◌, ok, append-nil, append_assoc,
}
use arale.Examples.Relay.{Relay, Effect, Event, run}
use arale.Examples.Relay.Traffic.{
  at_client, all_at_client, at_server, all_at_server, from_server, all_from_server, all_from_client,
  AreAllowed, is_carrying, IsSettled,
}
use arale.Examples.Relay.Steps.{step-Stepped}

all_at_client-append :
    (s : ℕ) (es fs : List Effect)
    → all_at_client s (es ++ fs) ≡ all_at_client s es ++ all_at_client s fs
all_at_client-append s [] fs = refl
all_at_client-append s (e ∷ es) fs =
    ap (λ x. at_client s e ++ x) (all_at_client-append s es fs)
    ∙ sym (append_assoc (at_client s e) (all_at_client s es) (all_at_client s fs))

all_at_server-append :
    (s : ℕ) (es fs : List Effect)
    → all_at_server s (es ++ fs) ≡ all_at_server s es ++ all_at_server s fs
all_at_server-append s [] fs = refl
all_at_server-append s (e ∷ es) fs =
    ap (λ x. at_server s e ++ x) (all_at_server-append s es fs)
    ∙ sym (append_assoc (at_server s e) (all_at_server s es) (all_at_server s fs))

-- What a run passes on.
pub record Relays (es : List Event) (r : Relay) : Type 0 where
  pub after : Relay
  pub effects : List Effect
  pub returns : run es r ≡ ok (after, effects)
  pub to_clients :
      (s : ℕ)
      → all_at_client s effects ++ (after.sessions s).input
        ≡ (r.sessions s).input ++ all_from_server s es
  pub to_servers :
      (s : ℕ) → all_at_server s effects ≡ all_from_client s es (is_carrying (r.sessions s))
  pub settled : (s : ℕ) → IsSettled (after.sessions s)

-- When at first no bytes wait while the client's connection is the context and open, and a client
-- without the tunnel's callbacks is no context, and when each connection of the server comes up
-- when it has no tunnel and goes down when it has one, then after any events no assertion failed
-- and the first two still hold; for each such connection, what was sent to the client's connection
-- and then what waits in the input buffer is what waited and then what arrived, in order; and what
-- was sent to the connection is what arrived from its client, in order, from the time when the
-- connection comes up to the time when it or its client goes down.
pub run-Relays :
    (es : List Event) (r : Relay)
    → AreAllowed es r.tunnels
    → ((s : ℕ) → IsSettled (r.sessions s))
    → Relays es r
unfolding run
run-Relays [] r a w = record {
  after = r;
  effects = [];
  returns = refl;
  to_clients = λ s. sym (append-nil (r.sessions s).input);
  to_servers = λ s. refl;
  settled = w;
}
run-Relays (e ∷ es) r a w =
    let t = step-Stepped e r a.0 in
    let i =
      run-Relays es t.after (subst (λ u. AreAllowed es u) (sym t.tunnels) a.1)
        (λ s. (t.changed s).settled (w s)) in
    record {
      after = i.after;
      effects = t.effects ++ i.effects;
      returns = rw t.returns (rw i.returns refl);
      to_clients = λ s.
          let c = t.changed s in
          ap (λ x. x ++ (i.after.sessions s).input) (all_at_client-append s t.effects i.effects)
          ∙ append_assoc (all_at_client s t.effects) (all_at_client s i.effects)
              (i.after.sessions s).input
          ∙ ap (λ x. all_at_client s t.effects ++ x) (i.to_clients s)
          ∙ sym (
              append_assoc (all_at_client s t.effects) (t.after.sessions s).input
                (all_from_server s es))
          ∙ ap (λ x. x ++ all_from_server s es) (sym c.client)
          ∙ append_assoc (r.sessions s).input (from_server s e) (all_from_server s es);
      to_servers = λ s.
          let c = t.changed s in
          all_at_server-append s t.effects i.effects
          ∙ rw (c.server, i.to_servers s, c.carrying) refl;
      settled = i.settled;
    }
