-- ===== src/Examples/Relay/Changes.antt =====
-- Tunnel.h and TcpRelay.cc: a change of one session is no change of another.
use arale.Prelude.{
  ℕ, ◌≡◌, refl, sym, ap, subst, ◌∙◌, Bool, false, List, [], ◌∷◌, ◌++◌, ◌==◌, if◌then◌else◌,
  append-nil, Bool-cases, inl, inr, arith,
}
use arale.Examples.Relay.{
  Session, Effect, to_client, to_server, connects, disconnects, shuts, Event, server_up,
  server_down, server_message, client_message, client_up, client_down, high_water_mark,
}
use arale.Examples.Relay.Traffic.{
  at_client, all_at_client, at_server, all_at_server, from_server, attached, from_client, subject,
  is_carrying, IsSettled, target, AreAbout,
}

-- What an event does to a session with its effects.
pub record Changed (s : ℕ) (e : Event) (x y : Session) (fs : List Effect) : Type 0 where
  pub client : x.input ++ from_server s e ≡ all_at_client s fs ++ y.input
  pub server : all_at_server s fs ≡ from_client s e (is_carrying x)
  pub carrying : is_carrying y ≡ attached s e (is_carrying x)
  pub settled : IsSettled x → IsSettled y

pub event_other :
    (s : ℕ) (e : Event) (b : Bool)
    → (subject e == s) ≡ false
    → (from_server s e ≡ []) × (from_client s e b ≡ []) × (attached s e b ≡ b)
event_other s (server_up k) b h = rw h (refl, refl, refl)
event_other s (server_down k) b h = rw h (refl, refl, refl)
event_other s (server_message k bytes) b h = rw h (refl, refl, refl)
event_other s (client_message k bytes) b h = rw h (refl, refl, refl)
event_other s (client_up k c) b h = (refl, refl, refl)
event_other s (client_down k) b h = rw h (refl, refl, refl)
event_other s (high_water_mark alive k) b h = (refl, refl, refl)

effect_other :
    (s : ℕ) (f : Effect) → (target f == s) ≡ false → (at_client s f ≡ []) × (at_server s f ≡ [])
effect_other s (to_client k bytes) h = rw h (refl, refl)
effect_other s (to_server k bytes) h = rw h (refl, refl)
effect_other s (connects k) h = (refl, refl)
effect_other s (disconnects k) h = (refl, refl)
effect_other s (shuts k) h = (refl, refl)

effects_other :
    (s k : ℕ) (fs : List Effect)
    → (k == s) ≡ false
    → AreAbout k fs
    → (all_at_client s fs ≡ []) × (all_at_server s fs ≡ [])
effects_other s k [] h a = (refl, refl)
effects_other s k (f ∷ fs) h (p, a) =
    let o = effect_other s f (ap (λ x. x == s) p ∙ h) in
    let i = effects_other s k fs h a in (rw (o.0, i.0) refl, rw (o.1, i.1) refl)

module _ (e : Event) (x' : Session) (fs : List Effect) (f g : ℕ → Session) where
  -- A change of the session that an event is about is a change of no other.
  pub every-Changed :
      AreAbout (subject e) fs
      → Changed (subject e) e (f (subject e)) x' fs
      → ((s : ℕ) → g s ≡ (if s == subject e then x' else f s))
      → (s : ℕ) → Changed s e (f s) (g s) fs
  every-Changed a c q s = elim (Bool-cases (s == subject e)) [
    | inl h ↦
        let p : subject e ≡ s = ground arith in
        let r : g s ≡ x' = q s ∙ rw h refl in rw r (subst (λ z. Changed z e (f z) x' fs) p c)
    | inr h ↦
        let r : g s ≡ f s = q s ∙ rw h refl in
        let n : (subject e == s) ≡ false = ground arith in
        let o = event_other s e (is_carrying (f s)) n in
        let i = effects_other s (subject e) fs n a in
        rw r (record {
          client = rw (o.0, i.0) (append-nil (f s).input);
          server = i.1 ∙ sym o.1;
          carrying = sym o.2;
          settled = λ a. a;
        })
  ]

pub same_if : (k : ℕ) (f : ℕ → Session) (s : ℕ) → f s ≡ (if s == k then f k else f s)
same_if k f s = elim (Bool-cases (s == k)) [
  | inl h ↦ let p : s ≡ k = ground arith in rw h (ap f p)
  | inr h ↦ rw h refl
]
