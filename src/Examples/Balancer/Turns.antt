-- ===== src/Examples/Balancer/Turns.antt =====
-- Balancer.cc: the backends take turns, but for the first that is named.
use arale.Prelude.{ℕ, ◌≡◌, Bool, true, false, List, [], ◌∷◌}
use arale.Net.Epoll.{at}
use arale.Examples.Balancer.{Backend, Balancer, Effect, connects}

abbrev pub AreNew : List ℕ → (ℕ → Bool) → Type 0
AreNew [] tunnels = Unit
AreNew (c ∷ cs) tunnels = (tunnels c ≡ false) × AreNew cs (at c true tunnels)

-- Each connection with a backend, as long as there are both.
abbrev pub pair_up : List ℕ → List Backend → List Effect
pair_up [] bs = []
pair_up (c ∷ cs) [] = []
pair_up (c ∷ cs) (b ∷ bs) = connects c b ∷ pair_up cs bs

abbrev pub tunnels_after : List ℕ → (ℕ → Bool) → ℕ → Bool
tunnels_after [] tunnels = tunnels
tunnels_after (c ∷ cs) tunnels = tunnels_after cs (at c true tunnels)
