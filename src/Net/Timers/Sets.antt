-- ===== src/Net/Timers/Sets.antt =====
-- What arale/net/TimerQueue.cc uses of `std::set<std::pair<..>>`: a list in the order of two numbers
-- of its elements.
use arale.Prelude.{ℕ, Bool, false, ◌&&◌, ◌||◌, List, [], ◌∷◌, ltb, ◌==◌, if◌then◌else◌}

-- `operator<` of the pairs, and what it takes for equal.
abbrev pub before {ℓ} : {A : Type ℓ} → (A → ℕ) → (A → ℕ) → A → A → Bool
before p q x y = ltb (p x) (p y) || (p x == p y && ltb (q x) (q y))

abbrev pub same {ℓ} : {A : Type ℓ} → (A → ℕ) → (A → ℕ) → A → A → Bool
same p q x y = p x == p y && q x == q y

-- `find(e) != end()`, which is the count as well that `erase(e)` returns.
unfoldable pub contains {ℓ} : {A : Type ℓ} → (A → ℕ) → (A → ℕ) → A → List A → Bool
contains p q e [] = false
contains p q e (x ∷ xs) = same p q e x || contains p q e xs

-- `insert(e)`.
unfoldable pub put {ℓ} : {A : Type ℓ} → (A → ℕ) → (A → ℕ) → A → List A → List A
put p q e [] = e ∷ []
put p q e (x ∷ xs) =
    if before p q e x then e ∷ x ∷ xs else if before p q x e then x ∷ put p q e xs else x ∷ xs

-- `erase(e)`.
unfoldable pub remove {ℓ} : {A : Type ℓ} → (A → ℕ) → (A → ℕ) → A → List A → List A
remove p q e [] = []
remove p q e (x ∷ xs) = if same p q e x then xs else x ∷ remove p q e xs
