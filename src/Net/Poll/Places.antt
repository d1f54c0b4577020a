-- ===== src/Net/Poll/Places.antt =====
-- A vector's elements by their index, as arale/net/PollPoller.cc uses `pollfds_`.
use arale.Prelude.{
  ℕ, zero, suc, ◌≡◌, ◌≢◌, ◌<◌, ◌≤◌, refl, ap, List, [], ◌∷◌, ◌++◌, Option, none, some, length, take,
  arith,
}

module _ {ℓ} {A : Type ℓ} where
  abbrev pub get : ℕ → List A → Option A
  get i [] = none
  get zero (x ∷ xs) = some x
  get (suc i) (x ∷ xs) = get i xs

  abbrev pub set : ℕ → A → List A → List A
  set i a [] = []
  set zero a (x ∷ xs) = a ∷ xs
  set (suc i) a (x ∷ xs) = x ∷ set i a xs

  pub get-set_same : (i : ℕ) (a : A) (xs : List A) → i < length xs → get i (set i a xs) ≡ some a
  get-set_same i a [] h = absurd (omega arith)
  get-set_same zero a (x ∷ xs) h = refl
  get-set_same (suc i) a (x ∷ xs) h = get-set_same i a xs (omega arith)

  pub get-set_other : (i j : ℕ) (a : A) (xs : List A) → j ≢ i → get j (set i a xs) ≡ get j xs
  get-set_other i j a [] n = refl
  get-set_other zero zero a (x ∷ xs) n = absurd (n refl)
  get-set_other zero (suc j) a (x ∷ xs) n = refl
  get-set_other (suc i) zero a (x ∷ xs) n = refl
  get-set_other (suc i) (suc j) a (x ∷ xs) n = get-set_other i j a xs (λ e. n (ap suc e))

  pub get-take : (n j : ℕ) (xs : List A) → j < n → get j (take n xs) ≡ get j xs
  get-take zero j xs h = absurd (omega arith)
  get-take (suc n) j [] h = refl
  get-take (suc n) zero (x ∷ xs) h = refl
  get-take (suc n) (suc j) (x ∷ xs) h = get-take n j xs (omega arith)

  pub get-none : (j : ℕ) (xs : List A) → length xs ≤ j → get j xs ≡ none
  get-none j [] h = refl
  get-none zero (x ∷ xs) h = absurd (omega arith)
  get-none (suc j) (x ∷ xs) h = get-none j xs (omega arith)

  pub get-bound : (j : ℕ) (xs : List A) (a : A) → get j xs ≡ some a → j < length xs
  get-bound j [] a e = cc
  get-bound zero (x ∷ xs) a e = omega arith
  get-bound (suc j) (x ∷ xs) a e = let i = get-bound j xs a e in omega arith

  pub get-append_left : (j : ℕ) (xs ys : List A) → j < length xs → get j (xs ++ ys) ≡ get j xs
  get-append_left j [] ys h = absurd (omega arith)
  get-append_left zero (x ∷ xs) ys h = refl
  get-append_left (suc j) (x ∷ xs) ys h = get-append_left j xs ys (omega arith)

  pub get-append_length : (xs : List A) (a : A) → get (length xs) (xs ++ a ∷ []) ≡ some a
  get-append_length [] a = refl
  get-append_length (x ∷ xs) a = get-append_length xs a
