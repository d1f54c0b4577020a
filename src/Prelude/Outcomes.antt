-- ===== src/Prelude/Outcomes.antt =====
-- What a C++ operation does: it returns, or it ends the program's defined behaviour.
use mathlib.Core.Path.{◌≡◌, refl}
use mathlib.Core.Bool.{Bool, true, false}

-- `assertion`: a failed `assert`. `thrown`: an exception of the standard library.
-- `undefined`: the language does not say what happens.
pub data Outcome {ℓ} (A : Type ℓ) : Type ℓ where
  ok : A → Outcome A
  assertion thrown undefined : Outcome A

-- Statements in sequence.
infixl 5 ◌>>=◌ ◌>>◌
abbrev pub ◌>>=◌ {ℓ κ} : {A : Type ℓ} {B : Type κ} → Outcome A → (A → Outcome B) → Outcome B
ok a >>= f = f a
assertion >>= f = assertion
thrown >>= f = thrown
undefined >>= f = undefined

abbrev pub ◌>>◌ {ℓ} : {B : Type ℓ} → Outcome (Unit {0}) → Outcome B → Outcome B
m >> k = m >>= λ _. k

-- `assert(test)`.
abbrev pub assert : Bool → Outcome (Unit {0})
assert true = ok tt
assert false = assertion

-- An access that is defined only where the test holds.
abbrev pub access : Bool → Outcome (Unit {0})
access true = ok tt
access false = undefined

-- A sequence that returns has returned from its first part, and from the second on its value.
pub record Passes {ℓ κ} {A : Type ℓ} {B : Type κ} (m : Outcome A) (f : A → Outcome B) (b : B)
    : Type (ℓ ⊔ κ) where
  pub between : A
  pub first : m ≡ ok between
  pub second : f between ≡ ok b

pub >>=-Passes {ℓ κ} :
    {A : Type ℓ} {B : Type κ} {b : B} (f : A → Outcome B) (m : Outcome A)
    → (m >>= f) ≡ ok b
    → Passes m f b
>>=-Passes f (ok a) e = record { between = a; first = refl; second = e }
>>=-Passes f assertion e = cc
>>=-Passes f thrown e = cc
>>=-Passes f undefined e = cc

-- Two functions of a value that is returned, one after the other.
pub >>=-ok {ℓ κ μ} :
    {A : Type ℓ} {B : Type κ} {C : Type μ} (o : Outcome A) (f : A → B) (g : B → C)
    → ((o >>= λ a. ok (f a)) >>= λ b. ok (g b)) ≡ (o >>= λ a. ok (g (f a)))
>>=-ok (ok a) f g = refl
>>=-ok assertion f g = refl
>>=-ok thrown f g = refl
>>=-ok undefined f g = refl

-- What holds of a value, if one is returned.
abbrev pub Ensures {ℓ κ} : {A : Type ℓ} → (A → Type κ) → Outcome A → Type κ
Ensures P (ok a) = P a
Ensures P assertion = Unit
Ensures P thrown = Unit
Ensures P undefined = Unit

pub Ensures->>= {ℓ κ μ ν} :
    {A : Type ℓ} {B : Type κ} (P : A → Type μ) (Q : B → Type ν) (o : Outcome A) (f : A → Outcome B)
    → Ensures P o
    → ((a : A) → P a → Ensures Q (f a))
    → Ensures Q (o >>= f)
Ensures->>= P Q (ok a) f h k = k a h
Ensures->>= P Q assertion f h k = tt
Ensures->>= P Q thrown f h k = tt
Ensures->>= P Q undefined f h k = tt

pub Ensures-assert {ℓ κ} :
    {A : Type ℓ} (Q : A → Type κ) (b : Bool) (o : Outcome A)
    → (b ≡ true → Ensures Q o)
    → Ensures Q (assert b >> o)
Ensures-assert Q true o k = k refl
Ensures-assert Q false o k = tt

pub Ensures-all {ℓ κ} :
    {A : Type ℓ} (P : A → Type κ) (o : Outcome A) → ((a : A) → P a) → Ensures P o
Ensures-all P (ok a) h = h a
Ensures-all P assertion h = tt
Ensures-all P thrown h = tt
Ensures-all P undefined h = tt

pub Ensures-any {ℓ} : {A : Type ℓ} (o : Outcome A) → Ensures (λ a. Unit {0}) o
Ensures-any o = Ensures-all (λ a. Unit) o (λ a. tt)
