-- ===== src/Net/Timers/Order.antt =====
-- The sets of arale/net/TimerQueue.cc: order, and what insertion and erasure do to the elements.
use mathlib.Core.Logic.Or
use mathlib.Core.List.{Mem, Perm, Permᴰ, mem-cons, mem-cons_self, not-mem-nil}
use mathlib.Core.Bool.{Bool-set}
use mathlib.Core.Logic.{∥∥₁_elim}
use native.Mathlib.Nat.{ℕ_set}
use mathlib.Core.List.Perm
use arale.Prelude.{
  ℕ, suc, ◌≡◌, refl, ap, ◌∙◌, Bool, true, false, ◌||◌, List, [], ◌∷◌, length, Bool-cases, inl, inr,
  arith,
}
use arale.Net.Timers.Sets.{before, same, contains, put, remove}

abbrev pub Below {ℓ} : {A : Type ℓ} → (A → ℕ) → (A → ℕ) → A → List A → Type 0
Below p q x [] = Unit
Below p q x (y ∷ ys) = (before p q x y ≡ true) × Below p q x ys

-- Strictly, as a set is.
abbrev pub Sorted {ℓ} : {A : Type ℓ} → (A → ℕ) → (A → ℕ) → List A → Type 0
Sorted p q [] = Unit
Sorted p q (x ∷ xs) = Below p q x xs × Sorted p q xs

module _ {ℓ} {A : Type ℓ} (p q : A → ℕ) where
  before_trans : (x y z : A) → before p q x y ≡ true → before p q y z ≡ true → before p q x z ≡ true
  before_trans x y z h k = ground arith

  before-total : (x y : A) → before p q x y ≡ false → before p q y x ≡ false → same p q x y ≡ true
  before-total x y h k = ground arith

  Below-trans : (x y : A) (zs : List A) → before p q x y ≡ true → Below p q y zs → Below p q x zs
  Below-trans x y [] h b = tt
  Below-trans x y (z ∷ zs) h b = (before_trans x y z h b.0, Below-trans x y zs h b.1)

  Below-put :
      (x e : A) (ys : List A) → before p q x e ≡ true → Below p q x ys → Below p q x (put p q e ys)
  unfolding put
  Below-put x e [] h b = (h, tt)
  Below-put x e (y ∷ ys) h b = elim (Bool-cases (before p q e y)) [
    | inl k ↦ rw k (h, b)
    | inr k ↦ elim (Bool-cases (before p q y e)) [
      | inl l ↦ rw (k, l) (b.0, Below-put x e ys h b.1)
      | inr l ↦ rw (k, l) b
    ]
  ]

  pub put-Sorted :
      (e : A) (xs : List A) → contains p q e xs ≡ false → Sorted p q xs → Sorted p q (put p q e xs)
  unfolding put contains
  put-Sorted e [] h s = (tt, tt)
  put-Sorted e (x ∷ xs) h s = elim (Bool-cases (before p q e x)) [
    | inl k ↦ rw k ((k, Below-trans e x xs k s.0), s)
    | inr k ↦ elim (Bool-cases (before p q x e)) [
      | inl l ↦ rw (k, l) (Below-put x e xs l s.0, put-Sorted e xs (rest (same p q e x) h) s.1)
      | inr l ↦ rw (k, l) s
    ]
  ]
    where
      rest : (b : Bool) {c : Bool} → (b || c) ≡ false → c ≡ false
      rest b k = ground arith

  pub put-Perm : (e : A) (xs : List A) → contains p q e xs ≡ false → Perm (put p q e xs) (e ∷ xs)
  unfolding put contains
  put-Perm e [] h = Perm.refl (e ∷ [])
  put-Perm e (x ∷ xs) h = elim (Bool-cases (before p q e x)) [
    | inl k ↦ rw k (Perm.refl (e ∷ x ∷ xs))
    | inr k ↦ elim (Bool-cases (before p q x e)) [
      | inl l ↦
          rw (k, l) (Perm.trans (Perm.cons x (put-Perm e xs (ground arith))) (Perm.swap e x xs))
      | inr l ↦ let s = before-total e x k l in absurd (ground arith)
    ]
  ]

  Below-Mem : (x e : A) (ys : List A) → Below p q x ys → Mem e ys → before p q x e ≡ true
  Below-Mem x e [] b m = absurd (not-mem-nil m)
  Below-Mem x e (y ∷ ys) b m =
      Or.elim (Bool-set _ _) (mem-cons.0 m) (λ k. rw k b.0) (λ k. Below-Mem x e ys b.1 k)

  same_refl : (x : A) → same p q x x ≡ true
  same_refl x = ground arith

  before-same : (x y : A) → before p q x y ≡ true → same p q y x ≡ false
  before-same x y h = ground arith

  contains-Mem : (e : A) (xs : List A) → Mem e xs → contains p q e xs ≡ true
  unfolding contains
  contains-Mem e [] m = absurd (not-mem-nil m)
  contains-Mem e (x ∷ xs) m =
      Or.elim (Bool-set _ _) (mem-cons.0 m) (λ k. rw⁻¹ k (rw (same_refl e) refl))
        (λ k. rw (contains-Mem e xs k) (Bool-or (same p q e x)))
    where
      Bool-or : (b : Bool) → (b || true) ≡ true
      Bool-or b = ground arith

  Below-remove : (x e : A) (ys : List A) → Below p q x ys → Below p q x (remove p q e ys)
  unfolding remove
  Below-remove x e [] b = tt
  Below-remove x e (y ∷ ys) b = elim (Bool-cases (same p q e y)) [
    | inl k ↦ rw k b.1
    | inr k ↦ rw k (b.0, Below-remove x e ys b.1)
  ]

  pub remove-Sorted : (e : A) (ys : List A) → Sorted p q ys → Sorted p q (remove p q e ys)
  unfolding remove
  remove-Sorted e [] s = tt
  remove-Sorted e (y ∷ ys) s = elim (Bool-cases (same p q e y)) [
    | inl k ↦ rw k s.1
    | inr k ↦ rw k (Below-remove y e ys s.0, remove-Sorted e ys s.1)
  ]

  remove-Mem : (e : A) (ys : List A) → Sorted p q ys → Mem e ys → Perm ys (e ∷ remove p q e ys)
  unfolding remove
  remove-Mem e [] s m = absurd (not-mem-nil m)
  remove-Mem e (y ∷ ys) s m =
      Or.elim (hlevel) (mem-cons.0 m) first (λ k. other k (remove-Mem e ys s.1 k))
    where
      first : e ≡ y → Perm (y ∷ ys) (e ∷ remove p q e (y ∷ ys))
      first k = rw⁻¹ k (rw (same_refl e) (Perm.refl (e ∷ ys)))

      other : Mem e ys → Perm ys (e ∷ remove p q e ys) → Perm (y ∷ ys) (e ∷ remove p q e (y ∷ ys))
      other k i =
          rw (before-same y e (Below-Mem y e ys s.0 k))
            (Perm.trans (Perm.cons y i) (Perm.swap e y _))

  -- A set with an element has it at its key, and erasing the key leaves the others.
  pub contains-Perm : (e : A) (zs ys : List A) → Perm (e ∷ zs) ys → contains p q e ys ≡ true
  contains-Perm e zs ys h = contains-Mem e ys ((Perm.mem_iff h).0 mem-cons_self)

  pub remove-Perm :
      (e : A) (zs ys : List A) → Sorted p q ys → Perm (e ∷ zs) ys → Perm zs (remove p q e ys)
  remove-Perm e zs ys s h =
      Perm.cons_inv (Perm.trans h (remove-Mem e ys s ((Perm.mem_iff h).0 mem-cons_self)))

length-Permᴰ {ℓ} : {A : Type ℓ} {xs ys : List A} → Permᴰ xs ys → length xs ≡ length ys
length-Permᴰ Permᴰ.nil = refl
length-Permᴰ (Permᴰ.cons e d) = ap suc (length-Permᴰ d)
length-Permᴰ (Permᴰ.swap e f) = refl
length-Permᴰ (Permᴰ.trans d e) = length-Permᴰ d ∙ length-Permᴰ e

pub length-Perm {ℓ} : {A : Type ℓ} {xs ys : List A} → Perm xs ys → length xs ≡ length ys
length-Perm h = ∥∥₁_elim h (ℕ_set _ _) length-Permᴰ
