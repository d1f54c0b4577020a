-- ===== src/Net/Poll/Indexes.antt =====
-- arale/net/PollPoller.cc: every channel's index is its place in `pollfds_`.
use arale.Prelude.{
  ℕ, ◌-◌, ◌≡◌, ◌≢◌, ◌<◌, refl, sym, ap, ◌∙◌, Bool, true, false, List, [], ◌∷◌, ◌++◌, Option, some,
  ◌==◌, length, take, arith, Bool-cases, inl, inr, ◌⊎◌, length-take, length-append,
}
use arale.Net.Epoll.{at}
use arale.Net.Poll.Places.{
  get, set, get-set_same, get-set_other, get-take, get-bound, get-append_left, get-append_length,
}
use arale.Net.Poll.{Pollfd, owner}

abbrev pub owners : List Pollfd → List ℕ
owners [] = []
owners (x ∷ xs) = owner x.fd ∷ owners xs

-- A channel that is known stands at its index, and what stands at a place is a known channel with
-- that index.
pub record Indexed (os : List ℕ) (has : ℕ → Bool) (index : ℕ → Option ℕ) : Type 0 where
  pub placed : (fd : ℕ) → has fd ≡ true → (i : ℕ) × (index fd ≡ some i) × (get i os ≡ some fd)
  pub named : (i fd : ℕ) → get i os ≡ some fd → (has fd ≡ true) × (index fd ≡ some i)

at-here : {A : Type 0} (x : ℕ) (a : A) (f : ℕ → A) → at x a f x ≡ a
at-here x a f = let t : (x == x) ≡ true = ground arith in rw t refl

at-other : {A : Type 0} (x y : ℕ) (a : A) (f : ℕ → A) → y ≢ x → at x a f y ≡ f y
at-other x y a f n = let t : (y == x) ≡ false = ground (arith, n) in rw t refl

same-cases : (x y : ℕ) → (x ≡ y) ⊎ (x ≢ y)
same-cases x y = elim (Bool-cases (x == y)) [
  | inl t ↦ inl (ground arith)
  | inr t ↦ inr (λ e. absurd (ground arith))
]

pub not_same : (x y : ℕ) → (x == y) ≡ false → x ≢ y
not_same x y t e = absurd (ground arith)

some_inj : {x y : ℕ} → ◌≡◌ {A = Option ℕ} (some x) (some y) → x ≡ y
some_inj e = cc

pub add-Indexed :
    (fd : ℕ) (os : List ℕ) (has : ℕ → Bool) (index : ℕ → Option ℕ)
    → Indexed os has index
    → has fd ≡ false
    → Indexed (os ++ fd ∷ []) (at fd true has) (at fd (some (length os)) index)
add-Indexed fd os has index v h = record { placed = placed; named = named }
  where
    new_name : (i f : ℕ) → get i os ≡ some f → f ≢ fd
    new_name i f e q = let p = (v.named i f e).0 in absurd (cc (sym p ∙ ap has q ∙ h))

    placed :
        (f : ℕ)
        → at fd true has f ≡ true
        → (i : ℕ) × (at fd (some (length os)) index f ≡ some i) × (get i (os ++ fd ∷ []) ≡ some f)
    placed f e = elim (same-cases f fd) [
      | inl q ↦
          (length os, rw q (at-here fd (some (length os)) index), rw q (get-append_length os fd))
      | inr n ↦
          let (i, k, g) = v.placed f (sym (at-other fd f true has n) ∙ e) in
          (
            i,
            at-other fd f (some (length os)) index n ∙ k,
            get-append_left i os (fd ∷ []) (get-bound i os f g) ∙ g,
          )
    ]

    named :
        (i f : ℕ)
        → get i (os ++ fd ∷ []) ≡ some f
        → (at fd true has f ≡ true) × (at fd (some (length os)) index f ≡ some i)
    named i f e = elim (Bool-cases (i == length os)) [
      | inl t ↦
          let q : i ≡ length os = ground arith in
          let g : get (length os) (os ++ fd ∷ []) ≡ some f =
            ap (λ j. get j (os ++ fd ∷ [])) (sym q) ∙ e in
          let r : f ≡ fd = some_inj (sym g ∙ get-append_length os fd) in
          (rw r (at-here fd true has), rw r (at-here fd (some (length os)) index ∙ ap some (sym q)))
      | inr t ↦
          let b = get-bound i (os ++ fd ∷ []) f e in
          let l : i < length os =
            omega (arith, length-append os (fd ∷ []), not_same i (length os) t) in
          let g : get i os ≡ some f = sym (get-append_left i os (fd ∷ []) l) ∙ e in
          let n = new_name i f g in
          let (p, k) = v.named i f g in
          (at-other fd f true has n ∙ p, at-other fd f (some (length os)) index n ∙ k)
    ]

-- The entry of `fd` at `i` was the last one.
pub drop-Indexed :
    (i fd : ℕ) (os : List ℕ) (has : ℕ → Bool) (index : ℕ → Option ℕ)
    → Indexed os has index
    → get i os ≡ some fd
    → i ≡ length os - 1
    → Indexed (take i os) (at fd false has) index
drop-Indexed i fd os has index v g q = record { placed = placed; named = named }
  where
    placed :
        (f : ℕ)
        → at fd false has f ≡ true
        → (j : ℕ) × (index f ≡ some j) × (get j (take i os) ≡ some f)
    placed f e = elim (same-cases f fd) [
      | inl r ↦ absurd (cc (sym (ap (at fd false has) r ∙ at-here fd false has) ∙ e))
      | inr n ↦
          let (j, k, h) = v.placed f (sym (at-other fd f false has n) ∙ e) in
          let m : j ≢ i = λ r. n (some_inj (sym h ∙ ap (λ j. get j os) r ∙ g)) in
          let b = get-bound j os f h in (j, k, get-take i j os (omega arith) ∙ h)
    ]

    named : (j f : ℕ) → get j (take i os) ≡ some f → (at fd false has f ≡ true) × (index f ≡ some j)
    named j f e =
        let b = get-bound j (take i os) f e in
        let l : j < i = omega (arith, length-take i os) in
        let (p, k) = v.named j f (sym (get-take i j os l) ∙ e) in
        let n : f ≢ fd =
          λ r. let c = some_inj (sym k ∙ ap index r ∙ (v.named i fd g).1) in absurd (omega arith) in
        (at-other fd f false has n ∙ p, k)

-- The last entry takes its place.
pub move-Indexed :
    (i fd w : ℕ) (os : List ℕ) (has : ℕ → Bool) (index : ℕ → Option ℕ)
    → Indexed os has index
    → get i os ≡ some fd
    → get (length os - 1) os ≡ some w
    → i ≢ length os - 1
    → Indexed (take (length os - 1) (set i w os)) (at fd false has) (at w (some i) index)
move-Indexed i fd w os has index v g last d = record { placed = placed; named = named }
  where
    m : ℕ
    m = length os - 1

    moved : List ℕ
    moved = take m (set i w os)

    w_index : index w ≡ some m
    w_index = (v.named m w last).1

    fd_index : index fd ≡ some i
    fd_index = (v.named i fd g).1

    i_bound : i < m
    i_bound = let b = get-bound i os fd g in omega arith

    at_i : get i moved ≡ some w
    at_i = get-take m i (set i w os) i_bound ∙ get-set_same i w os (get-bound i os fd g)

    elsewhere : (j : ℕ) → j < m → j ≢ i → get j moved ≡ get j os
    elsewhere j l n = get-take m j (set i w os) l ∙ get-set_other i j w os n

    placed :
        (f : ℕ)
        → at fd false has f ≡ true
        → (j : ℕ) × (at w (some i) index f ≡ some j) × (get j moved ≡ some f)
    placed f e = elim (same-cases f fd) [
      | inl r ↦ absurd (cc (sym (ap (at fd false has) r ∙ at-here fd false has) ∙ e))
      | inr n ↦ elim (same-cases f w) [
        | inl r ↦ (i, rw r (at-here w (some i) index), rw r at_i)
        | inr o ↦
            let (j, k, h) = v.placed f (sym (at-other fd f false has n) ∙ e) in
            let not_i : j ≢ i = λ r. n (some_inj (sym h ∙ ap (λ j. get j os) r ∙ g)) in
            let not_m : j ≢ m = λ r. o (some_inj (sym h ∙ ap (λ j. get j os) r ∙ last)) in
            let b = get-bound j os f h in
            (j, at-other w f (some i) index o ∙ k, elsewhere j (omega arith) not_i ∙ h)
      ]
    ]

    named :
        (j f : ℕ)
        → get j moved ≡ some f
        → (at fd false has f ≡ true) × (at w (some i) index f ≡ some j)
    named j f e =
        let b = get-bound j moved f e in
        let l : j < m = omega (arith, length-take m (set i w os)) in
        elim (same-cases j i) [
          | inl r ↦
              let q : f ≡ w = some_inj (sym e ∙ ap (λ j. get j moved) r ∙ at_i) in
              let n : w ≢ fd = λ x.
                let c = some_inj (sym w_index ∙ ap index x ∙ fd_index) in absurd (omega arith) in
              (
                rw q (at-other fd w false has n ∙ (v.named m w last).0),
                rw q (at-here w (some i) index ∙ ap some (sym r)),
              )
          | inr o ↦
              let (p, k) = v.named j f (sym (elsewhere j l o) ∙ e) in
              let n : f ≢ fd = λ x. o (some_inj (sym k ∙ ap index x ∙ fd_index)) in
              let u : f ≢ w =
                λ x. let c = some_inj (sym k ∙ ap index x ∙ w_index) in absurd (omega arith) in
              (at-other fd f false has n ∙ p, at-other w f (some i) index u ∙ k)
        ]
