-- ===== src/Examples/Idle/Ring.antt =====
-- Echo.cc: when a connection that is silent is shut down.
use arale.Prelude.{
  ℕ, zero, suc, ◌≡◌, ◌≤◌, refl, sym, ap, ◌∙◌, Bool, true, false, ◌||◌, List, [], ◌∷◌, ◌++◌,
  append-nil, append_assoc, ok, ◌==◌, length, drop, replicate, arith, Bool-cases, inl, inr,
  length-append, drop-append_left, drop_all,
}
use arale.Examples.Idle.{Bucket, has, insert, held, insert_back, gone, on_timer, seconds}

seconds-drop :
    (k : ℕ) (bs : List Bucket) → k ≤ length bs → seconds k bs ≡ drop k bs ++ replicate k []
unfolding seconds on_timer
seconds-drop zero bs h = sym (append-nil bs)
seconds-drop (suc k) [] h = absurd (omega arith)
seconds-drop (suc k) (b ∷ bs) h =
    seconds-drop k (bs ++ [] ∷ []) (omega (arith, length-append bs ([] ∷ [])))
    ∙ ap (λ l. l ++ replicate k []) (drop-append_left k bs ([] ∷ []) (omega arith))
    ∙ append_assoc (drop k bs) ([] ∷ []) (replicate k [])

has-insert : (c : ℕ) (b : Bucket) → has c (insert c b) ≡ true
has-insert c b = elim (Bool-cases (has c b)) [
  | inl e ↦ rw e e
  | inr e ↦ let t : (c == c) ≡ true = ground arith in rw e (rw t refl)
]

insert_back-append :
    (c : ℕ) (front : List Bucket) (last : Bucket)
    → insert_back c (front ++ last ∷ []) ≡ ok (front ++ insert c last ∷ [])
unfolding insert_back
insert_back-append c [] last = refl
insert_back-append c (b ∷ []) last = refl
insert_back-append c (b ∷ d ∷ bs) last = rw (insert_back-append c (d ∷ bs) last) refl

held-append : (c : ℕ) (front bs : List Bucket) → held c bs ≡ true → held c (front ++ bs) ≡ true
held-append c [] bs h = h
held-append c (b ∷ front) bs h = rw (held-append c front bs h) (or_true (has c b))
  where
    or_true : (x : Bool) → (x || true) ≡ true
    or_true x = ground arith

held-front : (c : ℕ) (front bs : List Bucket) → held c front ≡ true → held c (front ++ bs) ≡ true
held-front c [] bs h = cc
held-front c (b ∷ front) bs h = elim (Bool-cases (has c b)) [
  | inl e ↦ rw e refl
  | inr e ↦ rw e (held-front c front bs (ground arith))
]

held-empty : (c k : ℕ) → held c (replicate k []) ≡ false
held-empty c zero = refl
held-empty c (suc k) = held-empty c k

has-gone :
    (c : ℕ) (b : Bucket) (rest : List Bucket)
    → has c b ≡ true
    → held c rest ≡ false
    → has c (gone b rest) ≡ true
has-gone c [] rest h e = cc
has-gone c (d ∷ ds) rest h e = elim (Bool-cases (d == c)) [
  | inl q ↦
      let r : d ≡ c = ground arith in
      let f : held d rest ≡ false = ap (λ x. held x rest) r ∙ e in rw f (rw q refl)
  | inr q ↦
      let i = has-gone c ds rest (ground arith) e in
      elim (Bool-cases (held d rest)) [ inl f ↦ rw f i | inr f ↦ rw f (rw q i) ]
]

-- Of a ring with the buckets `front` and then `last`, with a connection in the last one.
pub record Idles (c : ℕ) (front : List Bucket) (ring : List Bucket) : Type 0 where
  pub lives : (k : ℕ) → k ≤ length front → held c (seconds k ring) ≡ true
  pub shut : has c (on_timer (seconds (length front) ring)).1 ≡ true
  pub cleared : seconds (suc (length front)) ring ≡ replicate (suc (length front)) []

-- A connection that is put into the last bucket of a ring and then silent keeps its entry for as
-- many seconds as there are other buckets, is shut down by the next one, and then the ring is
-- empty where nothing else is put in.
pub insert_back-Idles :
    (c : ℕ) (front : List Bucket) (last : Bucket)
    → (ring : List Bucket) × (insert_back c (front ++ last ∷ []) ≡ ok ring) × Idles c front ring
unfolding on_timer
insert_back-Idles c front last =
    let b = insert c last in
    let ring = front ++ b ∷ [] in
    let n = length-append front (b ∷ []) in
    let here : held c (b ∷ []) ≡ true = rw (has-insert c last) refl in
    let whole : drop (length front) ring ≡ b ∷ [] =
      drop-append_left (length front) front (b ∷ []) (omega arith)
      ∙ ap (λ l. l ++ b ∷ []) (drop_all (length front) front (omega arith)) in
    let at_end =
      seconds-drop (length front) ring (omega arith)
      ∙ ap (λ l. l ++ replicate (length front) []) whole in
    (
      ring,
      insert_back-append c front last,
      record {
        lives = λ k h.
            ap (held c) (
              seconds-drop k ring (omega arith)
              ∙ ap (λ l. l ++ replicate k []) (drop-append_left k front (b ∷ []) h))
            ∙ held-front c (drop k front ++ b ∷ []) (replicate k [])
                (held-append c (drop k front) (b ∷ []) here);
        shut =
            ap (λ l. has c (on_timer l).1) at_end
            ∙ has-gone c b (replicate (length front) []) (has-insert c last)
                (held-empty c (length front));
        cleared =
            seconds-drop (suc (length front)) ring (omega arith)
            ∙ ap (λ l. l ++ replicate (suc (length front)) [])
                (drop_all (suc (length front)) ring (omega arith));
      },
    )
