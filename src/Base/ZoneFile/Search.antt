-- ===== src/Base/ZoneFile/Search.antt =====
-- TimeZone.cc, `findLocaltime`, against the transition that it is to find.
use arale.Prelude.{
  ℤ, ℕ, ◌≡◌, refl, sym, ap, ◌∙◌, Bool, true, false, List, [], ◌∷◌, ok, ◌>>=◌, if◌then◌else◌,
  Bool-cases, inl, inr,
}
use arale.Base.Integer.{add, sub-add, less-false, less-other, less-same, same-less}
use arale.Base.ZoneFile.{
  Transition, Localtime, Zone, time_of, comp, equal, lower_bound, localtime_at, at_bound,
  is_before_all, find_localtime, fixed_zone, to_local_time, from_local_time,
}

-- The index of the last transition that is not after the time, and `i` if there is none.
abbrev pub chosen : Bool → Transition → ℕ → List Transition → ℕ
chosen gmt sentry i [] = i
chosen gmt sentry i (t ∷ ts) = if comp gmt sentry t then i else chosen gmt sentry t.localtime_idx ts

-- The times of the transitions grow.
abbrev pub Grows : Bool → List Transition → Type 0
Grows gmt [] = Unit
Grows gmt (t ∷ []) = Unit
Grows gmt (t ∷ u ∷ ts) = (comp gmt t u ≡ true) × Grows gmt (u ∷ ts)

Grows-tail :
    (gmt : Bool) (t : Transition) (ts : List Transition) → Grows gmt (t ∷ ts) → Grows gmt ts
Grows-tail gmt t [] g = tt
Grows-tail gmt t (u ∷ ts) g = g.1

-- A transition at the time itself is the last one.
chosen-equal :
    (gmt : Bool) (s t : Transition) (ts : List Transition)
    → Grows gmt (t ∷ ts)
    → equal gmt s t ≡ true
    → chosen gmt s t.localtime_idx ts ≡ t.localtime_idx
chosen-equal gmt s t [] g e = refl
chosen-equal gmt s t (u ∷ ts) g e =
    let l = sym (less-same (time_of gmt s) (time_of gmt t) (time_of gmt u) e) ∙ g.0 in rw l refl

at_bound-chosen :
    (gmt : Bool) (s b : Transition) (ls : List Localtime) (before ts : List Transition)
    → Grows gmt ts
    → at_bound gmt s ls (lower_bound gmt s (b ∷ before) ts)
      ≡ localtime_at (chosen gmt s b.localtime_idx ts) ls
unfolding at_bound lower_bound
at_bound-chosen gmt s b ls before [] g = refl
at_bound-chosen gmt s b ls before (t ∷ ts) g = elim (Bool-cases (comp gmt t s)) [
  | inl l ↦
      let n = less-false (time_of gmt t) (time_of gmt s) l in
      rw (l, n) (at_bound-chosen gmt s t ls (b ∷ before) ts (Grows-tail gmt t ts g))
  | inr l ↦ elim (Bool-cases (equal gmt s t)) [
    | inl e ↦
        let n = same-less (time_of gmt s) (time_of gmt t) e in
        rw (l, n)
          (rw (at_bound, e) (ap (λ i. localtime_at i ls) (sym (chosen-equal gmt s t ts g e))))
    | inr e ↦
        let n = less-other (time_of gmt t) (time_of gmt s) l e in rw (l, n) (rw (at_bound, e) refl)
  ]
]

first-chosen :
    (gmt : Bool) (s t : Transition) (ls : List Localtime) (ts : List Transition)
    → Grows gmt (t ∷ ts)
    → comp gmt s t ≡ false
    → at_bound gmt s ls (lower_bound gmt s [] (t ∷ ts))
      ≡ localtime_at (chosen gmt s t.localtime_idx ts) ls
unfolding at_bound lower_bound
first-chosen gmt s t ls ts g k = elim (Bool-cases (comp gmt t s)) [
  | inl l ↦ rw l (at_bound-chosen gmt s t ls [] ts (Grows-tail gmt t ts g))
  | inr l ↦ elim (Bool-cases (equal gmt s t)) [
    | inl e ↦
        rw l (rw (at_bound, e) (ap (λ i. localtime_at i ls) (sym (chosen-equal gmt s t ts g e))))
    | inr e ↦ let n = less-other (time_of gmt t) (time_of gmt s) l e in absurd (cc (sym n ∙ k))
  ]
]

-- On transitions whose compared times grow, findLocaltime does what reading the local time at the
-- index of the last transition that is not after the time does, or at index 0 where there is none,
-- an index that is out of range included.
pub find_localtime-chosen :
    (gmt : Bool) (s : Transition) (z : Zone)
    → Grows gmt z.transitions
    → find_localtime z s gmt ≡ localtime_at (chosen gmt s 0 z.transitions) z.localtimes
unfolding find_localtime
find_localtime-chosen gmt s z g = go z.transitions g
  where
    go :
        (ts : List Transition)
        → Grows gmt ts
        → (elim (is_before_all gmt s ts) [
          | true ↦ localtime_at 0 z.localtimes
          | false ↦ at_bound gmt s z.localtimes (lower_bound gmt s [] ts)
        ])
          ≡ localtime_at (chosen gmt s 0 ts) z.localtimes
    go [] g = refl
    go (t ∷ ts) g = elim (Bool-cases (comp gmt s t)) [
      | inl k ↦ rw k refl
      | inr k ↦ rw k (first-chosen gmt s t z.localtimes ts g k)
    ]

-- With a timegm that is inverse to gmtime_r, fromLocalTime of what toLocalTime makes of a time in
-- a zone of a fixed offset returns the time.
from_local_time-to_local_time :
    {A : Type 0} (gmtime_r : ℤ → A) (timegm : A → ℤ) (hour_minute : A → ℕ × ℕ) (offset : ℤ)
    (name : List ℕ) (seconds : ℤ)
    → ((t : ℤ) → timegm (gmtime_r t) ≡ t)
    → (to_local_time gmtime_r timegm hour_minute (fixed_zone offset name) seconds
        >>= from_local_time gmtime_r timegm hour_minute (fixed_zone offset name))
      ≡ ok seconds
unfolding to_local_time from_local_time find_localtime localtime_at
from_local_time-to_local_time gmtime_r timegm hour_minute offset name seconds inverse =
    rw (inverse (add seconds offset)) (ap ok (sub-add seconds offset))
