-- ===== src/Net/Poll/Runs.antt =====
-- arale/net/PollPoller.cc: calls one after another, and a channel that was disabled.
use arale.Prelude.{
  ℕ, zero, suc, ◌-◌, ◌≡◌, ◌≢◌, refl, sym, ap, ◌∙◌, subst, ℤ, pos, negsuc, true, false, ◌||◌, List,
  [], ◌∷◌, ◌++◌, some, ◌==◌, length, take, ltb, arith, Bool-cases, Option-cases, inl, inr, Ensures,
  Ensures->>=,
}
use arale.Net.Channel.{Events}
use arale.Net.Epoll.{at, is_none}
use arale.Net.Poll.Places.{get, set}
use arale.Net.Poll.Indexes.{owners, Indexed, add-Indexed, drop-Indexed, move-Indexed, not_same}
use arale.Net.Poll.{
  Pollfd, no_revents, Poller, is_fd, is_negated, owner, add_channel, changed, change_channel,
  update_channel, move_last, remove_channel, Call, updates, removes, run,
}

abbrev pub IsIndexed : Poller → Type 0
IsIndexed p = Indexed (owners p.pollfds) p.has p.index

pub length-owners : (xs : List Pollfd) → length (owners xs) ≡ length xs
length-owners [] = refl
length-owners (x ∷ xs) = ap suc (length-owners xs)

owners-append :
    (xs : List Pollfd) (x : Pollfd) → owners (xs ++ x ∷ []) ≡ owners xs ++ owner x.fd ∷ []
owners-append [] x = refl
owners-append (y ∷ xs) x = ap (λ l. owner y.fd ∷ l) (owners-append xs x)

owners-take : (n : ℕ) (xs : List Pollfd) → owners (take n xs) ≡ take n (owners xs)
owners-take zero xs = refl
owners-take (suc n) [] = refl
owners-take (suc n) (x ∷ xs) = ap (λ l. owner x.fd ∷ l) (owners-take n xs)

owners-set :
    (i : ℕ) (x : Pollfd) (xs : List Pollfd) → owners (set i x xs) ≡ set i (owner x.fd) (owners xs)
owners-set i x [] = refl
owners-set zero x (y ∷ xs) = refl
owners-set (suc i) x (y ∷ xs) = ap (λ l. owner y.fd ∷ l) (owners-set i x xs)

pub get-owners :
    (i : ℕ) (x : Pollfd) (xs : List Pollfd)
    → get i xs ≡ some x
    → get i (owners xs) ≡ some (owner x.fd)
get-owners i x [] e = cc
get-owners zero x (y ∷ xs) e = let q : y ≡ x = cc in ap (λ z. some (owner z.fd)) q
get-owners (suc i) x (y ∷ xs) e = get-owners i x xs e

set_same : (i a : ℕ) (xs : List ℕ) → get i xs ≡ some a → set i a xs ≡ xs
set_same i a [] e = refl
set_same zero a (x ∷ xs) e = let q : x ≡ a = cc in ap (λ b. b ∷ xs) (sym q)
set_same (suc i) a (x ∷ xs) e = ap (λ l. x ∷ l) (set_same i a xs e)

owner-is_fd : (z : ℤ) (fd : ℕ) → (is_fd z fd || is_negated z fd) ≡ true → owner z ≡ fd
owner-is_fd (pos m) fd e = ground arith
owner-is_fd (negsuc m) fd e = ground arith

owner-changed :
    (fd : ℕ) (e : Events) (x : Pollfd) → owner x.fd ≡ fd → owner (changed fd e x).fd ≡ owner x.fd
owner-changed fd e x q = elim (Bool-cases (is_none e)) [ inl t ↦ rw t (sym q) | inr t ↦ rw t refl ]

add_channel-IsIndexed :
    (fd : ℕ) (e : Events) (p : Poller) → IsIndexed p → Ensures IsIndexed (add_channel fd e p)
unfolding add_channel
add_channel-IsIndexed fd e p v = elim (Bool-cases (p.has fd)) [
  | inl t ↦ rw t tt
  | inr t ↦
      let i = add-Indexed fd (owners p.pollfds) p.has p.index v t in
      rw t (
        subst (λ os. Indexed os (at fd true p.has) (at fd (some (length p.pollfds)) p.index))
          (sym (owners-append p.pollfds (record { fd = pos fd; events = e; revents = no_revents })))
          (subst
            (λ n. Indexed (owners p.pollfds ++ fd ∷ []) (at fd true p.has) (at fd (some n) p.index))
            (length-owners p.pollfds) i))
]

change_channel-IsIndexed :
    (i fd : ℕ) (e : Events) (p : Poller) → IsIndexed p → Ensures IsIndexed (change_channel i fd e p)
unfolding change_channel
change_channel-IsIndexed i fd e p v = elim (Bool-cases (p.has fd)) [
  | inr t ↦ rw t tt
  | inl t ↦ elim (Option-cases (get i p.pollfds)) [
    | inl g ↦ rw (t, g) tt
    | inr (x, g) ↦ elim (Bool-cases (is_fd x.fd fd || is_negated x.fd fd)) [
      | inr u ↦ rw (t, g) (rw u tt)
      | inl u ↦
          let same : owners (set i (changed fd e x) p.pollfds) ≡ owners p.pollfds =
            owners-set i (changed fd e x) p.pollfds
            ∙ ap (λ o. set i o (owners p.pollfds)) (owner-changed fd e x (owner-is_fd x.fd fd u))
            ∙ set_same i (owner x.fd) (owners p.pollfds) (get-owners i x p.pollfds g) in
          rw (t, g) (rw u (subst (λ os. Indexed os p.has p.index) (sym same) v))
    ]
  ]
]

pub update_channel-IsIndexed :
    (fd : ℕ) (e : Events) (p : Poller) → IsIndexed p → Ensures IsIndexed (update_channel fd e p)
unfolding update_channel
update_channel-IsIndexed fd e p v = elim (Option-cases (p.index fd)) [
  | inl g ↦ rw (update_channel, g) (add_channel-IsIndexed fd e p v)
  | inr (i, g) ↦ rw (update_channel, g) (change_channel-IsIndexed i fd e p v)
]

owners-moved :
    (i n : ℕ) (x : Pollfd) (xs : List Pollfd)
    → owners (take n (set i x xs)) ≡ take n (set i (owner x.fd) (owners xs))
owners-moved i n x xs = owners-take n (set i x xs) ∙ ap (take n) (owners-set i x xs)

-- With the places of `fd` and of its entry.
move_last-IsIndexed :
    (i fd : ℕ) (p : Poller)
    → IsIndexed p
    → get i (owners p.pollfds) ≡ some fd
    → Ensures IsIndexed (move_last i (record p { has = at fd false p.has }))
unfolding move_last
move_last-IsIndexed i fd p v g = elim (Option-cases (get (length p.pollfds - 1) p.pollfds)) [
  | inl l ↦ rw (move_last, l) tt
  | inr (x, l) ↦
      let n = length-owners p.pollfds in
      elim (Bool-cases (i == length p.pollfds - 1)) [
        | inl t ↦
            let q : i ≡ length (owners p.pollfds) - 1 = ground arith in
            let r : i ≡ length p.pollfds - 1 = ground arith in
            rw (move_last, l)
              (rw t (
                subst (λ os. Indexed os (at fd false p.has) p.index)
                  (sym (owners-take (length p.pollfds - 1) p.pollfds))
                  (subst (λ m. Indexed (take m (owners p.pollfds)) (at fd false p.has) p.index) r
                    (drop-Indexed i fd (owners p.pollfds) p.has p.index v g q))))
        | inr t ↦ elim (Bool-cases (at fd false p.has (owner x.fd))) [
          | inr h ↦ rw (move_last, l) (rw t (rw h tt))
          | inl h ↦
              let w : get (length (owners p.pollfds) - 1) (owners p.pollfds) ≡ some (owner x.fd) =
                ap (λ m. get (m - 1) (owners p.pollfds)) n
                ∙ get-owners (length p.pollfds - 1) x p.pollfds l in
              let d : i ≢ length (owners p.pollfds) - 1 =
                λ e. not_same i (length p.pollfds - 1) t (e ∙ ap (λ m. m - 1) n) in
              rw (move_last, l)
                (rw t (
                  rw h (
                    subst (λ os. Indexed os (at fd false p.has) (at (owner x.fd) (some i) p.index))
                      (sym (owners-moved i (length p.pollfds - 1) x p.pollfds))
                      (subst
                        (λ m.
                          Indexed (take (m - 1) (set i (owner x.fd) (owners p.pollfds)))
                            (at fd false p.has) (at (owner x.fd) (some i) p.index))
                        n
                        (move-Indexed i fd (owner x.fd) (owners p.pollfds) p.has p.index v g w
                          d)))))
        ]
      ]
]

pub remove_channel-IsIndexed :
    (fd : ℕ) (e : Events) (p : Poller) → IsIndexed p → Ensures IsIndexed (remove_channel fd e p)
unfolding remove_channel
remove_channel-IsIndexed fd e p v = elim (Bool-cases (p.has fd)) [
  | inr t ↦ rw (remove_channel, t) tt
  | inl t ↦
      let (i, k, g) = v.placed fd t in
      elim (Bool-cases (ltb i (length p.pollfds))) [
        | inr u ↦ rw (remove_channel, t, k) (rw u tt)
        | inl u ↦ elim (Bool-cases (is_none e)) [
          | inr w ↦ rw (remove_channel, t, k) (rw u (rw w tt))
          | inl w ↦ rw (remove_channel, t, k) (rw u (rw w (move_last-IsIndexed i fd p v g)))
        ]
      ]
]

-- From a poller where every known channel stands in pollfds_ at its index, and every entry there
-- is of a known channel with that index, any sequence of updateChannel and removeChannel that
-- returns leaves such a poller.
run-IsIndexed : (cs : List Call) (p : Poller) → IsIndexed p → Ensures IsIndexed (run cs p)
unfolding run
run-IsIndexed [] p v = v
run-IsIndexed (updates fd e ∷ cs) p v =
    Ensures->>= IsIndexed IsIndexed (update_channel fd e p) (run cs)
      (update_channel-IsIndexed fd e p v) (run-IsIndexed cs)
run-IsIndexed (removes fd e ∷ cs) p v =
    Ensures->>= IsIndexed IsIndexed (remove_channel fd e p) (run cs)
      (remove_channel-IsIndexed fd e p v) (run-IsIndexed cs)
