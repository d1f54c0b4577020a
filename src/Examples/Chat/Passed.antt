-- ===== src/Examples/Chat/Passed.antt =====
-- ChatServerThreadedHighPerformance.cc: what each loop sends.
use arale.Prelude.{
  ℕ, ◌≡◌, ◌<◌, refl, sym, ap, ◌∙◌, Bool, true, false, ◌||◌, List, [], ◌∷◌, ◌++◌, ◌==◌, append_assoc,
  append-nil, Bool-cases, inl, inr, arith, ltb, Ensures, Ensures-assert,
}
use arale.Net.Http.Text.{Bytes}
use arale.Net.Epoll.{at}
use arale.Examples.Chat.{insert}
use arale.Examples.Chat.Local.{
  Server, is_null, instance_of, thread_init, post, post_message, distribute_each, run_loop,
}

abbrev pub Above : ℕ → List ℕ → Type 0
Above l [] = Unit
Above l (k ∷ ks) = (l < k) × Above l ks

abbrev pub Ordered : List ℕ → Type 0
Ordered [] = Unit
Ordered (l ∷ ls) = Above l ls × Ordered ls

abbrev pub is_in : ℕ → List ℕ → Bool
is_in l [] = false
is_in l (k ∷ ks) = (k == l) || is_in l ks

Above-trans : (k l : ℕ) (ls : List ℕ) → k < l → Above l ls → Above k ls
Above-trans k l [] h a = tt
Above-trans k l (x ∷ ls) h a = (omega arith, Above-trans k l ls h a.1)

insert-Above : (k l : ℕ) (ls : List ℕ) → k < l → Above k ls → Above k (insert l ls)
unfolding insert
insert-Above k l [] h a = (h, tt)
insert-Above k l (x ∷ ls) h a = elim (Bool-cases (ltb l x)) [
  | inl e ↦ rw e (h, a)
  | inr e ↦ elim (Bool-cases (ltb x l)) [
    | inl f ↦ rw (e, f) (a.0, insert-Above k l ls h a.1)
    | inr f ↦ rw (e, f) a
  ]
]

insert-Ordered : (l : ℕ) (ls : List ℕ) → Ordered ls → Ordered (insert l ls)
unfolding insert
insert-Ordered l [] o = (tt, tt)
insert-Ordered l (x ∷ ls) o = elim (Bool-cases (ltb l x)) [
  | inl e ↦ let h : l < x = ground arith in rw e ((h, Above-trans l x ls h o.0), o)
  | inr e ↦ elim (Bool-cases (ltb x l)) [
    | inl f ↦ rw (e, f) (insert-Above x l ls (ground arith) o.0, insert-Ordered l ls o.1)
    | inr f ↦ rw (e, f) o
  ]
]

thread_init-Ordered :
    (l : ℕ) (s : Server) → Ordered s.loops → Ensures (λ t. Ordered t.loops) (thread_init l s)
unfolding thread_init
thread_init-Ordered l s o =
    Ensures-assert (λ t. Ordered t.loops) (is_null (s.instances l)) _
      (λ e. insert-Ordered l s.loops o)

is_in-Above : (l : ℕ) (ls : List ℕ) → Above l ls → is_in l ls ≡ false
is_in-Above l [] a = refl
is_in-Above l (k ∷ ks) a = let e : (k == l) ≡ false = ground arith in rw e (is_in-Above l ks a.1)

post-other :
    (ls : List ℕ) (msg : Bytes) (q : ℕ → List Bytes) (l : ℕ)
    → is_in l ls ≡ false
    → post ls msg q l ≡ q l
post-other [] msg q l h = refl
post-other (k ∷ ks) msg q l h =
    let e : (l == k) ≡ false = ground arith in
    post-other ks msg (at k (q k ++ msg ∷ []) q) l (ground arith) ∙ rw e refl

post-in :
    (ls : List ℕ) (msg : Bytes) (q : ℕ → List Bytes) (l : ℕ)
    → Ordered ls
    → is_in l ls ≡ true
    → post ls msg q l ≡ q l ++ msg ∷ []
post-in [] msg q l o h = cc
post-in (k ∷ ks) msg q l o h = elim (Bool-cases (l == k)) [
  | inl e ↦
      let p : k ≡ l = ground arith in
      let n : is_in l ks ≡ false = ap (λ x. is_in x ks) (sym p) ∙ is_in-Above k ks o.0 in
      post-other ks msg (at k (q k ++ msg ∷ []) q) l n ∙ rw e (ap (λ x. q x ++ msg ∷ []) p)
  | inr e ↦ post-in ks msg (at k (q k ++ msg ∷ []) q) l o.1 (ground arith) ∙ rw e refl
]

-- Messages that arrive, in any threads.
abbrev pub post_each : List Bytes → Server → Server
post_each [] s = s
post_each (m ∷ ms) s = post_each ms (post_message m s)

post_each-posted :
    (ms : List Bytes) (s : Server) (l : ℕ)
    → Ordered s.loops
    → is_in l s.loops ≡ true
    → (post_each ms s).posted l ≡ s.posted l ++ ms
post_each-posted [] s l o h = sym (append-nil (s.posted l))
post_each-posted (m ∷ ms) s l o h =
    post_each-posted ms (post_message m s) l o h
    ∙ ap (λ x. x ++ ms) (post-in s.loops m s.posted l o h)
    ∙ append_assoc (s.posted l) (m ∷ []) ms

post_each-instances : (ms : List Bytes) (s : Server) → (post_each ms s).instances ≡ s.instances
post_each-instances [] s = refl
post_each-instances (m ∷ ms) s = post_each-instances ms (post_message m s)

-- When the loops are a set in order, any messages are posted once to each of them: a loop of the
-- set that had none sends them all, in order, to each of its connections.
pub run_loop-post_each :
    (ms : List Bytes) (s : Server) (l : ℕ)
    → Ordered s.loops
    → is_in l s.loops ≡ true
    → s.posted l ≡ []
    → (run_loop l (post_each ms s)).1 ≡ distribute_each ms (instance_of (s.instances l))
unfolding run_loop
run_loop-post_each ms s l o h e =
    let p : (post_each ms s).posted l ≡ ms = post_each-posted ms s l o h ∙ ap (λ x. x ++ ms) e in
    rw (p, post_each-instances ms s) refl
