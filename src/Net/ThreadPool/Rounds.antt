-- ===== src/Net/ThreadPool/Rounds.antt =====
-- EventLoopThreadPool.cc: one round of `getNextLoop`.
use arale.Prelude.{
  ℕ, suc, ◌+◌, ◌≡◌, refl, sym, ap, ◌∙◌, true, false, List, [], ◌∷◌, ◌++◌, ok, leb, length,
  length-append, arith, append_assoc,
}
use arale.Net.ThreadPool.{Pool, loop_at, advance, is_empty, get_next_loop, get_loops}

loop_at-append : (ls : List ℕ) (l : ℕ) (ms : List ℕ) → loop_at (length ls) (ls ++ l ∷ ms) ≡ ok l
loop_at-append [] l ms = refl
loop_at-append (k ∷ ls) l ms = loop_at-append ls l ms

is_empty-append : (ls : List ℕ) (l : ℕ) (ms : List ℕ) → is_empty (ls ++ l ∷ ms) ≡ false
is_empty-append [] l ms = refl
is_empty-append (k ∷ ls) l ms = refl

get_next_loop-append :
    (p : Pool) (ls : List ℕ) (l : ℕ) (ms : List ℕ)
    → p.loops ≡ ls ++ l ∷ ms
    → p.next ≡ length ls
    → get_next_loop p ≡ ok (l, advance p)
unfolding get_next_loop
get_next_loop-append p ls l ms e n =
    rw (get_next_loop, e, n, is_empty-append ls l ms) (rw (loop_at-append ls l ms))

get_loops-rest :
    (p : Pool) (ls : List ℕ) (l : ℕ) (ms : List ℕ)
    → p.loops ≡ ls ++ l ∷ ms
    → p.next ≡ length ls
    → get_loops (suc (length ms)) p ≡ ok (l ∷ ms, record p { next = 0 })
unfolding get_loops
get_loops-rest p ls l [] e n =
    let k : length p.loops ≡ length ls + 1 = ap length e ∙ length-append ls (l ∷ []) in
    let t : leb (length p.loops) (p.next + 1) ≡ true = ground arith in
    rw (get_next_loop-append p ls l [] e n) (rw t)
get_loops-rest p ls l (m ∷ ms) e n =
    let k : length p.loops ≡ length ls + (2 + length ms) =
      ap length e ∙ (length-append ls (l ∷ m ∷ ms) ∙ omega arith) in
    let t : leb (length p.loops) (p.next + 1) ≡ false = ground arith in
    let i =
      get_loops-rest (record p { next = p.next + 1 }) (ls ++ l ∷ []) m ms
        (e ∙ sym (append_assoc ls (l ∷ []) (m ∷ ms))) (omega (arith, length-append ls (l ∷ []))) in
    rw (get_next_loop-append p ls l (m ∷ ms) e n) (rw (t, i))

-- From the first loop on, as many calls of getNextLoop as there are loops give each of them once,
-- in order, and leave the pool as before.
get_loops-round :
    (p : Pool) (l : ℕ) (ms : List ℕ)
    → p.loops ≡ l ∷ ms
    → p.next ≡ 0
    → get_loops (length p.loops) p ≡ ok (p.loops, p)
get_loops-round p l ms e n =
    ap (λ k. get_loops k p) (ap length e)
    ∙ (get_loops-rest p [] l ms e n
        ∙ (ap (λ ls. ok (ls, record p { next = 0 })) (sym e)
            ∙ ap (λ k. ok (p.loops, record p { next = k })) (sym n)))
