-- ===== src/Net/ThreadPool.antt =====
-- arale/net/EventLoopThreadPool.h and EventLoopThreadPool.cc: which loop a new connection gets. A
-- loop is a number; the threads that `start` makes give theirs by their index.
pub mod Rounds
mod Tests
use arale.Prelude.{
  ℕ, zero, suc, ◌+◌, Bool, true, false, not, List, [], ◌∷◌, ◌++◌, Outcome, ok, undefined, ◌>>=◌,
  ◌>>◌, assert, leb, if◌then◌else◌, length,
}

pub record Pool : Type 0 where
  pub base_loop : ℕ
  pub thread_num : ℕ
  pub started : Bool
  pub next : ℕ
  pub loops : List ℕ

abbrev pub new_pool : ℕ → Pool
new_pool base = record { base_loop = base; thread_num = 0; started = false; next = 0; loops = [] }

-- The loops of the threads from index `i` on.
abbrev pub made_loops : (ℕ → ℕ) → ℕ → ℕ → List ℕ
made_loops thread i zero = []
made_loops thread i (suc n) = thread i ∷ made_loops thread (suc i) n

unfoldable pub start : (ℕ → ℕ) → Pool → Outcome Pool
start thread p = do
  assert (not p.started)
  ok (record p { started = true; loops = p.loops ++ made_loops thread 0 p.thread_num })

-- `loops_[i]`, which is undefined past the end.
abbrev pub loop_at : ℕ → List ℕ → Outcome ℕ
loop_at i [] = undefined
loop_at zero (l ∷ ls) = ok l
loop_at (suc i) (l ∷ ls) = loop_at i ls

abbrev pub advance : Pool → Pool
advance p = record p { next = if leb (length p.loops) (p.next + 1) then 0 else p.next + 1 }

abbrev pub is_empty : List ℕ → Bool
is_empty [] = true
is_empty (l ∷ ls) = false

unfoldable pub get_next_loop : Pool → Outcome (ℕ × Pool)
get_next_loop p =
    if is_empty p.loops
    then ok (p.base_loop, p)
    else (loop_at p.next p.loops >>= λ l. ok (l, advance p))

unfoldable pub get_all_loops : Pool → Outcome (List ℕ)
get_all_loops p = do assert p.started; ok (if is_empty p.loops then p.base_loop ∷ [] else p.loops)

-- The loops of `k` connections.
unfoldable pub get_loops : ℕ → Pool → Outcome (List ℕ × Pool)
unfolding get_next_loop
get_loops zero p = ok ([], p)
get_loops (suc k) p = do (l, q) ← get_next_loop p; (ls, r) ← get_loops k q; ok (l ∷ ls, r)
