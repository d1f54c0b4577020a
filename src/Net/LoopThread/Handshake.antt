-- ===== src/Net/LoopThread/Handshake.antt =====
-- EventLoopThread.cc: no notification is lost.
use arale.Prelude.{◌≡◌, refl, true, false, List, [], ◌∷◌, ◌++◌, Outcome, ok}
use arale.Net.LoopThread.{
  before, tests_loop, waits_loop, returned, tests_start, waits_start, starting, looping, ended,
  LoopThread, new_loop_thread, start_loop, thread_func, Move, caller_moves, thread_moves,
  caller_wakes, thread_wakes, move, moves, leave_loop,
}

-- The states that are reached: `startLoop` was not called, both are before the loop, or the loop
-- runs and the caller is about to see it.
pub data Reached : LoopThread → Type 0 where
  new : Reached (record { start = false; loop = false; caller = before; thread = tests_start })
  asleep : Reached (record { start = false; loop = false; caller = before; thread = waits_start })
  called :
      Reached (record { start = true; loop = false; caller = tests_loop; thread = tests_start })
  ready : Reached (record { start = true; loop = false; caller = tests_loop; thread = starting })
  called_asleep :
      Reached (record { start = true; loop = false; caller = waits_loop; thread = tests_start })
  ready_asleep :
      Reached (record { start = true; loop = false; caller = waits_loop; thread = starting })
  runs : Reached (record { start = true; loop = true; caller = tests_loop; thread = looping })
  done : Reached (record { start = true; loop = true; caller = returned; thread = looping })

-- The outcome of moves is a state that is reached.
abbrev pub Reaches : Outcome LoopThread → Type 0
Reaches o = (t : LoopThread) × (o ≡ ok t) × Reached t

move-Reaches : (m : Move) {s : LoopThread} → Reached s → Reaches (move m s)
unfolding move start_loop thread_func
move-Reaches caller_moves new = (_, refl, called)
move-Reaches caller_moves asleep = (_, refl, called)
move-Reaches caller_moves called = (_, refl, called_asleep)
move-Reaches caller_moves ready = (_, refl, ready_asleep)
move-Reaches caller_moves called_asleep = (_, refl, called_asleep)
move-Reaches caller_moves ready_asleep = (_, refl, ready_asleep)
move-Reaches caller_moves runs = (_, refl, done)
move-Reaches caller_moves done = (_, refl, done)
move-Reaches thread_moves new = (_, refl, asleep)
move-Reaches thread_moves asleep = (_, refl, asleep)
move-Reaches thread_moves called = (_, refl, ready)
move-Reaches thread_moves ready = (_, refl, runs)
move-Reaches thread_moves called_asleep = (_, refl, ready_asleep)
move-Reaches thread_moves ready_asleep = (_, refl, runs)
move-Reaches thread_moves runs = (_, refl, runs)
move-Reaches thread_moves done = (_, refl, done)
move-Reaches caller_wakes new = (_, refl, new)
move-Reaches caller_wakes asleep = (_, refl, asleep)
move-Reaches caller_wakes called = (_, refl, called)
move-Reaches caller_wakes ready = (_, refl, ready)
move-Reaches caller_wakes called_asleep = (_, refl, called)
move-Reaches caller_wakes ready_asleep = (_, refl, ready)
move-Reaches caller_wakes runs = (_, refl, runs)
move-Reaches caller_wakes done = (_, refl, done)
move-Reaches thread_wakes new = (_, refl, new)
move-Reaches thread_wakes asleep = (_, refl, new)
move-Reaches thread_wakes called = (_, refl, called)
move-Reaches thread_wakes ready = (_, refl, ready)
move-Reaches thread_wakes called_asleep = (_, refl, called_asleep)
move-Reaches thread_wakes ready_asleep = (_, refl, ready_asleep)
move-Reaches thread_wakes runs = (_, refl, runs)
move-Reaches thread_wakes done = (_, refl, done)

-- The caller, the thread twice, and the caller again.
abbrev pub last_moves : List Move
last_moves = caller_moves ∷ thread_moves ∷ thread_moves ∷ caller_moves ∷ []

-- `startLoop` has returned a loop that runs.
abbrev pub started : LoopThread
started = record { start = true; loop = true; caller = returned; thread = looping }

last_moves-started : {s : LoopThread} → Reached s → moves last_moves s ≡ ok started
unfolding moves move start_loop thread_func
last_moves-started new = refl
last_moves-started asleep = refl
last_moves-started called = refl
last_moves-started ready = refl
last_moves-started called_asleep = refl
last_moves-started ready_asleep = refl
last_moves-started runs = refl
last_moves-started done = refl

moves-started :
    (ms : List Move) (s : LoopThread) → Reached s → moves (ms ++ last_moves) s ≡ ok started
unfolding moves
moves-started [] s r = last_moves-started r
moves-started (m ∷ ms) s r = let i = move-Reaches m r in rw i.1 (moves-started ms i.0 i.2)

-- However the caller and the thread took turns before, with any spurious wakeups, when then the
-- caller, the thread twice and the caller again go on, no assertion failed, no notification was
-- lost, and startLoop has returned a loop that runs.
pub start_loop-started : (ms : List Move) → moves (ms ++ last_moves) new_loop_thread ≡ ok started
start_loop-started ms = moves-started ms new_loop_thread new

-- Once the loop has gone before the caller looked.
data Missed : LoopThread → Type 0 where
  looks : Missed (record { start = true; loop = false; caller = tests_loop; thread = ended })
  sleeps : Missed (record { start = true; loop = false; caller = waits_loop; thread = ended })

move-Missed :
    (m : Move) {s : LoopThread} → Missed s → (t : LoopThread) × (move m s ≡ ok t) × Missed t
unfolding move start_loop thread_func
move-Missed caller_moves looks = (_, refl, sleeps)
move-Missed caller_moves sleeps = (_, refl, sleeps)
move-Missed thread_moves looks = (_, refl, looks)
move-Missed thread_moves sleeps = (_, refl, sleeps)
move-Missed caller_wakes looks = (_, refl, looks)
move-Missed caller_wakes sleeps = (_, refl, looks)
move-Missed thread_wakes looks = (_, refl, looks)
move-Missed thread_wakes sleeps = (_, refl, sleeps)

moves-Missed :
    (ms : List Move) (s : LoopThread) → Missed s → (t : LoopThread) × (moves ms s ≡ ok t) × Missed t
unfolding moves
moves-Missed [] s r = (s, refl, r)
moves-Missed (m ∷ ms) s r =
    let i = move-Missed m r in let j = moves-Missed ms i.0 i.2 in (j.0, rw i.1 j.1, j.2)

-- When the loop is left after it was set and before the caller of startLoop has looked at it, then
-- whatever turns the two take, startLoop has not returned.
start_loop-missed :
    (ms : List Move)
    → (t : LoopThread) × (moves ms
          (leave_loop (record { start = true; loop = true; caller = tests_loop; thread = looping }))
        ≡ ok t)
      × ¬ (t.caller ≡ returned)
start_loop-missed ms = let i = moves-Missed ms _ looks in (i.0, i.1, waits i.2)
  where
    waits : {t : LoopThread} → Missed t → ¬ (t.caller ≡ returned)
    waits looks e = cc
    waits sleeps e = cc
