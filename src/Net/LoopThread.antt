-- ===== src/Net/LoopThread.antt =====
-- arale/net/EventLoopThread.cc: the caller of `startLoop` and the new thread, which wait for each
-- other.
pub mod Handshake
mod Tests
use arale.Prelude.{
  Bool, true, false, not, List, [], ◌∷◌, Outcome, ok, ◌>>=◌, ◌>>◌, assert, if◌then◌else◌,
}

-- Where the caller is: before `startLoop`, at the test of `loop_`, in `con_.wait`, after it.
pub data Caller : Type 0 where
  before tests_loop waits_loop returned : Caller

-- Where the thread is: at the test of `start_`, in `con2_.wait`, before it sets `loop_`, in the
-- loop, or after it.
pub data Thread : Type 0 where
  tests_start waits_start starting looping ended : Thread

-- `loop` says whether `loop_` is set.
pub record LoopThread : Type 0 where
  pub start : Bool
  pub loop : Bool
  pub caller : Caller
  pub thread : Thread

abbrev pub new_loop_thread : LoopThread
new_loop_thread = record { start = false; loop = false; caller = before; thread = tests_start }

abbrev pub wake_caller : Caller → Caller
wake_caller before = before
wake_caller tests_loop = tests_loop
wake_caller waits_loop = tests_loop
wake_caller returned = returned

abbrev pub wake_thread : Thread → Thread
wake_thread tests_start = tests_start
wake_thread waits_start = tests_start
wake_thread starting = starting
wake_thread looping = looping
wake_thread ended = ended

-- `startLoop` up to its next lock or wait.
unfoldable pub start_loop : LoopThread → Outcome LoopThread
start_loop s = elim s.caller [
  | before ↦ do
    assert (not s.loop)
    ok (record s { start = true; caller = tests_loop; thread = wake_thread s.thread })
  | tests_loop ↦ ok (record s { caller = if s.loop then returned else waits_loop })
  | waits_loop ↦ ok s
  | returned ↦ ok s
]

-- `threadFunc` up to its next lock or wait. The loop goes on until `leave_loop`.
unfoldable pub thread_func : LoopThread → LoopThread
thread_func s = elim s.thread [
  | tests_start ↦ record s { thread = if s.start then starting else waits_start }
  | waits_start ↦ s
  | starting ↦ record s { loop = true; caller = wake_caller s.caller; thread = looping }
  | looping ↦ s
  | ended ↦ s
]

abbrev pub leave_loop : LoopThread → LoopThread
leave_loop s = elim s.thread [
  | tests_start ↦ s
  | waits_start ↦ s
  | starting ↦ s
  | looping ↦ record s { loop = false; thread = ended }
  | ended ↦ s
]

-- Who goes on: one of the two, or one that wakes up though nobody notified it.
pub data Move : Type 0 where
  caller_moves thread_moves caller_wakes thread_wakes : Move

unfoldable pub move : Move → LoopThread → Outcome LoopThread
unfolding start_loop thread_func
move caller_moves s = start_loop s
move thread_moves s = ok (thread_func s)
move caller_wakes s = ok (record s { caller = wake_caller s.caller })
move thread_wakes s = ok (record s { thread = wake_thread s.thread })

unfoldable pub moves : List Move → LoopThread → Outcome LoopThread
unfolding move
moves [] s = ok s
moves (m ∷ ms) s = do t ← move m s; moves ms t
