-- ===== src/Net/LoopThread/Tests.antt =====
-- The thread sleeps first; the caller sleeps first.
use arale.Prelude.{◌≡◌, List, [], ◌∷◌, ◌++◌, ok}
use arale.Net.LoopThread.{
  new_loop_thread, Move, caller_moves, thread_moves, caller_wakes, thread_wakes, moves,
}
use arale.Net.LoopThread.Handshake.{last_moves, started, start_loop-started}

abbrev turns : List Move
turns = thread_moves ∷ thread_wakes ∷ caller_moves ∷ caller_moves ∷ thread_moves ∷ caller_wakes ∷ []

start_loop-started_example : moves (turns ++ last_moves) new_loop_thread ≡ ok started
start_loop-started_example = start_loop-started turns
