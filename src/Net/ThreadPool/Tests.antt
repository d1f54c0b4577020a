-- ===== src/Net/ThreadPool/Tests.antt =====
-- The theorem of the pool at a concrete input.
use arale.Prelude.{true, [], ◌∷◌}
use arale.Net.ThreadPool.{Pool, new_pool}

abbrev three_loops : Pool
three_loops = record (new_pool 9) { started = true; thread_num = 3; loops = 4 ∷ 5 ∷ 6 ∷ [] }
