-- ===== src/LockQueue/Tests.antt =====
-- Two threads at a queue of numbers: common/include/util.h.
use rpc_storage_cpp.Common.{ℕ, ◌≡◌, refl, true, false, List, [], ◌∷◌}
use rpc_storage_cpp.LockQueue.{time_out_pop, pop, push, LockQueue}
use rpc_storage_cpp.LockQueue.Fifo.{run_queue, Use, pushes, pops, pops_in_time}

abbrev two_numbers : LockQueue ℕ
two_numbers = record { queue = 1 ∷ 2 ∷ [] }

abbrev uses : List (Use ℕ)
uses = pops ∷ pushes 3 ∷ pops_in_time false ∷ pops ∷ pops_in_time true ∷ pushes 4 ∷ []

abbrev handed_out : List ℕ
handed_out = 1 ∷ 2 ∷ 3 ∷ []

all_handed_out : (run_queue two_numbers uses).0 ≡ handed_out
unfolding push pop time_out_pop
all_handed_out = refl
