-- ===== src/Scheduler/Tests.antt =====
-- Three tasks, the first for another thread: fiber/scheduler.cpp.
use rpc_storage_cpp.Common.{◌>>=◌, ok, ℕ, ◌≡◌, refl, Bool, true, false, Option, none, some, [], ◌∷◌}
use rpc_storage_cpp.Scheduler.{take_task, Scheduler, SchedulerTask}

abbrev for_thread : Option ℕ → ℕ → SchedulerTask
for_thread thread f = record { fiber = none; callback = some f; thread = thread }

abbrev busy : Scheduler
busy = record {
  tasks = for_thread (some 5) 1 ∷ for_thread none 2 ∷ for_thread (some 4) 3 ∷ [];
  active_thread_count = 0;
  is_stopped = false;
}

abbrev always : ℕ → Bool
always f = true

second_taken : (take_task busy always 4 >>= λ r. ok r.1) ≡ ok (some (for_thread none 2))
unfolding take_task
second_taken = refl
