-- ===== src/Scheduler.antt =====
-- The task queue of class `Scheduler`, fiber/scheduler.cpp and include/scheduler.hpp. Fibers,
-- functions and threads are numbers. Whether a fiber is in the state `READY` is an argument.
pub mod Queue
mod Tests
use rpc_storage_cpp.Common.{
  ltb, leb, ◌==◌, if◌then◌else◌, Bool-cases, Option-cases, Bytes, bytes_eq, bytes_eq_refl,
  bytes_eq→eq, length, get_elem?, set, take, drop, replicate, last_or, length-append, length-set,
  length-drop, length-take, drop_all, get_elem?-lt, lt-get_elem?, take_all, take-append-drop,
  get_elem?-append_right, get_elem?-append_left, get_elem?-drop, drop-get_elem?, length-replicate,
  get_elem?-replicate, Fault, Result, ◌>>=◌, ◌>>◌, my_assert, at_index, Returns, if-bind,
  Returns-ok, Returns-at, assert_failed, out_of_range, out_of_fuel, err, ok, ℕ, zero, suc, ◌+◌, ◌-◌,
  ◌*◌, ◌/◌, ◌%◌, ◌^◌, ◌≤◌, ◌<◌, max, min, ◌≡◌, refl, sym, ap, ◌∙◌, subst, ◌≢◌, ◌↔◌, ◌⊎◌, inl, inr,
  Bool, true, false, not, ◌&&◌, ◌||◌, Option, none, some, List, [], ◌∷◌, ◌++◌, map, arith,
}

-- A null fiber or function, and the thread -1, are `none`.
pub record SchedulerTask : Type 0 where
  pub fiber : Option ℕ
  pub callback : Option ℕ
  pub thread : Option ℕ

pub record Scheduler : Type 0 where
  pub tasks : List SchedulerTask
  pub active_thread_count : ℕ
  pub is_stopped : Bool

abbrev pub is_empty_queue : List SchedulerTask → Bool
is_empty_queue [] = true
is_empty_queue (t ∷ ts) = false

abbrev pub is_set : Option ℕ → Bool
is_set none = false
is_set (some x) = true

-- `task.fiber_ || task.cb_`.
abbrev pub is_task : SchedulerTask → Bool
is_task t = is_set t.fiber || is_set t.callback

-- The state, and whether a thread is to be woken.
unfoldable pub scheduler_no_lock : Scheduler → SchedulerTask → Scheduler × Bool
scheduler_no_lock s task =
    (if is_task task then record s { tasks = s.tasks ++ task ∷ [] } else s, is_empty_queue s.tasks)

-- `it->thread_ != -1 && it->thread_ != GetThreadId()`.
abbrev pub is_for_other : (thread_id : ℕ) → Option ℕ → Bool
is_for_other thread_id none = false
is_for_other thread_id (some k) = not (k == thread_id)

-- The check of a fiber's state.
abbrev pub is_ready : (ready : ℕ → Bool) → Option ℕ → Bool
is_ready ready none = true
is_ready ready (some f) = ready f

-- A task that is left for another thread.
abbrev pub skipped :
    SchedulerTask
    → Option SchedulerTask × List SchedulerTask × Bool
    → Result (Option SchedulerTask × List SchedulerTask × Bool)
skipped t (taken, rest, tickle_me) = ok (taken, t ∷ rest, true)

-- The loop over the queue: the task for this thread, the others, and `tickle_me`.
unfoldable pub take_from :
    (ready : ℕ → Bool)
    → (thread_id : ℕ) → List SchedulerTask
    → Result (Option SchedulerTask × List SchedulerTask × Bool)
take_from ready thread_id [] = ok (none, [], false)
take_from ready thread_id (t ∷ ts) =
    let rest = take_from ready thread_id ts in
    if is_for_other thread_id t.thread then rest >>= skipped t else do
      my_assert (is_task t)
      my_assert (is_ready ready t.fiber)
      ok (some t, ts, not (is_empty_queue ts))

-- `run` up to the task: the state, the task, and whether to call `tickle`.
unfoldable pub take_task :
    Scheduler
    → (ready : ℕ → Bool) → (thread_id : ℕ) → Result (Scheduler × Option SchedulerTask × Bool)
unfolding take_from
take_task s ready thread_id = do
  (taken, rest, tickle_me) ← take_from ready thread_id s.tasks
  elim taken [
    | none ↦ ok (s, none, tickle_me)
    | some t ↦ ok (
      record s { tasks = rest; active_thread_count = s.active_thread_count + 1 },
      some t,
      tickle_me,
    )
  ]

-- `--activeThreadCnt_` when the task has returned, on 64 bits.
abbrev pub one_less : ℕ → ℕ
one_less zero = 2 ^ 64 - 1
one_less (suc n) = n

unfoldable pub finish_task : Scheduler → Scheduler
finish_task s = record s { active_thread_count = one_less s.active_thread_count }

unfoldable pub is_stopping : Scheduler → Bool
is_stopping s = s.is_stopped && is_empty_queue s.tasks && s.active_thread_count == 0
