-- ===== src/LockQueue.antt =====
-- Class `LockQueue` of common/include/util.h. Each call is one step, under the queue's mutex, and a call
-- that has to wait is one that goes on when the queue is not empty.
pub mod Fifo
mod Tests
use rpc_storage_cpp.Common.{
  if◌then◌else◌, Bool, true, false, Option, none, some, List, [], ◌∷◌, ◌++◌,
}

pub record LockQueue (A : Type 0) : Type 0 where
  pub queue : List A

-- What `timeOutPop` comes to.
pub data TimedPop (A : Type 0) : Type 0 where
  waiting timed_out : TimedPop A
  came : A → TimedPop A

module _ {A : Type 0} where
  unfoldable pub push : LockQueue A → A → LockQueue A
  push q a = record { queue = q.queue ++ a ∷ [] }

  -- `front` and `pop`, where there is something.
  abbrev pub take_front : List A → Option A × LockQueue A
  take_front [] = (none, record { queue = [] })
  take_front (a ∷ rest) = (some a, record { queue = rest })

  -- `Pop`, which waits (`none`) while the queue is empty.
  unfoldable pub pop : LockQueue A → Option A × LockQueue A
  pop q = take_front q.queue

  abbrev pub timed : (is_late : Bool) → Option A × LockQueue A → TimedPop A × LockQueue A
  timed is_late (some a, r) = (came a, r)
  timed is_late (none, r) = (if is_late then timed_out else waiting, r)

  -- `timeOutPop`, and whether the time is over when it looks for more.
  unfoldable pub time_out_pop : LockQueue A → (is_late : Bool) → TimedPop A × LockQueue A
  unfolding pop
  time_out_pop q is_late = timed is_late (pop q)
