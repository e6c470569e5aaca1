-- ===== src/IoManager.antt =====
-- Class `IOManager`, fiber/iomanager.cpp and include/iomanager.hpp: which events of which file
-- descriptors wait for what, and what happens when they are ready. What `epoll_ctl` returns, what
-- `epoll_wait` reports, and the scheduler and fiber of the calling thread are arguments. A task that
-- is handed to a scheduler is part of the result. `CondPanic` ends the process; its message is left
-- out.
pub mod Pending
pub mod Steps
pub mod Trigger
pub mod Adding
pub mod Keeps
pub mod Laws
mod Tests
use rpc_storage_cpp.Common.{
  ◌>>=◌, ◌>>◌, ltb, ◌==◌, if◌then◌else◌, length, get_elem?, set, take, replicate, Result, my_assert,
  at_index, ok, ℕ, zero, suc, ◌+◌, ◌-◌, ◌*◌, ◌/◌, ◌^◌, Bool, true, false, not, ◌&&◌, ◌||◌, Option,
  none, some, List, [], ◌∷◌, ◌++◌,
}

pub data Event : Type 0 where
  read_event write_event : Event

-- The bits of `FdContext::events`.
pub record Events : Type 0 where
  pub reads : Bool
  pub writes : Bool

-- A fiber, or a function, by its number.
pub data Task : Type 0 where
  fiber_task callback_task : ℕ → Task

-- `EventContext`. A scheduler, a fiber and a function are `none` where they are null.
pub record EventContext : Type 0 where
  pub scheduler : Option ℕ
  pub fiber : Option ℕ
  pub callback : Option ℕ

-- The two contexts and the bits of `FdContext`. Its `fd` is its place in `fd_contexts`.
pub record FdContext : Type 0 where
  pub read : EventContext
  pub write : EventContext
  pub events : Events

-- A call of `epoll_ctl` with EPOLLET and the given events.
pub data EpollOp : Type 0 where
  epoll_add epoll_mod epoll_del : EpollOp

pub record EpollCall : Type 0 where
  pub op : EpollOp
  pub fd : ℕ
  pub asked : Events

-- The fields, and the calls of `epoll_ctl` so far.
pub record IoManager : Type 0 where
  pub pending_event_count : ℕ
  pub fd_contexts : List FdContext
  pub epoll_calls : List EpollCall

-- `resetEveContext`.
abbrev pub reset_event_context : EventContext
reset_event_context = record { scheduler = none; fiber = none; callback = none }

abbrev pub new_fd_context : FdContext
new_fd_context = record {
  read = reset_event_context;
  write = reset_event_context;
  events = record { reads = false; writes = false };
}

abbrev pub has : Events → Event → Bool
has e read_event = e.reads
has e write_event = e.writes

-- `events | event`, and `events & ~event`.
abbrev pub with_event : Events → Event → Events
with_event e read_event = record e { reads = true }
with_event e write_event = record e { writes = true }

abbrev pub without_event : Events → Event → Events
without_event e read_event = record e { reads = false }
without_event e write_event = record e { writes = false }

abbrev pub get_event_context : FdContext → Event → EventContext
get_event_context c read_event = c.read
get_event_context c write_event = c.write

abbrev pub set_event_context : FdContext → Event → EventContext → FdContext
set_event_context c read_event x = record c { read = x }
set_event_context c write_event x = record c { write = x }

-- What waits: the function, if there is one, and the fiber otherwise.
abbrev pub task_of : EventContext → Option Task
task_of x = elim x.callback [
  | some f ↦ some (callback_task f)
  | none ↦ elim x.fiber [ some f ↦ some (fiber_task f) | none ↦ none ]
]

-- A scheduler with a task that it is handed. Nothing is pushed for a null task.
abbrev pub scheduled : ℕ → Option Task → List (ℕ × Task)
scheduled k none = []
scheduled k (some t) = (k, t) ∷ []

abbrev pub clear_event : FdContext → Event → FdContext
clear_event c event = record (set_event_context c event reset_event_context) {
  events = without_event c.events event;
}

unfoldable pub trigger_event : FdContext → Event → Result (FdContext × List (ℕ × Task))
trigger_event c event = do
  my_assert (has c.events event)
  k ← at_index (get_event_context c event).scheduler
  ok (clear_event c event, scheduled k (task_of (get_event_context c event)))

unfoldable pub context_resize : List FdContext → (size : ℕ) → List FdContext
context_resize cs size = take size cs ++ replicate (size - length cs) new_fd_context

-- `--pendingEventCnt_`, on 64 bits.
abbrev pub decrement : ℕ → ℕ
decrement zero = 2 ^ 64 - 1
decrement (suc n) = n

abbrev pub is_any : Events → Bool
is_any e = e.reads || e.writes

unfoldable pub epoll_ctl : IoManager → (fd : ℕ) → EpollOp → Events → IoManager
epoll_ctl s fd op asked = record s {
  epoll_calls = s.epoll_calls ++ record { op = op; fd = fd; asked = asked } ∷ [];
}

-- The call that leaves some events of a descriptor.
unfoldable pub epoll_leave : IoManager → (fd : ℕ) → Events → IoManager
unfolding epoll_ctl
epoll_leave s fd events = epoll_ctl s fd (if is_any events then epoll_mod else epoll_del) events

-- The calling thread: its scheduler, its fiber, and whether that is running.
pub record Caller : Type 0 where
  pub scheduler : Option ℕ
  pub fiber : ℕ
  pub running : Bool

abbrev pub is_null : Option ℕ → Bool
is_null none = true
is_null (some x) = false

abbrev pub fill_event_context : Caller → Option ℕ → Result EventContext
fill_event_context this (some f) =
    ok (record { scheduler = this.scheduler; fiber = none; callback = some f })
fill_event_context this none = do
  my_assert this.running
  ok (record { scheduler = this.scheduler; fiber = some this.fiber; callback = none })

-- `addEvent` on the context of the descriptor.
unfoldable pub add_to_context : FdContext → Event → Option ℕ → Caller → Result FdContext
add_to_context c event callback this = do
  let x = get_event_context c event
  my_assert (is_null x.scheduler && is_null x.fiber && is_null x.callback)
  y ← fill_event_context this callback
  ok (record (set_event_context c event y) { events = with_event c.events event })

-- `addEvent`: `true` is 0, and `false` is -1.
unfoldable pub add_event :
    IoManager
    → (fd : ℕ) → Event
    → (callback : Option ℕ) → Caller
    → (ctl : Bool) → Result (IoManager × Bool)
unfolding add_to_context context_resize epoll_ctl
add_event s fd event callback this ctl = do
  let cs =
      if ltb fd (length s.fd_contexts)
      then s.fd_contexts
      else context_resize s.fd_contexts (fd * 3 / 2)
  c ← at_index (get_elem? cs fd)
  my_assert (not (has c.events event))
  let op = if is_any c.events then epoll_mod else epoll_add
  let t = epoll_ctl (record s { fd_contexts = cs }) fd op (with_event c.events event)
  if ctl
      then (do
        d ← add_to_context c event callback this
        ok (
          record t { pending_event_count = s.pending_event_count + 1; fd_contexts = set cs fd d },
          true,
        ))
      else ok (t, false)

-- The state with one context changed, and some events fewer.
abbrev pub put_context : IoManager → (fd : ℕ) → FdContext → (pending : ℕ) → IoManager
put_context s fd c pending = record s {
  pending_event_count = pending;
  fd_contexts = set s.fd_contexts fd c;
}

unfoldable pub del_event : IoManager → (fd : ℕ) → Event → (ctl : Bool) → Result (IoManager × Bool)
unfolding epoll_leave
del_event s fd event ctl = elim (get_elem? s.fd_contexts fd) [
  | none ↦ ok (s, false)
  | some c ↦
      let t = epoll_leave s fd (without_event c.events event) in
      if not (has c.events event)
      then ok (s, false)
      else if ctl
      then ok (put_context t fd (clear_event c event) (decrement s.pending_event_count), true)
      else ok (t, false)
]

-- What the next three return: the state, the tasks that are handed over, and the code's own result.
unfoldable pub cancel_event :
    IoManager → (fd : ℕ) → Event → (ctl : Bool) → Result (IoManager × List (ℕ × Task) × Bool)
unfolding trigger_event epoll_leave
cancel_event s fd event ctl = elim (get_elem? s.fd_contexts fd) [
  | none ↦ ok (s, [], false)
  | some c ↦
      let t = epoll_leave s fd (without_event c.events event) in
      if not (has c.events event)
      then ok (s, [], false)
      else if ctl
      then (do
        (d, tasks) ← trigger_event c event
        ok (put_context t fd d (decrement s.pending_event_count), tasks, true))
      else ok (t, [], false)
]

-- `triggerEvent` and the count below an `if`.
unfoldable pub trigger_if :
    Bool → FdContext → Event → (pending : ℕ) → Result (FdContext × List (ℕ × Task) × ℕ)
unfolding trigger_event
trigger_if false c event pending = ok (c, [], pending)
trigger_if true c event pending = do
  (d, tasks) ← trigger_event c event
  ok (d, tasks, decrement pending)

-- Both events, in this order.
unfoldable pub trigger_both :
    (reads writes : Bool) → FdContext → (pending : ℕ) → Result (FdContext × List (ℕ × Task) × ℕ)
unfolding trigger_if
trigger_both reads writes c pending = do
  (d, tasks, n) ← trigger_if reads c read_event pending
  (e, tasks', m) ← trigger_if writes d write_event n
  ok (e, tasks ++ tasks', m)

unfoldable pub cancel_all :
    IoManager → (fd : ℕ) → (ctl : Bool) → Result (IoManager × List (ℕ × Task) × Bool)
unfolding trigger_both epoll_ctl
cancel_all s fd ctl = elim (get_elem? s.fd_contexts fd) [
  | none ↦ ok (s, [], false)
  | some c ↦
      let t = epoll_ctl s fd epoll_del (record { reads = false; writes = false }) in
      if not (is_any c.events)
      then ok (s, [], false)
      else if ctl
      then (do
        (d, tasks, n) ← trigger_both c.events.reads c.events.writes c s.pending_event_count
        my_assert (not (is_any d.events))
        ok (put_context t fd d n, tasks, true))
      else ok (t, [], false)
]

-- An event of `epoll_wait` that is not that of the pipe: EPOLLIN, EPOLLOUT, and EPOLLERR or EPOLLHUP.
pub record Ready : Type 0 where
  pub fd : ℕ
  pub input : Bool
  pub output : Bool
  pub failed : Bool

-- One round of the loop of `idle` over these events.
unfoldable pub handle_ready :
    IoManager → Ready → (ctl : Bool) → Result (IoManager × List (ℕ × Task))
unfolding trigger_both epoll_leave
handle_ready s r ctl = do
  c ← at_index (get_elem? s.fd_contexts r.fd)
  let reads = r.input || (r.failed && c.events.reads)
  let writes = r.output || (r.failed && c.events.writes)
  let left : Events = record {
    reads = c.events.reads && not reads;
    writes = c.events.writes && not writes;
  }
  let t = epoll_leave s r.fd left
  if not ((c.events.reads && reads) || (c.events.writes && writes))
      then ok (s, [])
      else if ctl
      then (do
        (d, tasks, n) ← trigger_both reads writes c s.pending_event_count
        ok (put_context t r.fd d n, tasks))
      else ok (t, [])

-- `stopping`, with `getNextTimer() == ~0ull` and what `Scheduler::stopping` returns.
unfoldable pub stopping : IoManager → (no_timer scheduler_stopping : Bool) → Bool
stopping s no_timer scheduler_stopping =
    no_timer && s.pending_event_count == 0 && scheduler_stopping

-- The constructor: `contextResize(32)`.
unfoldable pub new_io_manager : IoManager
unfolding context_resize
new_io_manager = record {
  pending_event_count = 0;
  fd_contexts = context_resize [] 32;
  epoll_calls = [];
}
