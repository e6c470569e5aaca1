-- ===== src/Fiber.antt =====
-- Class `Fiber`, fiber/fiber.cpp and include/fiber.hpp, on one thread. A fiber is its address. What
-- `swapcontext` saves is which fiber's execution it is, since a stack belongs to one fiber.
pub mod Switching
pub mod Chain
pub mod Leaving
pub mod CameBack
mod Tests
use rpc_storage_cpp.Common.{
  ◌>>=◌, ◌>>◌, ◌==◌, if◌then◌else◌, Result, my_assert, at_index, ok, ℕ, zero, suc, ◌+◌, ◌-◌, ◌^◌,
  Bool, true, false, not, ◌&&◌, ◌||◌, Option, none, some,
}

pub data State : Type 0 where
  ready_state running_state term_state : State

-- `stack` is whether `stack_ptr` is set, and `context` whose execution `ctx_` holds.
pub record Fiber : Type 0 where
  pub id : ℕ
  pub state : State
  pub context : ℕ
  pub stack : Bool
  pub callback : Option ℕ
  pub run_in_scheduler : Bool

-- The fibers of a thread by address, its three thread-local pointers, of which the last is that of
-- `Scheduler::GetMainFiber`, the fiber on whose stack the thread runs, and the two counters.
pub record FiberThread : Type 0 where
  pub fibers : ℕ → Fiber
  pub cur_fiber : Option ℕ
  pub cur_thread_fiber : Option ℕ
  pub scheduler_fiber : Option ℕ
  pub executing : ℕ
  pub cur_fiber_id : ℕ
  pub fiber_count : ℕ

abbrev pub is_running_state : State → Bool
is_running_state ready_state = false
is_running_state running_state = true
is_running_state term_state = false

abbrev pub is_term_state : State → Bool
is_term_state ready_state = false
is_term_state running_state = false
is_term_state term_state = true

abbrev pub put_fiber : (ℕ → Fiber) → (address : ℕ) → Fiber → ℕ → Fiber
put_fiber fs address f other = if address == other then f else fs other

-- `swapcontext` with the contexts of two fibers.
unfoldable pub swap_context : FiberThread → (out into : ℕ) → FiberThread
swap_context t out into =
    let fs = put_fiber t.fibers out (record (t.fibers out) { context = t.executing }) in
    record t { fibers = fs; executing = (fs into).context }

-- The fiber whose context `resume` leaves and `yield` enters.
abbrev pub main_of : FiberThread → ℕ → Option ℕ
main_of t f = if (t.fibers f).run_in_scheduler then t.scheduler_fiber else t.cur_thread_fiber

abbrev pub set_state : FiberThread → ℕ → State → FiberThread
set_state t f s = record t { fibers = put_fiber t.fibers f (record (t.fibers f) { state = s }) }

unfoldable pub resume : FiberThread → ℕ → Result FiberThread
unfolding swap_context
resume t f = do
  let s = (t.fibers f).state
  my_assert (not (is_term_state s) && not (is_running_state s))
  m ← at_index (main_of t f)
  ok (swap_context (set_state (record t { cur_fiber = some f }) f running_state) m f)

unfoldable pub yield_fiber : FiberThread → ℕ → Result FiberThread
unfolding swap_context
yield_fiber t f = do
  let s = (t.fibers f).state
  my_assert (is_term_state s || is_running_state s)
  let u = record t { cur_fiber = t.cur_thread_fiber }
  m ← at_index (main_of t f)
  ok (swap_context (if is_term_state s then u else set_state u f ready_state) f m)

-- `MainFunc` behind the call of the function. Its `cur` is the fiber itself.
unfoldable pub finish : FiberThread → ℕ → Result FiberThread
unfolding yield_fiber
finish t f =
    let g = record (t.fibers f) { callback = none; state = term_state } in
    yield_fiber (record t { fibers = put_fiber t.fibers f g }) f

unfoldable pub reset_fiber : FiberThread → ℕ → (callback : Option ℕ) → Result FiberThread
reset_fiber t f callback = do
  my_assert (t.fibers f).stack
  my_assert (is_term_state (t.fibers f).state)
  let g = record (t.fibers f) { callback = callback; context = f; state = ready_state }
  ok (record t { fibers = put_fiber t.fibers f g })

-- The constructor with a function, at the address `f`.
unfoldable pub new_fiber :
    FiberThread → ℕ → (callback : Option ℕ) → (run_in_scheduler : Bool) → FiberThread
new_fiber t f callback run_in_scheduler =
    let g : Fiber = record {
      id = t.cur_fiber_id;
      state = ready_state;
      context = f;
      stack = true;
      callback = callback;
      run_in_scheduler = run_in_scheduler;
    } in
    record t {
      fibers = put_fiber t.fibers f g;
      cur_fiber_id = t.cur_fiber_id + 1;
      fiber_count = t.fiber_count + 1;
    }

-- The constructor without one. `isRunInScheduler_` is not set, and `left` is what it then holds.
unfoldable pub new_main_fiber : FiberThread → ℕ → (left : Bool) → FiberThread
new_main_fiber t f left =
    let g : Fiber = record {
      id = t.cur_fiber_id;
      state = running_state;
      context = f;
      stack = false;
      callback = none;
      run_in_scheduler = left;
    } in
    record t {
      fibers = put_fiber t.fibers f g;
      cur_fiber = some f;
      cur_fiber_id = t.cur_fiber_id + 1;
      fiber_count = t.fiber_count + 1;
    }

-- `GetThis`, with the address of a fiber that it may make.
unfoldable pub get_this : FiberThread → ℕ → (left : Bool) → FiberThread × ℕ
unfolding new_main_fiber
get_this t fresh left = elim t.cur_fiber [
  | some f ↦ (t, f)
  | none ↦ (record (new_main_fiber t fresh left) { cur_thread_fiber = some fresh }, fresh)
]

abbrev pub is_this : Option ℕ → ℕ → Bool
is_this none f = false
is_this (some g) f = g == f

abbrev pub is_no_callback : Option ℕ → Bool
is_no_callback none = true
is_no_callback (some c) = false

-- The destructor. What is left at the address is not read again. The count wraps on 64 bits.
abbrev pub minus_one : ℕ → ℕ
minus_one zero = 2 ^ 64 - 1
minus_one (suc n) = n

unfoldable pub destroy : FiberThread → ℕ → Result FiberThread
destroy t f =
    let u = record t { fiber_count = minus_one t.fiber_count } in
    if (t.fibers f).stack then (do my_assert (is_term_state (t.fibers f).state); ok u) else (do
      my_assert (is_no_callback (t.fibers f).callback)
      my_assert (is_running_state (t.fibers f).state)
      ok (if is_this t.cur_fiber f then record u { cur_fiber = none } else u))
