-- ===== src/Hook.antt =====
-- The calls of fiber/hook.cpp that read, write, connect and sleep. What the system's own calls return,
-- what `addEvent` returns, and whether a timer fires while the fiber waits are arguments. The timers
-- that are set and the events that are waited for are part of the result. `errno` is a number.
pub mod Sockets
pub mod Retry
pub mod Flags
pub mod Closing
mod Tests
use rpc_storage_cpp.FdManager.{FdCtx, no_timeout, get_timeout}
use rpc_storage_cpp.IoManager.{write_event, Event}
use rpc_storage_cpp.Common.{
  ◌==◌, if◌then◌else◌, Result, out_of_fuel, err, ok, ℕ, zero, suc, ◌+◌, ◌*◌, ◌/◌, ◌%◌, ◌^◌, Bool,
  true, false, not, ◌&&◌, ◌||◌, Option, none, some, List, [], ◌∷◌, ◌++◌,
}

abbrev pub eintr : ℕ
eintr = 4

abbrev pub eagain : ℕ
eagain = 11

abbrev pub ebadf : ℕ
ebadf = 9

abbrev pub etimedout : ℕ
etimedout = 110

abbrev pub einprogress : ℕ
einprogress = 115

-- What a call returns: a number from 0 on, or -1 with `errno`.
pub data Sys : Type 0 where
  returned : (n : ℕ) → Sys
  failed_with : (errno : ℕ) → Sys

-- What the caller of a hook is told. After a failed `addEvent`, -1 with an `errno` of its own.
pub data Told : Type 0 where
  told : Sys → Told
  event_failed : Told

-- A timer for some milliseconds, its end, and a wait until the event of a descriptor.
pub data Effect : Type 0 where
  set_timer : (ms : ℕ) → Effect
  cancel_timer : Effect
  wait_for : (fd : ℕ) → Event → Effect

-- How `do_io` treats a descriptor.
pub data Mode : Type 0 where
  direct bad_fd : Mode
  blocking : (timeout : ℕ) → Mode

-- The tests of `do_io` in front of the loop, with the descriptor's context.
unfoldable pub mode_of : (hook_enable : Bool) → Option FdCtx → (receiving : Bool) → Mode
unfolding get_timeout
mode_of hook_enable ctx receiving = elim ctx [
  | none ↦ direct
  | some c ↦
      if not hook_enable
      then direct
      else if c.is_closed
      then bad_fd
      else if not c.is_socket || c.user_nonblock
      then direct
      else blocking (get_timeout c receiving)
]

-- The system's answers: each call of `fun`, whether each `addEvent` succeeds, and whether the timer
-- fires during each wait.
pub record Kernel : Type 0 where
  pub calls : ℕ → Sys
  pub adds : ℕ → Bool
  pub fires : ℕ → Bool

-- Whether there is a timer: a timeout that is not -1.
abbrev pub is_timed : (timeout : ℕ) → Bool
is_timed timeout = not (timeout == no_timeout)

abbrev pub timer_on : (timeout : ℕ) → List Effect
timer_on timeout = if is_timed timeout then set_timer timeout ∷ [] else []

abbrev pub timer_off : (timeout : ℕ) → List Effect
timer_off timeout = if is_timed timeout then cancel_timer ∷ [] else []

-- What was done in front of the rest.
abbrev pub after_effects : List Effect → Result (Told × List Effect) → Result (Told × List Effect)
after_effects es (ok (t, r)) = ok (t, es ++ r)
after_effects es (err f) = err f

-- The loop of `do_io`, from call `k` and wait `w` on. EINTR leads to another call at once.
unfoldable pub retry :
    Kernel → (fd : ℕ) → Event → (timeout fuel k w : ℕ) → Result (Told × List Effect)
retry o fd event timeout zero k w = err out_of_fuel
retry o fd event timeout (suc fuel) k w = elim (o.calls k) [
  | returned n ↦ ok (told (returned n), [])
  | failed_with e ↦ elim (e == eintr) [
    | true ↦ retry o fd event timeout fuel (k + 1) w
    | false ↦ elim (e == eagain) [
      | false ↦ ok (told (failed_with e), [])
      | true ↦ elim (o.adds w) [
        | false ↦ ok (event_failed, timer_on timeout ++ timer_off timeout)
        | true ↦
            after_effects (timer_on timeout ++ (wait_for fd event ∷ timer_off timeout))
              (elim (is_timed timeout && o.fires w) [
                | true ↦ ok (told (failed_with etimedout), [])
                | false ↦ retry o fd event timeout fuel (k + 1) (w + 1)
              ])
      ]
    ]
  ]
]

unfoldable pub do_io :
    Kernel
    → (hook_enable : Bool) → Option FdCtx
    → (fd : ℕ) → Event
    → (receiving : Bool) → (fuel : ℕ) → Result (Told × List Effect)
unfolding mode_of retry
do_io o hook_enable ctx fd event receiving fuel = elim (mode_of hook_enable ctx receiving) [
  | direct ↦ ok (told (o.calls 0), [])
  | bad_fd ↦ ok (told (failed_with ebadf), [])
  | blocking timeout ↦ retry o fd event timeout fuel 0 0
]

-- What `connect_with_timeout` comes to behind the wait: what `getsockopt` returns with the error that
-- it reports, 0 for none.
unfoldable pub connect_result : (getsockopt : Sys) → (error : ℕ) → Told
connect_result (failed_with e) error = told (failed_with e)
connect_result (returned n) error =
    if error == 0 then told (returned 0) else told (failed_with error)

-- From `addConditionTimer` on.
unfoldable pub connect_waiting :
    (fd timeout_ms : ℕ)
    → (adds fires : Bool) → (getsockopt : Sys) → (error : ℕ) → Told × List Effect
unfolding connect_result
connect_waiting fd timeout_ms adds fires getsockopt error =
    if not adds
    then (connect_result getsockopt error, timer_on timeout_ms ++ timer_off timeout_ms)
    else (
      if is_timed timeout_ms && fires
          then told (failed_with etimedout)
          else connect_result getsockopt error,
      timer_on timeout_ms ++ (wait_for fd write_event ∷ timer_off timeout_ms),
    )

unfoldable pub connect_with_timeout :
    (hook_enable : Bool)
    → Option FdCtx
    → (fd timeout_ms : ℕ) → (connect_f : Sys) → (adds fires : Bool) → (getsockopt : Sys)
    → (error : ℕ) → Told × List Effect
unfolding connect_waiting
connect_with_timeout hook_enable ctx fd timeout_ms connect_f adds fires getsockopt error =
    if not hook_enable then (told connect_f, []) else elim ctx [
      | none ↦ (told (failed_with ebadf), [])
      | some c ↦
          if c.is_closed
          then (told (failed_with ebadf), [])
          else if not c.is_socket || c.user_nonblock
          then (told connect_f, [])
          else elim connect_f [
            | returned n ↦ (told (returned n), [])
            | failed_with e ↦
                if e == einprogress
                then connect_waiting fd timeout_ms adds fires getsockopt error
                else (told (failed_with e), [])
          ]
    ]

-- The timers of `sleep`, `usleep` and `nanosleep`, in milliseconds: `unsigned int` and `int` arithmetic
-- on 32 bits, the latter where it does not overflow.
unfoldable pub sleep_ms : (seconds : ℕ) → ℕ
sleep_ms seconds = seconds * 1000 % 2 ^ 32

unfoldable pub usleep_ms : (usec : ℕ) → ℕ
usleep_ms usec = usec / 1000

unfoldable pub nanosleep_ms : (sec nsec : ℕ) → ℕ
nanosleep_ms sec nsec = sec * 1000 + nsec / 1000 / 1000
