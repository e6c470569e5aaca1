-- ===== src/Hook/Sockets.antt =====
-- The calls of fiber/hook.cpp that make, change, use and close a socket. The context of a descriptor is
-- shared, so that a change of it is a change of the place of `FdManager` that holds it.
use rpc_storage_cpp.Common.{
  ◌==◌, if◌then◌else◌, set, Result, ◌>>=◌, ok, ℕ, ◌+◌, ◌*◌, ◌/◌, ◌%◌, ◌^◌, Bool, true, false, not,
  ◌||◌, Option, none, some, List, [],
}
use rpc_storage_cpp.FdManager.Contexts.{ctx_of}
use rpc_storage_cpp.Hook.{
  event_failed, returned, told, failed_with, Effect, Told, Kernel, Sys, connect_with_timeout, do_io,
}
use rpc_storage_cpp.IoManager.{write_event, Task, read_event, cancel_all, IoManager, Event}
use rpc_storage_cpp.FdManager.{Stat, del_ctx, get_ctx, set_timeout, FdManager, FdCtx}

-- A context that is changed in its place.
abbrev pub put_ctx : FdManager → (fd : ℕ) → FdCtx → FdManager
put_ctx s fd c = record s { datas = set s.datas fd (some c) }

-- The flags of a descriptor, an `int`: the bit O_NONBLOCK, and the number without it.
pub record Flags : Type 0 where
  pub nonblock : Bool
  pub others : ℕ

-- `!ctx || ctx->isClose() || !ctx->isSocket()` does not hold, and `ctx`.
abbrev pub live_socket : FdManager → (fd : ℕ) → Option FdCtx
live_socket s fd = elim (ctx_of s fd) [
  | none ↦ none
  | some c ↦ if c.is_closed || not c.is_socket then none else some c
]

-- `fcntl` with F_SETFL, with what it hands to the system.
unfoldable pub set_flags : FdManager → (fd : ℕ) → Flags → FdManager × Flags
set_flags s fd arg = elim (live_socket s fd) [
  | none ↦ (s, arg)
  | some c ↦ (
    put_ctx s fd (record c { user_nonblock = arg.nonblock }),
    record arg { nonblock = c.sys_nonblock },
  )
]

-- `fcntl` with F_GETFL, from what the system reports.
unfoldable pub get_flags : FdManager → (fd : ℕ) → Flags → Flags
get_flags s fd arg = elim (live_socket s fd) [
  | none ↦ arg
  | some c ↦ record arg { nonblock = c.user_nonblock }
]

-- `ioctl` with FIONBIO. What it hands to the system is `arg` itself.
unfoldable pub set_fionbio : FdManager → (fd arg : ℕ) → FdManager × ℕ
set_fionbio s fd arg = elim (live_socket s fd) [
  | none ↦ (s, arg)
  | some c ↦ (put_ctx s fd (record c { user_nonblock = not (arg == 0) }), arg)
]

-- The option of `setsockopt`, at the level SOL_SOCKET or another.
pub data SocketOption : Type 0 where
  rcv_timeo snd_timeo other_option : SocketOption

-- `v->tv_sec * 1000 + v->tv_usec / 1000` as a `uint64_t`.
abbrev pub timeval_ms : (tv_sec tv_usec : ℕ) → ℕ
timeval_ms tv_sec tv_usec = (tv_sec * 1000 + tv_usec / 1000) % 2 ^ 64

abbrev pub with_timeout : FdManager → (fd : ℕ) → (receiving : Bool) → (v : ℕ) → FdManager
with_timeout s fd receiving v = elim (ctx_of s fd) [
  | none ↦ s
  | some c ↦ put_ctx s fd (set_timeout c receiving v)
]

-- `setsockopt`, which hands the same to the system.
unfoldable pub setsockopt :
    (hook_enable : Bool) → FdManager → (fd : ℕ) → SocketOption → (tv_sec tv_usec : ℕ) → FdManager
unfolding set_timeout
setsockopt false s fd o tv_sec tv_usec = s
setsockopt true s fd rcv_timeo tv_sec tv_usec = with_timeout s fd true (timeval_ms tv_sec tv_usec)
setsockopt true s fd snd_timeo tv_sec tv_usec = with_timeout s fd false (timeval_ms tv_sec tv_usec)
setsockopt true s fd other_option tv_sec tv_usec = s

-- `socket`, with what the system returns, and what `fstat` reports then.
unfoldable pub new_socket :
    (hook_enable : Bool) → FdManager → (socket_f : Sys) → Stat → Result (FdManager × Sys)
unfolding get_ctx
new_socket hook_enable s (failed_with e) stat = ok (s, failed_with e)
new_socket hook_enable s (returned fd) stat =
    if not hook_enable
    then ok (s, returned fd)
    else (do (t, c) ← get_ctx s (some fd) true stat; ok (t, returned fd))

-- The calls that are `do_io` with a function of the system.
pub data IoCall : Type 0 where
  accept read readv recv recvfrom recvmsg write writev send sendto sendmsg : IoCall

abbrev pub receives : IoCall → Bool
receives write = false
receives writev = false
receives send = false
receives sendto = false
receives sendmsg = false
receives accept = true
receives read = true
receives readv = true
receives recv = true
receives recvfrom = true
receives recvmsg = true

abbrev pub event_of : IoCall → Event
event_of call = if receives call then read_event else write_event

-- All of these but `accept`, and its first line.
unfoldable pub hooked :
    Kernel → (hook_enable : Bool) → FdManager → IoCall → (fd fuel : ℕ) → Result (Told × List Effect)
unfolding do_io
hooked o hook_enable s call fd fuel =
    do_io o hook_enable (ctx_of s fd) fd (event_of call) (receives call) fuel

-- The end of `accept`.
abbrev pub keep_accepted : FdManager → Told → Stat → Result FdManager
keep_accepted s (told (returned fd)) stat = do (t, c) ← get_ctx s (some fd) true stat; ok t
keep_accepted s (told (failed_with e)) stat = ok s
keep_accepted s event_failed stat = ok s

unfoldable pub accept_socket :
    Kernel
    → (hook_enable : Bool) → FdManager
    → (fd fuel : ℕ) → Stat
    → Result (FdManager × Told × List Effect)
unfolding hooked get_ctx
accept_socket o hook_enable s fd fuel stat = do
  (t, es) ← hooked o hook_enable s accept fd fuel
  u ← keep_accepted s t stat
  ok (u, t, es)

-- `s_connect_timeout`, as `_HOOKIniter` sets it.
abbrev pub connect_timeout : ℕ
connect_timeout = 5000

unfoldable pub connect :
    (hook_enable : Bool)
    → FdManager
    → (fd : ℕ) → (connect_f : Sys) → (adds fires : Bool) → (getsockopt : Sys) → (error : ℕ)
    → Told × List Effect
unfolding connect_with_timeout
connect hook_enable s fd connect_f adds fires getsockopt error =
    connect_with_timeout hook_enable (ctx_of s fd) fd connect_timeout connect_f adds fires
      getsockopt error

-- What `close` leaves: the contexts, the I/O manager of the thread if it has one, the tasks that are
-- handed over, and what the system returned.
pub record Closed : Type 0 where
  pub fds : FdManager
  pub iom : Option IoManager
  pub handed : List (ℕ × Task)
  pub result : Sys

abbrev pub cancel_on :
    Option IoManager → (fd : ℕ) → (ctl : Bool) → Result (Option IoManager × List (ℕ × Task))
cancel_on none fd ctl = ok (none, [])
cancel_on (some m) fd ctl = do (n, tasks, b) ← cancel_all m fd ctl; ok (some n, tasks)

unfoldable pub close :
    (hook_enable : Bool)
    → FdManager
    → Option IoManager
    → (fd : ℕ) → (ctl : Bool) → (close_f : Sys) → Result Closed
unfolding cancel_all del_ctx
close false s iom fd ctl close_f = ok (record { fds = s; iom = iom; handed = []; result = close_f })
close true s iom fd ctl close_f = elim (ctx_of s fd) [
  | none ↦ ok (record { fds = s; iom = iom; handed = []; result = close_f })
  | some c ↦ (do
    (n, tasks) ← cancel_on iom fd ctl
    ok (record { fds = del_ctx s fd; iom = n; handed = tasks; result = close_f }))
]
