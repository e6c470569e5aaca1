-- ===== src/Hook/Tests.antt =====
-- Examples for the calls of fiber/hook.cpp.
use rpc_storage_cpp.Common.{
  ◌==◌, if◌then◌else◌, Returns, ok, ℕ, zero, suc, ◌<◌, ◌≡◌, refl, inl, inr, true, false, none, some,
  List, [], ◌∷◌, arith,
}
use rpc_storage_cpp.Hook.Closing.{close-Cancelled, Cancelled}
use rpc_storage_cpp.IoManager.Pending.{new_fd_context-Consistent, IsValid}
use rpc_storage_cpp.FdManager.Contexts.{ctx_of}
use rpc_storage_cpp.IoManager.{
  fiber_task, new_fd_context, IoManager, FdContext, write_event, read_event,
}
use rpc_storage_cpp.Hook.Sockets.{
  rcv_timeo, close, get_flags, send, recv, setsockopt, set_flags, Flags, hooked,
}
use rpc_storage_cpp.FdManager.{FdManager, no_timeout, FdCtx}
use rpc_storage_cpp.Hook.{
  direct, etimedout, eintr, eagain, mode_of, do_io, Effect, Kernel, Sys, set_timer, cancel_timer,
  wait_for, returned, failed_with, told,
}
use rpc_storage_cpp.Hook.Retry.{do_io-Settles, do_io-Blocks, Again, Patient, Settles, Blocks}
use rpc_storage_cpp.Hook.Flags.{get_flags-set_flags, Live}

abbrev open_socket : FdCtx
open_socket = record {
  is_init = true;
  is_socket = true;
  sys_nonblock = true;
  user_nonblock = false;
  is_closed = false;
  fd = 1;
  recv_timeout = 3000;
  send_timeout = no_timeout;
}

abbrev one_socket : FdManager
one_socket = record { datas = none ∷ some open_socket ∷ none ∷ []; set_nonblock = 1 ∷ [] }

-- Nothing to read, an interrupt, and then five bytes.
abbrev answers : ℕ → Sys
answers zero = failed_with eagain
answers (suc zero) = failed_with eintr
answers (suc (suc k)) = returned 5

abbrev patient_kernel : Kernel
patient_kernel = record { calls = answers; adds = λ w. true; fires = λ w. false }

abbrev waited : List Effect
waited = set_timer 3000 ∷ wait_for 1 read_event ∷ cancel_timer ∷ []

five_bytes : hooked patient_kernel true one_socket recv 1 9 ≡ ok (told (returned 5), waited)
unfolding hooked
five_bytes = refl

abbrev slow_kernel : Kernel
slow_kernel = record { calls = answers; adds = λ w. true; fires = λ w. true }

times_out : hooked slow_kernel true one_socket recv 1 9 ≡ ok (told (failed_with etimedout), waited)
unfolding hooked
times_out = refl

-- A call that sends has no time limit here.
no_timer_set :
    hooked slow_kernel true one_socket send 1 9
    ≡ ok (told (returned 5), wait_for 1 write_event ∷ [])
unfolding hooked
no_timer_set = refl

do_io-Blocks_example : Blocks (told (returned 5), waited)
unfolding do_io
do_io-Blocks_example =
    do_io-Blocks patient_kernel (some open_socket) 1 read_event true 3000 9
      (told (returned 5), waited) refl refl

answers-Again : (j : ℕ) → j < 2 → Again (answers j)
answers-Again zero l = inr refl
answers-Again (suc zero) l = inl refl
answers-Again (suc (suc j)) l = absurd (omega (arith, l))

patient_kernel-Patient : Patient patient_kernel
patient_kernel-Patient = record { added = λ w. refl; in_time = λ w. refl }

do_io-Settles_example :
    Settles (do_io patient_kernel true (some open_socket) 1 read_event true 9) (answers 2)
unfolding mode_of
do_io-Settles_example =
    do_io-Settles patient_kernel (some open_socket) 1 read_event true 3000 2 9 refl
      patient_kernel-Patient answers-Again (λ q. cc q) (λ q. cc q) (omega arith)

open_socket-Live : Live one_socket 1 open_socket
open_socket-Live = record { context = refl; is_open = refl; is_a_socket = refl }

abbrev asked_flags : Flags
asked_flags = record { nonblock = true; others = 2 }

abbrev system_flags : Flags
system_flags = record { nonblock = true; others = 3 }

get_flags-set_flags_example :
    ((set_flags one_socket 1 asked_flags).1 ≡ asked_flags)
    × (get_flags (set_flags one_socket 1 asked_flags).0 1 system_flags ≡ system_flags)
    × (mode_of true (ctx_of (set_flags one_socket 1 asked_flags).0 1) true ≡ direct)
    × (ctx_of (set_flags one_socket 1 asked_flags).0 2 ≡ none)
get_flags-set_flags_example =
    get_flags-set_flags one_socket 1 open_socket asked_flags system_flags true 2 open_socket-Live
      (λ q. omega (arith, q))

-- A time limit of 0, which the system reads as none, is a timer of 0 milliseconds.
zero_times_out :
    hooked slow_kernel true (setsockopt true one_socket 1 rcv_timeo 0 0) recv 1 9
    ≡ ok (told (failed_with etimedout), set_timer 0 ∷ wait_for 1 read_event ∷ cancel_timer ∷ [])
unfolding hooked setsockopt
zero_times_out = refl

-- A fiber waits until it can read from the socket.
abbrev waiting_fiber : FdContext
waiting_fiber = record new_fd_context {
  read = record { scheduler = some 1; fiber = some 7; callback = none };
  events = record { reads = true; writes = false };
}

abbrev busy_manager : IoManager
busy_manager = record {
  pending_event_count = 1;
  fd_contexts = new_fd_context ∷ waiting_fiber ∷ [];
  epoll_calls = [];
}

busy_manager-IsValid : IsValid busy_manager
busy_manager-IsValid = record {
  counted = refl;
  contexts = (
    new_fd_context-Consistent,
    (record { read_slot = (1, fiber_task 7, refl, refl); write_slot = refl }, tt),
  );
}

close-Cancelled_example :
    Returns (close true one_socket (some busy_manager) 1 true (returned 0)) (λ r.
      (n : IoManager) × (r.iom ≡ some n)
      × Cancelled busy_manager 1 (n, r.handed)
      × (r.result ≡ returned 0)
      × ((j : ℕ) → ctx_of r.fds j ≡ (if 1 == j then none else ctx_of one_socket j)))
close-Cancelled_example =
    close-Cancelled one_socket busy_manager 1 open_socket (returned 0) busy_manager-IsValid refl
