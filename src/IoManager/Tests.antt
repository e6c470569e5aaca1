-- ===== src/IoManager/Tests.antt =====
-- An `IOManager` with one event that is registered: fiber/iomanager.cpp.
use rpc_storage_cpp.Common.{◌>>=◌, Returns, ok, ◌≡◌, refl, true, false, none, some, [], ◌∷◌, arith}
use rpc_storage_cpp.IoManager.Adding.{asked_to_add}
use rpc_storage_cpp.IoManager.Keeps.{step-Kept}
use rpc_storage_cpp.IoManager.Laws.{cancel_event-add_event}
use rpc_storage_cpp.IoManager.Steps.{Kept, ready, context_of, step}
use rpc_storage_cpp.IoManager.Pending.{new_fd_context-Consistent, IsValid, Consistent}
use rpc_storage_cpp.IoManager.{
  epoll_leave, fiber_task, cancel_event, write_event, callback_task, new_fd_context, handle_ready,
  stopping, add_event, Ready, Caller, IoManager, FdContext,
}

-- A function waits until the descriptor can be read.
abbrev reading : FdContext
reading = record new_fd_context {
  read = record { scheduler = some 1; fiber = none; callback = some 7 };
  events = record { reads = true; writes = false };
}

abbrev manager : IoManager
manager = record {
  pending_event_count = 1;
  fd_contexts = reading ∷ new_fd_context ∷ [];
  epoll_calls = [];
}

abbrev idle_manager : IoManager
idle_manager = record {
  pending_event_count = 0;
  fd_contexts = new_fd_context ∷ new_fd_context ∷ [];
  epoll_calls = [];
}

abbrev this_thread : Caller
this_thread = record { scheduler = some 1; fiber = 9; running = true }

reading-Consistent : Consistent reading
reading-Consistent = record { read_slot = (1, callback_task 7, refl, refl); write_slot = refl }

manager-IsValid : IsValid manager
manager-IsValid = record {
  counted = refl;
  contexts = (reading-Consistent, (new_fd_context-Consistent, tt));
}

idle_manager-IsValid : IsValid idle_manager
idle_manager-IsValid = record {
  counted = refl;
  contexts = (new_fd_context-Consistent, (new_fd_context-Consistent, tt));
}

-- Ready for both, of which one is registered.
abbrev both_ready : Ready
both_ready = record { fd = 0; input = true; output = true; failed = false }

abbrev input_ready : Ready
input_ready = record both_ready { output = false }

step-Kept_example :
    Returns (step manager (ready input_ready true)) (Kept manager (ready input_ready true))
step-Kept_example =
    step-Kept manager (ready input_ready true) manager-IsValid
      (reading, refl, (λ e. refl), (λ e. absurd (cc e)))

cancel_event-add_event_example :
    (add_event manager 5 write_event none this_thread true >>= λ p.
    cancel_event p.0 5 write_event true)
    ≡ ok (
      epoll_leave (asked_to_add manager 5 write_event) 5 (context_of manager 5).events,
      (1, fiber_task 9) ∷ [],
      true,
    )
cancel_event-add_event_example =
    cancel_event-add_event manager 5 write_event none this_thread 1 manager-IsValid (omega arith)
      refl refl refl

idle_stopping : stopping idle_manager true true ≡ true
unfolding stopping
idle_stopping = refl

-- The input is handled, and the function that waits for it handed over.
input_handled :
    handle_ready manager input_ready true
    ≡ ok (
      epoll_leave idle_manager 0 (record { reads = false; writes = false }),
      (1, callback_task 7) ∷ [],
    )
unfolding handle_ready epoll_leave
input_handled = refl
