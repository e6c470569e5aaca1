-- ===== src/Hook/Closing.antt =====
-- `close` of fiber/hook.cpp, which cancels what waits for the descriptor and forgets its context.
use rpc_storage_cpp.Common.{
  leb, ◌==◌, if◌then◌else◌, Bool-cases, Option-cases, length, get_elem?, Returns, Returns-ok, ℕ,
  ◌+◌, ◌≤◌, ◌≡◌, refl, sym, ap, inl, inr, ◌++◌, true, false, none, some, List, [], arith,
}
use rpc_storage_cpp.IoManager.Trigger.{waiting_at, trigger_both-Triggered}
use rpc_storage_cpp.Hook.Flags.{ctx_of-length}
use rpc_storage_cpp.IoManager.Laws.{get_elem?-set, weight-zero}
use rpc_storage_cpp.Hook.{Sys}
use rpc_storage_cpp.FdManager.Contexts.{known-set, ctx_of}
use rpc_storage_cpp.Hook.Sockets.{close}
use rpc_storage_cpp.FdManager.{FdManager, del_ctx, FdCtx}
use rpc_storage_cpp.IoManager.{
  FdContext, trigger_both, is_any, new_fd_context, epoll_ctl, Task, cancel_all, IoManager,
  epoll_del,
}
use rpc_storage_cpp.IoManager.Pending.{weight-le, weight, AllConsistent-at, IsValid}
use rpc_storage_cpp.IoManager.Steps.{put_context-Kept, context_of, cancel_every}

-- What waits for the events of a descriptor, the one that reads first, each with its scheduler.
abbrev pub waiting_on : FdContext → List (ℕ × Task)
waiting_on c = waiting_at c.events.reads c.read ++ waiting_at c.events.writes c.write

-- What `cancelAll` leaves: no event is registered for the descriptor, nothing waits for it, and what waited
-- is handed over, one task for each event that the count has lost.
pub record Cancelled (m : IoManager) (fd : ℕ) (r : IoManager × List (ℕ × Task)) : Type 0 where
  pub valid : IsValid r.0
  pub handed : r.0.pending_event_count + length r.1 ≡ m.pending_event_count
  pub tasks : r.1 ≡ waiting_on (context_of m fd)
  pub empty : context_of r.0 fd ≡ new_fd_context

none-Cancelled :
    (m : IoManager) (fd : ℕ) → IsValid m → context_of m fd ≡ new_fd_context → Cancelled m fd (m, [])
none-Cancelled m fd h e = record {
  valid = h;
  handed = omega arith;
  tasks = sym (ap waiting_on e);
  empty = e;
}

cancel_all-Cancelled :
    (m : IoManager) (fd : ℕ)
    → IsValid m
    → Returns (cancel_all m fd true) (λ r. Cancelled m fd (r.0, r.1))
unfolding cancel_all epoll_ctl
cancel_all-Cancelled m fd h = elim (Option-cases (get_elem? m.fd_contexts fd)) [
  | inl e ↦ rw (Returns, e) (none-Cancelled m fd h (rw e refl))
  | inr (c, e) ↦ elim (Bool-cases (is_any c.events)) [
    | inr off ↦
        rw (Returns, e, off)
          (none-Cancelled m fd h (
            rw e (
              weight-zero c (AllConsistent-at m.fd_contexts fd c h.contexts e)
                (ground (arith, off)))))
    | inl on ↦
        let fine = AllConsistent-at m.fd_contexts fd c h.contexts e in
        let l : weight c ≤ m.pending_event_count =
          omega (arith, weight-le m.fd_contexts fd c e, h.counted) in
        let (r, f, t) =
          Returns-ok (trigger_both c.events.reads c.events.writes c m.pending_event_count) (
            trigger_both-Triggered c c.events.reads c.events.writes m.pending_event_count fine l
              (λ q. q) (λ q. q)) in
        let none_left : is_any r.0.events ≡ false = ground (arith, t.events_eq) in
        let kept =
          put_context-Kept m (cancel_every fd true) fd r.2 c r.0 r.1 epoll_del
            (record { reads = false; writes = false }) h e t.consistent t.counted
            (λ q. t.lighter) in
        rw (Returns, e, on, f, none_left)
          (record {
            valid = kept.valid;
            handed = kept.handed refl;
            tasks = rw e t.tasks;
            empty =
                rw (get_elem?-set m.fd_contexts fd c r.0 e)
                  (weight-zero r.0 t.consistent (ground (arith, none_left)));
          })
  ]
]

del_ctx-none :
    (s : FdManager) (fd : ℕ) (c : FdCtx)
    → ctx_of s fd ≡ some c
    → (j : ℕ) → ctx_of (del_ctx s fd) j ≡ (if fd == j then none else ctx_of s j)
unfolding del_ctx
del_ctx-none s fd c e j =
    let l = ctx_of-length s.datas fd c e in
    let inside : leb (length s.datas) fd ≡ false = ground (arith, l) in
    rw (del_ctx, inside) (known-set s.datas fd j none l)

-- With hooks on, `close` of a descriptor that has a context, on a thread whose I/O manager is valid and
-- whose `epoll_ctl` succeeds, returns what the system returns. The I/O manager is valid again, no event
-- of the descriptor is registered and nothing waits for it. What has been handed over is exactly the fiber
-- or function that waited to read and then the one that waited to write, each to the scheduler that it
-- waited on, and the count of pending events has gone down by as many. The descriptor has no context any
-- more, and the others have the one of before.
pub close-Cancelled :
    (s : FdManager) (m : IoManager) (fd : ℕ) (c : FdCtx) (close_f : Sys)
    → IsValid m
    → ctx_of s fd ≡ some c
    → Returns (close true s (some m) fd true close_f) (λ r.
      (n : IoManager) × (r.iom ≡ some n)
      × Cancelled m fd (n, r.handed)
      × (r.result ≡ close_f)
      × ((j : ℕ) → ctx_of r.fds j ≡ (if fd == j then none else ctx_of s j)))
unfolding close
close-Cancelled s m fd c close_f h e =
    let (r, f, k) = Returns-ok (cancel_all m fd true) (cancel_all-Cancelled m fd h) in
    rw (Returns, e, f) (r.0, refl, k, refl, del_ctx-none s fd c e)
