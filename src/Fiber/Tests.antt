-- ===== src/Fiber/Tests.antt =====
-- Fibers of a thread whose scheduler runs on a fiber of its own: fiber/fiber.cpp.
use rpc_storage_cpp.Common.{
  ◌==◌, ◌>>=◌, Returns, ok, ℕ, zero, suc, ◌≡◌, refl, Bool, true, false, none, some, arith,
}
use rpc_storage_cpp.Fiber.{
  finish, swap_context, yield_fiber, put_fiber, resume, is_running_state, State, Fiber, FiberThread,
  ready_state, running_state, term_state,
}
use rpc_storage_cpp.Fiber.Chain.{is_active, IsChain}
use rpc_storage_cpp.Fiber.CameBack.{resume-CameBack, CameBack}
use rpc_storage_cpp.Fiber.Switching.{step-IsChain, step, resumes}

abbrev fiber_of : (id : ℕ) → State → (stack run_in_scheduler : Bool) → Fiber
fiber_of id state stack run_in_scheduler = record {
  id = id;
  state = state;
  context = id;
  stack = stack;
  callback = none;
  run_in_scheduler = run_in_scheduler;
}

-- 0 is the thread's own fiber, 1 that of the scheduler, and the others are its tasks.
abbrev at_work : ℕ → Fiber
at_work zero = fiber_of 0 running_state false false
at_work (suc zero) = fiber_of 1 running_state true false
at_work (suc (suc k)) = fiber_of (suc (suc k)) ready_state true true

abbrev scheduling : FiberThread
scheduling = record {
  fibers = at_work;
  cur_fiber = some 1;
  cur_thread_fiber = some 0;
  scheduler_fiber = some 1;
  executing = 1;
  cur_fiber_id = 9;
  fiber_count = 9;
}

scheduling-IsChain : IsChain scheduling 0
scheduling-IsChain = record {
  thread_fiber = refl;
  states = states;
  contexts = contexts;
  plain = plain;
  scheduled = λ n e. absurd (cc e);
}
  where
    states : (f : ℕ) → is_running_state (at_work f).state ≡ is_active scheduling 0 f
    states zero = refl
    states (suc zero) = refl
    states (suc (suc k)) = ground arith

    contexts : (f : ℕ) → 1 == f ≡ false → (at_work f).context ≡ f
    contexts zero n = refl
    contexts (suc zero) n = refl
    contexts (suc (suc k)) n = refl

    plain :
        (s : ℕ)
        → scheduling.scheduler_fiber ≡ some s
        → s == 0 ≡ false
        → (at_work s).run_in_scheduler ≡ false
    plain zero e n = refl
    plain (suc zero) e n = refl
    plain (suc (suc k)) e n = let same : 1 ≡ suc (suc k) = cc e in absurd (omega (arith, same))

step-IsChain_example : Returns (step scheduling (resumes 5)) (λ u. IsChain u 0)
step-IsChain_example = step-IsChain scheduling 0 (resumes 5) scheduling-IsChain (refl, refl)

resume-CameBack_example :
    Returns
      (resume scheduling 5 >>= λ u. yield_fiber u u.executing)
      (λ v. CameBack scheduling v 5 none ready_state)
    × Returns
        (resume scheduling 5 >>= λ u. finish u u.executing)
        (λ v. CameBack scheduling v 5 none term_state)
resume-CameBack_example = resume-CameBack scheduling 0 5 scheduling-IsChain refl refl

-- A task that resumes a fiber of its thread, and not of the scheduler, writes its own execution over the
-- context of the thread's fiber.
abbrev nested : FiberThread
nested = record scheduling {
  fibers = put_fiber at_work 7 (fiber_of 7 ready_state true false);
  executing = 1;
}

overwritten : (resume nested 7 >>= λ u. ok (u.fibers 0).context) ≡ ok 1
unfolding resume swap_context
overwritten = refl
