-- ===== src/Fiber/CameBack.antt =====
-- A fiber that is resumed comes back to where it was resumed: fiber/fiber.cpp.
use rpc_storage_cpp.Common.{
  ◌==◌, ◌>>=◌, Returns, ℕ, ◌≡◌, refl, subst, ◌≢◌, true, false, Option, none, some, arith,
}
use rpc_storage_cpp.Fiber.Switching.{idle_for}
use rpc_storage_cpp.Fiber.{
  finish, yield_fiber, resume, main_of, State, FiberThread, ready_state, term_state,
}
use rpc_storage_cpp.Fiber.Chain.{
  resume-resumed, resumed-run_in_scheduler, resumed-IsChain, resumed, IsChain,
}
use rpc_storage_cpp.Fiber.Leaving.{ends-left_by, yields-left_by, below, saved, left_by}

-- What is left when a fiber was resumed and has yielded, or has ended: `callback` and `state` are what it
-- was left with.
pub record CameBack (t v : FiberThread) (f : ℕ) (callback : Option ℕ) (state : State) : Type 0 where
  pub executing : v.executing ≡ t.executing
  pub cur_fiber : v.cur_fiber ≡ t.cur_thread_fiber
  pub fiber : v.fibers f ≡ record (t.fibers f) { callback = callback; state = state }
  pub others : (g : ℕ) → g ≢ f → g ≢ t.executing → v.fibers g ≡ t.fibers g

left_by-CameBack :
    (t : FiberThread) (main f : ℕ) (callback : Option ℕ) (state : State)
    → IsChain t main
    → t.executing == f ≡ false
    → CameBack t
        (left_by (resumed t f) t.executing (saved (resumed t f) callback state))
        f
        callback
        state
left_by-CameBack t main f callback state h apart =
    let same : f == f ≡ true = ground arith in
    record {
      executing = refl;
      cur_fiber = refl;
      fiber = rw (same, apart, h.contexts f apart) refl;
      others = λ g n m.
          let a : f == g ≡ false = ground (arith, n) in
          let b : t.executing == g ≡ false = ground (arith, m) in rw (a, b) refl;
    }

-- A fiber that is ready is resumed from the fiber that executes. When it yields, the thread executes that
-- fiber again, and the other is ready, with its function and its own execution; when its function returns,
-- it has ended and has no function. No further fiber has changed, and `GetThis` is the thread's own fiber,
-- also if the fiber that executes is the scheduler's.
pub resume-CameBack :
    (t : FiberThread) (main f : ℕ)
    → IsChain t main
    → (t.fibers f).state ≡ ready_state
    → main_of t f ≡ some t.executing
    → Returns
        (resume t f >>= λ u. yield_fiber u u.executing)
        (λ v. CameBack t v f (t.fibers f).callback ready_state)
      × Returns (resume t f >>= λ u. finish u u.executing) (λ v. CameBack t v f none term_state)
resume-CameBack t main f h r m =
    let u = resumed t f in
    let hu = resumed-IsChain t main f h m r in
    let idle = idle_for t main f h (rw r refl) in
    let other : f == main ≡ false = ground (arith, idle) in
    let apart : t.executing == f ≡ false = ground (arith, idle) in
    let k : main_of u f ≡ some t.executing = rw (resumed-run_in_scheduler t f f) m in
    let b = below u main t.executing hu other k in
    let e = resume-resumed t main f h m r in
    let same : f == f ≡ true = ground arith in
    let kept : (t.fibers f).callback ≡ (u.fibers f).callback = rw (apart, same) refl in
    let c = (t.fibers f).callback in
    (
      rw (Returns, e, yields-left_by u main t.executing hu b k)
          (subst (λ d. CameBack t (left_by u t.executing (saved u d ready_state)) f c ready_state)
            kept (left_by-CameBack t main f c ready_state h apart)),
      rw (Returns, e, ends-left_by u main t.executing hu b k)
          (left_by-CameBack t main f none term_state h apart),
    )
