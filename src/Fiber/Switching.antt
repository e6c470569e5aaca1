-- ===== src/Fiber/Switching.antt =====
-- A thread switches between its fibers: fiber/fiber.cpp.
use rpc_storage_cpp.Common.{
  ◌==◌, Bool-cases, Result, Returns, ok, ℕ, ◌≡◌, refl, sym, ap, ◌∙◌, subst, ◌⊎◌, inl, inr, Bool,
  true, false, Option, some, arith,
}
use rpc_storage_cpp.Fiber.Leaving.{left_by-IsChain, below, ends-left_by, yields-left_by, entered}
use rpc_storage_cpp.Fiber.{
  is_running_state, put_fiber, reset_fiber, finish, is_this, resume, yield_fiber, main_of,
  new_fiber, Fiber, FiberThread, ready_state, term_state,
}
use rpc_storage_cpp.Fiber.Chain.{or-third, resumed-IsChain, resume-resumed, is_active, IsChain}

-- What happens on a thread: a fiber is made, resumed or reset, the fiber that executes yields or ends, and
-- a scheduler takes a fiber for its own.
pub data Step : Type 0 where
  create : (f : ℕ) → (callback : Option ℕ) → (run_in_scheduler : Bool) → Step
  resumes : (f : ℕ) → Step
  yields ends : Step
  resets : (f : ℕ) → (callback : Option ℕ) → Step
  schedules_on : (f : ℕ) → Step

-- `cur_scheduler_fiber`, which the constructor of `Scheduler` and `run` set.
unfoldable pub schedule_on : FiberThread → ℕ → FiberThread
schedule_on t f = record t { scheduler_fiber = some f }

abbrev pub step : FiberThread → Step → Result FiberThread
step t (create f callback run_in_scheduler) = ok (new_fiber t f callback run_in_scheduler)
step t (resumes f) = resume t f
step t yields = yield_fiber t t.executing
step t ends = finish t t.executing
step t (resets f callback) = reset_fiber t f callback
step t (schedules_on f) = ok (schedule_on t f)

-- What the callers see to: a fiber is made at an address that no fiber under way or of the scheduler has;
-- one that is resumed is ready, and the fiber that executes is the one that it leaves; the thread's own
-- fiber neither yields nor ends; one that is reset has a stack and has ended; and a scheduler is given the
-- thread's own fiber, or one that is resumed from it, while the thread's own executes.
abbrev pub Allowed : FiberThread → (main : ℕ) → Step → Type 0
Allowed t main (create f callback run_in_scheduler) =
    (is_active t main f ≡ false) × (is_this t.scheduler_fiber f ≡ false)
Allowed t main (resumes f) = ((t.fibers f).state ≡ ready_state) × (main_of t f ≡ some t.executing)
Allowed t main yields = (t.executing == main ≡ false)
Allowed t main ends = (t.executing == main ≡ false)
Allowed t main (resets f callback) = ((t.fibers f).stack ≡ true) × ((t.fibers f).state ≡ term_state)
Allowed t main (schedules_on f) =
    (t.executing ≡ main) × (f == main ≡ false → (t.fibers f).run_in_scheduler ≡ false)

-- A fiber that is not under way is replaced by one that is not running.
put_fiber-IsChain :
    (t : FiberThread) (main f id count : ℕ) (x : Fiber)
    → IsChain t main
    → is_active t main f ≡ false
    → is_running_state x.state ≡ false
    → x.context ≡ f
    → (x.run_in_scheduler ≡ (t.fibers f).run_in_scheduler) ⊎ (is_this t.scheduler_fiber f ≡ false)
    → IsChain
        (record t { fibers = put_fiber t.fibers f x; cur_fiber_id = id; fiber_count = count })
        main
put_fiber-IsChain t main f id count x h idle s c q =
    let apart : f == t.executing ≡ false = ground (arith, idle) in
    record {
      thread_fiber = h.thread_fiber;
      states = λ g. elim (Bool-cases (f == g)) [
        | inl e ↦
            let same : f ≡ g = ground (arith, e) in
            let off : is_active t main g ≡ false =
              subst (λ i. is_active t main i ≡ false) same idle in
            rw (e, apart) (s ∙ sym off)
        | inr e ↦ rw (e, apart) (h.states g)
      ];
      contexts = λ g n. elim (Bool-cases (f == g)) [
        | inl e ↦ rw e (c ∙ ground (arith, e))
        | inr e ↦ rw e (h.contexts g n)
      ];
      plain = λ g e n. elim (Bool-cases (f == g)) [
        | inl same ↦
            let eq : f ≡ g = ground (arith, same) in
            elim q [
              | inl r ↦
                  rw same (
                    r ∙ subst (λ i. (t.fibers i).run_in_scheduler ≡ false) (sym eq) (h.plain g e n))
              | inr r ↦
                  let other : g == f ≡ false = sym (ap (λ o. is_this o f) e) ∙ r in
                  absurd (ground (arith, other, eq))
            ]
        | inr d ↦ rw d (h.plain g e n)
      ];
      scheduled = λ n e.
          let kept : (put_fiber t.fibers f x t.executing).run_in_scheduler
              ≡ (t.fibers t.executing).run_in_scheduler =
            rw apart refl in
          h.scheduled n (sym kept ∙ e);
    }

pub idle_for :
    (t : FiberThread) (main f : ℕ)
    → IsChain t main
    → is_running_state (t.fibers f).state ≡ false
    → is_active t main f ≡ false
idle_for t main f h e = sym (h.states f) ∙ e

-- What the callers see to keeps the thread in order, and no assertion fails: exactly the fibers under way
-- are running, which are the one that executes, the thread's own, and that of the scheduler if the first
-- was resumed from it; the context of every other fiber is its own execution, to go on with.
pub step-IsChain :
    (t : FiberThread) (main : ℕ) (s : Step)
    → IsChain t main
    → Allowed t main s
    → Returns (step t s) (λ u. IsChain u main)
unfolding new_fiber reset_fiber schedule_on
step-IsChain t main (create f callback run) h (idle, free) =
    put_fiber-IsChain t main f _ _ _ h idle refl refl (inr free)
step-IsChain t main (resumes f) h (r, m) =
    rw (Returns, resume-resumed t main f h m r) (resumed-IsChain t main f h m r)
step-IsChain t main yields h n =
    let (m, k) = entered t main h n in
    let b = below t main m h n k in
    rw (Returns, yields-left_by t main m h b k) (left_by-IsChain t main m _ h n b refl refl refl)
step-IsChain t main ends h n =
    let (m, k) = entered t main h n in
    let b = below t main m h n k in
    rw (Returns, ends-left_by t main m h b k) (left_by-IsChain t main m _ h n b refl refl refl)
step-IsChain t main (resets f callback) h (k, e) =
    let idle = idle_for t main f h (rw e refl) in
    rw (Returns, reset_fiber, k, e) (put_fiber-IsChain t main f _ _ _ h idle refl refl (inl refl))
step-IsChain t main (schedules_on f) h (e, p) = record {
  thread_fiber = h.thread_fiber;
  states = λ g.
      let own : t.executing == main ≡ true = ground (arith, e) in
      h.states g
      ∙ or-third (main == g) (t.executing == g) _ (rw own refl)
      ∙ sym (or-third (main == g) (t.executing == g) _ (rw own refl));
  contexts = h.contexts;
  plain = λ s q n.
      let same : f ≡ s = cc q in
      subst (λ i. (t.fibers i).run_in_scheduler ≡ false) same
        (p (subst (λ i. i == main ≡ false) (sym same) n));
  scheduled = λ n q. absurd (ground (arith, n, e));
}
