-- ===== src/Fiber/Leaving.antt =====
-- What becomes of a thread when the fiber that executes yields or ends: fiber/fiber.cpp.
use rpc_storage_cpp.Common.{
  ◌==◌, Bool-cases, ok, ℕ, ◌≡◌, refl, sym, ap, ◌∙◌, inl, inr, Bool, true, false, ◌||◌, Option, none,
  some, arith,
}
use rpc_storage_cpp.Fiber.{
  finish, yield_fiber, swap_context, is_running_state, main_of, put_fiber, State, Fiber,
  FiberThread, ready_state, running_state, term_state,
}
use rpc_storage_cpp.Fiber.Chain.{or-same, put_fiber-kept, or-swap, is_active, IsChain, or-third}

-- What a fiber leaves that yields, or ends: `g` is what becomes of it.
abbrev pub left_by : FiberThread → (m : ℕ) → Fiber → FiberThread
left_by t m g = record t {
  cur_fiber = t.cur_thread_fiber;
  executing = m;
  fibers = put_fiber t.fibers t.executing g;
}

-- The fiber that is entered: it is another one, it is under way, and below it there is only the thread's
-- own.
pub record Below (t : FiberThread) (main m : ℕ) : Type 0 where
  pub apart : t.executing == m ≡ false
  pub active : (f : ℕ) → is_active t main f ≡ (main == f || m == f || t.executing == f)
  pub last : m == main ≡ false → (t.fibers m).run_in_scheduler ≡ false

pub below :
    (t : FiberThread) (main m : ℕ)
    → IsChain t main
    → t.executing == main ≡ false
    → main_of t t.executing ≡ some m
    → Below t main m
below t main m h n k = elim (Bool-cases (t.fibers t.executing).run_in_scheduler) [
  | inl p ↦
      let s : t.scheduler_fiber ≡ some m = sym (rw p refl) ∙ k in
      record {
        apart = elim (Bool-cases (m == main)) [
          | inl e ↦ ground (arith, e, n)
          | inr e ↦
              let plain = h.plain m s e in
              elim (Bool-cases (t.executing == m)) [
                | inl same ↦
                    let eq : t.executing ≡ m = ground (arith, same) in absurd (cc (plain, p, eq))
                | inr d ↦ d
              ]
        ];
        active = λ f. rw (is_active, n, p, s) (or-swap (main == f) (t.executing == f) (m == f));
        last = λ e. h.plain m s e;
      }
  | inr p ↦
      let s : t.cur_thread_fiber ≡ some m = sym (rw p refl) ∙ k in
      let same : main ≡ m = cc (h.thread_fiber, s) in
      record {
        apart = ground (arith, same, n);
        active = λ f.
            or-third (main == f) (t.executing == f) _ (rw (n, p) refl)
            ∙ or-same (main == f) (m == f) (t.executing == f) (ap (λ i. i == f) (sym same));
        last = λ e. absurd (ground (arith, same, e));
      }
]

pub left_by-IsChain :
    (t : FiberThread) (main m : ℕ) (g : Fiber)
    → IsChain t main
    → t.executing == main ≡ false
    → Below t main m
    → is_running_state g.state ≡ false
    → g.context ≡ t.executing
    → g.run_in_scheduler ≡ (t.fibers t.executing).run_in_scheduler
    → IsChain (left_by t m g) main
left_by-IsChain t main m g h n b s c q =
    let part : Fiber → Bool = λ x. x.run_in_scheduler in
    let run : (f : ℕ) → part ((left_by t m g).fibers f) ≡ part (t.fibers f) =
      λ f. put_fiber-kept part t.fibers t.executing g f q in
    let active : (f : ℕ) → is_active (left_by t m g) main f ≡ (main == f || m == f) = λ f.
      or-third (main == f) (m == f) _ (elim (Bool-cases (m == main)) [
        | inl e ↦ rw e refl
        | inr e ↦ rw (e, run m, b.last e) refl
      ]) in
    record {
      thread_fiber = h.thread_fiber;
      states = λ f.
          elim (Bool-cases (t.executing == f)) [
            | inl e ↦
                let below_off : m == f ≡ false = ground (arith, e, b.apart) in
                let main_off : main == f ≡ false = ground (arith, e, n) in
                rw e (s ∙ rw (main_off, below_off) refl)
            | inr e ↦
                rw e (h.states f ∙ b.active f ∙ or-third (main == f) (m == f) (t.executing == f) e)
          ]
          ∙ sym (active f);
      contexts = λ f a. elim (Bool-cases (t.executing == f)) [
        | inl e ↦ rw e (c ∙ ground (arith, e))
        | inr e ↦ rw e (h.contexts f e)
      ];
      plain = λ i e a. run i ∙ h.plain i e a;
      scheduled = λ a e. absurd (cc (b.last a, sym (run m) ∙ e));
    }

pub entered :
    (t : FiberThread) (main : ℕ)
    → IsChain t main
    → t.executing == main ≡ false
    → (m : ℕ) × (main_of t t.executing ≡ some m)
entered t main h n = elim (Bool-cases (t.fibers t.executing).run_in_scheduler) [
  | inl p ↦ let (s, e) = h.scheduled n p in (s, rw p e)
  | inr p ↦ (main, rw p h.thread_fiber)
]

put_fiber-twice :
    (fs : ℕ → Fiber) (a : ℕ) (x y : Fiber) → put_fiber (put_fiber fs a x) a y ≡ put_fiber fs a y
put_fiber-twice fs a x y i other = pointwise i
  where
    pointwise : put_fiber (put_fiber fs a x) a y other ≡ put_fiber fs a y other
    pointwise = elim (Bool-cases (a == other)) [ inl e ↦ rw e refl | inr e ↦ rw e refl ]

-- The fiber that executes has become `x`, and its context is left for that of `m`.
swap_context-left_by :
    (t : FiberThread) (main m : ℕ) (x : Fiber)
    → IsChain t main
    → Below t main m
    → swap_context
        (record t { cur_fiber = t.cur_thread_fiber; fibers = put_fiber t.fibers t.executing x })
        t.executing
        m
      ≡ left_by t m (record x { context = t.executing })
unfolding swap_context
swap_context-left_by t main m x h b =
    let same : t.executing == t.executing ≡ true = ground arith in
    let own = h.contexts m b.apart in
    rw (swap_context, same, b.apart, own)
      (λ i. record t {
        cur_fiber = t.cur_thread_fiber;
        executing = m;
        fibers = put_fiber-twice t.fibers t.executing x (record x { context = t.executing }) i;
      })

state-running : (s : State) → is_running_state s ≡ true → s ≡ running_state
state-running ready_state h = absurd (cc h)
state-running running_state h = refl
state-running term_state h = absurd (cc h)

or-middle : (a c : Bool) → (a || true || c) ≡ true
or-middle true c = refl
or-middle false c = refl

executing-running :
    (t : FiberThread) (main : ℕ) → IsChain t main → (t.fibers t.executing).state ≡ running_state
executing-running t main h =
    let same : t.executing == t.executing ≡ true = ground arith in
    state-running (t.fibers t.executing).state
      (h.states t.executing ∙ rw (is_active, same) (or-middle (main == t.executing) _))

-- The fiber that executes, when it has yielded or ended.
abbrev pub saved : FiberThread → Option ℕ → State → Fiber
saved t callback s = record (t.fibers t.executing) {
  callback = callback;
  state = s;
  context = t.executing;
}

pub yields-left_by :
    (t : FiberThread) (main m : ℕ)
    → IsChain t main
    → Below t main m
    → main_of t t.executing ≡ some m
    → yield_fiber t t.executing
      ≡ ok (left_by t m (saved t (t.fibers t.executing).callback ready_state))
unfolding yield_fiber
yields-left_by t main m h b k =
    rw (yield_fiber, executing-running t main h, k)
      (ap ok
        (swap_context-left_by t main m (record (t.fibers t.executing) { state = ready_state }) h b))

pub ends-left_by :
    (t : FiberThread) (main m : ℕ)
    → IsChain t main
    → Below t main m
    → main_of t t.executing ≡ some m
    → finish t t.executing ≡ ok (left_by t m (saved t none term_state))
unfolding finish yield_fiber
ends-left_by t main m h b k =
    let same : t.executing == t.executing ≡ true = ground arith in
    let x = record (t.fibers t.executing) { callback = none; state = term_state } in
    rw (finish, yield_fiber, same, k) (ap ok (swap_context-left_by t main m x h b))
