-- ===== src/Fiber/Chain.antt =====
-- The fibers of a thread that have been resumed and have not yielded since: fiber/fiber.cpp.
use rpc_storage_cpp.Common.{
  ◌==◌, Bool-cases, ok, ℕ, ◌≡◌, refl, sym, ap, ◌∙◌, ◌⊎◌, inl, inr, Bool, true, false, not, ◌&&◌,
  ◌||◌, some, arith,
}
use rpc_storage_cpp.Fiber.{
  Fiber, main_of, swap_context, resume, put_fiber, is_running_state, is_this, FiberThread,
  ready_state, running_state,
}

-- The fibers that are under way: the thread's own, the one that executes, and between them that of the
-- scheduler if the one that executes was resumed from it.
abbrev pub is_active : FiberThread → (main f : ℕ) → Bool
is_active t main f =
    main == f
    || t.executing == f
    || (not (t.executing == main)
        && (t.fibers t.executing).run_in_scheduler
        && is_this t.scheduler_fiber f)

-- Exactly the fibers under way are running, and the context of every fiber that does not execute is its
-- own. The scheduler's fiber, if it is not the thread's own, is resumed from that.
pub record IsChain (t : FiberThread) (main : ℕ) : Type 0 where
  pub thread_fiber : t.cur_thread_fiber ≡ some main
  pub states : (f : ℕ) → is_running_state (t.fibers f).state ≡ is_active t main f
  pub contexts : (f : ℕ) → t.executing == f ≡ false → (t.fibers f).context ≡ f
  pub plain :
      (s : ℕ)
      → t.scheduler_fiber ≡ some s
      → s == main ≡ false
      → (t.fibers s).run_in_scheduler ≡ false
  pub scheduled :
      t.executing == main ≡ false
      → (t.fibers t.executing).run_in_scheduler ≡ true
      → (s : ℕ) × (t.scheduler_fiber ≡ some s)

-- What a resumed fiber leaves.
abbrev pub resumed : FiberThread → (f : ℕ) → FiberThread
resumed t f = record t {
  cur_fiber = some f;
  executing = f;
  fibers =
      put_fiber (put_fiber t.fibers f (record (t.fibers f) { state = running_state })) t.executing
        (record (t.fibers t.executing) { context = t.executing });
}

pub resume-resumed :
    (t : FiberThread) (main f : ℕ)
    → IsChain t main
    → main_of t f ≡ some t.executing
    → (t.fibers f).state ≡ ready_state
    → resume t f ≡ ok (resumed t f)
unfolding resume swap_context
resume-resumed t main f h m r =
    let idle : is_active t main f ≡ false = sym (h.states f) ∙ rw r refl in
    let apart : t.executing == f ≡ false = ground (arith, idle) in
    let apart' : f == t.executing ≡ false = ground (arith, apart) in
    let same : f == f ≡ true = ground arith in
    rw (resume, r, m, apart, apart', same, h.contexts f apart) refl

-- A part of the fibers that a change at one address leaves as it was.
pub put_fiber-kept :
    {B : Type 0} (part : Fiber → B) (fs : ℕ → Fiber) (a : ℕ) (x : Fiber) (g : ℕ)
    → part x ≡ part (fs a)
    → part (put_fiber fs a x g) ≡ part (fs g)
put_fiber-kept part fs a x g h = elim (Bool-cases (a == g)) [
  | inl e ↦ let same : a ≡ g = ground (arith, e) in rw e (h ∙ ap (λ i. part (fs i)) same)
  | inr e ↦ rw e refl
]

pub or-third : (a b c : Bool) → c ≡ false → (a || b || c) ≡ (a || b)
or-third true b c h = refl
or-third false true c h = refl
or-third false false c h = h

pub or-swap : (a b c : Bool) → (a || b || c) ≡ (a || c || b)
or-swap true b c = refl
or-swap false true true = refl
or-swap false true false = refl
or-swap false false true = refl
or-swap false false false = refl

or-true : (a b : Bool) → true ≡ (a || b || true)
or-true true b = refl
or-true false true = refl
or-true false false = refl

pub or-same : (a b c : Bool) → b ≡ a → (a || c) ≡ (a || b || c)
or-same true b c h = refl
or-same false b c h = rw h refl

-- The fiber that `f` is resumed from is the thread's own, or the scheduler's.
resumed_from :
    (t : FiberThread) (main f : ℕ)
    → IsChain t main
    → main_of t f ≡ some t.executing
    → (((t.fibers f).run_in_scheduler ≡ false) × (main ≡ t.executing))
      ⊎ (((t.fibers f).run_in_scheduler ≡ true) × (t.scheduler_fiber ≡ some t.executing))
resumed_from t main f h m = elim (Bool-cases (t.fibers f).run_in_scheduler) [
  | inl p ↦ inr (p, sym (rw p refl) ∙ m)
  | inr p ↦
      let s : t.cur_thread_fiber ≡ some t.executing = sym (rw p refl) ∙ m in
      inl (p, cc (h.thread_fiber, s))
]

active_before :
    (t : FiberThread) (main f g : ℕ)
    → IsChain t main
    → main_of t f ≡ some t.executing
    → is_active t main g ≡ (main == g || t.executing == g)
active_before t main f g h m =
    or-third (main == g) (t.executing == g) _ (elim (Bool-cases (t.executing == main)) [
      | inl e ↦ rw e refl
      | inr e ↦ elim (resumed_from t main f h m) [
        | inl (p, s) ↦ absurd (ground (arith, e, s))
        | inr (p, s) ↦ rw (e, h.plain t.executing s e) refl
      ]
    ])

pub resumed-run_in_scheduler :
    (t : FiberThread) (f g : ℕ)
    → ((resumed t f).fibers g).run_in_scheduler ≡ (t.fibers g).run_in_scheduler
resumed-run_in_scheduler t f g =
    let part : Fiber → Bool = λ x. x.run_in_scheduler in
    let x = record (t.fibers f) { state = running_state } in
    put_fiber-kept part (put_fiber t.fibers f x) t.executing _ g
      (sym (put_fiber-kept part t.fibers f x t.executing refl))
    ∙ put_fiber-kept part t.fibers f x g refl

active_after :
    (t : FiberThread) (main f g : ℕ)
    → IsChain t main
    → main_of t f ≡ some t.executing
    → f == main ≡ false
    → is_active (resumed t f) main g ≡ (main == g || t.executing == g || f == g)
active_after t main f g h m n =
    let run = resumed-run_in_scheduler t f f in
    elim (resumed_from t main f h m) [
      | inl (p, s) ↦
          or-third (main == g) (f == g) _ (rw (n, run, p) refl)
          ∙ or-same (main == g) (t.executing == g) (f == g) (ap (λ i. i == g) (sym s))
      | inr (p, s) ↦
          let third : (not (f == main)
                && ((resumed t f).fibers f).run_in_scheduler
                && is_this t.scheduler_fiber g)
              ≡ (t.executing == g) =
            rw (n, run, p, s) refl in
          ap (λ c. main == g || f == g || c) third ∙ or-swap (main == g) (f == g) (t.executing == g)
    ]

pub resumed-IsChain :
    (t : FiberThread) (main f : ℕ)
    → IsChain t main
    → main_of t f ≡ some t.executing
    → (t.fibers f).state ≡ ready_state
    → IsChain (resumed t f) main
resumed-IsChain t main f h m r =
    let idle : is_active t main f ≡ false = sym (h.states f) ∙ rw r refl in
    let apart : f == t.executing ≡ false = ground (arith, idle) in
    let other : f == main ≡ false = ground (arith, idle) in
    let part : Fiber → Bool = λ x. is_running_state x.state in
    let x = record (t.fibers f) { state = running_state } in
    let state : (g : ℕ) → part ((resumed t f).fibers g) ≡ part (put_fiber t.fibers f x g) =
      λ g. put_fiber-kept part (put_fiber t.fibers f x) t.executing _ g (rw apart refl) in
    record {
      thread_fiber = h.thread_fiber;
      states = λ g.
          state g
          ∙ elim (Bool-cases (f == g)) [
            | inl e ↦ rw e (or-true (main == g) (t.executing == g))
            | inr e ↦ rw e (
                h.states g
                ∙ active_before t main f g h m
                ∙ sym (or-third (main == g) (t.executing == g) false refl))
          ]
          ∙ sym (active_after t main f g h m other);
      contexts = λ g n. elim (Bool-cases (t.executing == g)) [
        | inl e ↦ rw e (ground (arith, e))
        | inr e ↦ rw (e, n) (h.contexts g e)
      ];
      plain = λ s e n. resumed-run_in_scheduler t f s ∙ h.plain s e n;
      scheduled = λ n e. elim (resumed_from t main f h m) [
        | inl (p, s) ↦ absurd (cc (p, sym (resumed-run_in_scheduler t f f) ∙ e))
        | inr (p, s) ↦ (t.executing, s)
      ];
    }
