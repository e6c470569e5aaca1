-- ===== src/IoManager/Trigger.antt =====
-- `cancelAll`, and the loop of `idle` over what is ready: fiber/iomanager.cpp.
use rpc_storage_cpp.Common.{
  ◌∙◌, sym, ap, Option, none, [], ◌∷◌, ◌++◌, Bool-cases, Option-cases, length, get_elem?, Returns,
  Returns-ok, ℕ, ◌+◌, ◌≤◌, ◌≡◌, refl, inl, inr, Bool, true, false, not, ◌&&◌, ◌||◌, some, List,
  arith,
}
use rpc_storage_cpp.IoManager.Steps.{
  Kept-called, put_context-Kept, Kept-same, Kept, ready, cancel_every, Allowed, step,
}
use rpc_storage_cpp.IoManager.Pending.{
  weight-le, AllConsistent-at, clear_event-Consistent, decrement-suc, has-weight,
  trigger_event-clear, IsValid, weight, Consistent,
}
use rpc_storage_cpp.IoManager.{
  callback_task, fiber_task, EventContext, task_of, epoll_del, is_any, epoll_ctl, decrement,
  clear_event, write_event, read_event, Ready, IoManager, Task, handle_ready, cancel_all,
  trigger_both, FdContext,
}

-- What waits for an event, if it is asked for: its task, with the scheduler that it waits on.
abbrev pub with_scheduler : Option ℕ → Option Task → List (ℕ × Task)
with_scheduler none task = []
with_scheduler (some k) none = []
with_scheduler (some k) (some t) = (k, t) ∷ []

-- A function comes before a fiber.
abbrev pub waiter : (callback fiber : Option ℕ) → Option Task
waiter (some f) fiber = some (callback_task f)
waiter none (some f) = some (fiber_task f)
waiter none none = none

waiter-task_of : (x : EventContext) → waiter x.callback x.fiber ≡ task_of x
waiter-task_of x = by_parts x.callback x.fiber
  where
    by_parts :
        (callback fiber : Option ℕ)
        → waiter callback fiber
          ≡ task_of (record { scheduler = x.scheduler; fiber = fiber; callback = callback })
    by_parts (some f) fiber = refl
    by_parts none (some f) = refl
    by_parts none none = refl

abbrev pub waiting_at : Bool → EventContext → List (ℕ × Task)
waiting_at false x = []
waiting_at true x = with_scheduler x.scheduler (waiter x.callback x.fiber)

-- What the two `if`s leave of a context whose events they ask for.
pub record Triggered (c : FdContext) (reads writes : Bool) (pending : ℕ)
    (r : FdContext × List (ℕ × Task) × ℕ) : Type 0 where
  pub consistent : Consistent r.0
  pub events_eq :
      r.0.events
      ≡ record { reads = c.events.reads && not reads; writes = c.events.writes && not writes }
  pub lighter : r.2 + length r.1 ≡ pending
  pub counted : r.2 + weight c ≡ pending + weight r.0
  pub tasks : r.1 ≡ waiting_at reads c.read ++ waiting_at writes c.write

pub trigger_both-Triggered :
    (c : FdContext) (reads writes : Bool) (pending : ℕ)
    → Consistent c
    → weight c ≤ pending
    → (reads ≡ true → c.events.reads ≡ true)
    → (writes ≡ true → c.events.writes ≡ true)
    → Returns (trigger_both reads writes c pending) (Triggered c reads writes pending)
unfolding trigger_both
trigger_both-Triggered c false false pending h l p q = record {
  consistent = h;
  events_eq = ground arith;
  lighter = omega arith;
  counted = omega arith;
  tasks = refl;
}
trigger_both-Triggered c true false pending h l p q =
    let (k, t, e, f, r) = trigger_event-clear c read_event h (p refl) in
    let w = has-weight c read_event (p refl) in
    let d = decrement-suc pending (omega (arith, w)) in
    rw (Returns, p refl, e, f)
      (record {
        consistent = clear_event-Consistent c read_event h;
        events_eq = ground arith;
        lighter = d;
        counted = omega (arith, d, w);
        tasks = ap (λ w. with_scheduler (some k) w ++ []) (sym (waiter-task_of c.read ∙ f));
      })
trigger_both-Triggered c false true pending h l p q =
    let (k, t, e, f, r) = trigger_event-clear c write_event h (q refl) in
    let w = has-weight c write_event (q refl) in
    let d = decrement-suc pending (omega (arith, w)) in
    rw (Returns, q refl, e, f)
      (record {
        consistent = clear_event-Consistent c write_event h;
        events_eq = ground arith;
        lighter = d;
        counted = omega (arith, d, w);
        tasks = ap (with_scheduler (some k)) (sym (waiter-task_of c.write ∙ f));
      })
trigger_both-Triggered c true true pending h l p q =
    let (k, t, e, f, r) = trigger_event-clear c read_event h (p refl) in
    let (k', t', e', f', r') = trigger_event-clear c write_event h (q refl) in
    let c' = clear_event c read_event in
    let w = has-weight c read_event (p refl) in
    let w' = has-weight c' write_event (q refl) in
    let d = decrement-suc pending (omega (arith, w)) in
    let d' = decrement-suc (decrement pending) (omega (arith, d, w, w')) in
    rw (Returns, p refl, e, f, q refl, e', f')
      (record {
        consistent = clear_event-Consistent c' write_event (clear_event-Consistent c read_event h);
        events_eq = ground arith;
        lighter = omega (arith, d, d');
        counted = omega (arith, d, d', w, w');
        tasks =
            ap (λ w. with_scheduler (some k) w ++ (k', t') ∷ []) (sym (waiter-task_of c.read ∙ f))
            ∙ ap
                (λ w.
                  with_scheduler (some k) (waiter c.read.callback c.read.fiber)
                  ++ with_scheduler (some k') w)
                (sym (waiter-task_of c.write ∙ f'));
      })

pub cancel_all-Kept :
    (s : IoManager) (fd : ℕ) (ctl : Bool)
    → IsValid s
    → Returns (step s (cancel_every fd ctl)) (Kept s (cancel_every fd ctl))
unfolding cancel_all epoll_ctl
cancel_all-Kept s fd ctl h = elim (Option-cases (get_elem? s.fd_contexts fd)) [
  | inl e ↦ rw (Returns, e) (Kept-same s (cancel_every fd ctl) h)
  | inr (c, e) ↦ elim (Bool-cases (is_any c.events)) [
    | inr off ↦ rw (Returns, e, off) (Kept-same s (cancel_every fd ctl) h)
    | inl on ↦ registered c e on ctl
  ]
]
  where
    registered :
        (c : FdContext)
        → get_elem? s.fd_contexts fd ≡ some c
        → is_any c.events ≡ true
        → (ctl : Bool) → Returns (step s (cancel_every fd ctl)) (Kept s (cancel_every fd ctl))
    registered c e on false =
        rw (Returns, e, on)
          (Kept-called s (cancel_every fd false) fd epoll_del
            (record { reads = false; writes = false }) h)
    registered c e on true =
        let fine = AllConsistent-at s.fd_contexts fd c h.contexts e in
        let l : weight c ≤ s.pending_event_count =
          omega (arith, weight-le s.fd_contexts fd c e, h.counted) in
        let (r, f, t) =
          Returns-ok (trigger_both c.events.reads c.events.writes c s.pending_event_count) (
            trigger_both-Triggered c c.events.reads c.events.writes s.pending_event_count fine l
              (λ q. q) (λ q. q)) in
        let none_left : is_any r.0.events ≡ false = ground (arith, t.events_eq) in
        rw (Returns, e, on, f, none_left)
          (put_context-Kept s (cancel_every fd true) fd r.2 c r.0 r.1 epoll_del
            (record { reads = false; writes = false }) h e t.consistent t.counted (λ q. t.lighter))

pub handle_ready-Kept :
    (s : IoManager) (r : Ready) (ctl : Bool)
    → IsValid s
    → Allowed s (ready r ctl)
    → Returns (step s (ready r ctl)) (Kept s (ready r ctl))
unfolding handle_ready epoll_ctl
handle_ready-Kept s r ctl h (c, e, p, q) =
    let reads = r.input || (r.failed && c.events.reads) in
    let writes = r.output || (r.failed && c.events.writes) in
    elim (Bool-cases ((c.events.reads && reads) || (c.events.writes && writes))) [
      | inr off ↦ rw (Returns, e, off) (Kept-same s (ready r ctl) h)
      | inl on ↦ reported on ctl
    ]
  where
    reported :
        (c.events.reads && (r.input || (r.failed && c.events.reads)))
            || (c.events.writes && (r.output || (r.failed && c.events.writes)))
          ≡ true
        → (ctl : Bool) → Returns (step s (ready r ctl)) (Kept s (ready r ctl))
    reported on false = rw (Returns, e, on) (Kept-called s (ready r false) r.fd _ _ h)
    reported on true =
        let reads = r.input || (r.failed && c.events.reads) in
        let writes = r.output || (r.failed && c.events.writes) in
        let fine = AllConsistent-at s.fd_contexts r.fd c h.contexts e in
        let l : weight c ≤ s.pending_event_count =
          omega (arith, weight-le s.fd_contexts r.fd c e, h.counted) in
        let (t, f, k) = Returns-ok (trigger_both reads writes c s.pending_event_count) (
          trigger_both-Triggered c reads writes s.pending_event_count fine l
            (λ m. ground (arith, m, p)) (λ m. ground (arith, m, q))) in
        rw (Returns, e, on, f)
          (put_context-Kept s (ready r true) r.fd t.2 c t.0 t.1 _ _ h e k.consistent k.counted
            (λ m. k.lighter))
