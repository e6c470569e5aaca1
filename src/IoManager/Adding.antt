-- ===== src/IoManager/Adding.antt =====
-- `addEvent` of fiber/iomanager.cpp.
use rpc_storage_cpp.Common.{
  ltb, if◌then◌else◌, Bool-cases, Option-cases, length, get_elem?, set, replicate, get_elem?-lt,
  lt-get_elem?, take_all, get_elem?-append_right, get_elem?-replicate, ◌>>=◌, Returns, Returns-ok,
  ok, ℕ, ◌+◌, ◌-◌, ◌*◌, ◌/◌, ◌≤◌, ◌<◌, ◌≡◌, refl, sym, ap, ◌∙◌, subst, inl, inr, true, false, ◌&&◌,
  Option, none, some, List, ◌++◌, arith,
}
use rpc_storage_cpp.IoManager.Pending.{
  AllConsistent-at, IsValid, get_event_context-Slot, Slot, weight, length-context_resize,
  Consistent, context_resize-grown, total, AllConsistent,
}
use rpc_storage_cpp.IoManager.Steps.{or_new, context_of}
use rpc_storage_cpp.IoManager.{
  epoll_add, epoll_mod, is_any, epoll_ctl, add_event, is_null, with_event, fill_event_context,
  set_event_context, read_event, write_event, EventContext, reset_event_context, clear_event,
  task_of, get_event_context, has, callback_task, fiber_task, Task, Event, new_fd_context,
  add_to_context, Caller, FdContext, context_resize, IoManager,
}

-- The contexts that `addEvent` works on.
abbrev pub contexts_for : IoManager → ℕ → List FdContext
contexts_for s fd =
    if ltb fd (length s.fd_contexts)
    then s.fd_contexts
    else context_resize s.fd_contexts (fd * 3 / 2)

-- They hold the context of the descriptor, and those that are new are empty.
pub record Prepared (s : IoManager) (fd : ℕ) : Type 0 where
  pub here : get_elem? (contexts_for s fd) fd ≡ some (context_of s fd)
  pub size : length s.fd_contexts ≤ length (contexts_for s fd)
  pub consistent : AllConsistent (contexts_for s fd)
  pub total_eq : total (contexts_for s fd) ≡ total s.fd_contexts

get_elem?-context_resize :
    (cs : List FdContext) (i n : ℕ)
    → length cs ≤ i
    → i < n
    → get_elem? (context_resize cs n) i ≡ some new_fd_context
unfolding context_resize
get_elem?-context_resize cs i n l m =
    let k : length cs + (i - length cs) ≡ i = omega arith in
    let new = replicate (n - length cs) new_fd_context in
    rw (take_all n cs (omega arith)) (
      subst (λ j. get_elem? (cs ++ new) j ≡ some new_fd_context) k
        (get_elem?-append_right cs new (i - length cs)
          ∙ get_elem?-replicate (n - length cs) (i - length cs) new_fd_context (omega arith)))

get_elem?-past : (cs : List FdContext) (i : ℕ) → length cs ≤ i → get_elem? cs i ≡ none
get_elem?-past cs i l = elim (Option-cases (get_elem? cs i)) [
  | inl e ↦ e
  | inr (c, e) ↦ absurd (omega (arith, lt-get_elem? cs i c e))
]

pub contexts_for-Prepared :
    (s : IoManager) (fd : ℕ)
    → 2 ≤ length s.fd_contexts
    → AllConsistent s.fd_contexts
    → Prepared s fd
contexts_for-Prepared s fd l h = elim (Bool-cases (ltb fd (length s.fd_contexts))) [
  | inl e ↦
      let (c, f) = get_elem?-lt s.fd_contexts fd (ground (arith, e)) in
      record {
        here = rw e (f ∙ ap (λ o. some (or_new o)) (sym f));
        size = rw e (omega arith);
        consistent = rw e h;
        total_eq = rw e refl;
      }
  | inr e ↦
      let m : length s.fd_contexts ≤ fd = ground (arith, e) in
      let (g, t) = context_resize-grown s.fd_contexts (fd * 3 / 2) h (omega arith) in
      record {
        here = rw e (
            get_elem?-context_resize s.fd_contexts fd (fd * 3 / 2) m (omega arith)
            ∙ ap (λ o. some (or_new o)) (sym (get_elem?-past s.fd_contexts fd m)));
        size = rw e (omega (arith, length-context_resize s.fd_contexts (fd * 3 / 2) (omega arith)));
        consistent = rw e g;
        total_eq = rw e t;
      }
]

-- What a context is with one event more.
pub record Added (c : FdContext) (event : Event) (k : ℕ) (t : Task) (d : FdContext) : Type 0 where
  pub consistent : Consistent d
  pub heavier : weight d ≡ weight c + 1
  pub on : has d.events event ≡ true
  pub scheduler : (get_event_context d event).scheduler ≡ some k
  pub task : task_of (get_event_context d event) ≡ some t
  pub back : clear_event d event ≡ c

abbrev pub added : FdContext → Event → EventContext → FdContext
added c event y = record (set_event_context c event y) { events = with_event c.events event }

added-Added :
    (c : FdContext) (event : Event) (y : EventContext) (k : ℕ) (t : Task)
    → Consistent c
    → has c.events event ≡ false
    → get_event_context c event ≡ reset_event_context
    → y.scheduler ≡ some k
    → task_of y ≡ some t
    → Added c event k t (added c event y)
added-Added c read_event y k t h e x f g = record {
  consistent = record { read_slot = (k, t, f, g); write_slot = h.write_slot };
  heavier = ground (arith, e);
  on = refl;
  scheduler = f;
  task = g;
  back = λ i. record c { read = sym x i; events = record c.events { reads = sym e i } };
}
added-Added c write_event y k t h e x f g = record {
  consistent = record { read_slot = h.read_slot; write_slot = (k, t, f, g) };
  heavier = ground (arith, e);
  on = refl;
  scheduler = f;
  task = g;
  back = λ i. record c { write = sym x i; events = record c.events { writes = sym e i } };
}

abbrev pub waiting_task : Option ℕ → Caller → Task
waiting_task none this = fiber_task this.fiber
waiting_task (some f) this = callback_task f

empty-context :
    (c : FdContext) (event : Event)
    → Consistent c
    → has c.events event ≡ false
    → get_event_context c event ≡ reset_event_context
empty-context c event h e =
    subst (λ b. Slot b (get_event_context c event)) e (get_event_context-Slot c event h)

pub add_to_context-Added :
    (c : FdContext) (event : Event) (callback : Option ℕ) (this : Caller) (k : ℕ)
    → Consistent c
    → has c.events event ≡ false
    → this.scheduler ≡ some k
    → this.running ≡ true
    → Returns (add_to_context c event callback this) (Added c event k (waiting_task callback this))
unfolding add_to_context
add_to_context-Added c event callback this k h e f g =
    let x = empty-context c event h e in
    let empty : is_null (get_event_context c event).scheduler
          && is_null (get_event_context c event).fiber
          && is_null (get_event_context c event).callback
        ≡ true =
      ap (λ (y : EventContext). is_null y.scheduler && is_null y.fiber && is_null y.callback) x in
    rw (Returns, empty) (filled callback)
  where
    filled :
        (callback : Option ℕ)
        → Returns
            (do y ← fill_event_context this callback; ok (added c event y))
            (Added c event k (waiting_task callback this))
    filled none =
        rw (Returns, g)
          (added-Added c event _ k (fiber_task this.fiber) h e (empty-context c event h e) f refl)
    filled (some n) =
        added-Added c event _ k (callback_task n) h e (empty-context c event h e) f refl

-- The state once `addEvent` has called `epoll_ctl`.
abbrev pub asked_to_add : IoManager → ℕ → Event → IoManager
asked_to_add s fd event =
    let old = (context_of s fd).events in
    epoll_ctl (record s { fd_contexts = contexts_for s fd }) fd
      (if is_any old then epoll_mod else epoll_add) (with_event old event)

abbrev pub with_context : IoManager → ℕ → Event → FdContext → IoManager
with_context s fd event d = record (asked_to_add s fd event) {
  pending_event_count = s.pending_event_count + 1;
  fd_contexts = set (contexts_for s fd) fd d;
}

-- `addEvent` counts one event more, and puts what waits for it into the context.
pub add_event-Added :
    (s : IoManager) (fd : ℕ) (event : Event) (callback : Option ℕ) (this : Caller) (k : ℕ)
    → IsValid s
    → 2 ≤ length s.fd_contexts
    → has (context_of s fd).events event ≡ false
    → this.scheduler ≡ some k
    → this.running ≡ true
    → (d : FdContext) × Added (context_of s fd) event k (waiting_task callback this) d
      × (add_event s fd event callback this true ≡ ok (with_context s fd event d, true))
unfolding add_event
add_event-Added s fd event callback this k h l e f g =
    let p = contexts_for-Prepared s fd l h.contexts in
    let fine = AllConsistent-at (contexts_for s fd) fd (context_of s fd) p.consistent p.here in
    let (d, m, a) =
      Returns-ok (add_to_context (context_of s fd) event callback this)
        (add_to_context-Added (context_of s fd) event callback this k fine e f g) in
    (d, a, rw (p.here, e, m) refl)
