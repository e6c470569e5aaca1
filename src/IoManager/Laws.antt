-- ===== src/IoManager/Laws.antt =====
-- What `IOManager` of fiber/iomanager.cpp does over two calls, when it stops, and where it fails.
use rpc_storage_cpp.Common.{
  Bool-cases, length, get_elem?, set, length-set, lt-get_elem?, Result, ◌>>=◌, assert_failed, err,
  ok, ℕ, zero, suc, ◌+◌, ◌≤◌, ◌<◌, ◌≡◌, refl, ap, ◌∙◌, subst, inl, inr, Bool, true, false, ◌&&◌,
  Option, none, some, List, [], ◌∷◌, arith,
}
use rpc_storage_cpp.IoManager.Adding.{
  with_context, asked_to_add, added, contexts_for-Prepared, add_event-Added, waiting_task,
  contexts_for,
}
use rpc_storage_cpp.IoManager.Steps.{context_of}
use rpc_storage_cpp.IoManager.Pending.{
  decrement-suc, Slot, weight-le, AllConsistent-at, weight, IsValid, Consistent,
}
use rpc_storage_cpp.IoManager.{
  without_event, epoll_ctl, epoll_leave, decrement, is_null, put_context, task_of,
  fill_event_context, get_event_context, add_to_context, reset_event_context, Task, clear_event,
  add_event, has, new_fd_context, Caller, Event, IoManager, stopping, cancel_event, FdContext,
}

pub get_elem?-set :
    (cs : List FdContext) (i : ℕ) (c d : FdContext)
    → get_elem? cs i ≡ some c
    → get_elem? (set cs i d) i ≡ some d
get_elem?-set [] i c d e = absurd (cc e)
get_elem?-set (b ∷ cs) zero c d e = refl
get_elem?-set (b ∷ cs) (suc i) c d e = get_elem?-set cs i c d e

set-set :
    (cs : List FdContext) (i : ℕ) (c d : FdContext)
    → get_elem? cs i ≡ some c
    → set (set cs i d) i c ≡ cs
set-set [] i c d e = absurd (cc e)
set-set (b ∷ cs) zero c d e = cc e
set-set (b ∷ cs) (suc i) c d e = ap (λ r. b ∷ r) (set-set cs i c d e)

-- A registered event is cancelled.
cancel_event-on :
    (t : IoManager) (fd : ℕ) (event : Event) (d : FdContext) (k : ℕ) (task : Task)
    → get_elem? t.fd_contexts fd ≡ some d
    → has d.events event ≡ true
    → (get_event_context d event).scheduler ≡ some k
    → task_of (get_event_context d event) ≡ some task
    → cancel_event t fd event true
      ≡ ok (
        put_context
            (epoll_leave t fd (without_event d.events event))
            fd
            (clear_event d event)
            (decrement t.pending_event_count),
        (k, task) ∷ [],
        true,
      )
unfolding cancel_event
cancel_event-on t fd event d k task e o f g = rw (cancel_event, e, o, f, g) refl

-- In a valid state, an event that is added and then cancelled hands over what waited for it, to the
-- scheduler of the thread that added it, and all else is as it was before, but for contexts that the
-- descriptor made necessary and two calls of `epoll_ctl`: one asks for the old events and the new one,
-- and one for the old events. The event must not be there, and the calls succeed.
pub cancel_event-add_event :
    (s : IoManager) (fd : ℕ) (event : Event) (callback : Option ℕ) (this : Caller) (k : ℕ)
    → IsValid s
    → 2 ≤ length s.fd_contexts
    → has (context_of s fd).events event ≡ false
    → this.scheduler ≡ some k
    → this.running ≡ true
    → (add_event s fd event callback this true >>= λ p. cancel_event p.0 fd event true)
      ≡ ok (
        epoll_leave (asked_to_add s fd event) fd (context_of s fd).events,
        (k, waiting_task callback this) ∷ [],
        true,
      )
unfolding epoll_leave epoll_ctl
cancel_event-add_event s fd event callback this k h l e f g =
    let (d, a, r) = add_event-Added s fd event callback this k h l e f g in
    let p = contexts_for-Prepared s fd l h.contexts in
    let cs = contexts_for s fd in
    let less : decrement (s.pending_event_count + 1) ≡ s.pending_event_count =
      omega (arith, decrement-suc (s.pending_event_count + 1) (omega arith)) in
    let restored : set (set cs fd d) fd (clear_event d event) ≡ cs =
      ap (set (set cs fd d) fd) a.back ∙ set-set cs fd (context_of s fd) d p.here in
    let old : without_event d.events event ≡ (context_of s fd).events =
      ap (λ (c : FdContext). c.events) a.back in
    ap (λ m. m >>= λ p. cancel_event p.0 fd event true) r
    ∙ cancel_event-on (with_context s fd event d) fd event d k (waiting_task callback this)
        (get_elem?-set cs fd (context_of s fd) d p.here) a.on a.scheduler a.task
    ∙ rw (less, restored, old) refl

pub weight-zero : (c : FdContext) → Consistent c → weight c ≡ 0 → c ≡ new_fd_context
weight-zero c h e =
    let r : c.events.reads ≡ false = ground (arith, e) in
    let w : c.events.writes ≡ false = ground (arith, e) in
    let x : c.read ≡ reset_event_context = subst (λ b. Slot b c.read) r h.read_slot in
    let y : c.write ≡ reset_event_context = subst (λ b. Slot b c.write) w h.write_slot in
    λ i. record { read = x i; write = y i; events = record { reads = r i; writes = w i } }

-- In a valid state, `stopping` holds only when no event is registered and nothing waits in any context.
pub stopping-empty :
    (s : IoManager) (no_timer scheduler_stopping : Bool) (i : ℕ) (c : FdContext)
    → IsValid s
    → stopping s no_timer scheduler_stopping ≡ true
    → get_elem? s.fd_contexts i ≡ some c
    → c ≡ new_fd_context
unfolding stopping
stopping-empty s no_timer scheduler_stopping i c h e k =
    let zero_ : s.pending_event_count ≡ 0 = ground (arith, e) in
    weight-zero c (AllConsistent-at s.fd_contexts i c h.contexts k)
      (omega (arith, weight-le s.fd_contexts i c k, h.counted, zero_))

abbrev Asserts : Result FdContext → Type 0
Asserts (ok c) = Unit {0}
Asserts (err f) = f ≡ assert_failed

add_to_context-Asserts :
    (c : FdContext) (event : Event) (callback : Option ℕ) (this : Caller)
    → Asserts (add_to_context c event callback this)
unfolding add_to_context
add_to_context-Asserts c event callback this =
    elim (Bool-cases (
      is_null (get_event_context c event).scheduler
      && is_null (get_event_context c event).fiber
      && is_null (get_event_context c event).callback)) [
        | inl e ↦ rw (Asserts, e) (filled callback)
        | inr e ↦ rw (Asserts, e) refl
      ]
  where
    filled :
        (callback : Option ℕ)
        → Asserts (do y ← fill_event_context this callback; ok (added c event y))
    filled none = elim (Bool-cases this.running) [
      | inl e ↦ rw (Asserts, e) tt
      | inr e ↦ rw (Asserts, e) refl
    ]
    filled (some n) = tt

-- There are no fewer contexts than before, and one for the descriptor; or an assertion failed.
abbrev pub Within : IoManager → ℕ → Result (IoManager × Bool) → Type 0
Within s fd (ok (t, b)) =
    (length s.fd_contexts ≤ length t.fd_contexts) × (fd < length t.fd_contexts)
Within s fd (err f) = f ≡ assert_failed

-- In a valid state with two contexts or more (the constructor makes 32), `addEvent` on a descriptor of
-- any size stays within the contexts: it returns with no fewer of them than before, one for the
-- descriptor included, or an assertion fails, and it never reads or writes beyond their end.
pub add_event-Within :
    (s : IoManager) (fd : ℕ) (event : Event) (callback : Option ℕ) (this : Caller) (ctl : Bool)
    → IsValid s
    → 2 ≤ length s.fd_contexts
    → Within s fd (add_event s fd event callback this ctl)
unfolding add_event epoll_ctl
add_event-Within s fd event callback this ctl h l =
    let p = contexts_for-Prepared s fd l h.contexts in
    let inside = lt-get_elem? (contexts_for s fd) fd (context_of s fd) p.here in
    elim (Bool-cases (has (context_of s fd).events event)) [
      | inl on ↦ rw (Within, p.here, on) refl
      | inr off ↦ elim (Bool-cases ctl) [
        | inr refused ↦ rw (Within, p.here, off, refused) (p.size, inside)
        | inl done ↦
            rw (Within, p.here, off, done)
              (finished (add_to_context (context_of s fd) event callback this)
                (add_to_context-Asserts (context_of s fd) event callback this))
      ]
    ]
  where
    finished :
        (m : Result FdContext)
        → Asserts m
        → Within s fd (m >>= λ d. ok (with_context s fd event d, true))
    finished (err f) k = k
    finished (ok d) k =
        let p = contexts_for-Prepared s fd l h.contexts in
        let inside = lt-get_elem? (contexts_for s fd) fd (context_of s fd) p.here in
        let size = length-set (contexts_for s fd) fd d in
        (omega (arith, size, p.size), omega (arith, size, inside))
