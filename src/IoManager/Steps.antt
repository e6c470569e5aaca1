-- ===== src/IoManager/Steps.antt =====
-- The operations of `IOManager` keep its invariant: fiber/iomanager.cpp.
use rpc_storage_cpp.Common.{
  Bool-cases, Option-cases, length, get_elem?, length-set, Result, ◌>>=◌, Returns, ok, ℕ, ◌+◌, ◌≤◌,
  ◌≡◌, inl, inr, Bool, true, false, Option, none, some, List, [], ◌∷◌, arith,
}
use rpc_storage_cpp.IoManager.Pending.{
  decrement-suc, has-weight, put_context-IsValid, clear_event-Consistent, weight-le,
  trigger_event-clear, weight, AllConsistent-at, Consistent, IsValid,
}
use rpc_storage_cpp.IoManager.{
  Events, without_event, EpollOp, epoll_ctl, put_context, handle_ready, clear_event, cancel_all,
  decrement, is_null, new_fd_context, add_event, Ready, has, FdContext, Task, Caller, cancel_event,
  del_event, IoManager, Event,
}

-- A call of a member function, or an event that `idle` handles, with what `epoll_ctl` returns.
pub data Call : Type 0 where
  add : (fd : ℕ) → Event → (callback : Option ℕ) → Caller → (ctl : Bool) → Call
  del : (fd : ℕ) → Event → (ctl : Bool) → Call
  cancel : (fd : ℕ) → Event → (ctl : Bool) → Call
  cancel_every : (fd : ℕ) → (ctl : Bool) → Call
  ready : Ready → (ctl : Bool) → Call

-- The state and the tasks that are handed over.
abbrev pub step : IoManager → Call → Result (IoManager × List (ℕ × Task))
step s (add fd event callback this ctl) = do
  (t, b) ← add_event s fd event callback this ctl
  ok (t, [])
step s (del fd event ctl) = do (t, b) ← del_event s fd event ctl; ok (t, [])
step s (cancel fd event ctl) = do (t, tasks, b) ← cancel_event s fd event ctl; ok (t, tasks)
step s (cancel_every fd ctl) = do (t, tasks, b) ← cancel_all s fd ctl; ok (t, tasks)
step s (ready r ctl) = handle_ready s r ctl

-- The context of a descriptor, a new one if there is none yet.
abbrev pub or_new : Option FdContext → FdContext
or_new none = new_fd_context
or_new (some c) = c

abbrev pub context_of : IoManager → ℕ → FdContext
context_of s fd = or_new (get_elem? s.fd_contexts fd)

-- What a caller owes: an event is not registered twice, and only on a thread of a scheduler whose
-- fiber runs; and what `epoll_wait` reports is registered.
abbrev pub Allowed : IoManager → Call → Type 0
Allowed s (add fd event callback this ctl) =
    (2 ≤ length s.fd_contexts)
    × (has (context_of s fd).events event ≡ false)
    × (is_null this.scheduler ≡ false)
    × (this.running ≡ true)
Allowed s (del fd event ctl) = Unit {0}
Allowed s (cancel fd event ctl) = Unit {0}
Allowed s (cancel_every fd ctl) = Unit {0}
Allowed s (ready r ctl) =
    (c : FdContext) × (get_elem? s.fd_contexts r.fd ≡ some c)
    × (r.input ≡ true → c.events.reads ≡ true)
    × (r.output ≡ true → c.events.writes ≡ true)

-- The outcome: the invariant, and one task for each event that the count has lost, but for `delEvent`.
abbrev pub hands_over : Call → Bool
hands_over (add fd event callback this ctl) = false
hands_over (del fd event ctl) = false
hands_over (cancel fd event ctl) = true
hands_over (cancel_every fd ctl) = true
hands_over (ready r ctl) = true

pub record Kept (s : IoManager) (call : Call) (r : IoManager × List (ℕ × Task)) : Type 0 where
  pub valid : IsValid r.0
  pub size : length s.fd_contexts ≤ length r.0.fd_contexts
  pub handed : hands_over call ≡ true → r.0.pending_event_count + length r.1 ≡ s.pending_event_count

-- Where nothing happens.
pub Kept-same : (s : IoManager) (call : Call) → IsValid s → Kept s call (s, [])
Kept-same s call h = record { valid = h; size = omega arith; handed = λ e. omega arith }

-- Where only `epoll_ctl` was called.
pub Kept-called :
    (s : IoManager) (call : Call) (fd : ℕ) (op : EpollOp) (events : Events)
    → IsValid s
    → Kept s call (epoll_ctl s fd op events, [])
unfolding epoll_ctl
Kept-called s call fd op events h = record {
  valid = record { counted = h.counted; contexts = h.contexts };
  size = omega arith;
  handed = λ e. omega arith;
}

pub put_context-Kept :
    (s : IoManager) (call : Call) (i n : ℕ) (c d : FdContext) (tasks : List (ℕ × Task))
    (op : EpollOp) (events : Events)
    → IsValid s
    → get_elem? s.fd_contexts i ≡ some c
    → Consistent d
    → n + weight c ≡ s.pending_event_count + weight d
    → (hands_over call ≡ true → n + length tasks ≡ s.pending_event_count)
    → Kept s call (put_context (epoll_ctl s i op events) i d n, tasks)
unfolding epoll_ctl
put_context-Kept s call i n c d tasks op events h e k m o =
    let called = Kept-called s call i op events h in
    record {
      valid = put_context-IsValid (epoll_ctl s i op events) i n c d called.valid e k m;
      size = omega (arith, length-set s.fd_contexts i d);
      handed = o;
    }

-- One event less.
pending-decrement :
    (s : IoManager) (i : ℕ) (c : FdContext) (event : Event)
    → IsValid s
    → get_elem? s.fd_contexts i ≡ some c
    → has c.events event ≡ true
    → (decrement s.pending_event_count + weight c
        ≡ s.pending_event_count + weight (clear_event c event))
      × (decrement s.pending_event_count + 1 ≡ s.pending_event_count)
pending-decrement s i c event h e k =
    let l : 1 ≤ s.pending_event_count =
      omega (arith, weight-le s.fd_contexts i c e, h.counted, has-weight c event k) in
    let d = decrement-suc s.pending_event_count l in (omega (arith, d, has-weight c event k), d)

pub del_event-Kept :
    (s : IoManager) (fd : ℕ) (event : Event) (ctl : Bool)
    → IsValid s
    → Returns (step s (del fd event ctl)) (Kept s (del fd event ctl))
unfolding del_event epoll_ctl
del_event-Kept s fd event ctl h = elim (Option-cases (get_elem? s.fd_contexts fd)) [
  | inl e ↦ rw (Returns, e) (Kept-same s (del fd event ctl) h)
  | inr (c, e) ↦ elim (Bool-cases (has c.events event)) [
    | inr off ↦ rw (Returns, e, off) (Kept-same s (del fd event ctl) h)
    | inl on ↦ registered c e on ctl
  ]
]
  where
    registered :
        (c : FdContext)
        → get_elem? s.fd_contexts fd ≡ some c
        → has c.events event ≡ true
        → (ctl : Bool) → Returns (step s (del fd event ctl)) (Kept s (del fd event ctl))
    registered c e on false =
        rw (Returns, e, on)
          (Kept-called s (del fd event false) fd _ (without_event c.events event) h)
    registered c e on true =
        let (m, n) = pending-decrement s fd c event h e on in
        rw (Returns, e, on)
          (put_context-Kept s (del fd event true) fd (decrement s.pending_event_count) c
            (clear_event c event) [] _ (without_event c.events event) h e
            (clear_event-Consistent c event (AllConsistent-at s.fd_contexts fd c h.contexts e)) m
            (λ q. absurd (cc q)))

pub cancel_event-Kept :
    (s : IoManager) (fd : ℕ) (event : Event) (ctl : Bool)
    → IsValid s
    → Returns (step s (cancel fd event ctl)) (Kept s (cancel fd event ctl))
unfolding cancel_event epoll_ctl
cancel_event-Kept s fd event ctl h = elim (Option-cases (get_elem? s.fd_contexts fd)) [
  | inl e ↦ rw (Returns, e) (Kept-same s (cancel fd event ctl) h)
  | inr (c, e) ↦ elim (Bool-cases (has c.events event)) [
    | inr off ↦ rw (Returns, e, off) (Kept-same s (cancel fd event ctl) h)
    | inl on ↦ registered c e on ctl
  ]
]
  where
    registered :
        (c : FdContext)
        → get_elem? s.fd_contexts fd ≡ some c
        → has c.events event ≡ true
        → (ctl : Bool) → Returns (step s (cancel fd event ctl)) (Kept s (cancel fd event ctl))
    registered c e on false =
        rw (Returns, e, on)
          (Kept-called s (cancel fd event false) fd _ (without_event c.events event) h)
    registered c e on true =
        let fine = AllConsistent-at s.fd_contexts fd c h.contexts e in
        let (k, t, p, q, r) = trigger_event-clear c event fine on in
        let (m, n) = pending-decrement s fd c event h e on in
        rw (Returns, e, on, p, q)
          (put_context-Kept s (cancel fd event true) fd (decrement s.pending_event_count) c
            (clear_event c event) ((k, t) ∷ []) _ (without_event c.events event) h e
            (clear_event-Consistent c event fine) m (λ q. n))
