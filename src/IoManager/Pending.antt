-- ===== src/IoManager/Pending.antt =====
-- The count of pending events of fiber/iomanager.cpp, and the invariant of `IOManager`.
use rpc_storage_cpp.Common.{
  if◌then◌else◌, length, get_elem?, set, replicate, length-append, take_all, length-replicate, ok,
  ℕ, zero, suc, ◌+◌, ◌-◌, ◌≤◌, ◌≡◌, refl, ◌∙◌, subst, Bool, true, false, some, List, [], ◌∷◌, ◌++◌,
  arith,
}
use rpc_storage_cpp.IoManager.{
  read_event, write_event, get_event_context, task_of, clear_event, has, Task, put_context, Event,
  reset_event_context, decrement, trigger_event, context_resize, new_fd_context, IoManager,
  EventContext, FdContext,
}

abbrev pub bit : Bool → ℕ
bit b = if b then 1 else 0

abbrev pub weight : FdContext → ℕ
weight c = bit c.events.reads + bit c.events.writes

abbrev pub total : List FdContext → ℕ
total [] = 0
total (c ∷ cs) = weight c + total cs

-- Something waits for an event that is registered, on a scheduler, and nothing for another.
abbrev pub Slot : Bool → EventContext → Type 0
Slot false x = x ≡ reset_event_context
Slot true x = (k : ℕ) × (t : Task) × (x.scheduler ≡ some k) × (task_of x ≡ some t)

pub record Consistent (c : FdContext) : Type 0 where
  pub read_slot : Slot c.events.reads c.read
  pub write_slot : Slot c.events.writes c.write

abbrev pub AllConsistent : List FdContext → Type 0
AllConsistent [] = Unit {0}
AllConsistent (c ∷ cs) = Consistent c × AllConsistent cs

-- Every context is consistent, and the count is that of the events that are registered.
pub record IsValid (s : IoManager) : Type 0 where
  pub counted : s.pending_event_count ≡ total s.fd_contexts
  pub contexts : AllConsistent s.fd_contexts

pub total-set :
    (cs : List FdContext) (i : ℕ) (c d : FdContext)
    → get_elem? cs i ≡ some c
    → total (set cs i d) + weight c ≡ total cs + weight d
total-set [] i c d e = absurd (cc e)
total-set (b ∷ cs) zero c d e = ground (arith, e)
total-set (b ∷ cs) (suc i) c d e = omega (arith, total-set cs i c d e)

pub weight-le :
    (cs : List FdContext) (i : ℕ) (c : FdContext) → get_elem? cs i ≡ some c → weight c ≤ total cs
weight-le cs i c e = omega (arith, total-set cs i c new_fd_context e)

pub AllConsistent-at :
    (cs : List FdContext) (i : ℕ) (c : FdContext)
    → AllConsistent cs
    → get_elem? cs i ≡ some c
    → Consistent c
AllConsistent-at [] i c h e = absurd (cc e)
AllConsistent-at (b ∷ cs) zero c h e = subst Consistent (cc e) h.0
AllConsistent-at (b ∷ cs) (suc i) c h e = AllConsistent-at cs i c h.1 e

pub AllConsistent-set :
    (cs : List FdContext) (i : ℕ) (d : FdContext)
    → AllConsistent cs
    → Consistent d
    → AllConsistent (set cs i d)
AllConsistent-set [] i d h k = tt
AllConsistent-set (b ∷ cs) zero d h k = (k, h.1)
AllConsistent-set (b ∷ cs) (suc i) d h k = (h.0, AllConsistent-set cs i d h.1 k)

pub new_fd_context-Consistent : Consistent new_fd_context
new_fd_context-Consistent = record { read_slot = refl; write_slot = refl }

replicated :
    (n : ℕ) → AllConsistent (replicate n new_fd_context) × (total (replicate n new_fd_context) ≡ 0)
replicated zero = (tt, refl)
replicated (suc n) =
    ((new_fd_context-Consistent, (replicated n).0), omega (arith, (replicated n).1))

grown :
    (cs : List FdContext) (n : ℕ)
    → AllConsistent cs
    → AllConsistent (cs ++ replicate n new_fd_context)
      × (total (cs ++ replicate n new_fd_context) ≡ total cs)
grown [] n h = replicated n
grown (c ∷ cs) n h = ((h.0, (grown cs n h.1).0), omega (arith, (grown cs n h.1).1))

-- A resize to no fewer contexts adds contexts without events.
pub context_resize-grown :
    (cs : List FdContext) (n : ℕ)
    → AllConsistent cs
    → length cs ≤ n
    → AllConsistent (context_resize cs n) × (total (context_resize cs n) ≡ total cs)
unfolding context_resize
context_resize-grown cs n h l = rw (take_all n cs l) (grown cs (n - length cs) h)

pub length-context_resize :
    (cs : List FdContext) (n : ℕ) → length cs ≤ n → length (context_resize cs n) ≡ n
unfolding context_resize
length-context_resize cs n l = rw (take_all n cs l) (
    length-append cs (replicate (n - length cs) new_fd_context)
    ∙ omega (arith, length-replicate (n - length cs) new_fd_context))

pub has-weight :
    (c : FdContext) (event : Event)
    → has c.events event ≡ true
    → weight (clear_event c event) + 1 ≡ weight c
has-weight c read_event h = ground (arith, h)
has-weight c write_event h = ground (arith, h)

pub clear_event-Consistent :
    (c : FdContext) (event : Event) → Consistent c → Consistent (clear_event c event)
clear_event-Consistent c read_event h = record { read_slot = refl; write_slot = h.write_slot }
clear_event-Consistent c write_event h = record { read_slot = h.read_slot; write_slot = refl }

pub get_event_context-Slot :
    (c : FdContext) (event : Event)
    → Consistent c
    → Slot (has c.events event) (get_event_context c event)
get_event_context-Slot c read_event h = h.read_slot
get_event_context-Slot c write_event h = h.write_slot

-- An event that is registered hands over what waits for it, and is gone.
pub trigger_event-clear :
    (c : FdContext) (event : Event)
    → Consistent c
    → has c.events event ≡ true
    → (k : ℕ) × (t : Task) × ((get_event_context c event).scheduler ≡ some k)
      × (task_of (get_event_context c event) ≡ some t)
      × (trigger_event c event ≡ ok (clear_event c event, (k, t) ∷ []))
unfolding trigger_event
trigger_event-clear c event h e =
    let (k, t, p, q) =
      subst (λ b. Slot b (get_event_context c event)) e (get_event_context-Slot c event h) in
    (k, t, p, q, rw (e, p, q) refl)

-- One context changed, with the count changed as its events.
pub put_context-IsValid :
    (s : IoManager) (i n : ℕ) (c d : FdContext)
    → IsValid s
    → get_elem? s.fd_contexts i ≡ some c
    → Consistent d
    → n + weight c ≡ s.pending_event_count + weight d
    → IsValid (put_context s i d n)
put_context-IsValid s i n c d h e k m = record {
  counted = omega (arith, total-set s.fd_contexts i c d e, h.counted, m);
  contexts = AllConsistent-set s.fd_contexts i d h.contexts k;
}

pub decrement-suc : (n : ℕ) → 1 ≤ n → decrement n + 1 ≡ n
decrement-suc zero l = absurd (omega arith)
decrement-suc (suc n) l = omega arith
