-- ===== src/IoManager/Keeps.antt =====
-- All operations of fiber/iomanager.cpp keep the invariant.
use rpc_storage_cpp.Common.{
  length-set, ◌>>=◌, Returns, ok, ℕ, ◌≡◌, refl, sym, ◌∙◌, subst, Bool, true, false, Option, none,
  some, [], arith,
}
use rpc_storage_cpp.IoManager.Trigger.{handle_ready-Kept, cancel_all-Kept}
use rpc_storage_cpp.IoManager.Adding.{contexts_for, contexts_for-Prepared, add_event-Added}
use rpc_storage_cpp.IoManager.Pending.{AllConsistent-set, total-set, IsValid}
use rpc_storage_cpp.IoManager.Steps.{
  ready, cancel_every, cancel_event-Kept, cancel, context_of, del_event-Kept, del, Kept, step, add,
  Allowed, Call,
}
use rpc_storage_cpp.IoManager.{epoll_ctl, Caller, Event, IoManager, add_event, is_null}

null-some : (o : Option ℕ) → is_null o ≡ false → (k : ℕ) × (o ≡ some k)
null-some none e = absurd (cc e)
null-some (some k) e = (k, refl)

add_event-Kept :
    (s : IoManager) (fd : ℕ) (event : Event) (callback : Option ℕ) (this : Caller) (ctl : Bool)
    → IsValid s
    → Allowed s (add fd event callback this ctl)
    → Returns (step s (add fd event callback this ctl)) (Kept s (add fd event callback this ctl))
unfolding add_event epoll_ctl
add_event-Kept s fd event callback this true h (l, e, some_, g) =
    let (k, f) = null-some this.scheduler some_ in
    let (d, a, r) = add_event-Added s fd event callback this k h l e f g in
    let p = contexts_for-Prepared s fd l h.contexts in
    let c = context_of s fd in
    subst (λ m. Returns (m >>= λ x. ok (x.0, [])) (Kept s (add fd event callback this true)))
      (sym r)
      (record {
        valid = record {
          counted = omega (
            arith,
            total-set (contexts_for s fd) fd c d p.here,
            h.counted,
            a.heavier,
            p.total_eq,
          );
          contexts = AllConsistent-set (contexts_for s fd) fd d p.consistent a.consistent;
        };
        size = omega (arith, length-set (contexts_for s fd) fd d, p.size);
        handed = λ q. absurd (cc q);
      })
add_event-Kept s fd event callback this false h (l, e, some_, g) =
    let p = contexts_for-Prepared s fd l h.contexts in
    rw (Returns, p.here, e)
      (record {
        valid = record { counted = h.counted ∙ sym p.total_eq; contexts = p.consistent };
        size = p.size;
        handed = λ q. absurd (cc q);
      })

-- Every call and every event that is allowed in a valid state returns. It keeps the state valid: the
-- count of pending events is the number of events that are registered, and something waits for each of
-- these on a scheduler, and for no other. No context is taken away; and a call that cancels, and an
-- event that is handled, hands over exactly one task for each event that the count loses.
pub step-Kept :
    (s : IoManager) (call : Call) → IsValid s → Allowed s call → Returns (step s call) (Kept s call)
step-Kept s (add fd event callback this ctl) h a = add_event-Kept s fd event callback this ctl h a
step-Kept s (del fd event ctl) h a = del_event-Kept s fd event ctl h
step-Kept s (cancel fd event ctl) h a = cancel_event-Kept s fd event ctl h
step-Kept s (cancel_every fd ctl) h a = cancel_all-Kept s fd ctl h
step-Kept s (ready r ctl) h a = handle_ready-Kept s r ctl h a
