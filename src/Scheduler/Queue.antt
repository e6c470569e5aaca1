-- ===== src/Scheduler/Queue.antt =====
-- Which task a thread takes from the queue: fiber/scheduler.cpp.
use rpc_storage_cpp.Common.{
  if◌then◌else◌, Bool-cases, Returns, Returns-ok, ok, ℕ, ◌+◌, ◌≡◌, refl, ap, ◌∙◌, inl, inr, Bool,
  true, false, not, Option, none, some, List, [], ◌∷◌, ◌++◌, arith,
}
use rpc_storage_cpp.Scheduler.{
  is_ready, skipped, is_empty_queue, is_for_other, is_task, take_task, Scheduler, take_from,
  SchedulerTask,
}

-- A property of all tasks.
abbrev pub Each : (SchedulerTask → Type 0) → List SchedulerTask → Type 0
Each P [] = Unit {0}
Each P (t ∷ ts) = P t × Each P ts

-- What `scheduler_no_lock` lets into the queue, with a fiber that can run.
abbrev pub Runnable : (ready : ℕ → Bool) → SchedulerTask → Type 0
Runnable ready t = (is_task t ≡ true) × (is_ready ready t.fiber ≡ true)

abbrev pub ForOther : (thread_id : ℕ) → SchedulerTask → Type 0
ForOther thread_id t = is_for_other thread_id t.thread ≡ true

-- Nothing is taken, and all is for other threads; or the first task that is not.
abbrev pub Taken :
    (thread_id : ℕ) → List SchedulerTask → Option SchedulerTask → List SchedulerTask → Type 0
Taken thread_id ts none rest = (rest ≡ ts) × Each (ForOther thread_id) ts
Taken thread_id ts (some t) rest =
    (front : List SchedulerTask) × (back : List SchedulerTask) × (ts ≡ front ++ t ∷ back)
    × (rest ≡ front ++ back)
    × Each (ForOther thread_id) front
    × (is_for_other thread_id t.thread ≡ false)

pub record Fair (thread_id : ℕ) (ts : List SchedulerTask)
    (r : Option SchedulerTask × List SchedulerTask × Bool) : Type 0 where
  pub taken : Taken thread_id ts r.0 r.1
  pub tickle : r.2 ≡ not (is_empty_queue r.1)

skipped-Fair :
    (thread_id : ℕ) (t : SchedulerTask) (ts : List SchedulerTask)
    (r : Option SchedulerTask × List SchedulerTask × Bool)
    → ForOther thread_id t
    → Fair thread_id ts r
    → Returns (skipped t r) (Fair thread_id (t ∷ ts))
skipped-Fair thread_id t ts (none, rest, b) e h = record {
  taken = (ap (λ r. t ∷ r) h.taken.0, (e, h.taken.1));
  tickle = refl;
}
skipped-Fair thread_id t ts (some x, rest, b) e h =
    let (front, back, p, q, o, m) = h.taken in
    record {
      taken = (t ∷ front, back, ap (λ r. t ∷ r) p, ap (λ r. t ∷ r) q, (e, o), m);
      tickle = refl;
    }

pub take_from-Fair :
    (ready : ℕ → Bool) (thread_id : ℕ) (ts : List SchedulerTask)
    → Each (Runnable ready) ts
    → Returns (take_from ready thread_id ts) (Fair thread_id ts)
unfolding take_from
take_from-Fair ready thread_id [] h = record { taken = (refl, tt); tickle = refl }
take_from-Fair ready thread_id (t ∷ ts) h = elim (Bool-cases (is_for_other thread_id t.thread)) [
  | inl e ↦
      let (r, f, k) =
        Returns-ok (take_from ready thread_id ts) (take_from-Fair ready thread_id ts h.1) in
      rw (Returns, e, f) (skipped-Fair thread_id t ts r e k)
  | inr e ↦
      rw (Returns, e, h.0.0, h.0.1) (record { taken = ([], ts, refl, refl, tt, e); tickle = refl })
]

abbrev pub is_some_task : Option SchedulerTask → Bool
is_some_task none = false
is_some_task (some t) = true

-- The outcome of a thread's turn.
abbrev pub Turn : Scheduler → (thread_id : ℕ) → Scheduler × Option SchedulerTask × Bool → Type 0
Turn s thread_id (u, taken, tickle_me) =
    Taken thread_id s.tasks taken u.tasks
    × (tickle_me ≡ not (is_empty_queue u.tasks))
    × (u.active_thread_count ≡ s.active_thread_count + (if is_some_task taken then 1 else 0))

-- A thread's turn at a queue whose tasks can all run returns: it takes the first task that is not for
-- another thread and leaves the others in their order, or takes nothing when all are for other threads;
-- it wakes another thread just when a task is left; and it counts itself as active when it has a task.
pub take_task-Turn :
    (s : Scheduler) (ready : ℕ → Bool) (thread_id : ℕ)
    → Each (Runnable ready) s.tasks
    → Returns (take_task s ready thread_id) (Turn s thread_id)
unfolding take_task
take_task-Turn s ready thread_id h =
    let (r, f, k) =
      Returns-ok (take_from ready thread_id s.tasks) (take_from-Fair ready thread_id s.tasks h) in
    turn r f k
  where
    turn :
        (r : Option SchedulerTask × List SchedulerTask × Bool)
        → take_from ready thread_id s.tasks ≡ ok r
        → Fair thread_id s.tasks r
        → Returns (take_task s ready thread_id) (Turn s thread_id)
    turn (none, rest, b) f k =
        rw (Returns, f)
          ((refl, k.taken.1), k.tickle ∙ ap (λ ts. not (is_empty_queue ts)) k.taken.0, omega arith)
    turn (some t, rest, b) f k = rw (Returns, f) (k.taken, k.tickle, refl)
