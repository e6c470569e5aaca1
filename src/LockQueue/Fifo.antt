-- ===== src/LockQueue/Fifo.antt =====
-- The order in which class `LockQueue` of common/include/util.h hands out what it was given.
use rpc_storage_cpp.Common.{
  ◌≡◌, refl, sym, ap, ◌∙◌, Bool, true, false, Option, none, some, List, [], ◌∷◌, ◌++◌,
}
use mathlib.Core.List.{append_assoc, append-nil}
use rpc_storage_cpp.LockQueue.{
  time_out_pop, pop, push, LockQueue, TimedPop, came, waiting, timed_out,
}

-- A call, of any thread.
pub data Use (A : Type 0) : Type 0 where
  pushes : A → Use A
  pops : Use A
  pops_in_time : (is_late : Bool) → Use A

module _ {A : Type 0} where
  abbrev pub out_of : Option A → List A
  out_of none = []
  out_of (some a) = a ∷ []

  abbrev pub out_of_timed : TimedPop A → List A
  out_of_timed waiting = []
  out_of_timed timed_out = []
  out_of_timed (came a) = a ∷ []

  -- What a call hands out, and what it leaves.
  abbrev pub use_queue : LockQueue A → Use A → List A × LockQueue A
  use_queue q (pushes a) = ([], push q a)
  use_queue q pops = (out_of (pop q).0, (pop q).1)
  use_queue q (pops_in_time is_late) =
      (out_of_timed (time_out_pop q is_late).0, (time_out_pop q is_late).1)

  abbrev pub run_queue : LockQueue A → List (Use A) → List A × LockQueue A
  run_queue q [] = ([], q)
  run_queue q (u ∷ us) =
      ((use_queue q u).0 ++ (run_queue (use_queue q u).1 us).0, (run_queue (use_queue q u).1 us).1)

  abbrev pub pushed : List (Use A) → List A
  pushed [] = []
  pushed (pushes a ∷ us) = a ∷ pushed us
  pushed (pops ∷ us) = pushed us
  pushed (pops_in_time is_late ∷ us) = pushed us

  abbrev put_in : Use A → List A
  put_in (pushes a) = a ∷ []
  put_in pops = []
  put_in (pops_in_time is_late) = []

  pushed-put_in : (u : Use A) (us : List (Use A)) → pushed (u ∷ us) ≡ put_in u ++ pushed us
  pushed-put_in (pushes a) us = refl
  pushed-put_in pops us = refl
  pushed-put_in (pops_in_time is_late) us = refl

  use_queue-order :
      (q : List A) (u : Use A)
      → q ++ put_in u
        ≡ (use_queue (record { queue = q }) u).0 ++ (use_queue (record { queue = q }) u).1.queue
  unfolding push pop time_out_pop
  use_queue-order q (pushes a) = refl
  use_queue-order [] pops = refl
  use_queue-order (x ∷ q) pops = append-nil (x ∷ q)
  use_queue-order [] (pops_in_time true) = refl
  use_queue-order [] (pops_in_time false) = refl
  use_queue-order (x ∷ q) (pops_in_time is_late) = append-nil (x ∷ q)

  -- On any sequence of calls, the elements that are handed out and then those that are left are the
  -- elements that were there and then those that were pushed, in this order: each is handed out once.
  pub run_queue-order :
      (q : LockQueue A) (us : List (Use A))
      → q.queue ++ pushed us ≡ (run_queue q us).0 ++ (run_queue q us).1.queue
  run_queue-order q [] = append-nil q.queue
  run_queue-order q (u ∷ us) =
      let next = (use_queue q u).1 in
      let out = (use_queue q u).0 in
      ap (λ r. q.queue ++ r) (pushed-put_in u us)
      ∙ sym (append_assoc q.queue (put_in u) (pushed us))
      ∙ ap (λ r. r ++ pushed us) (use_queue-order q.queue u)
      ∙ append_assoc out next.queue (pushed us)
      ∙ ap (λ r. out ++ r) (run_queue-order next us)
      ∙ sym (append_assoc out (run_queue next us).0 (run_queue next us).1.queue)
