-- ===== src/Timer/Firing.antt =====
-- Which timers fire: fiber/timer.cpp.
use rpc_storage_cpp.Common.{
  leb, if◌then◌else◌, Bool-cases, ℕ, ◌+◌, ◌%◌, ◌^◌, ◌≤◌, ◌<◌, ◌≡◌, refl, sym, ap, ◌∙◌, ◌≢◌, ◌↔◌,
  inl, inr, true, false, Option, List, [], ◌∷◌, map, arith,
}
use rpc_storage_cpp.Timer.{
  add_timer, is_empty, detect_clock_rolllover, TimerManager, get_next_timer, list_expired_cb, fire,
  split_due, insert, Timer,
}

-- The timers stand in the order of their times, none before `n`.
abbrev pub SortedFrom : ℕ → List Timer → Type 0
SortedFrom n [] = Unit {0}
SortedFrom n (t ∷ ts) = (n ≤ t.next) × SortedFrom t.next ts

-- The functions of all timers whose time has come, wherever they stand.
abbrev pub due_callbacks : (now_ms : ℕ) → List Timer → List (Option ℕ)
due_callbacks now_ms [] = []
due_callbacks now_ms (t ∷ ts) =
    let rest = due_callbacks now_ms ts in if leb t.next now_ms then t.callback ∷ rest else rest

SortedFrom-mono : {m n : ℕ} (ts : List Timer) → m ≤ n → SortedFrom n ts → SortedFrom m ts
SortedFrom-mono [] h s = tt
SortedFrom-mono (t ∷ ts) h s = (omega arith, s.1)

insert-SortedFrom :
    (n : ℕ) (t : Timer) (ts : List Timer)
    → n ≤ t.next
    → SortedFrom n ts
    → SortedFrom n (insert t ts)
unfolding insert
insert-SortedFrom n t [] h s = (h, tt)
insert-SortedFrom n t (u ∷ us) h s =
    ground (arith, insert-SortedFrom u.next t us, SortedFrom-mono us)

late-due :
    (now_ms n : ℕ) (ts : List Timer) → now_ms < n → SortedFrom n ts → due_callbacks now_ms ts ≡ []
late-due now_ms n [] h s = refl
late-due now_ms n (t ∷ ts) h s = ground (arith, late-due now_ms t.next ts)

split_due-callbacks :
    (now_ms n : ℕ) (ts : List Timer)
    → SortedFrom n ts
    → map (λ t. t.callback) (split_due now_ms ts).0 ≡ due_callbacks now_ms ts
unfolding split_due
split_due-callbacks now_ms n [] s = refl
split_due-callbacks now_ms n (t ∷ ts) s =
    ground (arith, split_due-callbacks now_ms t.next ts s.1, late-due now_ms t.next ts)

fire-callbacks :
    (now_ms : ℕ) (due rest : List Timer) → (fire now_ms due rest).0 ≡ map (λ t. t.callback) due
unfolding fire
fire-callbacks now_ms [] rest = refl
fire-callbacks now_ms (t ∷ ts) rest =
    ap (λ r. t.callback ∷ r)
      (fire-callbacks now_ms ts
        (if t.recurring then insert (record t { next = (now_ms + t.ms) % 2 ^ 64 }) rest else rest))

timers-detect :
    (m : TimerManager) (now_ms : ℕ) → (detect_clock_rolllover m now_ms).0.timers ≡ m.timers
unfolding detect_clock_rolllover
timers-detect m now_ms = refl

nothing : (ts : List Timer) → is_empty ts ≡ true → ts ≡ []
nothing [] e = refl
nothing (t ∷ ts) e = cc

-- With the timers in order and no rollover of the clock, `listExpiredCb` returns the functions of
-- exactly the timers whose time is not after now, in the order in which they stand.
pub list_expired_cb-due :
    (m : TimerManager) (now_ms : ℕ)
    → SortedFrom 0 m.timers
    → (detect_clock_rolllover m now_ms).1 ≡ false
    → (list_expired_cb m now_ms).1 ≡ due_callbacks now_ms m.timers
unfolding list_expired_cb
list_expired_cb-due m now_ms s steady = elim (Bool-cases (is_empty m.timers)) [
  | inl e ↦ rw e (sym (ap (due_callbacks now_ms) (nothing m.timers e)))
  | inr e ↦
      rw (e, steady, timers-detect m now_ms)
        (fire-callbacks now_ms (split_due now_ms m.timers).0 (split_due now_ms m.timers).1
          ∙ split_due-callbacks now_ms 0 m.timers s)
]

split_due-SortedFrom :
    (now_ms n : ℕ) (ts : List Timer) → SortedFrom n ts → SortedFrom n (split_due now_ms ts).1
unfolding split_due
split_due-SortedFrom now_ms n [] s = tt
split_due-SortedFrom now_ms n (t ∷ ts) s = ground (
  arith,
  split_due-SortedFrom now_ms t.next ts s.1,
  SortedFrom-mono {m = n} {n = t.next} (split_due now_ms ts).1,
)

fire-SortedFrom :
    (now_ms : ℕ) (due rest : List Timer) → SortedFrom 0 rest → SortedFrom 0 (fire now_ms due rest).1
unfolding fire
fire-SortedFrom now_ms [] rest s = s
fire-SortedFrom now_ms (t ∷ ts) rest s =
    let t' : Timer = record t { next = (now_ms + t.ms) % 2 ^ 64 } in
    let again : SortedFrom 0 (if t.recurring then insert t' rest else rest) =
      ground (arith, insert-SortedFrom 0 t' rest) in
    fire-SortedFrom now_ms ts (if t.recurring then insert t' rest else rest) again

-- With the timers in order, `listExpiredCb` leaves those that remain in order, also after a rollover of
-- the clock.
pub list_expired_cb-SortedFrom :
    (m : TimerManager) (now_ms : ℕ)
    → SortedFrom 0 m.timers
    → SortedFrom 0 (list_expired_cb m now_ms).0.timers
unfolding list_expired_cb
list_expired_cb-SortedFrom m now_ms s = elim (Bool-cases (is_empty m.timers)) [
  | inl e ↦ rw e s
  | inr e ↦ elim (Bool-cases (detect_clock_rolllover m now_ms).1) [
    | inl over ↦
        rw (e, over) (fire-SortedFrom now_ms (detect_clock_rolllover m now_ms).0.timers [] tt)
    | inr steady ↦
        rw (e, steady, timers-detect m now_ms)
          (fire-SortedFrom now_ms (split_due now_ms m.timers).0 (split_due now_ms m.timers).1
            (split_due-SortedFrom now_ms 0 m.timers s))
  ]
]

delay-zero :
    (m : TimerManager) (now_ms : ℕ) (ts : List Timer)
    → SortedFrom 0 ts
    → ((get_next_timer (record m { timers = ts }) now_ms).1 ≡ 0) ↔ (due_callbacks now_ms ts ≢ [])
unfolding get_next_timer
delay-zero m now_ms [] s = (λ h. absurd (omega arith), λ h. absurd (h refl))
delay-zero m now_ms (t ∷ ts) s = elim (Bool-cases (leb t.next now_ms)) [
  | inl due ↦ rw due (λ h e. cc, λ h. refl)
  | inr late ↦
      rw late (λ h e. ground arith, λ h. absurd (h (late-due now_ms t.next ts (ground arith) s.1)))
]

-- With the timers in order, the time to the next one is 0 exactly if one of them is due.
pub get_next_timer-zero :
    (m : TimerManager) (now_ms : ℕ)
    → SortedFrom 0 m.timers
    → ((get_next_timer m now_ms).1 ≡ 0) ↔ (due_callbacks now_ms m.timers ≢ [])
get_next_timer-zero m now_ms s = delay-zero m now_ms m.timers s

-- Adding a timer keeps the order.
pub add_timer-SortedFrom :
    (m : TimerManager) (t : Timer) → SortedFrom 0 m.timers → SortedFrom 0 (add_timer m t).0.timers
unfolding add_timer
add_timer-SortedFrom m t s = insert-SortedFrom 0 t m.timers (omega arith) s
