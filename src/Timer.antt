-- ===== src/Timer.antt =====
-- Timers: fiber/timer.cpp and fiber/include/timer.hpp. The clock is an argument of each call, and the
-- `std::set` of a manager is a list in its order.
pub mod Firing
mod Tests
use rpc_storage_cpp.Common.{
  ltb, leb, ◌==◌, if◌then◌else◌, ℕ, ◌+◌, ◌-◌, ◌%◌, ◌^◌, Bool, true, false, not, ◌&&◌, ◌||◌, Option,
  none, some, List, [], ◌∷◌,
}

-- A `Timer`. `address` is that of the object, `callback` its function, which is cleared when the timer
-- is cancelled or has fired.
pub record Timer : Type 0 where
  pub address : ℕ
  pub recurring : Bool
  pub ms : ℕ
  pub next : ℕ
  pub callback : Option ℕ

-- `Timer::Comparator` on pointers that are not null.
unfoldable pub earlier : Timer → Timer → Bool
earlier a b =
    if ltb a.next b.next then true else if ltb b.next a.next then false else ltb a.address b.address

-- The fields of class `TimerManager`.
pub record TimerManager : Type 0 where
  pub timers : List Timer
  pub tickled : Bool
  pub previouse_time : ℕ

-- `std::set::insert`: in front of the first timer that is not earlier, unless that one is equivalent.
unfoldable pub insert : Timer → List Timer → List Timer
unfolding earlier
insert t [] = t ∷ []
insert t (u ∷ us) =
    let rest = u ∷ insert t us in
    if earlier u t then rest else if earlier t u then t ∷ u ∷ us else u ∷ us

abbrev pub is_empty : List Timer → Bool
is_empty [] = true
is_empty (t ∷ ts) = false

abbrev pub front_is : Timer → List Timer → Bool
front_is t [] = false
front_is t (u ∷ us) = t.address == u.address

-- `addTimer(val, lock)`, and whether `OnTimerInsertedAtFront` is called.
unfoldable pub add_timer : TimerManager → Timer → TimerManager × Bool
add_timer m t =
    let ts = insert t m.timers in
    let at_front = front_is t ts && not m.tickled in
    (record m { timers = ts; tickled = if at_front then true else m.tickled }, at_front)

-- `~0ull`.
abbrev pub no_timer : ℕ
no_timer = 2 ^ 64 - 1

unfoldable pub get_next_timer : TimerManager → (now_ms : ℕ) → TimerManager × ℕ
get_next_timer m now_ms = (
  record m { tickled = false },
  elim m.timers [ [] ↦ no_timer | t ∷ ts ↦ if leb t.next now_ms then 0 else t.next - now_ms ],
)

-- `now_ms < previouseTime_ - 60 * 60 * 1000` on `uint64_t`.
unfoldable pub detect_clock_rolllover : TimerManager → (now_ms : ℕ) → TimerManager × Bool
detect_clock_rolllover m now_ms = (
  record m { previouse_time = now_ms },
  ltb now_ms m.previouse_time && ltb now_ms ((m.previouse_time + 2 ^ 64 - 3600000) % 2 ^ 64),
)

-- The timers up to the iterator at which `listExpiredCb` cuts the set: those before `now_ms`, and
-- those at `now_ms`, which stand behind them.
unfoldable pub split_due : (now_ms : ℕ) → List Timer → List Timer × List Timer
split_due now_ms [] = ([], [])
split_due now_ms (t ∷ ts) =
    let (due, rest) = split_due now_ms ts in
    if leb t.next now_ms then (t ∷ due, rest) else ([], t ∷ ts)

-- The loop over the expired timers: their functions, and the set with the recurring ones put back.
unfoldable pub fire : (now_ms : ℕ) → (expired timers : List Timer) → List (Option ℕ) × List Timer
fire now_ms [] timers = ([], timers)
fire now_ms (t ∷ ts) timers =
    let again =
      if t.recurring
      then insert (record t { next = (now_ms + t.ms) % 2 ^ 64 }) timers
      else timers in
    let (cbs, rest) = fire now_ms ts again in (t.callback ∷ cbs, rest)

unfoldable pub list_expired_cb : TimerManager → (now_ms : ℕ) → TimerManager × List (Option ℕ)
list_expired_cb m now_ms =
    if is_empty m.timers
    then (m, [])
    else (let (n, rollover) = detect_clock_rolllover m now_ms in
        let (due, rest) = if rollover then (n.timers, []) else split_due now_ms n.timers in
        let (cbs, timers) = fire now_ms due rest in (record n { timers = timers }, cbs))

-- `new Timer(ms, cb, recurring, this)` at an address of the allocator's choice, and `addTimer` of it.
unfoldable pub add_new_timer :
    TimerManager → (address now_ms ms callback : ℕ) → Bool → TimerManager × Bool
unfolding add_timer
add_new_timer m address now_ms ms callback recurring = add_timer m (record {
  address = address;
  recurring = recurring;
  ms = ms;
  next = (now_ms + ms) % 2 ^ 64;
  callback = some callback;
})

-- `timers_.find(t)`, whether it is there, and `timers_.erase` of what it finds.
unfoldable pub is_in : Timer → List Timer → Bool
is_in t [] = false
is_in t (u ∷ us) = (t.next == u.next && t.address == u.address) || is_in t us

unfoldable pub erase : Timer → List Timer → List Timer
erase t [] = []
erase t (u ∷ us) =
    let rest = erase t us in if t.next == u.next && t.address == u.address then us else u ∷ rest

-- `Timer::cancel`: the manager, the timer and the result.
unfoldable pub cancel : TimerManager → Timer → TimerManager × Timer × Bool
unfolding erase
cancel m t = elim t.callback [
  | none ↦ (m, t, false)
  | some cb ↦ (record m { timers = erase t m.timers }, record t { callback = none }, true)
]

-- `Timer::refresh`.
unfoldable pub refresh : TimerManager → Timer → (now_ms : ℕ) → TimerManager × Timer × Bool
unfolding erase insert is_in
refresh m t now_ms =
    let t' : Timer = record t { next = (now_ms + t.ms) % 2 ^ 64 } in
    elim t.callback [
      | none ↦ (m, t, false)
      | some cb ↦
          if is_in t m.timers
          then (record m { timers = insert t' (erase t m.timers) }, t', true)
          else (m, t, false)
    ]

-- `Timer::reset`, and whether `OnTimerInsertedAtFront` is called.
unfoldable pub reset :
    TimerManager → Timer → (now_ms ms : ℕ) → (from_now : Bool) → TimerManager × Timer × Bool × Bool
unfolding erase is_in add_timer
reset m t now_ms ms from_now =
    let start = if from_now then now_ms else (t.next + 2 ^ 64 - t.ms) % 2 ^ 64 in
    let t' : Timer = record t { ms = ms; next = (start + ms) % 2 ^ 64 } in
    if ms == t.ms && not from_now then (m, t, true, false) else elim t.callback [
      | none ↦ (m, t, true, false)
      | some cb ↦
          if is_in t m.timers
          then (let (n, front) = add_timer (record m { timers = erase t m.timers }) t' in
              (n, t', true, front))
          else (m, t, false, false)
    ]
