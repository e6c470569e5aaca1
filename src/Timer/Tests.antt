-- ===== src/Timer/Tests.antt =====
-- A manager with three timers: fiber/timer.cpp.
use rpc_storage_cpp.Common.{ℕ, ◌≡◌, refl, Bool, true, false, some, [], ◌∷◌, arith}
use rpc_storage_cpp.Timer.Firing.{list_expired_cb-due, SortedFrom}
use rpc_storage_cpp.Timer.{list_expired_cb, detect_clock_rolllover, TimerManager, Timer}

abbrev at_time : (address next : ℕ) → Bool → Timer
at_time address next recurring = record {
  address = address;
  recurring = recurring;
  ms = 10;
  next = next;
  callback = some address;
}

abbrev three : TimerManager
three = record {
  timers = at_time 1 100 true ∷ at_time 2 200 false ∷ at_time 3 300 false ∷ [];
  tickled = false;
  previouse_time = 50;
}

steady : (detect_clock_rolllover three 200).1 ≡ false
unfolding detect_clock_rolllover
steady = refl

sorted : SortedFrom 0 three.timers
sorted = (omega arith, (omega arith, (omega arith, tt)))

list_expired_cb-due_example : (list_expired_cb three 200).1 ≡ some 1 ∷ some 2 ∷ []
list_expired_cb-due_example = list_expired_cb-due three 200 sorted steady
