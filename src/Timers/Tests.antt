-- ===== src/Timers/Tests.antt =====
-- Three timers, and a run that fires two of them.
use mtbolt.Common.{ℕ, ◌*◌, ◌≡◌, refl, arith, Option, none, some, List, [], ◌∷◌, leb, if◌then◌else◌}
use mtbolt.Timers.{
  Heap, insert_event_timer, remove_event_timer, thread_run_timers, RunResult, returned, failed,
  out_of_fuel,
}
use mtbolt.Timers.Keep.{IsHeap, timed}
use mtbolt.Timers.Change.{Removed, remove_event_timer-Removed}
use mtbolt.Timers.Run.{IsIdle, IsTame, thread_run_timers-IsIdle}

-- The timers 1, 2 and 3 in the slots of their numbers.
abbrev three : Heap
three = record {
  cell = λ k. k;
  size = 3;
  h_idx = λ t. if leb t 3 then t else 0;
  wakeup_time = λ t. t * 10;
}

three-IsHeap : IsHeap three
three-IsHeap = record {
  links = λ k a b. ground arith;
  backs = λ t a. ground arith;
  edges = λ k a b. omega arith;
}

abbrev slots : Option (Heap × ℕ) → List ℕ
slots none = []
slots (some (h, i)) = i ∷ h.cell 1 ∷ h.cell 2 ∷ h.cell 3 ∷ h.cell 4 ∷ []

-- A fourth timer that wakes first rises to the first slot.
risen : slots (insert_event_timer (timed three 7 5) 7) ≡ 1 ∷ 7 ∷ 1 ∷ 3 ∷ 2 ∷ []
unfolding insert_event_timer
risen = refl

-- The first timer, put off, sinks to the second slot.
sunk : slots (insert_event_timer (timed three 1 25) 1) ≡ 2 ∷ 2 ∷ 1 ∷ 3 ∷ 4 ∷ []
unfolding insert_event_timer
sunk = refl

removed : slots (remove_event_timer three 1) ≡ 1 ∷ 2 ∷ 3 ∷ 3 ∷ 4 ∷ []
unfolding remove_event_timer
removed = refl

-- A callback that changes nothing.
abbrev idle : Heap → ℕ → Heap
idle h et = h

abbrev summary : RunResult → List ℕ
summary (returned ms h fired) = ms ∷ h.size ∷ fired
summary failed = []
summary out_of_fuel = []

-- At 24 of 1000 ticks a second, the timers of 10 and 20 fire, and that of 30 has six milliseconds left.
two_fired : summary (thread_run_timers 1000 24 idle 4 three) ≡ 7 ∷ 1 ∷ 2 ∷ 1 ∷ []
unfolding thread_run_timers remove_event_timer
two_fired = refl

idle-IsTame : IsTame 1000 24 idle (λ h. h.size)
idle-IsTame h t h' f = (f.gone.heap, omega (arith, f.gone.sizes))

remove_event_timer-Removed_example : Removed three 1 (remove_event_timer three 1)
remove_event_timer-Removed_example = remove_event_timer-Removed three 1 three-IsHeap

thread_run_timers-IsIdle_example : IsIdle 1000 24 (thread_run_timers 1000 24 idle 4 three)
thread_run_timers-IsIdle_example =
    thread_run_timers-IsIdle 1000 24 idle (λ h. h.size) 4 three idle-IsTame three-IsHeap
      (omega arith)
