-- ===== src/Timers.antt =====
-- The heap of timers of src/net/net-timers.c. Timers are numbers; a heap has the array `et_heap` from
-- slot 1 on, and the fields `h_idx` and `wakeup_time` of the timers. Times are numbers of ticks, of
-- which a second has `per_second`. `none` is a failed assertion, or a write behind
-- the end of the array.
pub mod Hole
pub mod Move
pub mod Sift
pub mod Keep
pub mod Change
pub mod Run
mod Tests
use mtbolt.Common.{
  ℕ, zero, suc, ◌+◌, ◌-◌, ◌*◌, ◌/◌, Bool, true, false, ◌&&◌, Option, none, some, List, [], ◌∷◌, ltb,
  leb, ◌==◌, if◌then◌else◌,
}

pub record Heap : Type 0 where
  pub cell : ℕ → ℕ
  pub size : ℕ
  pub h_idx : ℕ → ℕ
  pub wakeup_time : ℕ → ℕ

abbrev pub max_event_timers : ℕ
max_event_timers = 524288

-- calloc (sizeof (void *), MAX_EVENT_TIMERS)
abbrev pub is_cell : ℕ → Bool
is_cell i = ltb i max_event_timers

abbrev pub put : (ℕ → ℕ) → ℕ → ℕ → ℕ → ℕ
put f i v j = if j == i then v else f j

-- et_heap[i] = et_heap[j]; et_heap[i]->h_idx = i
abbrev pub move : Heap → ℕ → ℕ → Heap
move h i j = record h { cell = put h.cell i (h.cell j); h_idx = put h.h_idx (h.cell j) i }

-- et_heap[i] = et; et->h_idx = i
abbrev pub put_at : Heap → ℕ → ℕ → Heap
put_at h i et = record h { cell = put h.cell i et; h_idx = put h.h_idx et i }

unfoldable pub sift_up : ℕ → Heap → ℕ → ℕ → Heap × ℕ
sift_up zero h et i = (h, i)
sift_up (suc n) h et i =
    let j = i / 2 in
    let next = sift_up n (move h i j) et j in
    if ltb 1 i
    then (if leb (h.wakeup_time (h.cell j)) (h.wakeup_time et) then (h, i) else next)
    else (h, i)

-- the child of slot i that wakes first
abbrev pub child : Heap → ℕ → ℕ
child h i =
    if ltb (2 * i) h.size
      && ltb (h.wakeup_time (h.cell (2 * i + 1))) (h.wakeup_time (h.cell (2 * i)))
    then 2 * i + 1
    else 2 * i

unfoldable pub sift_down : ℕ → Heap → ℕ → ℕ → Heap × ℕ
sift_down zero h et i = (h, i)
sift_down (suc n) h et i =
    let c = child h i in
    let next = sift_down n (move h i c) et c in
    if leb (2 * i) h.size
    then (if leb (h.wakeup_time et) (h.wakeup_time (h.cell c)) then (h, i) else next)
    else (h, i)

unfoldable pub basic_et_adjust : Heap → ℕ → ℕ → Heap × ℕ
unfolding sift_up sift_down
basic_et_adjust h et i =
    let up = sift_up i h et i in
    let down = sift_down h.size up.0 et up.1 in (put_at down.0 down.1 et, down.1)

-- i > 0 && i <= et_heap_size && et_heap[i] == et
abbrev pub stands_at : Heap → ℕ → ℕ → Bool
stands_at h et i = ltb 0 i && (leb i h.size && h.cell i == et)

-- The adjustment of a new timer writes to the last slot first.
unfoldable pub insert_event_timer : Heap → ℕ → Option (Heap × ℕ)
unfolding basic_et_adjust
insert_event_timer h et =
    let i = h.h_idx et in
    if i == 0
    then (if ltb h.size max_event_timers
        then (if is_cell (h.size + 1)
            then some (basic_et_adjust (record h { size = h.size + 1 }) et (h.size + 1))
            else none)
        else none)
    else (if stands_at h et i then some (basic_et_adjust h et i) else none)

abbrev pub taken_out : Heap → ℕ → Heap
taken_out h et = record h { size = h.size - 1; h_idx = put h.h_idx et 0 }

unfoldable pub remove_event_timer : Heap → ℕ → Option (Heap × ℕ)
unfolding basic_et_adjust
remove_event_timer h et =
    let i = h.h_idx et in
    if i == 0
    then some (h, 0)
    else (if stands_at h et i
        then (if ltb (h.size - 1) i
            then some (taken_out h et, 1)
            else some ((basic_et_adjust (taken_out h et) (h.cell h.size) i).0, 1))
        else none)

abbrev pub first_wakeup : Heap → ℕ
first_wakeup h = h.wakeup_time (h.cell 1)

-- how long to wait, in milliseconds; the conversion to an int, which holds 24 days, is left out
abbrev pub wait_for : ℕ → ℕ → Heap → Option ℕ
wait_for per_second now h =
    if h.size == 0
    then some 100_000
    else (if ltb now (first_wakeup h)
        then some ((first_wakeup h - now) * 1000 / per_second + 1)
        else none)

unfoldable pub timers_get_first : Heap → ℕ
timers_get_first h = if h.size == 0 then 0 else first_wakeup h

-- What thread_run_timers returns, with the heap it leaves and the timers it fired, the last first.
pub data RunResult : Type 0 where
  returned : ℕ → Heap → List ℕ → RunResult
  failed out_of_fuel : RunResult

-- `wakeup h et` is what the call et->wakeup (et) makes of the heap.
module _ (per_second now : ℕ) (wakeup : Heap → ℕ → Heap) where
  abbrev pub end_run : Heap → List ℕ → RunResult
  end_run h fired = elim (wait_for per_second now h) [
    | none ↦ failed
    | some ms ↦ returned ms h fired
  ]

  unfoldable pub fire_due : ℕ → Heap → List ℕ → RunResult
  fire_due zero h fired = out_of_fuel
  fire_due (suc n) h fired =
      let et = h.cell 1 in
      elim (ltb 0 h.size && leb (first_wakeup h) now) [
        | true ↦ elim (h.h_idx et == 1) [
          | true ↦ elim (remove_event_timer h et) [
            | none ↦ failed
            | some p ↦ fire_due n (wakeup p.0 et) (et ∷ fired)
          ]
          | false ↦ failed
        ]
        | false ↦ end_run h fired
      ]

  unfoldable pub thread_run_timers : ℕ → Heap → RunResult
  unfolding fire_due
  thread_run_timers fuel h = elim (wait_for per_second now h) [
    | some ms ↦ returned ms h []
    | none ↦ fire_due fuel h []
  ]
