-- ===== src/Timers/Run.antt =====
-- thread_run_timers of src/net/net-timers.c: which timers it fires, and that it ends.
use mtbolt.Common.{
  ℕ, zero, suc, ◌+◌, ◌-◌, ◌*◌, ◌/◌, ◌≤◌, ◌<◌, ◌≡◌, inl, inr, refl, sym, subst, ap, arith, true,
  false, List, [], ◌∷◌, ltb, leb, lt→ltb, ◌==◌, ◌&&◌, Bool-cases, eq-cases, Option-cases,
}
use mtbolt.Timers.{
  Heap, remove_event_timer, first_wakeup, wait_for, timers_get_first, RunResult, returned, failed,
  out_of_fuel, end_run, fire_due, thread_run_timers,
}
use mtbolt.Timers.Hole.{half-lt}
use mtbolt.Timers.Keep.{IsHeap}
use mtbolt.Timers.Change.{Gone, Removed, remove_event_timer-Removed}

-- No slot wakes before the first.
slot-first :
    (h : Heap)
    → IsHeap h
    → (n k : ℕ) → k ≤ n
    → 1 ≤ k
    → k ≤ h.size
    → first_wakeup h ≤ h.wakeup_time (h.cell k)
slot-first h w zero k a b c = absurd (omega (arith, a, b))
slot-first h w (suc n) k a b c = elim (eq-cases k 1) [
  | inl e ↦ rw e (omega arith)
  | inr m ↦
      let two : 2 ≤ k = omega (arith, b, m) in
      let l = half-lt k two in
      omega (
        arith,
        w.edges k two c,
        slot-first h w n (k / 2) (omega (arith, a, l)) l.0 (omega (arith, l, c)),
      )
]

pub timer-first : (h : Heap) → IsHeap h → (t : ℕ) → 0 < h.h_idx t → first_wakeup h ≤ h.wakeup_time t
timer-first h w t p =
    let l = w.backs t p in
    subst (λ u. first_wakeup h ≤ h.wakeup_time u) l.1
      (slot-first h w (h.h_idx t) (h.h_idx t) (omega arith) p l.0)

module _ (per_second now : ℕ) where
  -- No timer is due, and the wait is that for the first one, or the longest if there is none.
  abbrev pub IsIdle : RunResult → Type 0
  IsIdle (returned ms h fired) =
      IsHeap h
      × ((t : ℕ) → 0 < h.h_idx t → (now < h.wakeup_time t) × (timers_get_first h ≤ h.wakeup_time t))
      × (h.size ≡ 0 → ms ≡ 100_000)
      × (0 < h.size → ms ≡ (timers_get_first h - now) * 1000 / per_second + 1)
  IsIdle failed = ⊥
  IsIdle out_of_fuel = ⊥

  -- The timer t of a heap is one that wakes first, and it is due; without it the heap is h'.
  pub record Fires (h : Heap) (t : ℕ) (h' : Heap) : Type 0 where
    pub heap : IsHeap h
    pub first : (u : ℕ) → 0 < h.h_idx u → h.wakeup_time t ≤ h.wakeup_time u
    pub due : h.wakeup_time t ≤ now
    pub gone : Gone h t h' 1

  get_first-pos : (h : Heap) → 0 < h.size → timers_get_first h ≡ first_wakeup h
  unfolding timers_get_first
  get_first-pos h p = let f : (h.size == 0) ≡ false = ground (arith, p) in rw f refl

  end_run-IsIdle :
      (wakeup : Heap → ℕ → Heap) (h : Heap) (fired : List ℕ)
      → IsHeap h
      → (0 < h.size → now < first_wakeup h)
      → IsIdle (end_run per_second now wakeup h fired)
  end_run-IsIdle wakeup h fired w late = elim (eq-cases h.size 0) [
    | inl z ↦
        rw (z, end_run)
          (
            w,
            (λ t p. absurd (omega (arith, (w.backs t p).0, p, z))),
            (λ _. refl),
            λ p. absurd (omega (arith, p, z)),
          )
    | inr n ↦
        let p : 0 < h.size = omega (arith, n) in
        let f : (h.size == 0) ≡ false = ground (arith, n) in
        let g = get_first-pos h p in
        rw (f, lt→ltb now (first_wakeup h) (late p), end_run)
          (
            w,
            (λ t q. let m = timer-first h w t q in (omega (arith, m, late p), omega (arith, g, m))),
            (λ z. absurd (n z)),
            λ _. ap (λ v. (v - now) * 1000 / per_second + 1) (sym g),
          )
  ]

  module _ (wakeup : Heap → ℕ → Heap) (rank : Heap → ℕ) where
    -- Every call of a due timer leaves a heap, and comes nearer to an end by a rank of heaps.
    abbrev pub IsTame : Type 0
    IsTame =
        (h : Heap) (t : ℕ) (h' : Heap)
        → Fires h t h'
        → IsHeap (wakeup h' t) × (rank (wakeup h' t) < rank h)

    fire_due-IsIdle :
        (n : ℕ) (h : Heap) (fired : List ℕ)
        → IsTame
        → IsHeap h
        → rank h < n
        → IsIdle (fire_due per_second now wakeup n h fired)
    unfolding fire_due
    fire_due-IsIdle zero h fired tame w b = absurd (omega (arith, b))
    fire_due-IsIdle (suc n) h fired tame w b =
        elim (Bool-cases (ltb 0 h.size && leb (first_wakeup h) now)) [
          | inl t ↦
              let p : 0 < h.size = ground (arith, t) in
              let due : first_wakeup h ≤ now = ground (arith, t) in
              let own = w.links 1 (omega arith) (omega (arith, p)) in
              let r = remove_event_timer-Removed h (h.cell 1) w in
              let at_1 : (h.h_idx (h.cell 1) == 1) ≡ true = ground (arith, own) in
              elim (Option-cases (remove_event_timer h (h.cell 1))) [
                | inl e ↦ absurd (subst (Removed h (h.cell 1)) e r)
                | inr (q, e) ↦
                    let g = subst (Removed h (h.cell 1)) e r in
                    let fires : Fires h (h.cell 1) q.0 = record {
                      heap = w;
                      first = λ u a. timer-first h w u a;
                      due = due;
                      gone = subst (Gone h (h.cell 1) q.0) (g.told.0 (omega (arith, own))) g;
                    } in
                    let next = tame h (h.cell 1) q.0 fires in
                    rw (t, at_1, e, fire_due)
                      (fire_due-IsIdle n (wakeup q.0 (h.cell 1)) (h.cell 1 ∷ fired) tame next.0
                        (omega (arith, next.1, b)))
              ]
          | inr f ↦ rw (f, fire_due) (end_run-IsIdle wakeup h fired w (λ p. ground (arith, f, p)))
        ]

    -- If a callback leaves a heap and a lower rank whenever it is called for a due timer that wakes first
    -- and was removed, then with fuel above the rank thread_run_timers ends with its assertions true, with
    -- no due timer in the heap and each wakeup not before timers_get_first, and returns 100000 for an empty
    -- heap and else the milliseconds until that first time, plus one.
    pub thread_run_timers-IsIdle :
        (fuel : ℕ) (h : Heap)
        → IsTame
        → IsHeap h
        → rank h < fuel
        → IsIdle (thread_run_timers per_second now wakeup fuel h)
    unfolding thread_run_timers
    thread_run_timers-IsIdle fuel h tame w b = elim (Option-cases (wait_for per_second now h)) [
      | inl e ↦ rw (e, thread_run_timers) (fire_due-IsIdle fuel h [] tame w b)
      | inr (ms, e) ↦
          let done : end_run per_second now wakeup h [] ≡ returned ms h [] = rw (e, end_run) refl in
          rw (e, thread_run_timers)
            (subst IsIdle done (end_run-IsIdle wakeup h [] w (λ p. ground (arith, e, p))))
    ]
