-- ===== src/Secrets/Drain/Sweep.antt =====
-- What a sweep makes of the slots (`drain_sweep_gw` of src/mtproto/mtproto-proxy.c).
use mtbolt.Common.{
  ℕ, zero, suc, ◌+◌, ◌-◌, ◌≤◌, ◌<◌, ◌≡◌, ◌≢◌, refl, sym, ◌∙◌, ap, subst, arith, true, false, some,
  length, get_elem?, get_elem?-set_self, get_elem?-set_ne, ltb, ◌==◌, if◌then◌else◌, Bool-cases,
  Option-cases, inl, inr, ◌⊎◌,
}
use mtbolt.Secrets.Slot.{Slot, Table, is_draining}
use mtbolt.Secrets.Drain.Closed.{
  count_targets, close_all-count, is_expired, sweep_slot_pinned, sweep_slot-count,
}
use mtbolt.Secrets.Drain.{
  released, is_empty, release, World, add_forced, close_all, force_close, sweep_slot, sweep_from,
  sweep,
}

-- A slot before and after its round of a sweep, where `n` connections are its own.
pub data Swept (now timeout n : ℕ) (s s' : Slot) : Type 0 where
  freed : is_empty s ≡ true → s' ≡ released → Swept now timeout n s s'
  kept :
      is_empty s ≡ false
      → (is_draining s ≡ false) ⊎ (is_expired now timeout s ≡ false)
      → s' ≡ s
      → Swept now timeout n s s'
  forced :
      is_empty s ≡ false
      → is_draining s ≡ true
      → is_expired now timeout s ≡ true
      → s' ≡ add_forced n s
      → Swept now timeout n s s'

-- the round of a slot that is there
abbrev round : ℕ → ℕ → ℕ → World → Slot → World
round now timeout j w s =
    if is_draining s
    then (if s.counters.connections == 0
        then (release j w.0, w.1)
        else (if is_expired now timeout s then force_close j w else w))
    else w

release_self :
    (j : ℕ) (t : Table) (s : Slot)
    → get_elem? t.slots j ≡ some s
    → is_empty s ≡ true
    → get_elem? (release j t).slots j ≡ some released
unfolding release
release_self j t s at empty =
    rw (at, release) (rw empty (get_elem?-set_self t.slots j s released at))

-- the connections of a slot
abbrev pub own : ℕ → World → ℕ
own k w = count_targets (length w.0.pinned + k + 1) w.1

force_close_self :
    (j : ℕ) (w : World) (s : Slot)
    → get_elem? w.0.slots j ≡ some s
    → get_elem? (force_close j w).0.slots j ≡ some (add_forced (own j w) s)
unfolding force_close
force_close_self j w s at =
    let n = (close_all (length w.0.pinned + j + 1) w.1).1 in
    rw (at, force_close)
      (get_elem?-set_self w.0.slots j s (add_forced n s) at
        ∙ ap (λ m. some (add_forced m s)) (close_all-count (length w.0.pinned + j + 1) w.1))

round-Swept :
    (now timeout j : ℕ) (w : World) (s : Slot)
    → get_elem? w.0.slots j ≡ some s
    → (s' : Slot) × (get_elem? (round now timeout j w s).0.slots j ≡ some s')
      × Swept now timeout (own j w) s s'
unfolding is_empty
round-Swept now timeout j w s at = elim (Bool-cases (is_draining s)) [
  | inr idle ↦ rw idle (s, at, kept (ground (arith, idle)) (inl idle) refl)
  | inl draining ↦ elim (Bool-cases (s.counters.connections == 0)) [
    | inl none_left ↦
        let empty : is_empty s ≡ true = ground (arith, draining, none_left) in
        rw (draining, none_left) (released, release_self j w.0 s at empty, freed empty refl)
    | inr some_left ↦
        let used : is_empty s ≡ false = ground (arith, draining, some_left) in
        elim (Bool-cases (is_expired now timeout s)) [
          | inl late ↦
              rw (draining, some_left, late)
                (add_forced (own j w) s, force_close_self j w s at, forced used draining late refl)
          | inr early ↦ rw (draining, some_left, early) (s, at, kept used (inr early) refl)
        ]
  ]
]

sweep_slot-Swept :
    (now timeout j : ℕ) (w : World) (s : Slot)
    → get_elem? w.0.slots j ≡ some s
    → (s' : Slot) × (get_elem? (sweep_slot now timeout j w).0.slots j ≡ some s')
      × Swept now timeout (own j w) s s'
unfolding sweep_slot
sweep_slot-Swept now timeout j w s at = rw (at, sweep_slot) (round-Swept now timeout j w s at)

-- A round leaves the connections of every slot what they are.
own-sweep_slot : (now timeout j k : ℕ) (w : World) → own k (sweep_slot now timeout j w) ≡ own k w
own-sweep_slot now timeout j k w =
    ap (λ p. count_targets (length p + k + 1) (sweep_slot now timeout j w).1)
      (sweep_slot_pinned now timeout j w)
    ∙ sweep_slot-count now timeout j (length w.0.pinned + k + 1) w

release_other :
    (j k : ℕ) (t : Table) → j ≢ k → get_elem? (release j t).slots k ≡ get_elem? t.slots k
unfolding release
release_other j k t ne = elim (Option-cases (get_elem? t.slots j)) [
  | inl absent ↦ rw (absent, release) refl
  | inr (s, at) ↦
      rw (at, release)
        (elim (Bool-cases (is_empty s)) [
          | inl empty ↦ rw empty (get_elem?-set_ne t.slots j k released ne)
          | inr used ↦ rw used refl
        ])
]

force_close_other :
    (j k : ℕ) (w : World) → j ≢ k → get_elem? (force_close j w).0.slots k ≡ get_elem? w.0.slots k
unfolding force_close
force_close_other j k w ne = elim (Option-cases (get_elem? w.0.slots j)) [
  | inl absent ↦ rw (absent, force_close) refl
  | inr (s, at) ↦
      rw (at, force_close)
        (get_elem?-set_ne w.0.slots j k (add_forced (close_all (length w.0.pinned + j + 1) w.1).1 s)
          ne)
]

pub sweep_slot_other :
    (now timeout j k : ℕ) (w : World)
    → j ≢ k
    → get_elem? (sweep_slot now timeout j w).0.slots k ≡ get_elem? w.0.slots k
unfolding sweep_slot
sweep_slot_other now timeout j k w ne = elim (Option-cases (get_elem? w.0.slots j)) [
  | inl absent ↦ rw (absent, sweep_slot) refl
  | inr (s, at) ↦ rw (at, sweep_slot) (branches s)
]
  where
    branches : (s : Slot) → get_elem? (round now timeout j w s).0.slots k ≡ get_elem? w.0.slots k
    branches s = ground (arith, release_other j k w.0 ne, force_close_other j k w ne)

sweep_from_other :
    (now timeout j n k : ℕ) (w : World)
    → (k < j) ⊎ (j + n ≤ k)
    → get_elem? (sweep_from now timeout j n w).0.slots k ≡ get_elem? w.0.slots k
unfolding sweep_from
sweep_from_other now timeout j zero k w out = refl
sweep_from_other now timeout j (suc n) k w out =
    sweep_from_other now timeout (suc j) n k (sweep_slot now timeout j w) (ground (arith, out))
    ∙ sweep_slot_other now timeout j k w (λ e. ground (arith, out, e))

sweep_from-Swept :
    (now timeout j n k : ℕ) (w : World) (s : Slot)
    → j ≤ k
    → k < j + n
    → get_elem? w.0.slots k ≡ some s
    → (s' : Slot) × (get_elem? (sweep_from now timeout j n w).0.slots k ≡ some s')
      × Swept now timeout (own k w) s s'
unfolding sweep_from
sweep_from-Swept now timeout j zero k w s low high at = absurd (omega arith)
sweep_from-Swept now timeout j (suc n) k w s low high at = elim (Bool-cases (j == k)) [
  | inl here ↦
      let is : j ≡ k = ground (arith, here) in
      let mine = sweep_slot-Swept now timeout j w s (ap (get_elem? w.0.slots) is ∙ at) in
      (
        mine.0,
        sweep_from_other now timeout (suc j) n k (sweep_slot now timeout j w)
              (inl (omega (arith, is)))
            ∙ ap (get_elem? (sweep_slot now timeout j w).0.slots) (sym is)
            ∙ mine.1,
        subst (λ m. Swept now timeout (own m w) s mine.0) is mine.2,
      )
  | inr later ↦
      let ne : j ≢ k = λ e. ground (arith, later, e) in
      let next =
        sweep_from-Swept now timeout (suc j) n k (sweep_slot now timeout j w) s
          (ground (arith, low, later)) (omega (arith, high))
          (sweep_slot_other now timeout j k w ne ∙ at) in
      (
        next.0,
        next.1,
        subst (λ m. Swept now timeout m s next.0) (own-sweep_slot now timeout j k w) next.2,
      )
]

-- What a sweep makes of a slot.
pub slot-Swept :
    (now timeout k : ℕ) (w : World) (s : Slot)
    → get_elem? w.0.slots k ≡ some s
    → (s' : Slot) × (get_elem? (sweep now timeout w).0.slots k ≡ some s')
      × ((k < w.0.cnt - length w.0.pinned → Swept now timeout (own k w) s s')
          × (w.0.cnt - length w.0.pinned ≤ k → s' ≡ s))
unfolding sweep
slot-Swept now timeout k w s at =
    let n = w.0.cnt - length w.0.pinned in
    elim (Bool-cases (ltb k n)) [
      | inl below ↦
          let mine =
            sweep_from-Swept now timeout 0 n k w s (omega arith) (ground (arith, below)) at in
          (mine.0, mine.1, (λ h. mine.2, λ h. absurd (ground (arith, below, h))))
      | inr above ↦ (
        s,
        sweep_from_other now timeout 0 n k w (inr (ground (arith, above))) ∙ at,
        (λ h. absurd (ground (arith, above, h)), λ h. refl),
      )
    ]
