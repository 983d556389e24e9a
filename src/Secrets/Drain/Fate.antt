-- ===== src/Secrets/Drain/Fate.antt =====
-- What a sweep makes of the slots and of the connections (`drain_sweep_gw` of src/mtproto/mtproto-proxy.c).
use mtbolt.Common.{
  ℕ, zero, suc, ◌+◌, ◌-◌, ◌≤◌, ◌<◌, ◌≡◌, ◌⊎◌, refl, sym, ◌∙◌, ap, subst, arith, true, Option, none,
  some, length, get_elem?, Bool-cases, eq-cases, inl, inr,
}
use mtbolt.Secrets.Slot.{Slot}
use mtbolt.Secrets.Drain.{Conn, is_target, World, sweep_slot, sweep_from, sweep}
use mtbolt.Secrets.Drain.Closed.{
  close_all-none, close_all-some, is_late, sweep_slot_pinned, late-conns, idle-conns, round_cases,
}
use mtbolt.Secrets.Drain.Sweep.{Swept, own, sweep_slot_other, slot-Swept}

module _ (now timeout : ℕ) where
  -- The connection is one of slot k, which is there and drains for too long.
  pub record IsDoomed (k : ℕ) (w : World) (c : Conn) : Type 0 where
    pub slot : Slot
    pub there : get_elem? w.0.slots k ≡ some slot
    pub late : is_late now timeout slot ≡ true
    pub target : is_target (length w.0.pinned + k + 1) c ≡ true

  -- A connection before and after the rounds of the `n` slots from j on: it is failed if it belongs to one
  -- of them that drains for too long, and left as it is otherwise.
  abbrev pub Fate : ℕ → ℕ → World → Option Conn → Option Conn → Type 0
  Fate j n w none o = o ≡ none
  Fate j n w (some c) o =
      ((o ≡ some (record c { failed = true })) × ((k : ℕ) × (j ≤ k) × (k < j + n) × IsDoomed k w c))
      ⊎ ((o ≡ some c) × ((k : ℕ) → j ≤ k → k < j + n → ¬ IsDoomed k w c))

  IsDoomed-later :
      (j k : ℕ) (w : World) (c : Conn)
      → j < k
      → IsDoomed k w c
      → IsDoomed k (sweep_slot now timeout j w) c
  IsDoomed-later j k w c le d = record {
    slot = d.slot;
    there = sweep_slot_other now timeout j k w (λ e. omega (arith, e, le)) ∙ d.there;
    late = d.late;
    target =
        ap (λ p. is_target (length p + k + 1) c) (sweep_slot_pinned now timeout j w) ∙ d.target;
  }

  IsDoomed-before :
      (j k : ℕ) (w : World) (c : Conn)
      → j < k
      → IsDoomed k (sweep_slot now timeout j w) c
      → IsDoomed k w c
  IsDoomed-before j k w c le d = record {
    slot = d.slot;
    there = sym (sweep_slot_other now timeout j k w (λ e. omega (arith, e, le))) ∙ d.there;
    late = d.late;
    target =
        sym (ap (λ p. is_target (length p + k + 1) c) (sweep_slot_pinned now timeout j w))
        ∙ d.target;
  }

  -- The round of a slot that is not the connection's.
  passed :
      (j n : ℕ) (w : World) (c : Conn) (o : Option Conn)
      → ¬ IsDoomed j w c
      → Fate (suc j) n (sweep_slot now timeout j w) (some c) o
      → Fate j (suc n) w (some c) o
  passed j n w c o other (inl (e, (k, a, b, d))) =
      inl (e, (k, omega (arith, a), omega (arith, b), IsDoomed-before j k w c (omega (arith, a)) d))
  passed j n w c o other (inr (e, safe)) = inr (
    e,
    λ k a b d. elim (eq-cases j k) [
      | inl is ↦ other (subst (λ m. IsDoomed m w c) (sym is) d)
      | inr ne ↦
          let le : j < k = omega (arith, a, ne) in
          safe k (omega (arith, le)) (omega (arith, b)) (IsDoomed-later j k w c le d)
    ],
  )

  -- The round of its slot.
  hit :
      (j n : ℕ) (w : World) (c : Conn) (o : Option Conn)
      → IsDoomed j w c
      → Fate (suc j) n (sweep_slot now timeout j w) (some (record c { failed = true })) o
      → Fate j (suc n) w (some c) o
  hit j n w c o d (inl (e, _)) = inl (e, (j, omega arith, omega arith, d))
  hit j n w c o d (inr (e, _)) = inl (e, (j, omega arith, omega arith, d))

  -- What one round makes of a connection.
  round_fate :
      (j i : ℕ) (w : World) (c : Conn)
      → get_elem? w.1 i ≡ some (some c)
      → ((get_elem? (sweep_slot now timeout j w).1 i ≡ some (some (record c { failed = true })))
          × IsDoomed j w c)
        ⊎ ((get_elem? (sweep_slot now timeout j w).1 i ≡ some (some c)) × (¬ IsDoomed j w c))
  round_fate j i w c at = elim (round_cases now timeout j w) [
    | inr idle ↦ inr (
      ap (λ cs. get_elem? cs i) (idle-conns now timeout j w idle) ∙ at,
      λ d. absurd (ground (arith, idle d.slot d.there, d.late)),
    )
    | inl (s, there, late) ↦
        let target = length w.0.pinned + j + 1 in
        let after =
          ap (λ cs. get_elem? cs i) (late-conns now timeout j w s there late)
          ∙ close_all-some target i w.1 c at in
        elim (Bool-cases (is_target target c)) [
          | inl t ↦ inl (rw t at after, record { slot = s; there = there; late = late; target = t })
          | inr f ↦ inr (rw f at after, λ d. absurd (ground (arith, f, d.target)))
        ]
  ]

  round-none :
      (j i : ℕ) (w : World)
      → get_elem? w.1 i ≡ some none
      → get_elem? (sweep_slot now timeout j w).1 i ≡ some none
  round-none j i w at = elim (round_cases now timeout j w) [
    | inr idle ↦ ap (λ cs. get_elem? cs i) (idle-conns now timeout j w idle) ∙ at
    | inl (s, there, late) ↦
        ap (λ cs. get_elem? cs i) (late-conns now timeout j w s there late)
        ∙ close_all-none (length w.0.pinned + j + 1) i w.1 at
  ]

  sweep_from-Fate :
      (j n i : ℕ) (w : World) (o : Option Conn)
      → get_elem? w.1 i ≡ some o
      → (o' : Option Conn) × (get_elem? (sweep_from now timeout j n w).1 i ≡ some o')
        × Fate j n w o o'
  unfolding sweep_from
  sweep_from-Fate j zero i w none at = (none, at, refl)
  sweep_from-Fate j zero i w (some c) at =
      (some c, at, inr (refl, λ k a b d. absurd (omega (arith, a, b))))
  sweep_from-Fate j (suc n) i w none at =
      sweep_from-Fate (suc j) n i (sweep_slot now timeout j w) none (round-none j i w at)
  sweep_from-Fate j (suc n) i w (some c) at = elim (round_fate j i w c at) [
    | inl (after, d) ↦
        let rest =
          sweep_from-Fate (suc j) n i (sweep_slot now timeout j w)
            (some (record c { failed = true })) after in
        (rest.0, rest.1, hit j n w c rest.0 d rest.2)
    | inr (after, d) ↦
        let rest = sweep_from-Fate (suc j) n i (sweep_slot now timeout j w) (some c) after in
        (rest.0, rest.1, passed j n w c rest.0 d rest.2)
  ]

  -- A sweep frees every draining slot below `cnt` that has no connection, adds the number of the open
  -- connections of a slot to its forced closes if it has some and drains for at least the timeout, if
  -- there is one, and leaves every other slot as it is; it fails the connections of the slots below `cnt`
  -- that drain for so long, and leaves every other connection as it is.
  pub sweep-Swept :
      (k i : ℕ) (w : World) (s : Slot) (o : Option Conn)
      → get_elem? w.0.slots k ≡ some s
      → get_elem? w.1 i ≡ some o
      → ((s' : Slot) × (get_elem? (sweep now timeout w).0.slots k ≡ some s')
          × ((k < w.0.cnt - length w.0.pinned → Swept now timeout (own k w) s s')
              × (w.0.cnt - length w.0.pinned ≤ k → s' ≡ s)))
        × ((o' : Option Conn) × (get_elem? (sweep now timeout w).1 i ≡ some o')
            × Fate 0 (w.0.cnt - length w.0.pinned) w o o')
  unfolding sweep
  sweep-Swept k i w s o at there =
      (slot-Swept now timeout k w s at, sweep_from-Fate 0 (w.0.cnt - length w.0.pinned) i w o there)
