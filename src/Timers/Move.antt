-- ===== src/Timers/Move.antt =====
-- How a hole moves through the heap of src/net/net-timers.c, a slot at a time.
use mtbolt.Common.{ℕ, ◌+◌, ◌*◌, ◌/◌, ◌≤◌, ◌≡◌, inl, inr, sym, ◌∙◌, subst, ap, arith, eq-cases}
use mtbolt.Timers.{Heap, move, child}
use mtbolt.Timers.Hole.{HasHole, put-same, put-other, move-links, move-backs, half-lt}

-- The slot above the hole moves down into it.
pub move_up-HasHole :
    (h : Heap) (et i : ℕ) → HasHole h et i → 2 ≤ i → HasHole (move h i (i / 2)) et (i / 2)
move_up-HasHole h et i w p =
    let j = i / 2 in
    let a = half-lt i p in
    let high : i / 2 ≤ h.size = omega (arith, w.high) in
    record {
      low = a.0;
      high = high;
      links = move-links h et i (i / 2) w a.0 high a.2;
      backs = move-backs h et i (i / 2) w a.0 high a.2;
      edges = λ k c d e f.
          let n : ¬ (k ≡ i) = λ q. f (ap (λ b. b / 2) q) in
          elim (eq-cases (k / 2) i) [
            | inl q ↦
                rw
                  (
                    put-other h.cell i (h.cell (i / 2)) k n,
                    put-same h.cell i (h.cell (i / 2)) (k / 2) q,
                  )
                  (w.bridge k p d q)
            | inr q ↦
                rw
                  (
                    put-other h.cell i (h.cell (i / 2)) k n,
                    put-other h.cell i (h.cell (i / 2)) (k / 2) q,
                  )
                  (w.edges k c d n q)
          ];
      bridge = λ k c d e.
          let m : ¬ (i / 2 / 2 ≡ i) = omega (arith, a, half-lt (i / 2) c) in
          let up = w.edges (i / 2) c high a.2 m in
          elim (eq-cases k i) [
            | inl q ↦
                rw
                  (
                    put-other h.cell i (h.cell (i / 2)) (i / 2 / 2) m,
                    put-same h.cell i (h.cell (i / 2)) k q,
                  )
                  up
            | inr n ↦
                let down : h.wakeup_time (h.cell (i / 2)) ≤ h.wakeup_time (h.cell k) =
                  subst (λ b. h.wakeup_time (h.cell b) ≤ h.wakeup_time (h.cell k)) e
                    (w.edges k (omega (arith, c, e)) d n (λ q. a.2 (sym e ∙ q))) in
                rw
                  (
                    put-other h.cell i (h.cell (i / 2)) (i / 2 / 2) m,
                    put-other h.cell i (h.cell (i / 2)) k n,
                  )
                  (omega (arith, up, down))
          ];
    }

-- The child that wakes first is a slot below i, and no slot below i wakes before it.
pub child_lem :
    (h : Heap) (i : ℕ)
    → 1 ≤ i
    → 2 * i ≤ h.size
    → (child h i ≤ h.size)
      × (child h i / 2 ≡ i)
      × ((k : ℕ)
          → k ≤ h.size
          → k / 2 ≡ i
          → h.wakeup_time (h.cell (child h i)) ≤ h.wakeup_time (h.cell k))
child_lem h i p q = (
  ground arith,
  ground arith,
  λ k a b. elim (eq-cases k (2 * i)) [
    | inl e ↦ rw e (ground arith)
    | inr n ↦ let e : k ≡ 2 * i + 1 = omega arith in rw e (ground arith)
  ],
)

-- The child c moves up into the hole.
pub move_down-HasHole :
    (h : Heap) (et i c : ℕ)
    → HasHole h et i
    → c ≤ h.size
    → c / 2 ≡ i
    → ((k : ℕ) → k ≤ h.size → k / 2 ≡ i → h.wakeup_time (h.cell c) ≤ h.wakeup_time (h.cell k))
    → HasHole (move h i c) et c
move_down-HasHole h et i c w high p least =
    let two : 2 ≤ c = omega (arith, p, w.low) in
    let n : ¬ (c ≡ i) = omega (arith, p, w.low) in
    let low : 1 ≤ c = omega (arith, two) in
    record {
      low = low;
      high = high;
      links = move-links h et i c w low high n;
      backs = move-backs h et i c w low high n;
      edges = λ k a b d e. elim (eq-cases k i) [
        | inl q ↦
            let m : ¬ (k / 2 ≡ i) = omega (arith, q, half-lt k a) in
            rw (put-other h.cell i (h.cell c) (k / 2) m, put-same h.cell i (h.cell c) k q)
              (subst (λ g. h.wakeup_time (h.cell (g / 2)) ≤ h.wakeup_time (h.cell c)) (sym q)
                (w.bridge c (omega (arith, q, a)) high p))
        | inr f ↦ elim (eq-cases (k / 2) i) [
          | inl q ↦
              rw (put-other h.cell i (h.cell c) k f, put-same h.cell i (h.cell c) (k / 2) q)
                (least k b q)
          | inr q ↦
              rw (put-other h.cell i (h.cell c) k f, put-other h.cell i (h.cell c) (k / 2) q)
                (w.edges k a b f q)
        ]
      ];
      bridge = λ k a b e.
          let m : ¬ (k ≡ i) = omega (arith, p, e, w.low) in
          rw (put-same h.cell i (h.cell c) (c / 2) p, put-other h.cell i (h.cell c) k m)
            (subst (λ g. h.wakeup_time (h.cell g) ≤ h.wakeup_time (h.cell k)) e
              (w.edges k (omega (arith, two, e)) b m (λ q. n (sym e ∙ q))));
    }
