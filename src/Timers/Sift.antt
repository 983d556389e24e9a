-- ===== src/Timers/Sift.antt =====
-- Where the two loops of basic_et_adjust in src/net/net-timers.c stop.
use mtbolt.Common.{
  ℕ, zero, suc, ◌+◌, ◌*◌, ◌/◌, ◌≤◌, ◌<◌, inl, inr, arith, ltb, leb, Bool-cases, leb→le,
}
use mtbolt.Timers.{Heap, move, sift_up, sift_down, child}
use mtbolt.Timers.Hole.{
  HasHole, FitsAbove, FitsBelow, IsSame, IsSame-refl, IsSame-trans, put-same, move-IsSame, half-lt,
}
use mtbolt.Timers.Move.{move_up-HasHole, child_lem, move_down-HasHole}

-- Where the first loop stops: the hole fits et, as far as the slots above say.
pub sift_up-Found :
    (n : ℕ) (h : Heap) (et i : ℕ)
    → HasHole h et i
    → i ≤ n
    → HasHole (sift_up n h et i).0 et (sift_up n h et i).1
      × FitsAbove (sift_up n h et i).0 et (sift_up n h et i).1
      × IsSame h (sift_up n h et i).0 et
unfolding sift_up
sift_up-Found zero h et i w b = absurd (omega (arith, w.low, b))
sift_up-Found (suc n) h et i w b = elim (Bool-cases (ltb 1 i)) [
  | inr f ↦ rw f (w, (λ p. absurd (ground (arith, f, p))), IsSame-refl h et)
  | inl t ↦ elim (Bool-cases (leb (h.wakeup_time (h.cell (i / 2))) (h.wakeup_time et))) [
    | inl u ↦ rw (t, u) (w, (λ p. ground (arith, u)), IsSame-refl h et)
    | inr f ↦
        let p : 2 ≤ i = ground (arith, t) in
        let a = half-lt i p in
        let r =
          sift_up-Found n (move h i (i / 2)) et (i / 2) (move_up-HasHole h et i w p)
            (omega (arith, a, b)) in
        rw (t, f)
          (
            r.0,
            r.1,
            IsSame-trans h (move h i (i / 2)) (sift_up n (move h i (i / 2)) et (i / 2)).0 et
                (move-IsSame h et i (i / 2) w a.0 (omega (arith, a, w.high)) a.2) r.2,
          )
  ]
]

-- Where the second loop stops: it fits on both sides.
pub sift_down-Found :
    (n : ℕ) (h : Heap) (et i : ℕ)
    → HasHole h et i
    → FitsAbove h et i
    → h.size < n + i
    → HasHole (sift_down n h et i).0 et (sift_down n h et i).1
      × FitsAbove (sift_down n h et i).0 et (sift_down n h et i).1
      × FitsBelow (sift_down n h et i).0 et (sift_down n h et i).1
      × IsSame h (sift_down n h et i).0 et
unfolding sift_down
sift_down-Found zero h et i w fit b = absurd (omega (arith, w.high, b))
sift_down-Found (suc n) h et i w fit b = elim (Bool-cases (leb (2 * i) h.size)) [
  | inr f ↦ rw f (w, fit, (λ k c p. absurd (ground (arith, f))), IsSame-refl h et)
  | inl t ↦
      let two : 2 * i ≤ h.size = ground (arith, t) in
      let l = child_lem h i w.low two in
      elim (Bool-cases (leb (h.wakeup_time et) (h.wakeup_time (h.cell (child h i))))) [
        | inl u ↦
            rw (t, u)
              (
                w,
                fit,
                (λ k d p. omega (
                  arith,
                  l.2 k d p,
                  leb→le (h.wakeup_time et) (h.wakeup_time (h.cell (child h i))) u,
                )),
                IsSame-refl h et,
              )
        | inr f ↦
            let least : h.wakeup_time (h.cell (child h i)) ≤ h.wakeup_time et = ground (arith, f) in
            let r =
              sift_down-Found n (move h i (child h i)) et (child h i)
                (move_down-HasHole h et i (child h i) w l.0 l.1 l.2)
                (λ _. rw (put-same h.cell i (h.cell (child h i)) (child h i / 2) l.1) least)
                (omega (arith, b, l.1, w.low)) in
            rw (t, f)
              (
                r.0,
                r.1,
                r.2,
                IsSame-trans h (move h i (child h i))
                    (sift_down n (move h i (child h i)) et (child h i)).0 et
                    (move-IsSame h et i (child h i) w (omega (arith, l.1, w.low)) l.0
                      (omega (arith, l.1, w.low)))
                    r.3,
              )
      ]
]
