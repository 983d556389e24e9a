-- ===== src/Timers/Keep.antt =====
-- What insert_event_timer and remove_event_timer of src/net/net-timers.c keep.
use mtbolt.Common.{ℕ, ◌+◌, ◌/◌, ◌≤◌, ◌<◌, ◌≡◌, inl, inr, refl, sym, ◌∙◌, subst, ap, arith, eq-cases}
use mtbolt.Timers.{Heap, put_at, put, sift_up, sift_down, basic_et_adjust}
use mtbolt.Timers.Sift.{sift_up-Found, sift_down-Found}
use mtbolt.Timers.Hole.{
  HasHole, FitsAbove, FitsBelow, IsSame, IsSame-trans, put-same, put-other, half-lt,
}

-- The slots hold the timers whose h_idx is not 0, each the one that says so, and none wakes before the
-- one above it.
pub record IsHeap (h : Heap) : Type 0 where
  pub links : (k : ℕ) → 1 ≤ k → k ≤ h.size → h.h_idx (h.cell k) ≡ k
  pub backs : (t : ℕ) → 0 < h.h_idx t → (h.h_idx t ≤ h.size) × (h.cell (h.h_idx t) ≡ t)
  pub edges :
      (k : ℕ) → 2 ≤ k → k ≤ h.size → h.wakeup_time (h.cell (k / 2)) ≤ h.wakeup_time (h.cell k)

-- A timer that fits into the hole closes it.
put_at-IsHeap :
    (h : Heap) (et i : ℕ)
    → HasHole h et i
    → FitsAbove h et i
    → FitsBelow h et i
    → IsHeap (put_at h i et)
put_at-IsHeap h et i w above below = record {
  links = λ k a b. elim (eq-cases k i) [
    | inl p ↦ rw (put-same h.cell i et k p, put-same h.h_idx et i et refl) (sym p)
    | inr n ↦
        let l = w.links k a b n in
        rw (put-other h.cell i et k n, put-other h.h_idx et i (h.cell k) l.1) l.0
  ];
  backs = λ t a. elim (eq-cases t et) [
    | inl p ↦ rw (put-same h.h_idx et i t p, put-same h.cell i et i refl) (w.high, sym p)
    | inr n ↦
        let o : put h.h_idx et i t ≡ h.h_idx t = put-other h.h_idx et i t n in
        let l = w.backs t n (omega (arith, o, a)) in
        rw (o, put-other h.cell i et (h.h_idx t) l.2) (l.0, l.1)
  ];
  edges = λ k a b. elim (eq-cases k i) [
    | inl p ↦
        let m : ¬ (k / 2 ≡ i) = omega (arith, p, half-lt k a) in
        rw (put-other h.cell i et (k / 2) m, put-same h.cell i et k p)
          (subst (λ g. h.wakeup_time (h.cell (g / 2)) ≤ h.wakeup_time et) (sym p)
            (above (omega (arith, p, a))))
    | inr n ↦ elim (eq-cases (k / 2) i) [
      | inl p ↦ rw (put-same h.cell i et (k / 2) p, put-other h.cell i et k n) (below k b p)
      | inr m ↦ rw (put-other h.cell i et (k / 2) m, put-other h.cell i et k n) (w.edges k a b n m)
    ]
  ];
}

-- A heap with et in it, and the timers that were there before.
pub record Put (h : Heap) (et : ℕ) (h' : Heap) : Type 0 where
  pub heap : IsHeap h'
  pub kept : IsSame h h' et
  pub there : 0 < h'.h_idx et

put_at-IsSame : (h : Heap) (et i : ℕ) → IsSame h (put_at h i et) et
put_at-IsSame h et i = record {
  sizes = refl;
  times = refl;
  members = λ t n.
      let o = put-other h.h_idx et i t n in ((λ p. omega (arith, o, p)), λ p. omega (arith, o, p));
}

pub basic_et_adjust-Put :
    (h : Heap) (et i : ℕ)
    → HasHole h et i
    → Put h et (basic_et_adjust h et i).0
      × ((basic_et_adjust h et i).0.h_idx et ≡ (basic_et_adjust h et i).1)
unfolding basic_et_adjust
basic_et_adjust-Put h et i w =
    let up = sift_up i h et i in
    let down = sift_down h.size up.0 et up.1 in
    let u = sift_up-Found i h et i w (omega arith) in
    let d = sift_down-Found h.size up.0 et up.1 u.0 u.1 (omega (arith, u.2.sizes, u.0.low)) in
    let own = put-same down.0.h_idx et down.1 et refl in
    (
      record {
        heap = put_at-IsHeap down.0 et down.1 d.0 d.1 d.2;
        kept = IsSame-trans h up.0 (put_at down.0 down.1 et) et u.2 (
            IsSame-trans up.0 down.0 (put_at down.0 down.1 et) et d.3
              (put_at-IsSame down.0 et down.1));
        there = omega (arith, own, d.0.low);
      },
      own,
    )

-- et->wakeup_time = v
abbrev pub timed : Heap → ℕ → ℕ → Heap
timed h et v = record h { wakeup_time = put h.wakeup_time et v }

-- A timer in the heap whose time was changed makes a hole of its slot.
pub timed-HasHole :
    (h : Heap) (et v : ℕ) → IsHeap h → 0 < h.h_idx et → HasHole (timed h et v) et (h.h_idx et)
timed-HasHole h et v w p =
    let own = w.backs et p in
    let differ : (k : ℕ) → 1 ≤ k → k ≤ h.size → ¬ (k ≡ h.h_idx et) → ¬ (h.cell k ≡ et) =
      λ k a b n q. n (sym (w.links k a b) ∙ ap h.h_idx q) in
    let untouched : (k : ℕ)
        → 1 ≤ k
        → k ≤ h.size
        → ¬ (k ≡ h.h_idx et)
        → put h.wakeup_time et v (h.cell k) ≡ h.wakeup_time (h.cell k) =
      λ k a b n. put-other h.wakeup_time et v (h.cell k) (differ k a b n) in
    record {
      low = omega (arith, p);
      high = own.0;
      links = λ k a b n. (w.links k a b, differ k a b n);
      backs = λ t n a. let l = w.backs t a in (l.0, l.1, λ q. n (sym l.1 ∙ ap h.cell q ∙ own.1));
      edges = λ k a b n m.
          rw
            (
              untouched k (omega (arith, a)) b n,
              untouched (k / 2) (half-lt k a).0 (omega (arith, half-lt k a, b)) m,
            )
            (w.edges k a b);
      bridge = λ k a b e.
          let i = h.h_idx et in
          let up = half-lt i a in
          let lower : 2 ≤ k = omega (arith, e, a) in
          rw
            (
              untouched k (omega (arith, lower)) b (omega (arith, e, a)),
              untouched (i / 2) up.0 (omega (arith, up, own.0)) up.2,
            )
            (omega (
              arith,
              w.edges i a own.0,
              subst (λ g. h.wakeup_time (h.cell g) ≤ h.wakeup_time (h.cell k)) e
                  (w.edges k lower b),
            ));
    }

-- For a new timer there is a hole behind the last slot.
abbrev pub grown : Heap → Heap
grown h = record h { size = h.size + 1 }

pub grown-HasHole :
    (h : Heap) (et v : ℕ)
    → IsHeap h
    → h.h_idx et ≡ 0
    → HasHole (grown (timed h et v)) et (h.size + 1)
grown-HasHole h et v w z =
    let differ : (k : ℕ) → 1 ≤ k → k ≤ h.size → ¬ (h.cell k ≡ et) =
      λ k a b q. omega (arith, ap h.h_idx q, w.links k a b, z, a) in
    let untouched : (k : ℕ)
        → 1 ≤ k
        → k ≤ h.size
        → put h.wakeup_time et v (h.cell k) ≡ h.wakeup_time (h.cell k) =
      λ k a b. put-other h.wakeup_time et v (h.cell k) (differ k a b) in
    record {
      low = omega arith;
      high = omega arith;
      links = λ k a b n. let c : k ≤ h.size = omega (arith, b, n) in (w.links k a c, differ k a c);
      backs = λ t n a. let l = w.backs t a in (omega (arith, l.0), l.1, omega (arith, l.0));
      edges = λ k a b n m.
          let c : k ≤ h.size = omega (arith, b, n) in
          rw
            (
              untouched k (omega (arith, a)) c,
              untouched (k / 2) (half-lt k a).0 (omega (arith, half-lt k a, c)),
            )
            (w.edges k a c);
      bridge = λ k a b e. absurd (omega (arith, b, e));
    }
