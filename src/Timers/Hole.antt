-- ===== src/Timers/Hole.antt =====
-- The two loops of basic_et_adjust in src/net/net-timers.c: they move a hole through the heap.
use mtbolt.Common.{ℕ, ◌/◌, ◌≤◌, ◌<◌, ◌≡◌, inl, inr, refl, sym, ◌∙◌, ap, arith, eq-cases}
use mtbolt.Timers.{Heap, move, put}

-- Slot i is free, and the timer et stands in no other; the others form a heap.
pub record HasHole (h : Heap) (et i : ℕ) : Type 0 where
  pub low : 1 ≤ i
  pub high : i ≤ h.size
  pub links :
      (k : ℕ) → 1 ≤ k → k ≤ h.size → ¬ (k ≡ i) → (h.h_idx (h.cell k) ≡ k) × ¬ (h.cell k ≡ et)
  pub backs :
      (t : ℕ)
      → ¬ (t ≡ et)
      → 0 < h.h_idx t
      → (h.h_idx t ≤ h.size) × (h.cell (h.h_idx t) ≡ t) × ¬ (h.h_idx t ≡ i)
  pub edges :
      (k : ℕ)
      → 2 ≤ k
      → k ≤ h.size
      → ¬ (k ≡ i)
      → ¬ (k / 2 ≡ i)
      → h.wakeup_time (h.cell (k / 2)) ≤ h.wakeup_time (h.cell k)
  pub bridge :
      (k : ℕ)
      → 2 ≤ i
      → k ≤ h.size
      → k / 2 ≡ i
      → h.wakeup_time (h.cell (i / 2)) ≤ h.wakeup_time (h.cell k)

-- The timer may stand in slot i, as far as the slots above it say; and below it.
abbrev pub FitsAbove : Heap → ℕ → ℕ → Type 0
FitsAbove h et i = 2 ≤ i → h.wakeup_time (h.cell (i / 2)) ≤ h.wakeup_time et

abbrev pub FitsBelow : Heap → ℕ → ℕ → Type 0
FitsBelow h et i = (k : ℕ) → k ≤ h.size → k / 2 ≡ i → h.wakeup_time et ≤ h.wakeup_time (h.cell k)

-- The same timers are in both heaps, but for et.
pub record IsSame (h h' : Heap) (et : ℕ) : Type 0 where
  pub sizes : h'.size ≡ h.size
  pub times : h'.wakeup_time ≡ h.wakeup_time
  pub members :
      (t : ℕ) → ¬ (t ≡ et) → (0 < h.h_idx t → 0 < h'.h_idx t) × (0 < h'.h_idx t → 0 < h.h_idx t)

pub IsSame-refl : (h : Heap) (et : ℕ) → IsSame h h et
IsSame-refl h et = record { sizes = refl; times = refl; members = λ t _. ((λ p. p), λ p. p) }

pub IsSame-trans : (h h' h2 : Heap) (et : ℕ) → IsSame h h' et → IsSame h' h2 et → IsSame h h2 et
IsSame-trans h h' h2 et a b = record {
  sizes = b.sizes ∙ a.sizes;
  times = b.times ∙ a.times;
  members = λ t n. (
    (λ p. (b.members t n).0 ((a.members t n).0 p)),
    λ p. (a.members t n).1 ((b.members t n).1 p),
  );
}

-- Two slots other than the hole hold different timers.
pub slots_differ :
    (h : Heap) (et i : ℕ)
    → HasHole h et i
    → (j k : ℕ) → 1 ≤ j
    → j ≤ h.size
    → ¬ (j ≡ i)
    → 1 ≤ k
    → k ≤ h.size
    → ¬ (k ≡ i)
    → h.cell j ≡ h.cell k
    → j ≡ k
slots_differ h et i w j k a b c d e f p =
    sym (w.links j a b c).0 ∙ ap h.h_idx p ∙ (w.links k d e f).0

pub put-same : (f : ℕ → ℕ) (i v j : ℕ) → j ≡ i → put f i v j ≡ v
put-same f i v j e = ground (arith, e)

pub put-other : (f : ℕ → ℕ) (i v j : ℕ) → ¬ (j ≡ i) → put f i v j ≡ f j
put-other f i v j n = ground (arith, n)

-- What a move does to the links, wherever the new hole is.
pub move-links :
    (h : Heap) (et i j : ℕ)
    → HasHole h et i
    → 1 ≤ j
    → j ≤ h.size
    → ¬ (j ≡ i)
    → (k : ℕ) → 1 ≤ k
    → k ≤ h.size
    → ¬ (k ≡ j)
    → ((move h i j).h_idx ((move h i j).cell k) ≡ k) × ¬ ((move h i j).cell k ≡ et)
move-links h et i j w a b c k d e f = elim (eq-cases k i) [
  | inl p ↦
      rw (put-same h.cell i (h.cell j) k p, put-same h.h_idx (h.cell j) i (h.cell j) refl)
        (sym p, (w.links j a b c).1)
  | inr n ↦
      let m : ¬ (h.cell k ≡ h.cell j) = λ q. f (slots_differ h et i w k j d e n a b c q) in
      rw (put-other h.cell i (h.cell j) k n, put-other h.h_idx (h.cell j) i (h.cell k) m)
        (w.links k d e n)
]

pub move-backs :
    (h : Heap) (et i j : ℕ)
    → HasHole h et i
    → 1 ≤ j
    → j ≤ h.size
    → ¬ (j ≡ i)
    → (t : ℕ) → ¬ (t ≡ et)
    → 0 < (move h i j).h_idx t
    → ((move h i j).h_idx t ≤ h.size)
      × ((move h i j).cell ((move h i j).h_idx t) ≡ t)
      × ¬ ((move h i j).h_idx t ≡ j)
move-backs h et i j w a b c t d e = elim (eq-cases t (h.cell j)) [
  | inl p ↦
      rw (put-same h.h_idx (h.cell j) i t p, put-same h.cell i (h.cell j) i refl)
        (w.high, sym p, λ q. c (sym q))
  | inr n ↦
      let o : put h.h_idx (h.cell j) i t ≡ h.h_idx t = put-other h.h_idx (h.cell j) i t n in
      let v = w.backs t d (omega (arith, o, e)) in
      rw (o, put-other h.cell i (h.cell j) (h.h_idx t) v.2)
        (v.0, v.1, λ q. n (sym v.1 ∙ ap h.cell q))
]

pub move-IsSame :
    (h : Heap) (et i j : ℕ)
    → HasHole h et i
    → 1 ≤ j
    → j ≤ h.size
    → ¬ (j ≡ i)
    → IsSame h (move h i j) et
move-IsSame h et i j w a b c = record {
  sizes = refl;
  times = refl;
  members = λ t n. grind (arith, w.links j a b c);
}

pub half-lt : (i : ℕ) → 2 ≤ i → (1 ≤ i / 2) × (i / 2 < i) × ¬ (i / 2 ≡ i)
half-lt i h = (omega arith, omega arith, omega arith)
