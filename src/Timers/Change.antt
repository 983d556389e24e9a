-- ===== src/Timers/Change.antt =====
-- insert_event_timer and remove_event_timer of src/net/net-timers.c, called on a heap.
use mtbolt.Common.{
  ℕ, ◌+◌, ◌-◌, ◌≤◌, ◌<◌, ◌≡◌, inl, inr, refl, sym, ◌∙◌, subst, ap, arith, true, false, Option, none,
  some, ltb, ◌==◌, Bool-cases, eq-cases,
}
use mtbolt.Timers.{Heap, put, basic_et_adjust, stands_at, taken_out, remove_event_timer}
use mtbolt.Timers.Hole.{HasHole, put-same, put-other}
use mtbolt.Timers.Keep.{IsHeap, Put, basic_et_adjust-Put}

-- The result of an insertion: no assertion and no write failed, the result is a heap with the timer in the slot
-- that is returned, and with the timers and the times of `h`.
abbrev pub Inserted : Heap → ℕ → Option (Heap × ℕ) → Type 0
Inserted h et none = ⊥
Inserted h et (some (h', i)) = Put h et h' × (h'.h_idx et ≡ i)

stands_at-there :
    (h : Heap) (et : ℕ) → IsHeap h → 0 < h.h_idx et → stands_at h et (h.h_idx et) ≡ true
stands_at-there h et w p = ground (arith, w.backs et p)

-- A removal: no assertion failed, the result is a heap without the timer, and with the others and their
-- times, and tells whether the timer was there.
pub record Gone (h : Heap) (et : ℕ) (h' : Heap) (r : ℕ) : Type 0 where
  pub heap : IsHeap h'
  pub sizes : h'.size + r ≡ h.size
  pub times : h'.wakeup_time ≡ h.wakeup_time
  pub gone : h'.h_idx et ≡ 0
  pub told : (0 < h.h_idx et → r ≡ 1) × (h.h_idx et ≡ 0 → r ≡ 0)
  pub others :
      (t : ℕ) → ¬ (t ≡ et) → (0 < h.h_idx t → 0 < h'.h_idx t) × (0 < h'.h_idx t → 0 < h.h_idx t)

abbrev pub Removed : Heap → ℕ → Option (Heap × ℕ) → Type 0
Removed h et none = ⊥
Removed h et (some (h', r)) = Gone h et h' r

-- The last slot is given up.
last-Gone :
    (h : Heap) (et : ℕ)
    → IsHeap h
    → 0 < h.h_idx et
    → h.size - 1 < h.h_idx et
    → Gone h et (taken_out h et) 1
last-Gone h et w p q =
    let own = w.backs et p in
    let differ : (k : ℕ) → 1 ≤ k → k ≤ h.size - 1 → ¬ (h.cell k ≡ et) =
      λ k a b e. omega (arith, ap h.h_idx e, w.links k a (omega (arith, b)), b, q) in
    record {
      heap = record {
        links = λ k a b.
            rw (put-other h.h_idx et 0 (h.cell k) (differ k a b)) (w.links k a (omega (arith, b)));
        backs = λ t a. elim (eq-cases t et) [
          | inl e ↦ absurd (omega (arith, put-same h.h_idx et 0 t e, a))
          | inr n ↦
              let o : put h.h_idx et 0 t ≡ h.h_idx t = put-other h.h_idx et 0 t n in
              let l = w.backs t (omega (arith, o, a)) in
              let m : ¬ (h.h_idx t ≡ h.h_idx et) = λ e. n (sym l.1 ∙ ap h.cell e ∙ own.1) in
              rw o (omega (arith, l.0, m, own.0, q), l.1)
        ];
        edges = λ k a b. w.edges k a (omega (arith, b));
      };
      sizes = omega (arith, own.0, p);
      times = refl;
      gone = put-same h.h_idx et 0 et refl;
      told = ((λ _. refl), λ z. absurd (omega (arith, z, p)));
      others = λ t n.
          let o = put-other h.h_idx et 0 t n in
          ((λ a. omega (arith, o, a)), λ a. omega (arith, o, a));
    }

-- Of an inner slot a hole is made, and the last timer is left.
inner-HasHole :
    (h : Heap) (et : ℕ)
    → IsHeap h
    → 0 < h.h_idx et
    → h.h_idx et < h.size
    → HasHole (taken_out h et) (h.cell h.size) (h.h_idx et)
inner-HasHole h et w p q =
    let own = w.backs et p in
    let i = h.h_idx et in
    let differ : (k : ℕ) → 1 ≤ k → k ≤ h.size → ¬ (k ≡ h.h_idx et) → ¬ (h.cell k ≡ et) =
      λ k a b n e. n (sym (w.links k a b) ∙ ap h.h_idx e) in
    record {
      low = omega (arith, p);
      high = omega (arith, q);
      links = λ k a b n.
          let c : k ≤ h.size = omega (arith, b) in
          rw (put-other h.h_idx et 0 (h.cell k) (differ k a c n)) (
            w.links k a c,
            λ e. omega (
              arith,
              ap h.h_idx e,
              w.links k a c,
              w.links h.size (omega (arith, q)) (omega arith),
              b,
              a,
            ),
          );
      backs = λ t n a. elim (eq-cases t et) [
        | inl e ↦ absurd (omega (arith, put-same h.h_idx et 0 t e, a))
        | inr m ↦
            let o : put h.h_idx et 0 t ≡ h.h_idx t = put-other h.h_idx et 0 t m in
            let l = w.backs t (omega (arith, o, a)) in
            let not_last : ¬ (h.h_idx t ≡ h.size) = λ e. n (sym l.1 ∙ ap h.cell e) in
            rw o (omega (arith, l.0, not_last), l.1, λ e. m (sym l.1 ∙ ap h.cell e ∙ own.1))
      ];
      edges = λ k a b n m. w.edges k a (omega (arith, b));
      bridge = λ k a b e. omega (
        arith,
        w.edges (h.h_idx et) a own.0,
        subst (λ g. h.wakeup_time (h.cell g) ≤ h.wakeup_time (h.cell k)) e
            (w.edges k (omega (arith, e, a)) (omega (arith, b))),
      );
    }

Put-Gone :
    (h : Heap) (et : ℕ) (h' : Heap)
    → IsHeap h
    → 0 < h.h_idx et
    → h.h_idx et < h.size
    → Put (taken_out h et) (h.cell h.size) h'
    → Gone h et h' 1
Put-Gone h et h' w p q u =
    let own = w.backs et p in
    let l = w.links h.size (omega (arith, q)) (omega arith) in
    let n : ¬ (et ≡ h.cell h.size) = λ e. omega (arith, ap h.h_idx e, l, q) in
    let zero_own = put-same h.h_idx et 0 et refl in
    record {
      heap = u.heap;
      sizes = omega (arith, u.kept.sizes, q);
      times = u.kept.times;
      gone = elim (eq-cases (h'.h_idx et) 0) [
        | inl z ↦ z
        | inr m ↦ absurd (omega (arith, (u.kept.members et n).1 (omega (arith, m)), zero_own))
      ];
      told = ((λ _. refl), λ z. absurd (omega (arith, z, p)));
      others = λ t m.
          let o = put-other h.h_idx et 0 t m in
          elim (eq-cases t (h.cell h.size)) [
            | inl e ↦ ((λ _. rw e u.there), λ _. rw e (omega (arith, l, q)))
            | inr k ↦ (
              (λ a. (u.kept.members t k).0 (omega (arith, o, a))),
              λ a. omega (arith, o, (u.kept.members t k).1 a),
            )
          ];
    }

-- On a heap, remove_event_timer asserts nothing false, tells whether the timer was in the heap, and
-- leaves a heap in order without it, with the other timers and all times as they were.
pub remove_event_timer-Removed :
    (h : Heap) (et : ℕ) → IsHeap h → Removed h et (remove_event_timer h et)
unfolding remove_event_timer
remove_event_timer-Removed h et w = elim (eq-cases (h.h_idx et) 0) [
  | inl z ↦ rw z (record {
    heap = w;
    sizes = omega arith;
    times = refl;
    gone = z;
    told = ((λ p. absurd (omega (arith, z, p))), λ _. refl);
    others = λ t _. ((λ a. a), λ a. a);
  })
  | inr n ↦
      let p : 0 < h.h_idx et = omega (arith, n) in
      let f : (h.h_idx et == 0) ≡ false = ground (arith, n) in
      let own = w.backs et p in
      elim (Bool-cases (ltb (h.size - 1) (h.h_idx et))) [
        | inl t ↦ rw (f, stands_at-there h et w p, t) (last-Gone h et w p (ground (arith, t)))
        | inr b ↦
            let q : h.h_idx et < h.size = ground (arith, b, own.0, p) in
            rw (f, stands_at-there h et w p, b)
              (Put-Gone h et (basic_et_adjust (taken_out h et) (h.cell h.size) (h.h_idx et)).0 w p q
                (basic_et_adjust-Put (taken_out h et) (h.cell h.size) (h.h_idx et)
                  (inner-HasHole h et w p q)).0)
      ]
]
