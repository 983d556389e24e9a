-- ===== src/IpStats/Probe.antt =====
-- The slots of src/mtproto/ip-stats.c that hold an address, whatever the order in which the workers run.
use mtbolt.Common.{
  ℕ, zero, suc, ◌+◌, ◌<◌, ◌≡◌, inl, inr, refl, sym, ◌∙◌, subst, ap, arith, Bool, true, false, ◌&&◌,
  List, [], ◌∷◌, ltb, leb, ◌==◌, Bool-cases, eq-cases,
}
use mtbolt.IpStats.{
  Call, idle, looking, claiming, publishing, waiting, found, not_found, Shared, update, ip_ht_hash,
  Event, start, go, time_out, next_slot, look, goes_to, advance, give_up, step, run_events,
  empty_shared,
}

update-same {ℓ} : {A : Type ℓ} (f : ℕ → A) (i : ℕ) (v : A) (j : ℕ) → j ≡ i → update f i v j ≡ v
update-same f i v j e = let t : (j == i) ≡ true = ground (arith, e) in rw t refl

update-other {ℓ} :
    {A : Type ℓ} (f : ℕ → A) (i : ℕ) (v : A) (j : ℕ) → ¬ (j ≡ i) → update f i v j ≡ f j
update-other f i v j n = let t : (j == i) ≡ false = ground (arith, n) in rw t refl

module _ (size : ℕ) where
  -- the slot of an address after d collisions
  unfoldable pub probe : ℕ → ℕ → ℕ
  probe ip zero = ip_ht_hash size ip
  probe ip (suc d) = next_slot size (probe ip d)

  -- The first d slots of an address hold other addresses.
  abbrev pub IsPassed : (ℕ → ℕ) → ℕ → ℕ → Type 0
  IsPassed t ip d = (e : ℕ) → e < d → ¬ (t (probe ip e) ≡ 0) × ¬ (t (probe ip e) ≡ ip)

  -- The slot k is where the address in it belongs.
  pub record Placed (t : ℕ → ℕ) (k : ℕ) : Type 0 where
    pub collisions : ℕ
    pub at : k ≡ probe (t k) collisions
    pub passed : IsPassed t (t k) collisions

  -- What a worker knows where its call is.
  abbrev pub Knows : (ℕ → ℕ) → Call → Type 0
  Knows t idle = Unit
  Knows t (looking creates ip idx n) = ¬ (ip ≡ 0) × (idx ≡ probe ip n) × IsPassed t ip n
  Knows t (claiming ip idx n) = ¬ (ip ≡ 0) × (idx ≡ probe ip n) × IsPassed t ip n
  Knows t (publishing ip idx) = ¬ (ip ≡ 0) × (t idx ≡ ip)
  Knows t (waiting ip idx) = ¬ (ip ≡ 0) × (t idx ≡ ip)
  Knows t (found ip idx b) = ¬ (ip ≡ 0) × (t idx ≡ ip)
  Knows t not_found = Unit

  pub record IsProbed (s : Shared) : Type 0 where
    pub slots : (k : ℕ) → ¬ (s.ip k ≡ 0) → Placed s.ip k
    pub calls : (i : ℕ) → Knows s.ip (s.call i)

  not_nearer :
      (s : Shared) (j k : ℕ)
      → s.ip j ≡ s.ip k
      → (c d : ℕ) → j ≡ probe (s.ip j) c
      → IsPassed s.ip (s.ip k) d
      → ¬ (c < d)
  not_nearer s j k e c d at passed h =
      (passed c h).1 (ap s.ip (ap (λ v. probe v c) (sym e) ∙ sym at) ∙ e)

  -- One slot has one address only: of two, the farther would have passed the nearer.
  pub IsProbed-unique :
      (s : Shared) → IsProbed s → (j k : ℕ) → ¬ (s.ip j ≡ 0) → s.ip j ≡ s.ip k → j ≡ k
  IsProbed-unique s w j k n e =
      let a = w.slots j n in
      let b = w.slots k (λ z. n (e ∙ z)) in
      elim (eq-cases a.collisions b.collisions) [
        | inl d ↦ a.at ∙ ap (λ v. probe v a.collisions) e ∙ ap (λ c. probe (s.ip k) c) d ∙ sym b.at
        | inr d ↦ elim (Bool-cases (ltb a.collisions b.collisions)) [
          | inl t ↦
              absurd
                (not_nearer s j k e a.collisions b.collisions a.at b.passed (ground (arith, t)))
          | inr f ↦ absurd (
              not_nearer s k j (sym e) b.collisions a.collisions b.at a.passed
                (ground (arith, f, d)))
        ]
      ]

  -- A slot that is filled stays as it is, and so does what is known.
  IsPassed-update :
      (t : ℕ → ℕ) (idx v ip d : ℕ) → t idx ≡ 0 → IsPassed t ip d → IsPassed (update t idx v) ip d
  IsPassed-update t idx v ip d z p e h =
      let q = p e h in
      let n : ¬ (probe ip e ≡ idx) = λ a. q.0 (ap t a ∙ z) in
      rw (update-other t idx v (probe ip e) n) q

  filled : (t : ℕ → ℕ) (idx v i ip : ℕ) → t idx ≡ 0 → ¬ (ip ≡ 0) → t i ≡ ip → update t idx v i ≡ ip
  filled t idx v i ip z n e = update-other t idx v i (λ a. n (sym e ∙ ap t a ∙ z)) ∙ e

  Knows-update :
      (t : ℕ → ℕ) (idx v : ℕ) (c : Call) → t idx ≡ 0 → Knows t c → Knows (update t idx v) c
  Knows-update t idx v idle z k = tt
  Knows-update t idx v (looking b ip i n) z k = (k.0, k.1, IsPassed-update t idx v ip n z k.2)
  Knows-update t idx v (claiming ip i n) z k = (k.0, k.1, IsPassed-update t idx v ip n z k.2)
  Knows-update t idx v (publishing ip i) z k = (k.0, filled t idx v i ip z k.0 k.1)
  Knows-update t idx v (waiting ip i) z k = (k.0, filled t idx v i ip z k.0 k.1)
  Knows-update t idx v (found ip i b) z k = (k.0, filled t idx v i ip z k.0 k.1)
  Knows-update t idx v not_found z k = tt

  goes_to-IsProbed :
      (s : Shared) (i : ℕ) (c : Call) → IsProbed s → Knows s.ip c → IsProbed (goes_to size s i c)
  goes_to-IsProbed s i c w k = record {
    slots = w.slots;
    calls = λ j. elim (eq-cases j i) [
      | inl e ↦ subst (Knows s.ip) (sym (update-same s.call i c j e)) k
      | inr n ↦ subst (Knows s.ip) (sym (update-other s.call i c j n)) (w.calls j)
    ];
  }

  -- An empty slot that is the next of an address takes it.
  fill-IsProbed :
      (s : Shared) (ip idx n : ℕ)
      → IsProbed s
      → ¬ (ip ≡ 0)
      → idx ≡ probe ip n
      → IsPassed s.ip ip n
      → s.ip idx ≡ 0
      → IsProbed (record s { ip = update s.ip idx ip })
  fill-IsProbed s ip idx n w nz at passed z = record {
    slots = λ k m. elim (eq-cases k idx) [
      | inl e ↦
          let o = update-same s.ip idx ip k e in
          record {
            collisions = n;
            at = e ∙ at ∙ ap (λ v. probe v n) (sym o);
            passed =
                subst (λ v. IsPassed (update s.ip idx ip) v n) (sym o)
                  (IsPassed-update s.ip idx ip ip n z passed);
          }
      | inr e ↦
          let o = update-other s.ip idx ip k e in
          let p = w.slots k (λ a. m (o ∙ a)) in
          record {
            collisions = p.collisions;
            at = p.at ∙ ap (λ v. probe v p.collisions) (sym o);
            passed =
                subst (λ v. IsPassed (update s.ip idx ip) v p.collisions) (sym o)
                  (IsPassed-update s.ip idx ip (s.ip k) p.collisions z p.passed);
          }
    ];
    calls = λ j. Knows-update s.ip idx ip (s.call j) z (w.calls j);
  }

  -- One more slot was passed.
  passed-suc :
      (t : ℕ → ℕ) (ip idx n : ℕ)
      → idx ≡ probe ip n
      → IsPassed t ip n
      → ¬ (t idx ≡ 0)
      → ¬ (t idx ≡ ip)
      → (next_slot size idx ≡ probe ip (n + 1)) × IsPassed t ip (n + 1)
  unfolding probe
  passed-suc t ip idx n at p z m =
      let q : n + 1 ≡ suc n = omega arith in
      (
        rw q (ap (next_slot size) at),
        λ e h. elim (eq-cases e n) [
          | inl d ↦ let o = ap t (at ∙ ap (probe ip) (sym d)) in ((λ a. z (o ∙ a)), λ a. m (o ∙ a))
          | inr d ↦ p e (omega (arith, h, d))
        ],
      )

  look-Knows :
      (b : Bool) (ip idx n : ℕ) (s : Shared)
      → Knows s.ip (looking b ip idx n)
      → Knows s.ip (look size b ip idx n s)
  unfolding look
  look-Knows b ip idx n s k = elim (Bool-cases (leb size n)) [
    | inl t ↦ rw t tt
    | inr f ↦ elim (Bool-cases (s.ip idx == ip)) [
      | inl u ↦ rw (f, u) (k.0, ground (arith, u))
      | inr u ↦ elim (Bool-cases (s.ip idx == 0)) [
        | inl z ↦ elim (Bool-cases b) [ inl c ↦ rw (f, u, z, c) k | inr c ↦ rw (f, u, z, c) tt ]
        | inr z ↦
            let q = passed-suc s.ip ip idx n k.1 k.2 (ground (arith, z)) (ground (arith, u)) in
            rw (f, u, z) (k.0, q.0, q.1)
      ]
    ]
  ]

  advance-IsProbed :
      (i : ℕ) (c : Call) (s : Shared) → IsProbed s → Knows s.ip c → IsProbed (advance size i c s)
  unfolding advance
  advance-IsProbed i idle s w k = w
  advance-IsProbed i (looking b ip idx n) s w k =
      let d = look-Knows b ip idx n s k in
      elim (Bool-cases (b && leb size n)) [
        | inl t ↦ rw t (
            goes_to-IsProbed (record s { table_full_total = s.table_full_total + 1 }) i
              (look size b ip idx n s) (record { slots = w.slots; calls = w.calls }) d)
        | inr f ↦ rw f (goes_to-IsProbed s i (look size b ip idx n s) w d)
      ]
  advance-IsProbed i (claiming ip idx n) s w k = elim (Bool-cases (s.ip idx == 0)) [
    | inl t ↦ rw t (
        goes_to-IsProbed (record s { ip = update s.ip idx ip }) i (publishing ip idx)
          (fill-IsProbed s ip idx n w k.0 k.1 k.2 (ground (arith, t)))
          (k.0, update-same s.ip idx ip idx refl))
    | inr f ↦ elim (Bool-cases (s.ip idx == ip)) [
      | inl u ↦ rw (f, u) (goes_to-IsProbed s i (waiting ip idx) w (k.0, ground (arith, u)))
      | inr u ↦
          let q = passed-suc s.ip ip idx n k.1 k.2 (ground (arith, f)) (ground (arith, u)) in
          rw (f, u)
            (goes_to-IsProbed s i (looking true ip (next_slot size idx) (n + 1)) w (k.0, q.0, q.1))
    ]
  ]
  advance-IsProbed i (publishing ip idx) s w k =
      goes_to-IsProbed (record s { ready = update s.ready idx true; used = s.used + 1 }) i
        (found ip idx true) (record { slots = w.slots; calls = w.calls }) k
  advance-IsProbed i (waiting ip idx) s w k = elim (Bool-cases (s.ready idx)) [
    | inl t ↦ rw t (goes_to-IsProbed s i (found ip idx false) w k)
    | inr f ↦ rw f w
  ]
  advance-IsProbed i (found ip idx b) s w k = w
  advance-IsProbed i not_found s w k = w

  give_up-IsProbed : (i : ℕ) (c : Call) (s : Shared) → IsProbed s → IsProbed (give_up size i c s)
  unfolding give_up
  give_up-IsProbed i (waiting ip idx) s w = goes_to-IsProbed s i not_found w tt
  give_up-IsProbed i idle s w = w
  give_up-IsProbed i (looking b ip idx n) s w = w
  give_up-IsProbed i (claiming ip idx n) s w = w
  give_up-IsProbed i (publishing ip idx) s w = w
  give_up-IsProbed i (found ip idx b) s w = w
  give_up-IsProbed i not_found s w = w

  step-IsProbed : (e : Event) (s : Shared) → IsProbed s → IsProbed (step size e s)
  unfolding step probe
  step-IsProbed (start i b ip) s w = elim (Bool-cases (ip == 0)) [
    | inl t ↦ rw t w
    | inr f ↦ rw f (
        goes_to-IsProbed s i (looking b ip (ip_ht_hash size ip) 0) w
          (ground (arith, f), refl, λ e h. absurd (omega (arith, h))))
  ]
  step-IsProbed (go i) s w = advance-IsProbed i (s.call i) s w (w.calls i)
  step-IsProbed (time_out i) s w = give_up-IsProbed i (s.call i) s w

  empty-IsProbed : IsProbed empty_shared
  empty-IsProbed = record { slots = λ k n. absurd (n refl); calls = λ i. tt }

  run_events-IsProbed : (es : List Event) → IsProbed (run_events size es empty_shared)
  unfolding run_events
  run_events-IsProbed [] = empty-IsProbed
  run_events-IsProbed (e ∷ es) =
      step-IsProbed e (run_events size es empty_shared) (run_events-IsProbed es)

  abbrev pub IsUnique : Shared → Type 0
  IsUnique s =
      ((j k : ℕ) → ¬ (s.ip j ≡ 0) → s.ip j ≡ s.ip k → j ≡ k)
      × ((i ip idx : ℕ) (b : Bool) → s.call i ≡ found ip idx b → s.ip idx ≡ ip)
      × ((i j ip idx idx' : ℕ) (b b' : Bool)
          → s.call i ≡ found ip idx b
          → s.call j ≡ found ip idx' b'
          → idx ≡ idx')

  -- Whatever calls the workers start on an empty table, and in whatever order they run and give up, an
  -- address stands in one slot at most, a call that found a slot found one with its address, and two
  -- calls that found the same address found the same slot.
  pub run_events-IsUnique : (es : List Event) → IsUnique (run_events size es empty_shared)
  run_events-IsUnique es =
      let w = run_events-IsProbed es in
      let s = run_events size es empty_shared in
      let own : (i ip idx : ℕ) (b : Bool)
          → s.call i ≡ found ip idx b
          → ¬ (ip ≡ 0) × (s.ip idx ≡ ip) =
        λ i ip idx b e. subst (Knows s.ip) e (w.calls i) in
      (
        IsProbed-unique s w,
        (λ i ip idx b e. (own i ip idx b e).1),
        λ i j ip idx idx' b b' e d.
            let p = own i ip idx b e in
            let q = own j ip idx' b' d in
            IsProbed-unique s w idx idx' (λ z. p.0 (sym p.1 ∙ z)) (p.1 ∙ sym q.1),
      )
