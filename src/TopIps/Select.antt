-- ===== src/TopIps/Select.antt =====
-- The selection of the busiest addresses in src/net/net-tcp-rpc-ext-top-ips.c.
use mathlib.Core.List.{Permᴰ}
use mathlib.Core.List.Permᴰ
use mtbolt.Common.{
  ℕ, zero, suc, ◌+◌, ◌≤◌, ◌<◌, ◌≡◌, ◌⊎◌, inl, inr, refl, sym, ap, subst, arith, true, false, Option,
  none, some, List, [], ◌∷◌, ◌++◌, length, get_or, set, map, ltb, leb, ◌==◌, if◌then◌else◌, All,
  Bool-cases,
}
use mtbolt.TopIps.{
  VolumeEntry, TopIp, Candidate, Volumes, no_volume, total, is_reported, find_best, top_ip, select,
  snapshot_top_ips, max_secrets,
}

-- The entries that are to be reported and were not picked.
unfoldable pub reported : List Candidate → List VolumeEntry
reported [] = []
reported (c ∷ cs) = let rest = reported cs in if is_reported c then c.0 ∷ rest else rest

-- Place `k` has an entry that is to be reported, with `m` bytes.
abbrev Picks : List Candidate → ℕ → ℕ → Type 0
Picks [] k m = ⊥
Picks (c ∷ cs) zero m = (is_reported c ≡ true) × (total c.0 ≡ m)
Picks (c ∷ cs) (suc k) m = Picks cs k m

-- The best so far is at most `m`.
abbrev AtMost : Option (ℕ × ℕ) → ℕ → Type 0
AtMost none m = Unit
AtMost (some (j, most)) m = most ≤ m

-- The best of the places from `i` on and of the best so far.
abbrev IsBest : ℕ → List Candidate → Option (ℕ × ℕ) → Option (ℕ × ℕ) → Type 0
IsBest i cs best none = (best ≡ none) × (reported cs ≡ [])
IsBest i cs best (some (j, m)) =
    All (λ e. total e ≤ m) (reported cs)
    × AtMost best m
    × ((best ≡ some (j, m)) ⊎ ((k : ℕ) × (j ≡ i + k) × Picks cs k m))

-- the best after a place that is to be reported
abbrev better : ℕ → VolumeEntry → Option (ℕ × ℕ) → Option (ℕ × ℕ)
better i e best = elim best [
  | none ↦ some (i, total e)
  | some (j, most) ↦ if ltb most (total e) then some (i, total e) else some (j, most)
]

skipped :
    (i : ℕ) (c : Candidate) (cs : List Candidate) (best o : Option (ℕ × ℕ))
    → is_reported c ≡ false
    → IsBest (i + 1) cs best o
    → IsBest i (c ∷ cs) best o
unfolding reported
skipped i c cs best none f h = (h.0, rw f h.1)
skipped i c cs best (some (j, m)) f h =
    (rw f h.0, h.1, elim h.2 [ inl e ↦ inl e | inr (k, e, p) ↦ inr (suc k, omega (arith, e), p) ])

not_none : (p : ℕ × ℕ) → ¬ (some p ≡ none)
not_none p e = ground (arith, e)

reported-All :
    (c : Candidate) (cs : List Candidate) (m : ℕ)
    → is_reported c ≡ true
    → total c.0 ≤ m
    → All (λ e. total e ≤ m) (reported cs)
    → All (λ e. total e ≤ m) (reported (c ∷ cs))
unfolding reported
reported-All c cs m t le h = rw t (le, h)

parts : (p q : ℕ × ℕ) → some p ≡ some q → (p.0 ≡ q.0) × (p.1 ≡ q.1)
parts p q e = (ap (λ o. (or_else o p).0) e, ap (λ o. (or_else o p).1) e)
  where
    or_else : Option (ℕ × ℕ) → ℕ × ℕ → ℕ × ℕ
    or_else none d = d
    or_else (some x) d = x

abbrev spot : ℕ → ℕ → Option (ℕ × ℕ)
spot i m = some (i, m)

-- The place itself is the best, or a later one is.
here-or_later :
    (i : ℕ) (c : Candidate) (cs : List Candidate) (j m : ℕ)
    → is_reported c ≡ true
    → (spot i (total c.0) ≡ spot j m) ⊎ ((k : ℕ) × (j ≡ i + 1 + k) × Picks cs k m)
    → (k : ℕ) × (j ≡ i + k) × Picks (c ∷ cs) k m
here-or_later i c cs j m t (inl e) =
    let p = parts (i, total c.0) (j, m) e in (0, omega (arith, p.0), (t, p.1))
here-or_later i c cs j m t (inr (k, e, p)) = (suc k, omega (arith, e), p)

taken :
    (i : ℕ) (c : Candidate) (cs : List Candidate) (best o : Option (ℕ × ℕ))
    → is_reported c ≡ true
    → IsBest (i + 1) cs (better i c.0 best) o
    → IsBest i (c ∷ cs) best o
unfolding reported
taken i c cs none none t h = absurd (not_none (i, total c.0) h.0)
taken i c cs none (some (j, m)) t h =
    (reported-All c cs m t h.1 h.0, tt, inr (here-or_later i c cs j m t h.2))
taken i c cs (some (j', m')) o t h = elim (Bool-cases (ltb m' (total c.0))) [
  | inl more ↦ larger o more (rw more at h)
  | inr less ↦ smaller o less (rw less at h)
]
  where
    larger :
        (o : Option (ℕ × ℕ))
        → ltb m' (total c.0) ≡ true
        → IsBest (i + 1) cs (some (i, total c.0)) o
        → IsBest i (c ∷ cs) (some (j', m')) o
    larger none more h = absurd (not_none (i, total c.0) h.0)
    larger (some (j, m)) more h = (
      reported-All c cs m t h.1 h.0,
      ground (arith, more, h.1),
      inr (here-or_later i c cs j m t h.2),
    )

    smaller :
        (o : Option (ℕ × ℕ))
        → ltb m' (total c.0) ≡ false
        → IsBest (i + 1) cs (some (j', m')) o
        → IsBest i (c ∷ cs) (some (j', m')) o
    smaller none less h = absurd (not_none (j', m') h.0)
    smaller (some (j, m)) less h = (
      reported-All c cs m t (ground (arith, less, h.1)) h.0,
      h.1,
      elim h.2 [ inl e ↦ inl e | inr (k, e, p) ↦ inr (suc k, omega (arith, e), p) ],
    )

find_best-IsBest :
    (i : ℕ) (cs : List Candidate) (best : Option (ℕ × ℕ)) → IsBest i cs best (find_best i cs best)
unfolding find_best reported
find_best-IsBest i [] none = (refl, refl)
find_best-IsBest i [] (some (j, m)) = (tt, omega arith, inl refl)
find_best-IsBest i (c ∷ cs) best = elim (Bool-cases (is_reported c)) [
  | inr f ↦
      rw f (skipped i c cs best (find_best (i + 1) cs best) f (find_best-IsBest (i + 1) cs best))
  | inl t ↦ rw t (
      taken i c cs best (find_best (i + 1) cs (better i c.0 best)) t
        (find_best-IsBest (i + 1) cs (better i c.0 best)))
]

-- Picking an entry takes it from those to be reported.
picked-Permᴰ :
    (cs : List Candidate) (k m : ℕ)
    → Picks cs k m
    → (let e = (get_or cs k (no_volume, true)).0 in
        (total e ≡ m) × Permᴰ (reported cs) (e ∷ reported (set cs k (e, true))))
unfolding reported is_reported
picked-Permᴰ [] k m h = absurd h
picked-Permᴰ (c ∷ cs) zero m h = (h.1, rw h.0 (Permᴰ.refl (c.0 ∷ reported cs)))
picked-Permᴰ (c ∷ cs) (suc k) m h =
    let rest = picked-Permᴰ cs k m h in
    elim (Bool-cases (is_reported c)) [
      | inr f ↦ (rest.0, rw f rest.1)
      | inl t ↦ (rest.0, rw t (Permᴰ.trans (Permᴰ.cons refl rest.1) (Permᴰ.swap refl refl)))
    ]

All-Permᴰ :
    (m : ℕ) {xs ys : List VolumeEntry}
    → Permᴰ xs ys
    → All (λ e. total e ≤ m) xs
    → All (λ e. total e ≤ m) ys
All-Permᴰ m Permᴰ.nil h = tt
All-Permᴰ m (Permᴰ.cons {a} {b} e p) h = (subst (λ x. total x ≤ m) e h.0, All-Permᴰ m p h.1)
All-Permᴰ m (Permᴰ.swap e e') h =
    (subst (λ x. total x ≤ m) e' h.1.0, (subst (λ x. total x ≤ m) e h.0, h.1.1))
All-Permᴰ m (Permᴰ.trans p q) h = All-Permᴰ m q (All-Permᴰ m p h)

-- Each entry has at least the bytes of those behind it and of the rest.
abbrev pub IsDescending : List VolumeEntry → List VolumeEntry → Type 0
IsDescending [] rest = Unit
IsDescending (e ∷ es) rest = All (λ x. total x ≤ total e) (es ++ rest) × IsDescending es rest

-- The report is of chosen entries, which with a rest are those to be reported; no entry of the rest has
-- more bytes than a chosen one, and there is no rest unless `max` were chosen.
pub record Chosen (max : ℕ) (cs : List Candidate) (out : List TopIp) : Type 0 where
  pub chosen : List VolumeEntry
  pub rest : List VolumeEntry
  pub report : out ≡ map top_ip chosen
  pub all : Permᴰ (reported cs) (chosen ++ rest)
  pub descending : IsDescending chosen rest
  pub room : (length chosen ≡ max) ⊎ ((rest ≡ []) × (length chosen < max))

choose :
    (max : ℕ) (cs : List Candidate) (o : Option (ℕ × ℕ))
    → IsBest 0 cs none o
    → ((i : ℕ)
        → (let e = (get_or cs i (no_volume, true)).0 in
            Chosen max (set cs i (e, true)) (select max (set cs i (e, true)))))
    → Chosen (suc max) cs (elim o [
      | none ↦ []
      | some (i, most) ↦
          let e = (get_or cs i (no_volume, true)).0 in top_ip e ∷ select max (set cs i (e, true))
    ])
choose max cs none h next = record {
  chosen = [];
  rest = [];
  report = refl;
  all = subst (λ x. Permᴰ x []) (sym h.1) Permᴰ.nil;
  descending = tt;
  room = inr (refl, omega arith);
}
choose max cs (some (i, m)) h next = elim h.2 [
  | inl e ↦ absurd (not_none (i, m) (sym e))
  | inr (k, e, p) ↦
      let n = next i in
      let at : Picks cs i m = subst (λ j. Picks cs j m) (omega (arith, e)) p in
      let picked = picked-Permᴰ cs i m at in
      let all = Permᴰ.trans picked.1 (Permᴰ.cons refl n.all) in
      let top = (get_or cs i (no_volume, true)).0 in
      record {
        chosen = top ∷ n.chosen;
        rest = n.rest;
        report = ap (◌∷◌ (top_ip top)) n.report;
        all = all;
        descending = (
          subst (λ b. All (λ x. total x ≤ b) (n.chosen ++ n.rest)) (sym picked.0)
              (All-Permᴰ m all h.0).1,
          n.descending,
        );
        room = elim n.room [ inl f ↦ inl (ap suc f) | inr f ↦ inr (f.0, omega (arith, f.1)) ];
      }
]

select-Chosen : (max : ℕ) (cs : List Candidate) → Chosen max cs (select max cs)
unfolding select
select-Chosen zero cs = record {
  chosen = [];
  rest = reported cs;
  report = refl;
  all = Permᴰ.refl (reported cs);
  descending = tt;
  room = inl refl;
}
select-Chosen (suc max) cs =
    choose max cs (find_best 0 cs none) (find_best-IsBest 0 cs none)
      (λ i. select-Chosen max (set cs i ((get_or cs i (no_volume, true)).0, true)))

-- A snapshot of a secret that is counted reports the entries with bytes or connections in descending
-- order of their bytes, all of them if there are at most `max`, and else those with the most bytes.
pub snapshot_top_ips-Chosen :
    (sid max : ℕ) (v : Volumes)
    → 0 < v.runtime
    → sid < max_secrets
    → Chosen max (map (λ e. (e, false)) (get_or v.tables sid [])) (snapshot_top_ips sid max v)
unfolding snapshot_top_ips
snapshot_top_ips-Chosen sid max v on low =
    let a : (v.runtime == 0) ≡ false = ground (arith, on) in
    let b : leb max_secrets sid ≡ false = ground (arith, low) in
    rw (a, b) (select-Chosen max (map (λ e. (e, false)) (get_or v.tables sid [])))
