-- ===== src/Ja4/Counts.antt =====
-- What the figures of src/net/net-ja4.c are: the number of observations of a fingerprint.
use mtbolt.Common.{
  ℕ, zero, suc, ◌+◌, ◌^◌, ◌≤◌, ◌<◌, ◌≡◌, ◌⊎◌, inl, inr, refl, sym, ◌∙◌, subst, ap, arith, Bool,
  true, false, not, ◌&&◌, Option, none, some, List, [], ◌∷◌, Bytes, length, replicate, All, ◌==◌,
  eq_bytes, eq_bytes_iff, if◌then◌else◌, Bool-cases, Option-cases,
}
use mtbolt.Ja4.Sorting.{occurrences}
use mtbolt.Ja4.Table.{TopJa4, unused, add_64, behind, count_known, claim, ja4_record}

-- The hashes that were observed, the last first.
unfoldable pub record_all : List Bytes → List TopJa4 → List TopJa4
unfolding ja4_record
record_all [] table = table
record_all (h ∷ hs) table = ja4_record (record_all hs table) h

-- the figure of a hash in a table
unfoldable pub count_of : Bytes → List TopJa4 → ℕ
count_of v [] = 0
count_of v (e ∷ es) = let rest = count_of v es in if eq_bytes e.hash v then e.count + rest else rest

-- how many entries in use have a hash
unfoldable pub entries_of : Bytes → List TopJa4 → ℕ
entries_of v [] = 0
entries_of v (e ∷ es) =
    let rest = entries_of v es in if not (e.count == 0) && eq_bytes e.hash v then 1 + rest else rest

abbrev pub one_if : Bool → ℕ
one_if true = 1
one_if false = 0

abbrev pub IsFull : List TopJa4 → Type 0
IsFull = All (λ e. 0 < e.count)

abbrev pub IsBounded : ℕ → List TopJa4 → Type 0
IsBounded n = All (λ e. e.count ≤ n)

-- After the observations hs, no hash has two entries, and each has its number of observations for its
-- figure, or the table is full without it.
pub record IsCounted (hs : List Bytes) (table : List TopJa4) : Type 0 where
  pub bounded : IsBounded (length hs) table
  pub single : (v : Bytes) → entries_of v table ≤ 1
  pub figure :
      (v : Bytes)
      → (count_of v table ≡ occurrences v hs) ⊎ ((entries_of v table ≡ 0) × IsFull table)

-- What the first loop finds.
abbrev Finds : ℕ → Bytes → List TopJa4 → Option (List TopJa4) → Type 0
Finds n h es none = (entries_of h es ≡ 0) × (count_of h es ≡ 0)
Finds n h es (some fs) =
    (0 < entries_of h es)
    × ((v : Bytes) → count_of v fs ≡ count_of v es + one_if (eq_bytes h v))
    × ((v : Bytes) → entries_of v fs ≡ entries_of v es)
    × (IsFull es → IsFull fs)
    × IsBounded (n + 1) fs

Bounded-more : (n : ℕ) (es : List TopJa4) → IsBounded n es → IsBounded (n + 1) es
Bounded-more n [] b = tt
Bounded-more n (e ∷ es) b = (omega (arith, b.0), Bounded-more n es b.1)

behind-Finds :
    (n : ℕ) (h : Bytes) (e : TopJa4) (es : List TopJa4) (o : Option (List TopJa4))
    → (not (e.count == 0) && eq_bytes e.hash h) ≡ false
    → e.count ≤ n
    → Finds n h es o
    → Finds n h (e ∷ es) (behind e o)
unfolding count_of entries_of
behind-Finds n h e es none f b k = ground (arith, f, k)
behind-Finds n h e es (some fs) f b k = (
  ground (arith, f, k.0),
  (λ v. ground (arith, k.1 v)),
  (λ v. ground (arith, k.2 v)),
  (λ q. (q.0, k.3 q.1)),
  (omega (arith, b), k.4),
)

here-Finds :
    (n : ℕ) (h : Bytes) (e : TopJa4) (es : List TopJa4)
    → (not (e.count == 0) && eq_bytes e.hash h) ≡ true
    → n + 1 < 2 ^ 64
    → IsBounded n (e ∷ es)
    → Finds n h (e ∷ es) (some (record e { count = add_64 e.count 1 } ∷ es))
unfolding count_of entries_of
here-Finds n h e es t p b =
    let used : 0 < e.count = ground (arith, t) in
    let same : e.hash ≡ h = (eq_bytes_iff e.hash h).0 (ground (arith, t)) in
    let step : add_64 e.count 1 ≡ e.count + 1 = omega (arith, p, b.0) in
    rw (step, same)
      (
        ground (arith, used, (eq_bytes_iff h h).1 refl),
        (λ v. ground arith),
        (λ v. ground (arith, used)),
        (λ q. (omega arith, q.1)),
        (omega (arith, b.0), Bounded-more n es b.1),
      )

count_known-Finds :
    (n : ℕ) (h : Bytes) (es : List TopJa4)
    → n + 1 < 2 ^ 64
    → IsBounded n es
    → Finds n h es (count_known h es)
unfolding count_known count_of entries_of
count_known-Finds n h [] p b = (refl, refl)
count_known-Finds n h (e ∷ es) p b = elim (Bool-cases (not (e.count == 0) && eq_bytes e.hash h)) [
  | inl t ↦ rw (t, count_known) (here-Finds n h e es t p b)
  | inr f ↦
      rw (f, count_known)
        (behind-Finds n h e es (count_known h es) f b.0 (count_known-Finds n h es p b.1))
]

-- What the second loop does to a table with a free entry.
abbrev Took : ℕ → Bytes → List TopJa4 → List TopJa4 → Type 0
Took n h es fs =
    ¬ IsFull es
    × ((v : Bytes) → count_of v fs ≡ count_of v es + one_if (eq_bytes h v))
    × ((v : Bytes) → entries_of v fs ≡ entries_of v es + one_if (eq_bytes h v))
    × IsBounded (n + 1) fs

claim-Took :
    (n : ℕ) (h : Bytes) (es : List TopJa4)
    → IsBounded n es
    → (IsFull es × (claim h es ≡ es)) ⊎ Took n h es (claim h es)
unfolding claim count_of entries_of
claim-Took n h [] b = inl (tt, refl)
claim-Took n h (e ∷ es) b = elim (Bool-cases (e.count == 0)) [
  | inl t ↦
      rw (t, claim)
        (inr (
          (λ q. ground (arith, t, q.0)),
          (λ v. ground (arith, t)),
          (λ v. ground (arith, t)),
          (omega arith, Bounded-more n es b.1),
        ))
  | inr f ↦ elim (claim-Took n h es b.1) [
    | inl q ↦ inl ((ground (arith, f), q.0), rw (f, claim) (ap (λ z. e ∷ z) q.1))
    | inr k ↦
        rw (f, claim)
          (inr (
            (λ q. k.0 q.1),
            (λ v. ground (arith, k.1 v)),
            (λ v. ground (arith, k.2 v)),
            (omega (arith, b.0), k.3),
          ))
  ]
]

none_of :
    (h v : Bytes) (es : List TopJa4)
    → entries_of h es ≡ 0
    → eq_bytes h v ≡ true
    → entries_of v es ≡ 0
none_of h v es k t = subst (λ z. entries_of z es ≡ 0) ((eq_bytes_iff h v).0 t) k

-- A table whose figures and entries grew by those of h counts h.
grown-IsCounted :
    (hs : List Bytes) (h : Bytes) (es fs : List TopJa4)
    → IsCounted hs es
    → IsBounded (length hs + 1) fs
    → ((v : Bytes) → entries_of v fs ≤ 1)
    → ((v : Bytes) → count_of v fs ≡ count_of v es + one_if (eq_bytes h v))
    → ((v : Bytes)
        → entries_of v es ≡ 0
        → IsFull es
        → (eq_bytes h v ≡ false) × (entries_of v fs ≡ 0) × IsFull fs)
    → IsCounted (h ∷ hs) fs
unfolding occurrences
grown-IsCounted hs h es fs w b single count full = record {
  bounded = subst (λ n. IsBounded n fs) (omega arith) b;
  single = single;
  figure = λ v. elim (w.figure v) [
    | inl e ↦ inl (ground (arith, e, count v))
    | inr (z, q) ↦ let r = full v z q in inr (r.1, r.2)
  ];
}

count_known-IsCounted :
    (hs : List Bytes) (h : Bytes) (es fs : List TopJa4)
    → IsCounted hs es
    → Finds (length hs) h es (some fs)
    → IsCounted (h ∷ hs) fs
count_known-IsCounted hs h es fs w k =
    grown-IsCounted hs h es fs w k.4 (λ v. omega (arith, k.2 v, w.single v)) k.1
      (λ v z q. (
        elim (Bool-cases (eq_bytes h v)) [
          | inl t ↦ absurd (
              omega (arith, k.0, subst (λ u. entries_of u es ≡ 0) (sym ((eq_bytes_iff h v).0 t)) z))
          | inr f ↦ f
        ],
        k.2 v ∙ z,
        k.3 q,
      ))

claim-IsCounted :
    (hs : List Bytes) (h : Bytes) (es fs : List TopJa4)
    → IsCounted hs es
    → entries_of h es ≡ 0
    → Took (length hs) h es fs
    → IsCounted (h ∷ hs) fs
claim-IsCounted hs h es fs w n k =
    grown-IsCounted hs h es fs w k.3
      (λ v. elim (Bool-cases (eq_bytes h v)) [
        | inl t ↦ ground (arith, k.2 v, t, none_of h v es n t)
        | inr f ↦ ground (arith, k.2 v, f, w.single v)
      ])
      k.1 (λ v z q. absurd (k.0 q))

-- A full table without h stays as it is.
full-IsCounted :
    (hs : List Bytes) (h : Bytes) (es : List TopJa4)
    → IsCounted hs es
    → entries_of h es ≡ 0
    → IsFull es
    → IsCounted (h ∷ hs) es
unfolding occurrences
full-IsCounted hs h es w n q = record {
  bounded = subst (λ m. IsBounded m es) (omega arith) (Bounded-more (length hs) es w.bounded);
  single = w.single;
  figure = λ v. elim (Bool-cases (eq_bytes h v)) [
    | inl t ↦ inr (none_of h v es n t, q)
    | inr f ↦ elim (w.figure v) [ inl e ↦ inl (ground (arith, e, f)) | inr r ↦ inr r ]
  ];
}

ja4_record-IsCounted :
    (hs : List Bytes) (h : Bytes) (es : List TopJa4)
    → length hs + 1 < 2 ^ 64
    → IsCounted hs es
    → IsCounted (h ∷ hs) (ja4_record es h)
unfolding ja4_record
ja4_record-IsCounted hs h es p w =
    let k = count_known-Finds (length hs) h es p w.bounded in
    elim (Option-cases (count_known h es)) [
      | inl e ↦
          let n = subst (Finds (length hs) h es) e k in
          rw (e, ja4_record)
            (elim (claim-Took (length hs) h es w.bounded) [
              | inl q ↦ rw q.1 (full-IsCounted hs h es w n.0 q.0)
              | inr t ↦ claim-IsCounted hs h es (claim h es) w n.0 t
            ])
      | inr (fs, e) ↦
          rw (e, ja4_record)
            (count_known-IsCounted hs h es fs w (subst (Finds (length hs) h es) e k))
    ]

blank-IsBounded : (n : ℕ) → IsBounded 0 (replicate n unused)
blank-IsBounded zero = tt
blank-IsBounded (suc n) = (omega arith, blank-IsBounded n)

blank-lem :
    (n : ℕ) (v : Bytes)
    → (entries_of v (replicate n unused) ≡ 0) × (count_of v (replicate n unused) ≡ occurrences v [])
unfolding entries_of count_of occurrences
blank-lem zero v = (refl, refl)
blank-lem (suc n) v = ground (arith, blank-lem n v)

empty-IsCounted : (n : ℕ) → IsCounted [] (replicate n unused)
empty-IsCounted n = record {
  bounded = blank-IsBounded n;
  single = λ v. omega (arith, (blank-lem n v).0);
  figure = λ v. inl ((blank-lem n v).1);
}

-- From an empty table of n entries, after fewer than 2 ^ 64 observations, no fingerprint has two entries
-- in use, and each has its number of observations for its figure, or no entry in a table that is full.
pub record_all-IsCounted :
    (n : ℕ) (hs : List Bytes)
    → length hs < 2 ^ 64
    → IsCounted hs (record_all hs (replicate n unused))
unfolding record_all
record_all-IsCounted n [] p = empty-IsCounted n
record_all-IsCounted n (h ∷ hs) p =
    ja4_record-IsCounted hs h (record_all hs (replicate n unused)) (omega (arith, p))
      (record_all-IsCounted n hs (omega (arith, p)))
