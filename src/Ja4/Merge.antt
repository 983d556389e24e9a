-- ===== src/Ja4/Merge.antt =====
-- ja4_master_merge of src/net/net-ja4.c: the master's figures are the sums of the workers'.
use mtbolt.Common.{
  ℕ, ◌+◌, ◌^◌, ◌≤◌, ◌<◌, ◌≡◌, ◌⊎◌, inl, inr, refl, subst, ap, arith, true, false, Option, none,
  some, List, [], ◌∷◌, ◌++◌, Bytes, length, All, ltb, eq_bytes, eq_bytes_iff, if◌then◌else◌,
  Bool-cases, Option-cases,
}
use mtbolt.Ja4.Table.{
  TopJa4, add_64, behind, master_max, add_known, append_new, is_blank, merge_slot, merge_slots,
}
use mtbolt.Ja4.Counts.{count_of}

abbrev pub IsAbsent : Bytes → List TopJa4 → Type 0
IsAbsent v = All (λ e. eq_bytes e.hash v ≡ false)

-- what a slot adds to the figure of v
abbrev gain : Bytes → TopJa4 → ℕ
gain v s = if eq_bytes s.hash v then s.count else 0

abbrev Added : TopJa4 → List TopJa4 → Option (List TopJa4) → Type 0
Added s m none = IsAbsent s.hash m
Added s m (some fs) =
    (length fs ≡ length m)
    × ((v : Bytes) → count_of v m + gain v s < 2 ^ 64 → count_of v fs ≡ count_of v m + gain v s)
    × ((v : Bytes) → IsAbsent v m → IsAbsent v fs)

behind-Added :
    (s e : TopJa4) (m : List TopJa4) (o : Option (List TopJa4))
    → eq_bytes e.hash s.hash ≡ false
    → Added s m o
    → Added s (e ∷ m) (behind e o)
unfolding count_of
behind-Added s e m none f k = (f, k)
behind-Added s e m (some fs) f k = (
  omega (arith, k.0),
  (λ v b. ground (arith, k.1 v (ground (arith, b)))),
  λ v a. (a.0, k.2 v a.1),
)

here-Added :
    (s e : TopJa4) (m : List TopJa4)
    → eq_bytes e.hash s.hash ≡ true
    → Added s (e ∷ m) (some (record e { count = add_64 e.count s.count } ∷ m))
unfolding count_of
here-Added s e m t =
    let same : e.hash ≡ s.hash = (eq_bytes_iff e.hash s.hash).0 t in
    rw same (refl, (λ v b. ground (arith, b)), λ v a. (a.0, a.1))

add_known-Added : (s : TopJa4) (m : List TopJa4) → Added s m (add_known s m)
unfolding add_known
add_known-Added s [] = tt
add_known-Added s (e ∷ m) = elim (Bool-cases (eq_bytes e.hash s.hash)) [
  | inl t ↦ rw (t, add_known) (here-Added s e m t)
  | inr f ↦ rw (f, add_known) (behind-Added s e m (add_known s m) f (add_known-Added s m))
]

count_of-append :
    (v : Bytes) (m fs : List TopJa4) → count_of v (m ++ fs) ≡ count_of v m + count_of v fs
unfolding count_of
count_of-append v [] fs = omega arith
count_of-append v (e ∷ m) fs = ground (arith, count_of-append v m fs)

-- The table is full without v, and stays so.
abbrev pub IsShut : Bytes → List TopJa4 → Type 0
IsShut v m = IsAbsent v m × (master_max ≤ length m)

merge_slot-IsShut :
    (v : Bytes) (s : TopJa4) (m : List TopJa4) → IsShut v m → IsShut v (merge_slot s m)
unfolding merge_slot
merge_slot-IsShut v s m w = elim (Bool-cases (is_blank s)) [
  | inl t ↦ rw (t, merge_slot) w
  | inr f ↦
      let k = add_known-Added s m in
      elim (Option-cases (add_known s m)) [
        | inl e ↦
            let full : ltb (length m) master_max ≡ false = ground (arith, w.1) in
            rw (f, e, full, merge_slot) w
        | inr (fs, e) ↦
            let a = subst (Added s m) e k in
            rw (f, e, merge_slot) (a.2 v w.0, omega (arith, a.0, w.1))
      ]
]

gain-blank : (v : Bytes) (s : TopJa4) → 0 < length v → is_blank s ≡ true → gain v s ≡ 0
gain-blank v s p t = elim (Bool-cases (eq_bytes s.hash v)) [
  | inl u ↦ let same = ap length ((eq_bytes_iff s.hash v).0 u) in ground (arith, u, same, p, t)
  | inr f ↦ ground (arith, f)
]

append_new-adds :
    (v : Bytes) (s : TopJa4) (m : List TopJa4)
    → IsAbsent s.hash m
    → (count_of v (append_new s m) ≡ count_of v m + gain v s) ⊎ IsShut v (append_new s m)
unfolding count_of
append_new-adds v s m a = elim (Bool-cases (ltb (length m) master_max)) [
  | inl t ↦ rw t (inl (ground (arith, count_of-append v m (s ∷ []))))
  | inr f ↦ elim (Bool-cases (eq_bytes s.hash v)) [
    | inl u ↦
        rw f (inr (subst (λ z. IsAbsent z m) ((eq_bytes_iff s.hash v).0 u) a, ground (arith, f)))
    | inr u ↦ rw f (inl (ground (arith, u)))
  ]
]

-- One slot adds its count, or the table is full without its hash.
merge_slot-adds :
    (v : Bytes) (s : TopJa4) (m : List TopJa4)
    → 0 < length v
    → count_of v m + gain v s < 2 ^ 64
    → (count_of v (merge_slot s m) ≡ count_of v m + gain v s) ⊎ IsShut v (merge_slot s m)
unfolding merge_slot count_of
merge_slot-adds v s m p b = elim (Bool-cases (is_blank s)) [
  | inl t ↦ rw (t, merge_slot) (inl (omega (arith, gain-blank v s p t)))
  | inr f ↦
      let k = add_known-Added s m in
      elim (Option-cases (add_known s m)) [
        | inl e ↦ rw (f, e, merge_slot) (append_new-adds v s m (subst (Added s m) e k))
        | inr (fs, e) ↦ rw (f, e, merge_slot) (inl ((subst (Added s m) e k).1 v b))
      ]
]

merge_slots-IsShut : (v : Bytes) (ss m : List TopJa4) → IsShut v m → IsShut v (merge_slots ss m)
unfolding merge_slots
merge_slots-IsShut v [] m w = w
merge_slots-IsShut v (s ∷ ss) m w =
    merge_slots-IsShut v ss (merge_slot s m) (merge_slot-IsShut v s m w)

-- After the slots of any number of workers were merged, the figure of a fingerprint grew by the sum of
-- its figures in the slots, if that is below 2 ^ 64, or 256 other fingerprints fill the table.
pub merge_slots-adds :
    (v : Bytes) (ss m : List TopJa4)
    → 0 < length v
    → count_of v m + count_of v ss < 2 ^ 64
    → (count_of v (merge_slots ss m) ≡ count_of v m + count_of v ss) ⊎ IsShut v (merge_slots ss m)
unfolding merge_slots count_of
merge_slots-adds v [] m p b = inl (omega arith)
merge_slots-adds v (s ∷ ss) m p b = elim (merge_slot-adds v s m p (ground (arith, b))) [
  | inl e ↦ elim (merge_slots-adds v ss (merge_slot s m) p (ground (arith, b, e))) [
    | inl d ↦ inl (ground (arith, d, e))
    | inr w ↦ inr w
  ]
  | inr w ↦ inr (merge_slots-IsShut v ss (merge_slot s m) w)
]
