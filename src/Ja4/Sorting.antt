-- ===== src/Ja4/Sorting.antt =====
-- What ja4_compute of src/net/net-ja4.c asks of qsort with hex4_cmp, and that it fixes the result.
use mtbolt.Common.{
  ℕ, zero, suc, ◌+◌, ◌<◌, ◌≡◌, refl, sym, ◌∙◌, subst, ap, arith, Bool, true, false, List, [], ◌∷◌,
  Bytes, length, All, ltb, ◌==◌, eq_bytes, eq_bytes_iff, if◌then◌else◌, Bool-cases, inl, inr,
}

-- memcmp (a, b, n) <= 0
unfoldable pub memcmp_le : ℕ → Bytes → Bytes → Bool
memcmp_le zero a b = true
memcmp_le (suc n) [] b = true
memcmp_le (suc n) (x ∷ a) [] = false
memcmp_le (suc n) (x ∷ a) (y ∷ b) =
    let rest = memcmp_le n a b in if ltb x y then true else (if x == y then rest else false)

abbrev pub hex4_le : Bytes → Bytes → Bool
hex4_le = memcmp_le 4

-- how often a string stands in a list
unfoldable pub occurrences : Bytes → List Bytes → ℕ
occurrences v [] = 0
occurrences v (x ∷ xs) = let rest = occurrences v xs in if eq_bytes x v then 1 + rest else rest

abbrev pub IsSorted : List Bytes → Type 0
IsSorted [] = Unit
IsSorted (x ∷ xs) = All (λ y. hex4_le x y ≡ true) xs × IsSorted xs

-- The same strings, each as often.
abbrev pub IsRearranged : List Bytes → List Bytes → Type 0
IsRearranged xs ys = (v : Bytes) → occurrences v xs ≡ occurrences v ys

-- What qsort does.
pub record IsQsort (qsort : List Bytes → List Bytes) : Type 0 where
  pub sorted : (xs : List Bytes) → IsSorted (qsort xs)
  pub rearranged : (xs : List Bytes) → IsRearranged (qsort xs) xs
  pub length_kept : (xs : List Bytes) → length (qsort xs) ≡ length xs

occurrences_self : (x : Bytes) (xs : List Bytes) → occurrences x (x ∷ xs) ≡ 1 + occurrences x xs
unfolding occurrences
occurrences_self x xs = rw ((eq_bytes_iff x x).1 refl) refl

occurrences-nil : (v : Bytes) → occurrences v [] ≡ 0
unfolding occurrences
occurrences-nil v = refl

occurrences-cancel :
    (v x : Bytes) (xs ys : List Bytes)
    → occurrences v (x ∷ xs) ≡ occurrences v (x ∷ ys)
    → occurrences v xs ≡ occurrences v ys
unfolding occurrences
occurrences-cancel v x xs ys e = ground (arith, e)

memcmp_le_refl : (n : ℕ) (a : Bytes) → memcmp_le n a a ≡ true
unfolding memcmp_le
memcmp_le_refl zero a = refl
memcmp_le_refl (suc n) [] = refl
memcmp_le_refl (suc n) (x ∷ a) = ground (arith, memcmp_le_refl n a)

occurs-tail :
    (v x : Bytes) (xs : List Bytes)
    → eq_bytes x v ≡ false
    → 0 < occurrences v (x ∷ xs)
    → 0 < occurrences v xs
unfolding occurrences
occurs-tail v x xs f p = ground (arith, f, p)

-- What holds of every string of a list holds of one that occurs.
pub All-occurs :
    (P : Bytes → Type 0) (v : Bytes) (xs : List Bytes) → All P xs → 0 < occurrences v xs → P v
unfolding occurrences
All-occurs P v [] h p = absurd (omega (arith, p))
All-occurs P v (x ∷ xs) h p = elim (Bool-cases (eq_bytes x v)) [
  | inl t ↦ subst P ((eq_bytes_iff x v).0 t) h.0
  | inr f ↦ All-occurs P v xs h.1 (occurs-tail v x xs f p)
]

occurs-later : (v x : Bytes) (xs : List Bytes) → 0 < occurrences v xs → 0 < occurrences v (x ∷ xs)
unfolding occurrences
occurs-later v x xs p = ground (arith, p)

pub occurs-All :
    (P : Bytes → Type 0) (xs : List Bytes) → ((v : Bytes) → 0 < occurrences v xs → P v) → All P xs
occurs-All P [] h = tt
occurs-All P (x ∷ xs) h = (
  h x (omega (arith, occurrences_self x xs)),
  occurs-All P xs (λ v p. h v (occurs-later v x xs p)),
)

pub memcmp_le_antisym :
    (n : ℕ) (a b : Bytes)
    → length a ≡ n
    → length b ≡ n
    → memcmp_le n a b ≡ true
    → memcmp_le n b a ≡ true
    → a ≡ b
unfolding memcmp_le
memcmp_le_antisym zero [] [] h k p q = refl
memcmp_le_antisym (suc n) (x ∷ a) (y ∷ b) h k p q =
    let both : (x ≡ y) × (memcmp_le n a b ≡ true) × (memcmp_le n b a ≡ true) =
      ground (arith, p, q) in
    let rest = memcmp_le_antisym n a b (omega (arith, h)) (omega (arith, k)) both.1 both.2 in
    λ i. both.0 i ∷ rest i
memcmp_le_antisym zero (x ∷ a) b h k p q = absurd (omega (arith, h))
memcmp_le_antisym zero [] (y ∷ b) h k p q = absurd (omega (arith, k))
memcmp_le_antisym (suc n) [] b h k p q = absurd (omega (arith, h))
memcmp_le_antisym (suc n) (x ∷ a) [] h k p q = absurd (omega (arith, k))

-- Two sorted lists of strings of four digits are equal if one is a rearrangement of the other.
pub sorted_unique :
    (xs ys : List Bytes)
    → All (λ b. length b ≡ 4) xs
    → All (λ b. length b ≡ 4) ys
    → IsSorted xs
    → IsSorted ys
    → IsRearranged xs ys
    → xs ≡ ys
sorted_unique [] [] h k p q r = refl
sorted_unique [] (y ∷ ys) h k p q r =
    absurd (omega (arith, r y, occurrences_self y ys, occurrences-nil y))
sorted_unique (x ∷ xs) [] h k p q r =
    absurd (omega (arith, r x, occurrences_self x xs, occurrences-nil x))
sorted_unique (x ∷ xs) (y ∷ ys) h k p q r =
    let up =
      All-occurs (λ b. hex4_le y b ≡ true) x (y ∷ ys) (memcmp_le_refl 4 y, q.0)
        (omega (arith, r x, occurrences_self x xs)) in
    let down =
      All-occurs (λ b. hex4_le x b ≡ true) y (x ∷ xs) (memcmp_le_refl 4 x, p.0)
        (omega (arith, r y, occurrences_self y ys)) in
    let e : x ≡ y = memcmp_le_antisym 4 x y h.0 k.0 down up in
    let rest =
      sorted_unique xs ys h.1 k.1 p.1 q.1
        (λ v. occurrences-cancel v x xs ys (r v ∙ ap (λ z. occurrences v (z ∷ ys)) (sym e))) in
    λ i. e i ∷ rest i

-- So qsort forgets the order that it was given.
pub qsort-IsRearranged :
    (qsort : List Bytes → List Bytes) (xs ys : List Bytes)
    → IsQsort qsort
    → All (λ b. length b ≡ 4) xs
    → IsRearranged xs ys
    → qsort xs ≡ qsort ys
qsort-IsRearranged qsort xs ys w h r =
    sorted_unique (qsort xs) (qsort ys)
      (occurs-All (λ b. length b ≡ 4) (qsort xs)
        (λ v p. All-occurs (λ b. length b ≡ 4) v xs h (omega (arith, w.rearranged xs v, p))))
      (occurs-All (λ b. length b ≡ 4) (qsort ys)
        (λ v p. All-occurs (λ b. length b ≡ 4) v xs h (omega (arith, w.rearranged ys v, r v, p))))
      (w.sorted xs) (w.sorted ys) (λ v. w.rearranged xs v ∙ r v ∙ sym (w.rearranged ys v))
