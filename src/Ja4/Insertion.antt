-- ===== src/Ja4/Insertion.antt =====
-- A sort that does what ja4_compute of src/net/net-ja4.c asks of qsort.
use mtbolt.Common.{
  ℕ, zero, suc, ◌≡◌, inl, inr, refl, arith, true, false, List, [], ◌∷◌, Bytes, length, All,
  if◌then◌else◌, Bool-cases,
}
use mtbolt.Ja4.Sorting.{memcmp_le, hex4_le, occurrences, IsSorted, IsQsort}

memcmp_le_trans :
    (n : ℕ) (a b c : Bytes)
    → memcmp_le n a b ≡ true
    → memcmp_le n b c ≡ true
    → memcmp_le n a c ≡ true
unfolding memcmp_le
memcmp_le_trans zero a b c p q = refl
memcmp_le_trans (suc n) [] b c p q = refl
memcmp_le_trans (suc n) (x ∷ a) [] c p q = absurd (ground (arith, p))
memcmp_le_trans (suc n) (x ∷ a) (y ∷ b) [] p q = q
memcmp_le_trans (suc n) (x ∷ a) (y ∷ b) (z ∷ c) p q = ground (arith, p, q, memcmp_le_trans n a b c)

memcmp_le_total : (n : ℕ) (a b : Bytes) → memcmp_le n a b ≡ false → memcmp_le n b a ≡ true
unfolding memcmp_le
memcmp_le_total zero a b f = refl
memcmp_le_total (suc n) [] b f = absurd (ground (arith, f))
memcmp_le_total (suc n) (x ∷ a) [] f = refl
memcmp_le_total (suc n) (x ∷ a) (y ∷ b) f = ground (arith, f, memcmp_le_total n a b)

unfoldable pub insert_string : Bytes → List Bytes → List Bytes
insert_string x [] = x ∷ []
insert_string x (y ∷ ys) =
    let rest = y ∷ insert_string x ys in if hex4_le x y then x ∷ y ∷ ys else rest

unfoldable pub sort_strings : List Bytes → List Bytes
unfolding insert_string
sort_strings [] = []
sort_strings (x ∷ xs) = insert_string x (sort_strings xs)

occurrences-insert :
    (v x : Bytes) (ys : List Bytes) → occurrences v (insert_string x ys) ≡ occurrences v (x ∷ ys)
unfolding insert_string occurrences
occurrences-insert v x [] = refl
occurrences-insert v x (y ∷ ys) = ground (arith, occurrences-insert v x ys)

length-insert : (x : Bytes) (ys : List Bytes) → length (insert_string x ys) ≡ suc (length ys)
unfolding insert_string
length-insert x [] = refl
length-insert x (y ∷ ys) = ground (arith, length-insert x ys)

All-insert :
    (z x : Bytes) (ys : List Bytes)
    → hex4_le z x ≡ true
    → All (λ y. hex4_le z y ≡ true) ys
    → All (λ y. hex4_le z y ≡ true) (insert_string x ys)
unfolding insert_string
All-insert z x [] p h = (p, tt)
All-insert z x (y ∷ ys) p h = elim (Bool-cases (hex4_le x y)) [
  | inl t ↦ rw t (p, h)
  | inr f ↦ rw f (h.0, All-insert z x ys p h.1)
]

All-weaker :
    (x y : Bytes) (ys : List Bytes)
    → hex4_le x y ≡ true
    → All (λ z. hex4_le y z ≡ true) ys
    → All (λ z. hex4_le x z ≡ true) ys
All-weaker x y [] p h = tt
All-weaker x y (z ∷ ys) p h = (memcmp_le_trans 4 x y z p h.0, All-weaker x y ys p h.1)

insert-IsSorted : (x : Bytes) (ys : List Bytes) → IsSorted ys → IsSorted (insert_string x ys)
unfolding insert_string
insert-IsSorted x [] s = (tt, tt)
insert-IsSorted x (y ∷ ys) s = elim (Bool-cases (hex4_le x y)) [
  | inl t ↦ rw t ((t, All-weaker x y ys t s.0), s)
  | inr f ↦ rw f (All-insert y x ys (memcmp_le_total 4 x y f) s.0, insert-IsSorted x ys s.1)
]

sort_strings-IsSorted : (xs : List Bytes) → IsSorted (sort_strings xs)
unfolding sort_strings
sort_strings-IsSorted [] = tt
sort_strings-IsSorted (x ∷ xs) = insert-IsSorted x (sort_strings xs) (sort_strings-IsSorted xs)

occurrences-sort :
    (v : Bytes) (xs : List Bytes) → occurrences v (sort_strings xs) ≡ occurrences v xs
unfolding sort_strings occurrences
occurrences-sort v [] = refl
occurrences-sort v (x ∷ xs) =
    ground (arith, occurrences-insert v x (sort_strings xs), occurrences-sort v xs)

length-sort : (xs : List Bytes) → length (sort_strings xs) ≡ length xs
unfolding sort_strings
length-sort [] = refl
length-sort (x ∷ xs) = omega (arith, length-insert x (sort_strings xs), length-sort xs)

pub sort_strings-IsQsort : IsQsort sort_strings
sort_strings-IsQsort = record {
  sorted = sort_strings-IsSorted;
  rearranged = λ xs v. occurrences-sort v xs;
  length_kept = length-sort;
}
