-- ===== src/Secrets/Bloom/Old.antt =====
-- An address that was added to the filter of src/net/net-tcp-rpc-ext-uniq-bloom.c stays in it.
use mtbolt.Common.{
  ℕ, ◌≡◌, inl, inr, refl, sym, subst, arith, Bool, true, false, List, [], ◌∷◌, Bytes, Bool-cases,
}
use mtbolt.Secrets.Bloom.{hashes, has_bit, set_bits, test_and_set}

-- Every bit is set.
abbrev HasAll : List ℕ → List ℕ → Type 0
HasAll bloom [] = Unit
HasAll bloom (h ∷ hs) = (has_bit bloom h ≡ true) × HasAll bloom hs

-- The bits of one bitmap are set in another.
abbrev IsWithin : List ℕ → List ℕ → Type 0
IsWithin bloom bloom' = (b : ℕ) → has_bit bloom b ≡ true → has_bit bloom' b ≡ true

has_bit-head : (h : ℕ) (bloom : List ℕ) → has_bit (h ∷ bloom) h ≡ true
unfolding has_bit
has_bit-head h bloom = ground arith

has_bit-tail : (h : ℕ) (bloom : List ℕ) → IsWithin bloom (h ∷ bloom)
unfolding has_bit
has_bit-tail h bloom b k = ground (arith, k)

HasAll-IsWithin :
    (bloom bloom' hs : List ℕ) → IsWithin bloom bloom' → HasAll bloom hs → HasAll bloom' hs
HasAll-IsWithin bloom bloom' [] w h = tt
HasAll-IsWithin bloom bloom' (x ∷ hs) w h = (w x h.0, HasAll-IsWithin bloom bloom' hs w h.1)

set_bits-IsWithin :
    (hs : List ℕ) (novel : Bool) (bloom : List ℕ) → IsWithin bloom (set_bits hs novel bloom).1
unfolding set_bits
set_bits-IsWithin [] novel bloom b k = k
set_bits-IsWithin (h ∷ hs) novel bloom b k = elim (Bool-cases (has_bit bloom h)) [
  | inl t ↦ rw t (set_bits-IsWithin hs novel bloom b k)
  | inr f ↦ rw f (set_bits-IsWithin hs true (h ∷ bloom) b (has_bit-tail h bloom b k))
]

set_bits-set :
    (h : ℕ) (hs : List ℕ) (novel : Bool) (bloom : List ℕ)
    → has_bit bloom h ≡ true
    → set_bits (h ∷ hs) novel bloom ≡ set_bits hs novel bloom
unfolding set_bits
set_bits-set h hs novel bloom t = rw t refl

set_bits-clear :
    (h : ℕ) (hs : List ℕ) (novel : Bool) (bloom : List ℕ)
    → has_bit bloom h ≡ false
    → set_bits (h ∷ hs) novel bloom ≡ set_bits hs true (h ∷ bloom)
unfolding set_bits
set_bits-clear h hs novel bloom f = rw f refl

set_bits-HasAll :
    (hs : List ℕ) (novel : Bool) (bloom : List ℕ) → HasAll (set_bits hs novel bloom).1 hs
set_bits-HasAll [] novel bloom = tt
set_bits-HasAll (h ∷ hs) novel bloom = elim (Bool-cases (has_bit bloom h)) [
  | inl t ↦
      subst (λ r. HasAll r.1 (h ∷ hs)) (sym (set_bits-set h hs novel bloom t))
        (set_bits-IsWithin hs novel bloom h t, set_bits-HasAll hs novel bloom)
  | inr f ↦
      subst (λ r. HasAll r.1 (h ∷ hs)) (sym (set_bits-clear h hs novel bloom f))
        (
          set_bits-IsWithin hs true (h ∷ bloom) h (has_bit-head h bloom),
          set_bits-HasAll hs true (h ∷ bloom),
        )
]

set_bits-old :
    (hs : List ℕ) (novel : Bool) (bloom : List ℕ)
    → HasAll bloom hs
    → (set_bits hs novel bloom).0 ≡ novel
unfolding set_bits
set_bits-old [] novel bloom h = refl
set_bits-old (x ∷ hs) novel bloom h = rw h.0 (set_bits-old hs novel bloom h.1)

-- The bitmap after more addresses.
unfoldable pub add_all : List (ℕ × Bytes) → List ℕ → List ℕ
add_all [] bloom = bloom
add_all (a ∷ rest) bloom = add_all rest (test_and_set a.0 a.1 bloom).1

add_all-IsWithin :
    (later : List (ℕ × Bytes)) (bloom : List ℕ) → IsWithin bloom (add_all later bloom)
unfolding add_all test_and_set
add_all-IsWithin [] bloom b k = k
add_all-IsWithin (a ∷ rest) bloom b k =
    add_all-IsWithin rest (test_and_set a.0 a.1 bloom).1 b
      (set_bits-IsWithin (hashes a.0 a.1) false bloom b k)

-- An address that was added is not novel again, whatever addresses are added in between.
pub test_and_set-old :
    (ip : ℕ) (ipv6 : Bytes) (bloom : List ℕ) (later : List (ℕ × Bytes))
    → (test_and_set ip ipv6 (add_all later (test_and_set ip ipv6 bloom).1)).0 ≡ false
unfolding test_and_set
test_and_set-old ip ipv6 bloom later =
    let hs = hashes ip ipv6 in
    let added = set_bits hs false bloom in
    set_bits-old hs false (add_all later added.1) (
      HasAll-IsWithin added.1 (add_all later added.1) hs (add_all-IsWithin later added.1)
        (set_bits-HasAll hs false bloom))
