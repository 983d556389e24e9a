-- ===== src/Treap/Order.antt =====
-- The order of the treap of src/vv/vv-tree.c, and what its operations do to it.
use mtbolt.Common.{
  ℕ, ◌+◌, ◌≤◌, ◌<◌, ◌≡◌, inl, inr, refl, sym, ◌∙◌, ap, arith, List, [], ◌∷◌, ◌++◌, append_assoc,
  append-nil, ltb, All, Bool-cases,
}
use mtbolt.Treap.{Tree, leaf, node, elements, merge, split}
use mtbolt.Treap.Sorted.{Below, From}

module _ {X : Type 0} (key : X → ℕ) where
  -- The keys lie in the range from `lo` to below `hi`, and increase strictly.
  unfoldable pub IsOrdered : ℕ → ℕ → Tree X → Type 0
  IsOrdered lo hi leaf = Unit
  IsOrdered lo hi (node l a y r) =
      (lo ≤ key a) × (key a < hi) × IsOrdered lo (key a) l × IsOrdered (key a + 1) hi r

  pub IsOrdered-wider :
      (lo lo' hi hi' : ℕ) (t : Tree X)
      → lo' ≤ lo
      → hi ≤ hi'
      → IsOrdered lo hi t
      → IsOrdered lo' hi' t
  unfolding IsOrdered
  IsOrdered-wider lo lo' hi hi' leaf p q h = tt
  IsOrdered-wider lo lo' hi hi' (node l a y r) p q h = (
    omega arith,
    omega arith,
    IsOrdered-wider lo lo' (key a) (key a) l p (omega arith) h.2,
    IsOrdered-wider (key a + 1) (key a + 1) hi hi' r (omega arith) q h.3,
  )

  All-append : (P : X → Type 0) (xs ys : List X) → All P xs → All P ys → All P (xs ++ ys)
  All-append P [] ys h k = k
  All-append P (x ∷ xs) ys h k = (h.0, All-append P xs ys h.1 k)

  pub IsOrdered-Below : (lo hi : ℕ) (t : Tree X) → IsOrdered lo hi t → Below key hi (elements t)
  unfolding IsOrdered elements
  IsOrdered-Below lo hi leaf h = tt
  IsOrdered-Below lo hi (node l a y r) h =
      All-append (λ e. key e < hi) (elements l) (a ∷ elements r)
        (IsOrdered-Below lo hi l
          (IsOrdered-wider lo lo (key a) hi l (omega arith) (omega arith) h.2))
        (h.1, IsOrdered-Below (key a + 1) hi r h.3)

  pub IsOrdered-From : (lo hi : ℕ) (t : Tree X) → IsOrdered lo hi t → From key lo (elements t)
  unfolding IsOrdered elements
  IsOrdered-From lo hi leaf h = tt
  IsOrdered-From lo hi (node l a y r) h =
      All-append (λ e. lo ≤ key e) (elements l) (a ∷ elements r) (IsOrdered-From lo (key a) l h.2)
        (
          h.0,
          IsOrdered-From lo hi r
              (IsOrdered-wider (key a + 1) lo hi hi r (omega arith) (omega arith) h.3),
        )

  -- No element has a higher priority than the one above it, nor than `top`.
  unfoldable pub IsHeap : ℕ → Tree X → Type 0
  IsHeap top leaf = Unit
  IsHeap top (node l a y r) = (y ≤ top) × IsHeap y l × IsHeap y r

  pub IsHeap-higher : (top top' : ℕ) (t : Tree X) → top ≤ top' → IsHeap top t → IsHeap top' t
  unfolding IsHeap
  IsHeap-higher top top' leaf p h = tt
  IsHeap-higher top top' (node l a y r) p h = (omega arith, h.1, h.2)

  -- A split at `x`: the elements in order, those up to `x` on the left.
  pub split-elements :
      (t : Tree X) (x : ℕ) → elements (split key t x).0 ++ elements (split key t x).1 ≡ elements t
  unfolding split elements
  split-elements leaf x = refl
  split-elements (node l a y r) x = elim (Bool-cases (ltb x (key a))) [
    | inl t ↦ rw t (
        sym
          (append_assoc (elements (split key l x).0) (elements (split key l x).1) (a ∷ elements r))
        ∙ ap (λ k. k ++ (a ∷ elements r)) (split-elements l x))
    | inr f ↦ rw f (
        append_assoc (elements l) (a ∷ elements (split key r x).0) (elements (split key r x).1)
        ∙ ap (λ k. elements l ++ (a ∷ k)) (split-elements r x))
  ]

  pub split-IsOrdered :
      (lo hi x : ℕ) (t : Tree X)
      → IsOrdered lo hi t
      → IsOrdered lo (x + 1) (split key t x).0 × IsOrdered (x + 1) hi (split key t x).1
  unfolding split IsOrdered
  split-IsOrdered lo hi x leaf h = (tt, tt)
  split-IsOrdered lo hi x (node l a y r) h = elim (Bool-cases (ltb x (key a))) [
    | inl t ↦
        let p = split-IsOrdered lo (key a) x l h.2 in rw t (p.0, (ground arith, h.1, p.1, h.3))
    | inr f ↦
        let p = split-IsOrdered (key a + 1) hi x r h.3 in rw f ((h.0, ground arith, h.2, p.0), p.1)
  ]

  pub split-IsHeap :
      (top x : ℕ) (t : Tree X)
      → IsHeap top t
      → IsHeap top (split key t x).0 × IsHeap top (split key t x).1
  unfolding split IsHeap
  split-IsHeap top x leaf h = (tt, tt)
  split-IsHeap top x (node l a y r) h = elim (Bool-cases (ltb x (key a))) [
    | inl t ↦
        let p = split-IsHeap y x l h.1 in
        rw t (IsHeap-higher y top (split key l x).0 h.0 p.0, (h.0, p.1, h.2))
    | inr f ↦
        let p = split-IsHeap y x r h.2 in
        rw f ((h.0, h.1, p.0), IsHeap-higher y top (split key r x).1 h.0 p.1)
  ]

  pub merge-elements : (l r : Tree X) → elements (merge l r) ≡ elements l ++ elements r
  unfolding merge elements
  merge-elements leaf r = refl
  merge-elements (node ll a y lr) leaf = sym (append-nil (elements (node ll a y lr)))
  merge-elements (node ll a y lr) (node rl b z rr) = elim (Bool-cases (ltb z y)) [
    | inl t ↦ rw t (
        ap (λ k. elements ll ++ (a ∷ k)) (merge-elements lr (node rl b z rr))
        ∙ sym (append_assoc (elements ll) (a ∷ elements lr) (elements rl ++ (b ∷ elements rr))))
    | inr f ↦ rw f (
        ap (λ k. k ++ (b ∷ elements rr)) (merge-elements (node ll a y lr) rl)
        ∙ append_assoc (elements (node ll a y lr)) (elements rl) (b ∷ elements rr))
  ]

  pub merge-IsOrdered :
      (lo mid hi : ℕ) (l r : Tree X)
      → lo ≤ mid
      → mid ≤ hi
      → IsOrdered lo mid l
      → IsOrdered mid hi r
      → IsOrdered lo hi (merge l r)
  unfolding merge IsOrdered
  merge-IsOrdered lo mid hi leaf r p q h k = IsOrdered-wider mid lo hi hi r p (omega arith) k
  merge-IsOrdered lo mid hi (node ll a y lr) leaf p q h k =
      IsOrdered-wider lo lo mid hi (node ll a y lr) (omega arith) q h
  merge-IsOrdered lo mid hi (node ll a y lr) (node rl b z rr) p q h k =
      elim (Bool-cases (ltb z y)) [
        | inl t ↦ rw t (
          h.0,
          omega arith,
          h.2,
          merge-IsOrdered (key a + 1) mid hi lr (node rl b z rr) (omega arith) q h.3 k,
        )
        | inr f ↦ rw f (
          omega arith,
          k.1,
          merge-IsOrdered lo mid (key b) (node ll a y lr) rl p (omega arith) h k.2,
          k.3,
        )
      ]

  pub merge-IsHeap : (top : ℕ) (l r : Tree X) → IsHeap top l → IsHeap top r → IsHeap top (merge l r)
  unfolding merge IsHeap
  merge-IsHeap top leaf r h k = k
  merge-IsHeap top (node ll a y lr) leaf h k = h
  merge-IsHeap top (node ll a y lr) (node rl b z rr) h k = elim (Bool-cases (ltb z y)) [
    | inl t ↦ rw t (h.0, h.1, merge-IsHeap y lr (node rl b z rr) h.2 (ground arith, k.1, k.2))
    | inr f ↦ rw f (k.0, merge-IsHeap z (node ll a y lr) rl (ground arith, h.1, h.2) k.1, k.2)
  ]
