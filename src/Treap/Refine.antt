-- ===== src/Treap/Refine.antt =====
-- The treap of src/vv/vv-tree.c is a set: a list in the order of the keys.
use mtbolt.Common.{
  ℕ, ◌+◌, ◌≤◌, ◌<◌, ◌≡◌, inl, inr, refl, sym, ◌∙◌, subst, ap, arith, false, Option, none, some,
  List, ◌∷◌, ◌++◌, ltb, Bool-cases, lt→ltb,
}
use mtbolt.Treap.{Tree, leaf, node, elements, split, insert, delete, with_left, with_right, lookup}
use mtbolt.Treap.Sorted.{
  insert_sorted, remove, insert_sorted-left, insert_sorted-right, insert_sorted-head, remove-left,
  remove-right, remove-head, remove-tail, insert_sorted-tail,
}
use mtbolt.Treap.Order.{
  IsOrdered, IsOrdered-wider, IsOrdered-Below, IsOrdered-From, IsHeap, IsHeap-higher,
  split-elements, split-IsOrdered, split-IsHeap, merge-elements, merge-IsOrdered, merge-IsHeap,
}
use mtbolt.Treap.Find.{
  compare-cases, above, beneath, lookup-lt, lookup-gt, lookup-eq, some_not_none,
}

module _ {X : Type 0} (key : X → ℕ) where
  -- Where `x` is not in the tree, what a split leaves on its left is below `x`.
  split-IsOrdered_absent :
      (lo hi x : ℕ) (t : Tree X)
      → IsOrdered key lo hi t
      → lookup key t x ≡ none
      → IsOrdered key lo x (split key t x).0
  unfolding split IsOrdered
  split-IsOrdered_absent lo hi x leaf h n = tt
  split-IsOrdered_absent lo hi x (node l a y r) h n = elim (compare-cases x (key a)) [
    | inl (e, p) ↦
        rw (lt→ltb x (key a) p)
          (split-IsOrdered_absent lo (key a) x l h.2 (sym (lookup-lt key x l a y r e) ∙ n))
    | inr (inl (e, p)) ↦ absurd (some_not_none key a (sym (lookup-eq key x l a y r e) ∙ n))
    | inr (inr (e, p)) ↦
        let f : ltb x (key a) ≡ false = ground (arith, p) in
        rw f (
          h.0,
          p,
          h.2,
          split-IsOrdered_absent (key a + 1) hi x r h.3 (sym (lookup-gt key x l a y r e) ∙ n),
        )
  ]

  -- A tree in order, with the elements of a list.
  abbrev pub Holds : ℕ → ℕ → ℕ → List X → Option (Tree X) → Type 0
  Holds lo hi top es none = ⊥
  Holds lo hi top es (some t) = IsOrdered key lo hi t × IsHeap key top t × (elements t ≡ es)

  with_left-Holds :
      (lo hi top : ℕ) (es : List X) (a : X) (z : ℕ) (r : Tree X) (o : Option (Tree X))
      → lo ≤ key a
      → key a < hi
      → z ≤ top
      → IsOrdered key (key a + 1) hi r
      → IsHeap key z r
      → Holds lo (key a) z es o
      → Holds lo hi top (es ++ (a ∷ elements r)) (with_left a z r o)
  unfolding elements IsOrdered IsHeap
  with_left-Holds lo hi top es a z r none p q u h k w = w
  with_left-Holds lo hi top es a z r (some l) p q u h k w =
      ((p, q, w.0, h), (u, w.1, k), ap (λ b. b ++ (a ∷ elements r)) w.2)

  with_right-Holds :
      (lo hi top : ℕ) (es : List X) (l : Tree X) (a : X) (z : ℕ) (o : Option (Tree X))
      → lo ≤ key a
      → key a < hi
      → z ≤ top
      → IsOrdered key lo (key a) l
      → IsHeap key z l
      → Holds (key a + 1) hi z es o
      → Holds lo hi top (elements l ++ (a ∷ es)) (with_right l a z o)
  unfolding elements IsOrdered IsHeap
  with_right-Holds lo hi top es l a z none p q u h k w = w
  with_right-Holds lo hi top es l a z (some r) p q u h k w =
      ((p, q, h, w.0), (u, k, w.1), ap (λ b. elements l ++ (a ∷ b)) w.2)

  -- The new element at the root, over the halves of a tree of lower priorities.
  rooted-Holds :
      (lo hi top : ℕ) (t : Tree X) (x : X) (y : ℕ)
      → IsOrdered key lo hi t
      → IsHeap key y t
      → lo ≤ key x
      → key x < hi
      → y ≤ top
      → lookup key t (key x) ≡ none
      → Holds lo hi top
          (insert_sorted key x (elements t))
          (some (node (split key t (key x)).0 x y (split key t (key x)).1))
  unfolding elements IsOrdered IsHeap
  rooted-Holds lo hi top t x y h k low high le n =
      let p = split key t (key x) in
      let o = split-IsOrdered key lo hi (key x) t h in
      let w = split-IsHeap key y (key x) t k in
      (
        (low, high, split-IsOrdered_absent lo hi (key x) t h n, o.1),
        (le, w.0, w.1),
        sym (
            ap (insert_sorted key x) (sym (split-elements key t (key x)))
            ∙ insert_sorted-right key x (elements p.0) (elements p.1)
                (IsOrdered-Below key lo (key x + 1) p.0 o.0)
            ∙ ap (λ b. elements p.0 ++ b)
                (insert_sorted-head key x (elements p.1)
                  (IsOrdered-From key (key x + 1) hi p.1 o.1))),
      )

  -- Inserting an element whose key the tree lacks, with a priority, asserts nothing false, and gives an
  -- ordered heap whose elements are those before with the new one at its place.
  pub insert-Holds :
      (lo hi top : ℕ) (t : Tree X) (x : X) (y : ℕ)
      → IsOrdered key lo hi t
      → IsHeap key top t
      → lo ≤ key x
      → key x < hi
      → y ≤ top
      → lookup key t (key x) ≡ none
      → Holds lo hi top (insert_sorted key x (elements t)) (insert key t x y)
  unfolding insert insert_sorted elements IsOrdered IsHeap
  insert-Holds lo hi top leaf x y h k low high le n = ((low, high, tt, tt), (le, tt, tt), refl)
  insert-Holds lo hi top (node l a z r) x y h k low high le n = elim (Bool-cases (ltb y z)) [
    | inl t ↦ elim (compare-cases (key x) (key a)) [
      | inl (e, p) ↦
          rw (t, e, insert)
            (rw (insert_sorted-left key x a (elements l) (elements r) p) (
              with_left-Holds lo hi top (insert_sorted key x (elements l)) a z r (insert key l x y)
                h.0 h.1 k.0 h.3 k.2
                (insert-Holds lo (key a) z l x y h.2 k.1 low p (ground arith)
                  (sym (lookup-lt key (key x) l a z r e) ∙ n))))
      | inr (inl (e, p)) ↦ absurd (some_not_none key a (sym (lookup-eq key (key x) l a z r e) ∙ n))
      | inr (inr (e, p)) ↦
          rw (t, e, insert)
            (subst (λ es. Holds lo hi top es (with_right l a z (insert key r x y)))
              (sym (
                insert_sorted-right key x (elements l) (a ∷ elements r)
                  (beneath key lo hi (key x + 1) l a z r h (omega arith))
                ∙ ap (λ b. elements l ++ b) (insert_sorted-tail key x a (elements r) p)))
              (with_right-Holds lo hi top (insert_sorted key x (elements r)) l a z
                (insert key r x y) h.0 h.1 k.0 h.2 k.1
                (insert-Holds (key a + 1) hi z r x y h.3 k.2 (omega arith) high (ground arith)
                  (sym (lookup-gt key (key x) l a z r e) ∙ n))))
    ]
    | inr f ↦
        rw (f, insert)
          (rooted-Holds lo hi top (node l a z r) x y h (ground arith, k.1, k.2) low high le n)
  ]

  -- Deleting a key that the tree has asserts nothing false, and gives an ordered heap whose elements are
  -- those before without the one of that key.
  pub delete-Holds :
      (lo hi top : ℕ) (t : Tree X) (x : ℕ) (b : X)
      → IsOrdered key lo hi t
      → IsHeap key top t
      → lookup key t x ≡ some b
      → Holds lo hi top (remove key x (elements t)) (delete key t x)
  unfolding delete remove elements IsOrdered IsHeap lookup
  delete-Holds lo hi top leaf x b h k f = absurd (some_not_none key b (sym f))
  delete-Holds lo hi top (node l a z r) x b h k f = elim (compare-cases x (key a)) [
    | inl (e, p) ↦
        rw (e, delete)
          (rw (remove-left key x (elements l) (a ∷ elements r) (above key lo hi x l a z r h p)) (
            with_left-Holds lo hi top (remove key x (elements l)) a z r (delete key l x) h.0 h.1 k.0
              h.3 k.2
              (delete-Holds lo (key a) z l x b h.2 k.1 (sym (lookup-lt key x l a z r e) ∙ f))))
    | inr (inl (e, p)) ↦
        rw (e, delete)
          (
            merge-IsOrdered key lo (key a) hi l r h.0 (omega arith) h.2
                (IsOrdered-wider key (key a + 1) (key a) hi hi r (omega arith) (omega arith) h.3),
            merge-IsHeap key top l r (IsHeap-higher key z top l k.0 k.1)
                (IsHeap-higher key z top r k.0 k.2),
            merge-elements key l r
                ∙ sym (
                    remove-right key x (elements l) (a ∷ elements r)
                      (beneath key lo hi x l a z r h (omega arith))
                    ∙ ap (λ c. elements l ++ c) (remove-head key x a (elements r) p)),
          )
    | inr (inr (e, p)) ↦
        rw (e, delete)
          (subst (λ es. Holds lo hi top es (with_right l a z (delete key r x)))
            (sym (
              remove-right key x (elements l) (a ∷ elements r)
                (beneath key lo hi x l a z r h (omega arith))
              ∙ ap (λ c. elements l ++ c) (remove-tail key x a (elements r) p)))
            (with_right-Holds lo hi top (remove key x (elements r)) l a z (delete key r x) h.0 h.1
              k.0 h.2 k.1
              (delete-Holds (key a + 1) hi z r x b h.3 k.2 (sym (lookup-gt key x l a z r e) ∙ f))))
  ]
