-- ===== src/Treap/Find.antt =====
-- The lookups in the treap of src/vv/vv-tree.c.
use Prim.Native.Nat.{compare}
use Prim.Native.Nat.Ordering.{lt, eq, gt}
use mtbolt.Common.{
  ℕ, ◌+◌, ◌≤◌, ◌<◌, ◌≡◌, ◌⊎◌, inl, inr, refl, sym, ◌∙◌, ap, arith, Option, none, some, ◌∷◌,
}
use mtbolt.Treap.{Tree, leaf, node, elements, lookup, next_from, lookup_next}
use mtbolt.Treap.Sorted.{
  Below, From, find, find_next, or_else, find-left, find-right, find_next-left, find_next-right,
  find-head, find-tail, find_next-head, find_next-tail, Below-weaker,
}
use mtbolt.Treap.Order.{IsOrdered, IsOrdered-wider, IsOrdered-Below, IsOrdered-From}

pub compare-cases :
    (a b : ℕ)
    → ((compare a b ≡ lt) × (a < b))
      ⊎ (((compare a b ≡ eq) × (a ≡ b)) ⊎ ((compare a b ≡ gt) × (b < a)))
compare-cases a b =
    elim (compare a b)
        as (λ o.
          compare a b ≡ o → ((o ≡ lt) × (a < b)) ⊎ (((o ≡ eq) × (a ≡ b)) ⊎ ((o ≡ gt) × (b < a)))) [
            | lt ↦ λ e. inl (refl, ground arith)
            | eq ↦ λ e. inr (inl (refl, ground arith))
            | gt ↦ λ e. inr (inr (refl, ground arith))
          ]
      refl

module _ {X : Type 0} (key : X → ℕ) where
  -- What stands right of a node's element, it included, is above `x`, if `x` is below it.
  pub above :
      (lo hi x : ℕ) (l : Tree X) (a : X) (y : ℕ) (r : Tree X)
      → IsOrdered key lo hi (node l a y r)
      → x < key a
      → From key (x + 1) (a ∷ elements r)
  unfolding IsOrdered
  above lo hi x l a y r h p = (
    omega arith,
    IsOrdered-From key (x + 1) hi r
        (IsOrdered-wider key (key a + 1) (x + 1) hi hi r (omega arith) (omega arith) h.3),
  )

  -- What stands left of a node's element is below `x`, if `x` is not below it.
  pub beneath :
      (lo hi x : ℕ) (l : Tree X) (a : X) (y : ℕ) (r : Tree X)
      → IsOrdered key lo hi (node l a y r)
      → key a ≤ x
      → Below key x (elements l)
  unfolding IsOrdered
  beneath lo hi x l a y r h p =
      Below-weaker key (key a) x (elements l) p (IsOrdered-Below key lo (key a) l h.2)

  pub lookup-find :
      (lo hi x : ℕ) (t : Tree X) → IsOrdered key lo hi t → lookup key t x ≡ find key x (elements t)
  unfolding lookup find elements IsOrdered
  lookup-find lo hi x leaf h = refl
  lookup-find lo hi x (node l a y r) h = elim (compare-cases x (key a)) [
    | inl (e, p) ↦
        rw (e, lookup)
          (lookup-find lo (key a) x l h.2
            ∙ sym (find-left key x (elements l) (a ∷ elements r) (above lo hi x l a y r h p)))
    | inr (inl (e, p)) ↦
        rw (e, lookup)
          (sym (
            find-right key x (elements l) (a ∷ elements r) (beneath lo hi x l a y r h (omega arith))
            ∙ find-head key x a (elements r) p))
    | inr (inr (e, p)) ↦
        rw (e, lookup)
          (lookup-find (key a + 1) hi x r h.3
            ∙ sym (
                find-right key x (elements l) (a ∷ elements r)
                  (beneath lo hi x l a y r h (omega arith))
                ∙ find-tail key x a (elements r) p))
  ]

  pub or_else_assoc :
      (o : Option X) (a : X) (best : Option X)
      → or_else (or_else o (some a)) best ≡ or_else o (some a)
  or_else_assoc none a best = refl
  or_else_assoc (some b) a best = refl

  pub next_from-find_next :
      (lo hi x : ℕ) (best : Option X) (t : Tree X)
      → IsOrdered key lo hi t
      → next_from key best t x ≡ or_else (find_next key x (elements t)) best
  unfolding next_from find_next elements IsOrdered
  next_from-find_next lo hi x best leaf h = refl
  next_from-find_next lo hi x best (node l a y r) h = elim (compare-cases x (key a)) [
    | inl (e, p) ↦
        rw (e, next_from)
          (next_from-find_next lo (key a) x (some a) l h.2
            ∙ sym (
                ap (λ o. or_else o best)
                  (find_next-left key x (elements l) a (elements r) (omega arith))
                ∙ or_else_assoc (find_next key x (elements l)) a best))
    | inr (inl (e, p)) ↦
        rw (e, next_from)
          (sym (
            ap (λ o. or_else o best)
              (find_next-right key x (elements l) (a ∷ elements r)
                  (beneath lo hi x l a y r h (omega arith))
                ∙ find_next-head key x a (elements r) p)))
    | inr (inr (e, p)) ↦
        rw (e, next_from)
          (next_from-find_next (key a + 1) hi x best r h.3
            ∙ sym (
                ap (λ o. or_else o best)
                  (find_next-right key x (elements l) (a ∷ elements r)
                      (beneath lo hi x l a y r h (omega arith))
                    ∙ find_next-tail key x a (elements r) p)))
  ]

  pub lookup-lt :
      (x : ℕ) (l : Tree X) (a : X) (y : ℕ) (r : Tree X)
      → compare x (key a) ≡ lt
      → lookup key (node l a y r) x ≡ lookup key l x
  unfolding lookup
  lookup-lt x l a y r e = rw (e, lookup) refl

  pub lookup-gt :
      (x : ℕ) (l : Tree X) (a : X) (y : ℕ) (r : Tree X)
      → compare x (key a) ≡ gt
      → lookup key (node l a y r) x ≡ lookup key r x
  unfolding lookup
  lookup-gt x l a y r e = rw (e, lookup) refl

  pub lookup-eq :
      (x : ℕ) (l : Tree X) (a : X) (y : ℕ) (r : Tree X)
      → compare x (key a) ≡ eq
      → lookup key (node l a y r) x ≡ some a
  unfolding lookup
  lookup-eq x l a y r e = rw (e, lookup) refl

  pub some_not_none : (a : X) → ¬ (some a ≡ none)
  some_not_none a e = ground (arith, e)

  -- the nil that ends the loop
  pub or_else-none : (o : Option X) → or_else o none ≡ o
  or_else-none none = refl
  or_else-none (some a) = refl

  -- In an ordered tree `tree_lookup_next` finds the first element, in the order of the keys, whose key is
  -- not below the given one.
  pub lookup_next-find_next :
      (lo hi x : ℕ) (t : Tree X)
      → IsOrdered key lo hi t
      → lookup_next key t x ≡ find_next key x (elements t)
  unfolding lookup_next
  lookup_next-find_next lo hi x t h =
      next_from-find_next lo hi x none t h ∙ or_else-none (find_next key x (elements t))
