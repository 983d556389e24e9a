-- ===== src/Treap/Shape.antt =====
-- The assertions of `tree_check` of src/vv/vv-tree.c, and what its readers of a tree return.
use mtbolt.Common.{
  ℕ, ◌+◌, ◌≡◌, refl, sym, ◌∙◌, arith, true, Option, none, some, List, [], ◌∷◌, ◌++◌, length,
  length-append,
}
use mtbolt.Treap.{Tree, leaf, node, elements, count, get_min, get_max, left_ok, right_ok, check}
use mtbolt.Treap.Order.{IsOrdered, IsHeap}

module _ {X : Type 0} where
  abbrev pub first : List X → Option X
  first [] = none
  first (a ∷ as') = some a

  abbrev pub last : List X → Option X
  last [] = none
  last (a ∷ []) = some a
  last (a ∷ b ∷ as') = last (b ∷ as')

  first-append : (a : X) (as' bs : List X) → first ((a ∷ as') ++ bs) ≡ some a
  first-append a as' bs = refl

  first-middle :
      (as' : List X) (a : X) (bs cs : List X)
      → first ((as' ++ (a ∷ bs)) ++ cs) ≡ first (as' ++ (a ∷ bs))
  first-middle [] a bs cs = refl
  first-middle (b ∷ as') a bs cs = refl

  last-append : (as' : List X) (b : X) (bs : List X) → last (as' ++ (b ∷ bs)) ≡ last (b ∷ bs)
  last-append [] b bs = refl
  last-append (a ∷ []) b bs = refl
  last-append (a ∷ c ∷ as') b bs = last-append (c ∷ as') b bs

  last-cons :
      (a : X) (as' : List X) (b : X) (bs : List X)
      → last (a ∷ (as' ++ (b ∷ bs))) ≡ last (as' ++ (b ∷ bs))
  last-cons a [] b bs = refl
  last-cons a (c ∷ as') b bs = refl

  count-length : (t : Tree X) → count t ≡ length (elements t)
  unfolding count elements
  count-length leaf = refl
  count-length (node l a y r) =
      omega (arith, length-append (elements l) (a ∷ elements r), count-length l, count-length r)

  get_min-first : (t : Tree X) → get_min t ≡ first (elements t)
  unfolding get_min elements
  get_min-first leaf = refl
  get_min-first (node leaf a y r) = refl
  get_min-first (node (node ll b z lr) a y r) =
      get_min-first (node ll b z lr)
      ∙ sym (first-middle (elements ll) b (elements lr) (a ∷ elements r))

  get_max-last : (t : Tree X) → get_max t ≡ last (elements t)
  unfolding get_max elements
  get_max-last leaf = refl
  get_max-last (node l a y leaf) = sym (last-append (elements l) a [])
  get_max-last (node l a y (node rl b z rr)) =
      get_max-last (node rl b z rr)
      ∙ sym (
          last-append (elements l) a (elements rl ++ (b ∷ elements rr))
          ∙ last-cons a (elements rl) b (elements rr))

module _ {X : Type 0} (key : X → ℕ) where
  left_ok-true :
      (lo top y : ℕ) (a : X) (l : Tree X)
      → IsOrdered key lo (key a) l
      → IsHeap key y l
      → left_ok key l a y ≡ true
  unfolding IsOrdered IsHeap
  left_ok-true lo top y a leaf h k = refl
  left_ok-true lo top y a (node ll b z lr) h k = ground arith

  right_ok-true :
      (hi top y : ℕ) (a : X) (r : Tree X)
      → IsOrdered key (key a + 1) hi r
      → IsHeap key y r
      → right_ok key r a y ≡ true
  unfolding IsOrdered IsHeap
  right_ok-true hi top y a leaf h k = refl
  right_ok-true hi top y a (node rl b z rr) h k = ground arith

  check-true :
      (lo hi top : ℕ) (t : Tree X) → IsOrdered key lo hi t → IsHeap key top t → check key t ≡ true
  unfolding check IsOrdered IsHeap
  check-true lo hi top leaf h k = refl
  check-true lo hi top (node l a y r) h k =
      rw
        (
          left_ok-true lo top y a l h.2 k.1,
          right_ok-true hi top y a r h.3 k.2,
          check-true lo (key a) y l h.2 k.1,
          check-true (key a + 1) hi y r h.3 k.2,
        )
        refl

  -- What a caller may rely on, of every tree that is in order.
  abbrev pub IsSound : Tree X → Type 0
  IsSound t =
      (check key t ≡ true)
      × (count t ≡ length (elements t))
      × (get_min t ≡ first (elements t))
      × (get_max t ≡ last (elements t))

  -- In an ordered tree the assertions of `tree_check` hold, and its count, its least and its greatest
  -- element are those of the list of its elements.
  pub IsOrdered-IsSound :
      (lo hi top : ℕ) (t : Tree X) → IsOrdered key lo hi t → IsHeap key top t → IsSound t
  IsOrdered-IsSound lo hi top t h k =
      (check-true lo hi top t h k, count-length t, get_min-first t, get_max-last t)
