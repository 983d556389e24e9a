-- ===== src/Treap.antt =====
-- The treap of src/vv/vv-tree.c, which src/net/net-conn-targets.c, src/net/net-rpc-targets.c and
-- src/engine/engine-rpc.c include. An element is compared by a number, its `key`. A tree is its
-- contents: a node that several trees share is in each, so cloning it and counting references leave no
-- trace. `none` is a failed assertion.
pub mod Sorted
pub mod Order
pub mod Find
pub mod Refine
pub mod Shape
mod Tests
use Prim.Native.Nat.{compare}
use Prim.Native.Nat.Ordering.{lt, eq, gt}
use mtbolt.Common.{
  ℕ, suc, ◌+◌, Bool, true, false, ◌&&◌, Option, none, some, List, [], ◌∷◌, ◌++◌, ltb, leb,
  if◌then◌else◌,
}

pub data Tree (X : Type 0) : Type 0 where
  leaf : Tree X
  node : Tree X → X → ℕ → Tree X → Tree X

module _ {X : Type 0} where
  -- the order in which `tree_act` visits the elements
  unfoldable pub elements : Tree X → List X
  elements leaf = []
  elements (node l a y r) = elements l ++ (a ∷ elements r)

  unfoldable pub count : Tree X → ℕ
  count leaf = 0
  count (node l a y r) = 1 + count l + count r

  unfoldable pub get_min : Tree X → Option X
  get_min leaf = none
  get_min (node leaf a y r) = some a
  get_min (node (node ll b z lr) a y r) = get_min (node ll b z lr)

  unfoldable pub get_max : Tree X → Option X
  get_max leaf = none
  get_max (node l a y leaf) = some a
  get_max (node l a y (node rl b z rr)) = get_max (node rl b z rr)

  unfoldable pub merge : Tree X → Tree X → Tree X
  merge leaf r = r
  merge (node ll a y lr) leaf = node ll a y lr
  merge (node ll a y lr) (node rl b z rr) =
      let under_left = node ll a y (merge lr (node rl b z rr)) in
      let under_right = node (merge (node ll a y lr) rl) b z rr in
      if ltb z y then under_left else under_right

  abbrev pub with_left : X → ℕ → Tree X → Option (Tree X) → Option (Tree X)
  with_left a y r none = none
  with_left a y r (some l) = some (node l a y r)

  abbrev pub with_right : Tree X → X → ℕ → Option (Tree X) → Option (Tree X)
  with_right l a y none = none
  with_right l a y (some r) = some (node l a y r)

module _ {X : Type 0} (key : X → ℕ) where
  unfoldable pub lookup : Tree X → ℕ → Option X
  lookup leaf x = none
  lookup (node l a y r) x = elim (compare x (key a)) [
    | lt ↦ lookup l x
    | eq ↦ some a
    | gt ↦ lookup r x
  ]

  -- the loop, with the best node so far
  unfoldable pub next_from : Option X → Tree X → ℕ → Option X
  next_from best leaf x = best
  next_from best (node l a y r) x = elim (compare x (key a)) [
    | lt ↦ next_from (some a) l x
    | eq ↦ some a
    | gt ↦ next_from best r x
  ]

  unfoldable pub lookup_next : Tree X → ℕ → Option X
  unfolding next_from
  lookup_next t x = next_from none t x

  unfoldable pub split : Tree X → ℕ → Tree X × Tree X
  split leaf x = (leaf, leaf)
  split (node l a y r) x =
      let in_left = split l x in
      let in_right = split r x in
      if ltb x (key a)
      then (in_left.0, node in_left.1 a y r)
      else (node l a y in_right.0, in_right.1)

  unfoldable pub insert : Tree X → X → ℕ → Option (Tree X)
  unfolding split
  insert leaf x y = some (node leaf x y leaf)
  insert (node l a z r) x y = elim (ltb y z) [
    | true ↦ elim (compare (key x) (key a)) [
      | lt ↦ with_left a z r (insert l x y)
      | eq ↦ none
      | gt ↦ with_right l a z (insert r x y)
    ]
    | false ↦ let p = split (node l a z r) (key x) in some (node p.0 x y p.1)
  ]

  unfoldable pub delete : Tree X → ℕ → Option (Tree X)
  unfolding merge
  delete leaf x = none
  delete (node l a y r) x = elim (compare x (key a)) [
    | lt ↦ with_left a y r (delete l x)
    | eq ↦ some (merge l r)
    | gt ↦ with_right l a y (delete r x)
  ]

  -- the assertions of `tree_check` on a child
  abbrev pub left_ok : Tree X → X → ℕ → Bool
  left_ok leaf a y = true
  left_ok (node l b z r) a y = leb z y && ltb (key b) (key a)

  abbrev pub right_ok : Tree X → X → ℕ → Bool
  right_ok leaf a y = true
  right_ok (node l b z r) a y = leb z y && ltb (key a) (key b)

  unfoldable pub check : Tree X → Bool
  check leaf = true
  check (node l a y r) = left_ok l a y && (right_ok r a y && (check l && check r))
