-- ===== src/Treap/Tests.antt =====
-- Five elements, inserted with priorities.
use mtbolt.Common.{ℕ, ◌≡◌, refl, arith, Option, none, some, [], ◌∷◌}
use mtbolt.Treap.{Tree, leaf, node, elements, insert, delete, lookup, lookup_next}
use mtbolt.Treap.Order.{IsOrdered, IsHeap}
use mtbolt.Treap.Sorted.{insert_sorted, remove}
use mtbolt.Treap.Refine.{Holds, insert-Holds, delete-Holds}

abbrev id : ℕ → ℕ
id x = x

abbrev or_leaf : Option (Tree ℕ) → Tree ℕ
or_leaf none = leaf
or_leaf (some t) = t

abbrev five : Tree ℕ
five = node (node leaf 10 6 leaf) 20 9 (node (node leaf 25 3 leaf) 30 8 (node leaf 40 2 leaf))

five-IsOrdered : IsOrdered id 0 100 five
unfolding IsOrdered
five-IsOrdered = ground arith

five-IsHeap : IsHeap id 50 five
unfolding IsHeap
five-IsHeap = ground arith

-- The new priority is above that of 30, whose subtree is split.
inserted : elements (or_leaf (insert id five 27 9)) ≡ 10 ∷ 20 ∷ 25 ∷ 27 ∷ 30 ∷ 40 ∷ []
unfolding insert elements
inserted = refl

twice : insert id five 25 1 ≡ none
unfolding insert
twice = refl

after_22 : lookup_next id five 22 ≡ some 25
unfolding lookup_next
after_22 = refl

insert-Holds_example : Holds id 0 100 50 (insert_sorted id 27 (elements five)) (insert id five 27 8)
unfolding lookup
insert-Holds_example =
    insert-Holds id 0 100 50 five 27 8 five-IsOrdered five-IsHeap (omega arith) (omega arith)
      (omega arith) refl

delete-Holds_example : Holds id 0 100 50 (remove id 20 (elements five)) (delete id five 20)
unfolding lookup
delete-Holds_example = delete-Holds id 0 100 50 five 20 20 five-IsOrdered five-IsHeap refl
