-- ===== src/Treap/Sorted.antt =====
-- Sets as lists in the order of their keys: what the treap of src/vv/vv-tree.c stands for.
use mtbolt.Common.{
  ℕ, ◌+◌, ◌≤◌, ◌<◌, ◌≡◌, inl, inr, refl, arith, Option, none, some, List, [], ◌∷◌, ◌++◌, ltb, ◌==◌,
  if◌then◌else◌, All, Bool-cases,
}

module _ {X : Type 0} where
  -- the first of two results
  abbrev pub or_else : Option X → Option X → Option X
  or_else none o = o
  or_else (some a) o = some a

module _ {X : Type 0} (key : X → ℕ) where
  unfoldable pub insert_sorted : X → List X → List X
  insert_sorted x [] = x ∷ []
  insert_sorted x (a ∷ as') =
      let rest = a ∷ insert_sorted x as' in if ltb (key x) (key a) then x ∷ a ∷ as' else rest

  unfoldable pub remove : ℕ → List X → List X
  remove x [] = []
  remove x (a ∷ as') = let rest = a ∷ remove x as' in if x == key a then as' else rest

  unfoldable pub find : ℕ → List X → Option X
  find x [] = none
  find x (a ∷ as') = let rest = find x as' in if x == key a then some a else rest

  -- the first whose key is not below `x`
  unfoldable pub find_next : ℕ → List X → Option X
  find_next x [] = none
  find_next x (a ∷ as') = let rest = find_next x as' in if ltb (key a) x then rest else some a

  abbrev pub Below : ℕ → List X → Type 0
  Below b = All (λ e. key e < b)

  abbrev pub From : ℕ → List X → Type 0
  From b = All (λ e. b ≤ key e)

  pub insert_sorted-left :
      (x a : X) (as' bs : List X)
      → key x < key a
      → insert_sorted x (as' ++ (a ∷ bs)) ≡ insert_sorted x as' ++ (a ∷ bs)
  unfolding insert_sorted
  insert_sorted-left x a [] bs h = ground arith
  insert_sorted-left x a (e ∷ as') bs h = ground (arith, insert_sorted-left x a as' bs)

  pub insert_sorted-right :
      (x : X) (as' bs : List X)
      → Below (key x + 1) as'
      → insert_sorted x (as' ++ bs) ≡ as' ++ insert_sorted x bs
  unfolding insert_sorted
  insert_sorted-right x [] bs h = refl
  insert_sorted-right x (e ∷ as') bs h = ground (arith, insert_sorted-right x as' bs)

  pub insert_sorted-head :
      (x : X) (as' : List X) → From (key x + 1) as' → insert_sorted x as' ≡ x ∷ as'
  unfolding insert_sorted
  insert_sorted-head x [] h = refl
  insert_sorted-head x (a ∷ as') h = ground arith

  pub remove-right :
      (x : ℕ) (as' bs : List X) → Below x as' → remove x (as' ++ bs) ≡ as' ++ remove x bs
  unfolding remove
  remove-right x [] bs h = refl
  remove-right x (e ∷ as') bs h = ground (arith, remove-right x as' bs)

  pub remove-above : (x : ℕ) (as' : List X) → From (x + 1) as' → remove x as' ≡ as'
  unfolding remove
  remove-above x [] h = refl
  remove-above x (a ∷ as') h = ground (arith, remove-above x as')

  pub remove-left :
      (x : ℕ) (as' bs : List X) → From (x + 1) bs → remove x (as' ++ bs) ≡ remove x as' ++ bs
  unfolding remove
  remove-left x [] bs h = remove-above x bs h
  remove-left x (e ∷ as') bs h = ground (arith, remove-left x as' bs)

  pub find-above : (x : ℕ) (as' : List X) → From (x + 1) as' → find x as' ≡ none
  unfolding find
  find-above x [] h = refl
  find-above x (a ∷ as') h = ground (arith, find-above x as')

  pub find-right : (x : ℕ) (as' bs : List X) → Below x as' → find x (as' ++ bs) ≡ find x bs
  unfolding find
  find-right x [] bs h = refl
  find-right x (e ∷ as') bs h = ground (arith, find-right x as' bs)

  pub find-left : (x : ℕ) (as' bs : List X) → From (x + 1) bs → find x (as' ++ bs) ≡ find x as'
  unfolding find
  find-left x [] bs h = find-above x bs h
  find-left x (e ∷ as') bs h = ground (arith, find-left x as' bs)

  pub find_next-right :
      (x : ℕ) (as' bs : List X) → Below x as' → find_next x (as' ++ bs) ≡ find_next x bs
  unfolding find_next
  find_next-right x [] bs h = refl
  find_next-right x (e ∷ as') bs h = ground (arith, find_next-right x as' bs)

  pub find_next-left :
      (x : ℕ) (as' : List X) (a : X) (bs : List X)
      → x ≤ key a
      → find_next x (as' ++ (a ∷ bs)) ≡ or_else (find_next x as') (some a)
  unfolding find_next
  find_next-left x [] a bs h = ground arith
  find_next-left x (e ∷ as') a bs h = elim (Bool-cases (ltb (key e) x)) [
    | inl t ↦ rw t (find_next-left x as' a bs h)
    | inr f ↦ rw f refl
  ]

  pub find-head : (x : ℕ) (a : X) (as' : List X) → x ≡ key a → find x (a ∷ as') ≡ some a
  unfolding find
  find-head x a as' h = ground arith

  pub find-tail : (x : ℕ) (a : X) (as' : List X) → key a < x → find x (a ∷ as') ≡ find x as'
  unfolding find
  find-tail x a as' h = ground arith

  pub find_next-head : (x : ℕ) (a : X) (as' : List X) → x ≡ key a → find_next x (a ∷ as') ≡ some a
  unfolding find_next
  find_next-head x a as' h = ground arith

  pub find_next-tail :
      (x : ℕ) (a : X) (as' : List X) → key a < x → find_next x (a ∷ as') ≡ find_next x as'
  unfolding find_next
  find_next-tail x a as' h = ground arith

  pub remove-head : (x : ℕ) (a : X) (as' : List X) → x ≡ key a → remove x (a ∷ as') ≡ as'
  unfolding remove
  remove-head x a as' h = ground arith

  pub remove-tail :
      (x : ℕ) (a : X) (as' : List X) → key a < x → remove x (a ∷ as') ≡ a ∷ remove x as'
  unfolding remove
  remove-tail x a as' h = ground arith

  pub insert_sorted-tail :
      (x a : X) (as' : List X) → key a < key x → insert_sorted x (a ∷ as') ≡ a ∷ insert_sorted x as'
  unfolding insert_sorted
  insert_sorted-tail x a as' h = ground arith

  pub Below-weaker : (b c : ℕ) (as' : List X) → b ≤ c → Below b as' → Below c as'
  Below-weaker b c [] p h = tt
  Below-weaker b c (a ∷ as') p h = (omega arith, Below-weaker b c as' p h.1)
