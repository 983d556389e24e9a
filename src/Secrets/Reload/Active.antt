-- ===== src/Secrets/Reload/Active.antt =====
-- The active slots that pass D of a reload keeps and adds.
use mathlib.Core.List.Memᴰ.{not-nil, cases_cons}
use mtbolt.Common.{
  ℕ, suc, ◌≡◌, sym, subst, arith, Bool, true, false, ◌&&◌, Option, none, some, List, [], ◌∷◌,
  eq_bytes, Memᴰ, Bool-cases, Option-cases, inl, inr, IfSome, Bytes,
}
use mtbolt.Secrets.Slot.{Slot, Entry, is_free, is_active, has_active}
use mtbolt.Secrets.Reload.{allocate, allocate_all}
use mtbolt.Secrets.Reload.Held.{eq_bytes_refl, or_intro, or_parts}

allocate-active :
    (i : ℕ) (e : Entry) (ss : List Slot)
    → IfSome (λ ss'. has_active ss' e.secret ≡ true) (allocate i e ss)
unfolding allocate has_active is_active
allocate-active i e [] = tt
allocate-active i e (s ∷ ss) = elim (Bool-cases (is_free s)) [
  | inl unused ↦ rw unused (or_intro _ _ (inl (eq_bytes_refl e.secret)))
  | inr used ↦ rw used (later (allocate (suc i) e ss) (allocate-active (suc i) e ss))
]
  where
    later :
        (o : Option (List Slot))
        → IfSome (λ ss'. has_active ss' e.secret ≡ true) o
        → IfSome
            (λ ss'. has_active ss' e.secret ≡ true)
            (elim o [ none ↦ none | some ss' ↦ some (s ∷ ss') ])
    later none h = tt
    later (some ss') h = or_intro _ _ (inr h)

-- A free slot is not active, so an allocation keeps what is active.
free_idle : (s : Slot) → is_free s ≡ true → is_active s ≡ false
unfolding is_free is_active
free_idle s h = ground (arith, h)

allocate-active_keep :
    (i : ℕ) (e : Entry) (ss : List Slot) (k : Bytes)
    → has_active ss k ≡ true
    → IfSome (λ ss'. has_active ss' k ≡ true) (allocate i e ss)
unfolding allocate has_active
allocate-active_keep i e [] k h = tt
allocate-active_keep i e (s ∷ ss) k h = elim (Bool-cases (is_free s)) [
  | inl unused ↦ rw unused (or_intro _ _ (inr (others unused)))
  | inr used ↦ rw used (later (allocate (suc i) e ss) (allocate-active_keep (suc i) e ss k))
]
  where
    others : is_free s ≡ true → has_active ss k ≡ true
    others unused = ground (arith, h, free_idle s unused)

    later :
        (o : Option (List Slot))
        → (has_active ss k ≡ true → IfSome (λ ss'. has_active ss' k ≡ true) o)
        → IfSome
            (λ ss'. has_active ss' k ≡ true)
            (elim o [ none ↦ none | some ss' ↦ some (s ∷ ss') ])
    later none rest = tt
    later (some ss') rest = elim (or_parts (is_active s && eq_bytes s.key k) (has_active ss k) h) [
      | inl first ↦ or_intro _ _ (inl first)
      | inr others ↦ or_intro _ _ (inr (rest others))
    ]

pub allocate_all-active_keep :
    (i : ℕ) (es : List Entry) (ss : List Slot) (k : Bytes)
    → has_active ss k ≡ true
    → has_active (allocate_all i es ss).1 k ≡ true
unfolding allocate_all
allocate_all-active_keep i [] ss k h = h
allocate_all-active_keep i (e ∷ es) ss k h = elim (Option-cases (allocate i e ss)) [
  | inl full ↦ rw (full, allocate_all) h
  | inr (ss', found) ↦
      rw (found, allocate_all)
        (allocate_all-active_keep i es ss' k (
          subst (IfSome (λ ss''. has_active ss'' k ≡ true)) found
            (allocate-active_keep i e ss k h)))
]

-- When every entry that pass B leaves finds a slot, it is active afterwards.
pub allocate_all-active :
    (i : ℕ) (es : List Entry) (ss : List Slot) (e : Entry)
    → (allocate_all i es ss).0 ≡ true
    → Memᴰ e es
    → has_active (allocate_all i es ss).1 e.secret ≡ true
unfolding allocate_all
allocate_all-active i [] ss e done m = absurd (not-nil m)
allocate_all-active i (e' ∷ es) ss e done m = elim (Option-cases (allocate i e' ss)) [
  | inl full ↦ absurd (no_slot (allocate i e' ss) full done)
  | inr (ss', found) ↦
      rw (found, allocate_all)
        (elim (cases_cons m) [
          | inl is ↦ allocate_all-active_keep i es ss' e.secret (
              subst (λ (x : Entry). has_active ss' x.secret ≡ true) (sym is)
                (subst (IfSome (λ ss''. has_active ss'' e'.secret ≡ true)) found
                  (allocate-active i e' ss)))
          | inr later ↦
              allocate_all-active i es ss' e (subst (λ o. (carry o).0 ≡ true) found done) later
        ])
]
  where
    carry : Option (List Slot) → Bool × List Slot
    carry none = (false, ss)
    carry (some ss'') = allocate_all i es ss''

    no_slot : (o : Option (List Slot)) → o ≡ none → (carry o).0 ≡ true → ⊥
    no_slot none is h = ground (arith, h)
    no_slot (some ss'') is h = ground (arith, is)
