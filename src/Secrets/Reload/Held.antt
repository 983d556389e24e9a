-- ===== src/Secrets/Reload/Held.antt =====
-- The active slots that pass B of a reload takes off the candidates, and what pass C makes of them.
use mathlib.Core.List.Memᴰ.{not-nil, cases_cons}
use mtbolt.Common.{
  ℕ, suc, ◌≡◌, refl, sym, subst, arith, Bool, true, false, not, ◌&&◌, ◌||◌, Option, none, some,
  List, [], ◌∷◌, eq_bytes, eq_bytes_iff, Memᴰ, Bool-cases, Option-cases, inl, inr, ◌⊎◌, IfSome,
  and_parts, Bytes,
}
use mtbolt.Secrets.Slot.{Entry, is_free, is_active, has_active}
use mtbolt.Secrets.Reload.{Work, refresh_slot, refresh, refresh_all, drain_removed}

-- Whether an active slot that pass B took off the candidates has a key.
unfoldable pub held : List Work → Bytes → Bool
held [] k = false
held (w ∷ ws) k = (not w.candidate && (is_active w.slot && eq_bytes w.slot.key k)) || held ws k

pub eq_bytes_refl : (k : Bytes) → eq_bytes k k ≡ true
eq_bytes_refl k = (eq_bytes_iff k k).1 refl

pub or_intro : (a b : Bool) → (a ≡ true) ⊎ (b ≡ true) → (a || b) ≡ true
or_intro true b h = refl
or_intro false b h = ground arith

pub or_parts : (a b : Bool) → (a || b) ≡ true → (a ≡ true) ⊎ (b ≡ true)
or_parts true b h = inl refl
or_parts false b h = inr h

refresh-held :
    (i : ℕ) (e : Entry) (ws : List Work) → IfSome (λ ws'. held ws' e.secret ≡ true) (refresh i e ws)
unfolding refresh held is_active
refresh-held i e [] = tt
refresh-held i e (w ∷ ws) =
    elim (Bool-cases (not (is_free w.slot) && eq_bytes w.slot.key e.secret)) [
      | inl hit ↦ rw hit (here (and_parts (is_free w.slot) (eq_bytes w.slot.key e.secret) hit).1)
      | inr miss ↦ rw miss (later (refresh (suc i) e ws) (refresh-held (suc i) e ws))
    ]
  where
    here :
        eq_bytes w.slot.key e.secret ≡ true
        → held (record { slot = refresh_slot i e w.slot; candidate = false } ∷ ws) e.secret ≡ true
    here h = or_intro _ _ (inl h)

    later :
        (o : Option (List Work))
        → IfSome (λ ws'. held ws' e.secret ≡ true) o
        → IfSome
            (λ ws'. held ws' e.secret ≡ true)
            (elim o [ none ↦ none | some ws' ↦ some (w ∷ ws') ])
    later none h = tt
    later (some ws') h = or_intro _ _ (inr h)

-- A refresh keeps what is held.
refresh-held_keep :
    (i : ℕ) (e : Entry) (ws : List Work) (k : Bytes)
    → held ws k ≡ true
    → IfSome (λ ws'. held ws' k ≡ true) (refresh i e ws)
unfolding refresh held is_active
refresh-held_keep i e [] k h = tt
refresh-held_keep i e (w ∷ ws) k h =
    elim (Bool-cases (not (is_free w.slot) && eq_bytes w.slot.key e.secret)) [
      | inl hit ↦ rw hit here
      | inr miss ↦ rw miss (later (refresh (suc i) e ws) (refresh-held_keep (suc i) e ws k))
    ]
  where
    here : held (record { slot = refresh_slot i e w.slot; candidate = false } ∷ ws) k ≡ true
    here = ground (arith, h)

    later :
        (o : Option (List Work))
        → (held ws k ≡ true → IfSome (λ ws'. held ws' k ≡ true) o)
        → IfSome (λ ws'. held ws' k ≡ true) (elim o [ none ↦ none | some ws' ↦ some (w ∷ ws') ])
    later none rest = tt
    later (some ws') rest =
        elim (or_parts (not w.candidate && (is_active w.slot && eq_bytes w.slot.key k)) (held ws k)
          h) [
            | inl first ↦ or_intro _ _ (inl first)
            | inr others ↦ or_intro _ _ (inr (rest others))
          ]

refresh_all-held_keep :
    (i : ℕ) (es : List Entry) (ws : List Work) (k : Bytes)
    → held ws k ≡ true
    → held (refresh_all i es ws).0 k ≡ true
unfolding refresh_all
refresh_all-held_keep i [] ws k h = h
refresh_all-held_keep i (e ∷ es) ws k h = elim (Option-cases (refresh i e ws)) [
  | inl missing ↦ rw (missing, refresh_all) (refresh_all-held_keep i es ws k h)
  | inr (ws', found) ↦
      rw (found, refresh_all)
        (refresh_all-held_keep i es ws' k
          (subst (IfSome (λ ws''. held ws'' k ≡ true)) found (refresh-held_keep i e ws k h)))
]

-- Pass B places an entry or leaves it.
pub refresh_all-held :
    (i : ℕ) (es : List Entry) (ws : List Work) (e : Entry)
    → Memᴰ e es
    → (held (refresh_all i es ws).0 e.secret ≡ true) ⊎ Memᴰ e (refresh_all i es ws).1
unfolding refresh_all
refresh_all-held i [] ws e m = absurd (not-nil m)
refresh_all-held i (e' ∷ es) ws e m = elim (Option-cases (refresh i e' ws)) [
  | inl missing ↦
      rw (missing, refresh_all)
        (elim (cases_cons m) [
          | inl is ↦ inr (Memᴰ.head is)
          | inr later ↦ elim (refresh_all-held i es ws e later) [
            | inl has ↦ inl has
            | inr left ↦ inr (Memᴰ.tail left)
          ]
        ])
  | inr (ws', found) ↦
      rw (found, refresh_all)
        (elim (cases_cons m) [
          | inl is ↦ inl (
              refresh_all-held_keep i es ws' e.secret (
                subst (λ (x : Entry). held ws' x.secret ≡ true) (sym is)
                  (subst (IfSome (λ ws''. held ws'' e'.secret ≡ true)) found
                    (refresh-held i e' ws))))
          | inr later ↦ refresh_all-held i es ws' e later
        ])
]

pub drain_removed-active :
    (now : ℕ) (ws : List Work) (k : Bytes)
    → held ws k ≡ true
    → has_active (drain_removed now ws) k ≡ true
unfolding held drain_removed has_active
drain_removed-active now [] k h = h
drain_removed-active now (w ∷ ws) k h = elim (or_parts _ _ h) [
  | inl first ↦
      let parts = and_parts w.candidate (is_active w.slot && eq_bytes w.slot.key k) first in
      rw parts.0 (or_intro _ _ (inl parts.1))
  | inr others ↦ or_intro _ _ (inr (drain_removed-active now ws k others))
]
