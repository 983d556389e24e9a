-- ===== src/Secrets/Reload/Outcome.antt =====
-- What a reload makes of the slots behind the pinned ones (`tcp_rpcs_reload_ext_secrets` of
-- src/net/net-tcp-rpc-ext-drain.c).
use mtbolt.Common.{
  ℕ, suc, ◌+◌, ◌≡◌, refl, sym, ◌∙◌, ap, subst, arith, Bool, true, false, not, ◌&&◌, Option, none,
  some, List, [], ◌∷◌, length, if◌then◌else◌, eq_bytes, eq_bytes_iff, Each, Memᴰ, Bool-cases,
  Option-cases, inl, inr, ◌⊎◌, ltb, All, IfSome, and_parts,
}
use mtbolt.Secrets.Slot.{Slot, Entry, Table, max_active, is_free, is_active, has_key, count_active}
use mtbolt.Secrets.Reload.{
  Work, not_pinned, mark, refresh_slot, refresh, refresh_all, drain_slot, drain_removed, fresh_slot,
  allocate, allocate_all, passes, finish, reload,
}

module _ (P : Entry → Type 0) where
  -- A slot with the mark that it has during pass B.
  abbrev pub Marked : ℕ → Slot → Work → Type 0
  Marked i old w =
      ((w.slot ≡ old) × (w.candidate ≡ is_active old))
      ⊎ ((e : Entry) × P e
          × (is_free old ≡ false)
          × (e.secret ≡ old.key)
          × (w.slot ≡ refresh_slot i e old)
          × (w.candidate ≡ false))

  -- A slot before and after the reload.
  pub data Outcome (now i : ℕ) (old new : Slot) : Type 0 where
    refreshed :
        (e : Entry)
        → P e
        → is_free old ≡ false
        → e.secret ≡ old.key
        → new ≡ refresh_slot i e old
        → Outcome now i old new
    drained : is_active old ≡ true → new ≡ drain_slot now old → Outcome now i old new
    unchanged : is_active old ≡ false → new ≡ old → Outcome now i old new
    fresh : is_free old ≡ true → (e : Entry) → P e → new ≡ fresh_slot i e → Outcome now i old new

  mark-Marked : (i : ℕ) (ss : List Slot) → Each Marked i ss (mark ss)
  unfolding mark
  mark-Marked i [] = tt
  mark-Marked i (s ∷ ss) = (inl (refl, refl), mark-Marked (suc i) ss)

  -- A slot that is refreshed again stays refreshed.
  refresh-Marked_slot :
      (i : ℕ) (e : Entry) (old : Slot) (w : Work)
      → P e
      → is_free w.slot ≡ false
      → w.slot.key ≡ e.secret
      → Marked i old w
      → Marked i old (record { slot = refresh_slot i e w.slot; candidate = false })
  refresh-Marked_slot i e old w p used key (inl (same, c)) = inr (
    e,
    p,
    sym (ap is_free same) ∙ used,
    sym key ∙ ap (λ (s : Slot). s.key) same,
    ap (refresh_slot i e) same,
    refl,
  )
  refresh-Marked_slot i e old w p used key (inr (e', p', used', key', is, c)) =
      inr (e, p, used', sym key ∙ ap (λ (s : Slot). s.key) is, ap (refresh_slot i e) is, refl)

  refresh-Marked :
      (i : ℕ) (e : Entry) (ss : List Slot) (ws : List Work)
      → P e
      → Each Marked i ss ws
      → IfSome (Each Marked i ss) (refresh i e ws)
  unfolding refresh
  refresh-Marked i e [] [] p m = tt
  refresh-Marked i e (s ∷ ss) (w ∷ ws) p m =
      elim (Bool-cases (not (is_free w.slot) && eq_bytes w.slot.key e.secret)) [
        | inl hit ↦
            let parts = and_parts (is_free w.slot) (eq_bytes w.slot.key e.secret) hit in
            rw hit (
              refresh-Marked_slot i e s w p parts.0 ((eq_bytes_iff w.slot.key e.secret).0 parts.1)
                  m.0,
              m.1,
            )
        | inr miss ↦ rw miss (later (refresh (suc i) e ws) (refresh-Marked (suc i) e ss ws p m.1))
      ]
    where
      later :
          (o : Option (List Work))
          → IfSome (Each Marked (suc i) ss) o
          → IfSome (Each Marked i (s ∷ ss)) (elim o [ none ↦ none | some ws' ↦ some (w ∷ ws') ])
      later none h = tt
      later (some ws') h = (m.0, h)
  refresh-Marked i e [] (w ∷ ws) p m = absurd m
  refresh-Marked i e (s ∷ ss) [] p m = absurd m

  refresh_all-Marked :
      (i : ℕ) (es : List Entry) (ss : List Slot) (ws : List Work)
      → All P es
      → Each Marked i ss ws
      → Each Marked i ss (refresh_all i es ws).0 × All P (refresh_all i es ws).1
  unfolding refresh_all
  refresh_all-Marked i [] ss ws p m = (m, tt)
  refresh_all-Marked i (e ∷ es) ss ws p m = elim (Option-cases (refresh i e ws)) [
    | inl missing ↦
        let rest = refresh_all-Marked i es ss ws p.1 m in
        rw (missing, refresh_all) (rest.0, (p.0, rest.1))
    | inr (ws', found) ↦
        rw (found, refresh_all)
          (refresh_all-Marked i es ss ws' p.1
            (subst (IfSome (Each Marked i ss)) found (refresh-Marked i e ss ws p.0 m)))
  ]

  drain-Outcome_slot :
      (now i : ℕ) (old : Slot) (w : Work)
      → Marked i old w
      → Outcome now i old (if w.candidate then drain_slot now w.slot else w.slot)
  drain-Outcome_slot now i old w (inl (same, c)) = elim (Bool-cases w.candidate) [
    | inl marked ↦ rw marked (drained (sym c ∙ marked) (ap (drain_slot now) same))
    | inr plain ↦ rw plain (unchanged (sym c ∙ plain) same)
  ]
  drain-Outcome_slot now i old w (inr (e, p, used, key, is, c)) = rw c (refreshed e p used key is)

  drain_removed-Outcome :
      (now i : ℕ) (ss : List Slot) (ws : List Work)
      → Each Marked i ss ws
      → Each (Outcome now) i ss (drain_removed now ws)
  unfolding drain_removed
  drain_removed-Outcome now i [] [] m = tt
  drain_removed-Outcome now i (s ∷ ss) (w ∷ ws) m =
      (drain-Outcome_slot now i s w m.0, drain_removed-Outcome now (suc i) ss ws m.1)
  drain_removed-Outcome now i [] (w ∷ ws) m = absurd m
  drain_removed-Outcome now i (s ∷ ss) [] m = absurd m

  allocate-Outcome_slot :
      (now i : ℕ) (e : Entry) (old s : Slot)
      → P e
      → is_free s ≡ true
      → Outcome now i old s
      → Outcome now i old (fresh_slot i e)
  unfolding is_free
  allocate-Outcome_slot now i e old s p free_now (refreshed e' p' used key is) =
      absurd (ground (arith, ap is_free is))
  allocate-Outcome_slot now i e old s p free_now (drained active is) =
      absurd (ground (arith, ap is_free is))
  allocate-Outcome_slot now i e old s p free_now (unchanged idle same) =
      fresh (sym (ap is_free same) ∙ free_now) e p refl
  allocate-Outcome_slot now i e old s p free_now (fresh was e' p' is) = fresh was e p refl

  allocate-Outcome :
      (now i : ℕ) (e : Entry) (olds ss : List Slot)
      → P e
      → Each (Outcome now) i olds ss
      → IfSome (Each (Outcome now) i olds) (allocate i e ss)
  unfolding allocate
  allocate-Outcome now i e [] [] p m = tt
  allocate-Outcome now i e (old ∷ olds) (s ∷ ss) p m = elim (Bool-cases (is_free s)) [
    | inl unused ↦ rw unused (allocate-Outcome_slot now i e old s p unused m.0, m.1)
    | inr used ↦
        rw used (later (allocate (suc i) e ss) (allocate-Outcome now (suc i) e olds ss p m.1))
  ]
    where
      later :
          (o : Option (List Slot))
          → IfSome (Each (Outcome now) (suc i) olds) o
          → IfSome
              (Each (Outcome now) i (old ∷ olds))
              (elim o [ none ↦ none | some ss' ↦ some (s ∷ ss') ])
      later none h = tt
      later (some ss') h = (m.0, h)
  allocate-Outcome now i e [] (s ∷ ss) p m = absurd m
  allocate-Outcome now i e (old ∷ olds) [] p m = absurd m

  allocate_all-Outcome :
      (now i : ℕ) (es : List Entry) (olds ss : List Slot)
      → All P es
      → Each (Outcome now) i olds ss
      → Each (Outcome now) i olds (allocate_all i es ss).1
  unfolding allocate_all
  allocate_all-Outcome now i [] olds ss p m = m
  allocate_all-Outcome now i (e ∷ es) olds ss p m = elim (Option-cases (allocate i e ss)) [
    | inl full ↦ rw (full, allocate_all) m
    | inr (ss', found) ↦
        rw (found, allocate_all)
          (allocate_all-Outcome now i es olds ss' p.1 (
            subst (IfSome (Each (Outcome now) i olds)) found
              (allocate-Outcome now i e olds ss p.0 m)))
  ]

  not_pinned-All : (fixed : List Slot) (es : List Entry) → All P es → All P (not_pinned fixed es)
  unfolding not_pinned
  not_pinned-All fixed [] p = tt
  not_pinned-All fixed (e ∷ es) p = elim (Bool-cases (has_key fixed e.secret)) [
    | inl collides ↦ rw collides (not_pinned-All fixed es p.1)
    | inr new ↦ rw new (p.0, not_pinned-All fixed es p.1)
  ]

  passes-Outcome :
      (now : ℕ) (entries : List Entry) (t : Table)
      → All P entries
      → Each (Outcome now) (length t.pinned) t.slots (passes now entries t).1
  unfolding passes
  passes-Outcome now entries t p =
      let i = length t.pinned in
      let es = not_pinned t.pinned entries in
      let marked =
        refresh_all-Marked i es t.slots (mark t.slots) (not_pinned-All t.pinned entries p)
          (mark-Marked i t.slots) in
      let refreshed_all = refresh_all i es (mark t.slots) in
      allocate_all-Outcome now i refreshed_all.1 t.slots (drain_removed now refreshed_all.0)
        marked.1 (drain_removed-Outcome now i t.slots refreshed_all.0 marked.0)

All-weaken :
    {P Q : Entry → Type 0} (es : List Entry) → ((e : Entry) → P e → Q e) → All P es → All Q es
All-weaken [] f p = tt
All-weaken (e ∷ es) f p = (f e p.0, All-weaken es f p.1)

All-Memᴰ : (es : List Entry) → All (λ e. Memᴰ e es) es
All-Memᴰ [] = tt
All-Memᴰ (e ∷ es) = (Memᴰ.head refl, All-weaken es (λ e' m. Memᴰ.tail m) (All-Memᴰ es))

finish_slots :
    (t : Table) (placed : Bool) (ss : List Slot)
    → ((finish t placed ss).1.pinned ≡ t.pinned)
      × ((finish t placed ss).1.slots ≡ ss)
      × ((finish t placed ss).0 ≡ false → (finish t placed ss).1.cnt ≡ t.cnt)
unfolding finish
finish_slots t false ss = (refl, refl, λ h. refl)
finish_slots t true ss = elim (Bool-cases (ltb max_active (length t.pinned + count_active ss))) [
  | inl over ↦ rw over (refl, refl, λ h. refl)
  | inr within ↦ rw within (refl, refl, λ h. absurd (ground arith))
]

-- A reload, whatever its result, leaves the pinned slots as they are. Of the others, a slot in use
-- keeps its key, counters and tracking: it gets the terms of an entry with its key, or starts to
-- drain if it was active, or stays as it is if it was draining. A free slot stays free or takes an
-- entry of the configuration, with zero counters and no tracking. A failed reload leaves the count.
pub reload-Outcome :
    (now : ℕ) (entries : List Entry) (t : Table)
    → ((reload now entries t).1.pinned ≡ t.pinned)
      × Each
          (Outcome (λ e. Memᴰ e entries) now)
          (length t.pinned)
          t.slots
          (reload now entries t).1.slots
      × ((reload now entries t).0 ≡ false → (reload now entries t).1.cnt ≡ t.cnt)
unfolding reload
reload-Outcome now entries t =
    let done = passes now entries t in
    let kept = finish_slots t done.0 done.1 in
    (
      kept.0,
      subst (Each (Outcome (λ e. Memᴰ e entries) now) (length t.pinned) t.slots) (sym kept.1)
          (passes-Outcome (λ e. Memᴰ e entries) now entries t (All-Memᴰ entries)),
      kept.2,
    )
