-- ===== src/Secrets/Reload/Placed.antt =====
-- What a successful reload guarantees of the entries of the configuration and of the counts.
use mathlib.Core.List.Memᴰ.{not-nil, cases_cons}
use mtbolt.Common.{
  ℕ, zero, suc, ◌+◌, ◌≤◌, ◌≡◌, refl, sym, ◌∙◌, ap, subst, arith, Bool, true, false, not, ◌&&◌, some,
  List, [], ◌∷◌, length, get_elem?, if◌then◌else◌, Memᴰ, Bool-cases, inl, inr, ◌⊎◌, ltb,
}
use mtbolt.Secrets.Slot.{
  Slot, Entry, Table, max_active, is_free, has_key, has_active, count_active, high_water,
}
use mtbolt.Secrets.Reload.{not_pinned, mark, refresh_all, drain_removed, passes, finish, reload}
use mtbolt.Secrets.Reload.Held.{refresh_all-held, drain_removed-active}
use mtbolt.Secrets.Reload.Active.{allocate_all-active_keep, allocate_all-active}

passes-Placed :
    (now : ℕ) (entries : List Entry) (t : Table) (e : Entry)
    → (passes now entries t).0 ≡ true
    → Memᴰ e (not_pinned t.pinned entries)
    → has_active (passes now entries t).1 e.secret ≡ true
unfolding passes
passes-Placed now entries t e done m =
    let i = length t.pinned in
    let refreshed = refresh_all i (not_pinned t.pinned entries) (mark t.slots) in
    let drained = drain_removed now refreshed.0 in
    elim (refresh_all-held i (not_pinned t.pinned entries) (mark t.slots) e m) [
      | inl has ↦
          allocate_all-active_keep i refreshed.1 drained e.secret
            (drain_removed-active now refreshed.0 e.secret has)
      | inr left ↦ allocate_all-active i refreshed.1 drained e done left
    ]

not_pinned-member :
    (fixed : List Slot) (es : List Entry) (e : Entry)
    → Memᴰ e es
    → (has_key fixed e.secret ≡ true) ⊎ Memᴰ e (not_pinned fixed es)
unfolding not_pinned
not_pinned-member fixed [] e m = absurd (not-nil m)
not_pinned-member fixed (e' ∷ es) e m = elim (Bool-cases (has_key fixed e'.secret)) [
  | inl collides ↦ rw collides (elim (cases_cons m) [
    | inl is ↦ inl (subst (λ (x : Entry). has_key fixed x.secret ≡ true) (sym is) collides)
    | inr later ↦ not_pinned-member fixed es e later
  ])
  | inr new ↦ rw new (elim (cases_cons m) [
    | inl is ↦ inr (Memᴰ.head is)
    | inr later ↦ elim (not_pinned-member fixed es e later) [
      | inl has ↦ inl has
      | inr rest ↦ inr (Memᴰ.tail rest)
    ]
  ])
]

-- `high_water` is at least what it starts from, and every slot that is not below it is free.
high_water_le : (ss : List Slot) (i high : ℕ) → high ≤ high_water ss i high
unfolding high_water
high_water_le [] i high = omega arith
high_water_le (s ∷ ss) i high =
    let next = if not (is_free s) && ltb high (suc i) then suc i else high in
    let step : high ≤ next = ground arith in ground (arith, step, high_water_le ss (suc i) next)

high_water-free :
    (ss : List Slot) (i high j : ℕ) (s : Slot)
    → get_elem? ss j ≡ some s
    → high_water ss i high ≤ i + j
    → is_free s ≡ true
unfolding high_water
high_water-free [] i high j s at le = absurd (ground arith)
high_water-free (s' ∷ ss) i high zero s at le =
    let next = if not (is_free s') && ltb high (suc i) then suc i else high in
    let below = high_water_le ss (suc i) next in
    let same : s' ≡ s = ground arith in sym (ap is_free same) ∙ ground (arith, below, le)
high_water-free (s' ∷ ss) i high (suc j) s at le =
    high_water-free ss (suc i) (if not (is_free s') && ltb high (suc i) then suc i else high) j s at
      (omega (arith, le))

-- A successful reload, of the state that the passes leave.
finish_done :
    (t : Table) (placed : Bool) (ss : List Slot)
    → (finish t placed ss).0 ≡ true
    → (placed ≡ true)
      × ((finish t placed ss).1.slots ≡ ss)
      × (length t.pinned + count_active ss ≤ max_active)
      × ((finish t placed ss).1.cnt ≡ high_water ss (length t.pinned) (length t.pinned))
unfolding finish
finish_done t false ss h = absurd (ground arith)
finish_done t true ss h = elim (Bool-cases (ltb max_active (length t.pinned + count_active ss))) [
  | inl over ↦ absurd (ground (arith, h, over))
  | inr within ↦ rw within (refl, refl, ground (arith, within), refl)
]

-- After a successful reload every secret of the configuration is held by a pinned slot or is active
-- in another slot, at most `max_active` slots are pinned or active, and every slot that is not below
-- `cnt` is free.
pub reload-Placed :
    (now : ℕ) (entries : List Entry) (t : Table)
    → (reload now entries t).0 ≡ true
    → ((e : Entry)
        → Memᴰ e entries
        → (has_key t.pinned e.secret ≡ true)
          ⊎ (has_active (reload now entries t).1.slots e.secret ≡ true))
      × (length t.pinned + count_active (reload now entries t).1.slots ≤ max_active)
      × ((j : ℕ) (s : Slot)
          → get_elem? (reload now entries t).1.slots j ≡ some s
          → (reload now entries t).1.cnt ≤ length t.pinned + j
          → is_free s ≡ true)
unfolding reload
reload-Placed now entries t h =
    let done = passes now entries t in
    let finished = finish_done t done.0 done.1 h in
    (
      λ e m. elim (not_pinned-member t.pinned entries e m) [
        | inl fixed ↦ inl fixed
        | inr rest ↦ inr (
            subst (λ ss. has_active ss e.secret ≡ true) (sym finished.1)
              (passes-Placed now entries t e finished.0 rest))
      ],
      subst (λ ss. length t.pinned + count_active ss ≤ max_active) (sym finished.1) finished.2,
      λ j s at le.
          high_water-free done.1 (length t.pinned) (length t.pinned) j s
            (subst (λ ss. get_elem? ss j ≡ some s) finished.1 at)
            (subst (λ c. c ≤ length t.pinned + j) finished.3 le),
    )
