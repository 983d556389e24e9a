-- ===== src/Secrets/Reload.antt =====
-- `tcp_rpcs_reload_ext_secrets` of src/net/net-tcp-rpc-ext-drain.c, a function for each of its passes.
-- The passes change the slots behind the pinned ones; `i` is the number of the first slot of a list.
pub mod Outcome
mod Held
mod Active
pub mod Placed
use mtbolt.Common.{
  ℕ, zero, suc, ◌+◌, Bool, true, false, not, ◌&&◌, ◌||◌, Option, none, some, List, [], ◌∷◌, map,
  length, ltb, if◌then◌else◌, eq_bytes, Bytes,
}
use mtbolt.Secrets.Slot.{
  SlotState, slot_free, slot_active, slot_draining, Slot, Entry, Table, max_active, no_counters,
  cleared, is_free, is_active, label_for, has_key, count_active, high_water,
}

-- a slot and its element of `candidate`
pub record Work : Type 0 where
  pub slot : Slot
  pub candidate : Bool

-- The entries that collide with no pinned slot.
unfoldable pub not_pinned : List Slot → List Entry → List Entry
not_pinned fixed [] = []
not_pinned fixed (e ∷ es) =
    let rest = not_pinned fixed es in if has_key fixed e.secret then rest else e ∷ rest

-- Pass A
unfoldable pub mark : List Slot → List Work
mark [] = []
mark (s ∷ ss) = record { slot = s; candidate = is_active s } ∷ mark ss

abbrev pub refresh_slot : ℕ → Entry → Slot → Slot
refresh_slot i e s = record s {
  label = label_for i e.name;
  policy = e.terms;
  state = slot_active;
  drain_started = 0;
}

-- Pass B for one entry: the first slot with its key, if one has it.
unfoldable pub refresh : ℕ → Entry → List Work → Option (List Work)
refresh i e [] = none
refresh i e (w ∷ ws) =
    let rest = refresh (suc i) e ws in
    if not (is_free w.slot) && eq_bytes w.slot.key e.secret
    then some (record { slot = refresh_slot i e w.slot; candidate = false } ∷ ws)
    else elim rest [ none ↦ none | some ws' ↦ some (w ∷ ws') ]

-- Pass B: the slots, and the entries that are still to be placed.
unfoldable pub refresh_all : ℕ → List Entry → List Work → List Work × List Entry
refresh_all i [] ws = (ws, [])
refresh_all i (e ∷ es) ws = elim (refresh i e ws) [
  | none ↦ let done = refresh_all i es ws in (done.0, e ∷ done.1)
  | some ws' ↦ refresh_all i es ws'
]

abbrev pub drain_slot : ℕ → Slot → Slot
drain_slot now s = record s { state = slot_draining; drain_started = now }

-- Pass C
unfoldable pub drain_removed : ℕ → List Work → List Slot
drain_removed now [] = []
drain_removed now (w ∷ ws) =
    (if w.candidate then drain_slot now w.slot else w.slot) ∷ drain_removed now ws

abbrev pub fresh_slot : ℕ → Entry → Slot
fresh_slot i e = record {
  key = e.secret;
  label = label_for i e.name;
  policy = e.terms;
  state = slot_active;
  drain_started = 0;
  counters = no_counters;
  tracking = cleared;
}

-- Pass D for one entry: the first free slot, if there is one.
unfoldable pub allocate : ℕ → Entry → List Slot → Option (List Slot)
allocate i e [] = none
allocate i e (s ∷ ss) =
    let rest = allocate (suc i) e ss in
    if is_free s
    then some (fresh_slot i e ∷ ss)
    else elim rest [ none ↦ none | some ss' ↦ some (s ∷ ss') ]

-- Pass D; `false` when an entry finds no slot.
unfoldable pub allocate_all : ℕ → List Entry → List Slot → Bool × List Slot
allocate_all i [] ss = (true, ss)
allocate_all i (e ∷ es) ss = elim (allocate i e ss) [
  | none ↦ (false, ss)
  | some ss' ↦ allocate_all i es ss'
]

-- The slots that the passes leave, and whether every entry found one.
unfoldable pub passes : ℕ → List Entry → Table → Bool × List Slot
unfolding not_pinned mark refresh_all
passes now entries t =
    let i = length t.pinned in
    let refreshed = refresh_all i (not_pinned t.pinned entries) (mark t.slots) in
    allocate_all i refreshed.1 (drain_removed now refreshed.0)

-- The count of the active slots against the maximum, and the new `ext_secret_cnt`. What the passes
-- changed stays when the result is -1, which is `false`.
unfoldable pub finish : Table → Bool → List Slot → Bool × Table
finish t false ss = (false, record t { slots = ss })
finish t true ss =
    let fixed = length t.pinned in
    if ltb max_active (fixed + count_active ss)
    then (false, record t { slots = ss })
    else (true, record t { slots = ss; cnt = high_water ss fixed fixed })

-- `now` is `precise_now`.
unfoldable pub reload : ℕ → List Entry → Table → Bool × Table
unfolding passes
reload now entries t = let done = passes now entries t in finish t done.0 done.1
