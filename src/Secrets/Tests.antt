-- ===== src/Secrets/Tests.antt =====
-- The slot table on a table of four slots: a pinned one, an active one, a draining one that is empty,
-- and a free one. The configuration keeps no old secret but the pinned one, and brings two new ones.
use mtbolt.Common.{
  ℕ, ◌+◌, ◌≤◌, ◌<◌, ◌≡◌, ◌⊎◌, refl, true, false, Option, none, some, [], ◌∷◌, List, get_elem?, Each,
  Memᴰ, replicate, eq_bytes,
}
use mtbolt.Secrets.Slot.{
  SlotState, slot_active, slot_draining, no_policy, no_counters, cleared, Slot, Entry, Table,
  is_free, is_active, is_draining, has_key, has_active, count_active, max_active,
}
use mtbolt.Secrets.Reload.{reload, finish, allocate_all, refresh, allocate, drain_removed}
use mtbolt.Secrets.Reload.Outcome.{Outcome, reload-Outcome}
use mtbolt.Secrets.Reload.Placed.{reload-Placed}
use mtbolt.Secrets.Drain.{Conn, World, released, sweep, sweep_slot}
use mtbolt.Secrets.Drain.Fate.{Fate, sweep-Swept}
use mtbolt.Secrets.Drain.Sweep.{Swept}

abbrev slot : ℕ → SlotState → ℕ → Slot
slot k st n = record {
  key = replicate 16 k;
  label = k ∷ [];
  policy = no_policy;
  state = st;
  drain_started = 0;
  counters = record no_counters { connections = n };
  tracking = cleared;
}

abbrev entry : ℕ → Entry
entry k = record { secret = replicate 16 k; name = []; terms = no_policy }

abbrev table : Table
table = record {
  pinned = slot 1 slot_active 0 ∷ [];
  slots = slot 2 slot_active 5 ∷ slot 3 slot_draining 0 ∷ released ∷ [];
  cnt = 3;
}

abbrev config : List Entry
config = entry 1 ∷ entry 3 ∷ entry 4 ∷ []

reload_states : (reload 7 config table).0 ≡ true
unfolding reload finish allocate_all has_key eq_bytes refresh is_free allocate drain_removed
    is_active count_active
reload_states = refl

reload_full : (reload 7 (entry 5 ∷ entry 4 ∷ []) table).0 ≡ false
unfolding reload finish allocate_all has_key eq_bytes refresh is_free allocate drain_removed
    is_active
reload_full = refl

reload-Outcome_example :
    ((reload 7 config table).1.pinned ≡ table.pinned)
    × Each (Outcome (λ e. Memᴰ e config) 7) 1 table.slots (reload 7 config table).1.slots
    × ((reload 7 config table).0 ≡ false → (reload 7 config table).1.cnt ≡ 3)
reload-Outcome_example = reload-Outcome 7 config table

reload-Placed_example :
    ((e : Entry)
      → Memᴰ e config
      → (has_key table.pinned e.secret ≡ true)
        ⊎ (has_active (reload 7 config table).1.slots e.secret ≡ true))
    × (1 + count_active (reload 7 config table).1.slots ≤ max_active)
    × ((j : ℕ) (s : Slot)
        → get_elem? (reload 7 config table).1.slots j ≡ some s
        → (reload 7 config table).1.cnt ≤ 1 + j
        → is_free s ≡ true)
reload-Placed_example = reload-Placed 7 config table reload_states

abbrev conn : ℕ → Conn
conn n = record { listening = false; carries_secret = true; extra = n; failed = false }

-- The second slot, which has the number 3, drains since 0 with a connection.
abbrev world : World
world = (
  record table { slots = slot 2 slot_active 5 ∷ slot 3 slot_draining 1 ∷ released ∷ [] },
  some (conn 2) ∷ none ∷ some (conn 3) ∷ [],
)

only_late_failed :
    (sweep 9 5 world).1 ≡ some (conn 2) ∷ none ∷ some (record (conn 3) { failed = true }) ∷ []
unfolding sweep sweep_slot is_draining
only_late_failed = refl

sweep-Swept_example :
    ((s' : Slot) × (get_elem? (sweep 9 5 world).0.slots 1 ≡ some s')
      × ((1 < 2 → Swept 9 5 1 (slot 3 slot_draining 1) s') × (2 ≤ 1 → s' ≡ slot 3 slot_draining 1)))
    × ((o : Option Conn) × (get_elem? (sweep 9 5 world).1 2 ≡ some o)
        × Fate 9 5 0 2 world (some (conn 3)) o)
sweep-Swept_example = sweep-Swept 9 5 1 2 world (slot 3 slot_draining 1) (some (conn 3)) refl refl
