-- ===== src/Ja4/Table.antt =====
-- The tables of fingerprints of src/net/net-ja4.c: those of a worker, and the master's.
use mtbolt.Common.{
  ℕ, zero, suc, ◌+◌, ◌%◌, ◌^◌, min, Bool, false, not, ◌&&◌, ◌||◌, Option, none, some, List, [], ◌∷◌,
  ◌++◌, Bytes, length, get_or, set, take, replicate, ltb, ◌==◌, eq_bytes, if◌then◌else◌,
}
use mtbolt.Common.Int.{ℤ, pos, negsuc}
use mtbolt.Common.Parse.{ok, reject, fault, out_of_fuel}
use mtbolt.Ja4.Fingerprint.{compute}

pub record TopJa4 : Type 0 where
  pub hash : Bytes
  pub count : ℕ

-- WORKER_TOP_JA4_MAX, WORKER_TOP_JA4_PER_SECRET_MAX, JA4_SECRET_SLOTS_MAX and MASTER_TOP_JA4_MAX
abbrev pub worker_max : ℕ
worker_max = 32

abbrev pub per_secret_max : ℕ
per_secret_max = 4

abbrev pub secret_slots_max : ℕ
secret_slots_max = 32

abbrev pub master_max : ℕ
master_max = 256

abbrev pub unused : TopJa4
unused = record { hash = []; count = 0 }

-- the sum of two counters of 64 bits
abbrev pub add_64 : ℕ → ℕ → ℕ
add_64 a b = (a + b) % 2 ^ 64

abbrev pub behind : TopJa4 → Option (List TopJa4) → Option (List TopJa4)
behind e none = none
behind e (some es) = some (e ∷ es)

-- The first loop of ja4_record: the entry that has the hash is counted.
unfoldable pub count_known : Bytes → List TopJa4 → Option (List TopJa4)
count_known h [] = none
count_known h (e ∷ es) =
    let rest = behind e (count_known h es) in
    if not (e.count == 0) && eq_bytes e.hash h
    then some (record e { count = add_64 e.count 1 } ∷ es)
    else rest

-- The second loop: the first free entry is taken.
unfoldable pub claim : Bytes → List TopJa4 → List TopJa4
claim h [] = []
claim h (e ∷ es) =
    let rest = e ∷ claim h es in if e.count == 0 then record { hash = h; count = 1 } ∷ es else rest

unfoldable pub ja4_record : List TopJa4 → Bytes → List TopJa4
unfolding count_known claim
ja4_record table h = elim (count_known h table) [ none ↦ claim h table | some fs ↦ fs ]

-- ja4_table and secret_ja4_table
pub record Worker : Type 0 where
  pub table : List TopJa4
  pub secrets : List (List TopJa4)

abbrev pub ja4_observe_with_hash :
    (List Bytes → List Bytes) → (Bytes → Bytes) → Bytes → ℕ → Worker → Worker × Option Bytes
ja4_observe_with_hash qsort sha256 client_hello len w =
    elim (compute qsort sha256 client_hello len) [
      | ok h ↦ (record w { table = ja4_record w.table h }, some h)
      | reject ↦ (w, none)
      | fault ↦ (w, none)
      | out_of_fuel ↦ (w, none)
    ]

abbrev pub is_slot : ℤ → Bool
is_slot (pos i) = ltb i secret_slots_max
is_slot (negsuc i) = false

abbrev pub slot_index : ℤ → ℕ
slot_index (pos i) = i
slot_index (negsuc i) = 0

unfoldable pub ja4_observe_secret : ℤ → Bytes → Worker → Worker
unfolding ja4_record
ja4_observe_secret secret_id h w =
    let i = slot_index secret_id in
    if not (is_slot secret_id) || (length h == 0)
    then w
    else record w { secrets = set w.secrets i (ja4_record (get_or w.secrets i []) h) }

unfoldable pub ja4_clear_secret : ℤ → Worker → Worker
ja4_clear_secret secret_id w =
    if is_slot secret_id
    then record w {
      secrets = set w.secrets (slot_index secret_id) (replicate per_secret_max unused);
    }
    else w

abbrev pub in_use : List TopJa4 → List TopJa4
in_use [] = []
in_use (e ∷ es) = let rest = in_use es in if e.count == 0 then rest else e ∷ rest

abbrev pub ja4_snapshot : ℕ → Worker → List TopJa4
ja4_snapshot max w = take max (in_use w.table)

abbrev pub ja4_secret_snapshot : ℤ → ℕ → Worker → List TopJa4
ja4_secret_snapshot secret_id max w =
    if is_slot secret_id then take max (in_use (get_or w.secrets (slot_index secret_id) [])) else []

-- The inner loop of ja4_master_merge: the entry with the slot's hash gets its count.
unfoldable pub add_known : TopJa4 → List TopJa4 → Option (List TopJa4)
add_known slot [] = none
add_known slot (e ∷ es) =
    let rest = behind e (add_known slot es) in
    if eq_bytes e.hash slot.hash
    then some (record e { count = add_64 e.count slot.count } ∷ es)
    else rest

abbrev pub append_new : TopJa4 → List TopJa4 → List TopJa4
append_new slot master = if ltb (length master) master_max then master ++ (slot ∷ []) else master

abbrev pub is_blank : TopJa4 → Bool
is_blank slot = (slot.count == 0) || (length slot.hash == 0)

unfoldable pub merge_slot : TopJa4 → List TopJa4 → List TopJa4
unfolding add_known
merge_slot slot master =
    if is_blank slot
    then master
    else (elim (add_known slot master) [ none ↦ append_new slot master | some fs ↦ fs ])

-- ja4_master_merge; the master's table is its first master_count entries.
unfoldable pub merge_slots : List TopJa4 → List TopJa4 → List TopJa4
unfolding merge_slot
merge_slots [] master = master
merge_slots (s ∷ ss) master = merge_slots ss (merge_slot s master)

-- master_table with master_count, and master_secret_table with master_secret_count
pub record Master : Type 0 where
  pub top : List TopJa4
  pub top_secrets : List (List TopJa4)

abbrev pub ja4_master_reset : Master
ja4_master_reset = record { top = []; top_secrets = replicate secret_slots_max [] }

unfoldable pub ja4_master_merge : List TopJa4 → Master → Master
unfolding merge_slots
ja4_master_merge slots m = record m { top = merge_slots slots m.top }

unfoldable pub ja4_master_merge_secret : ℤ → List TopJa4 → Master → Master
unfolding merge_slots
ja4_master_merge_secret secret_id slots m =
    let i = slot_index secret_id in
    if is_slot secret_id
    then record m {
      top_secrets = set m.top_secrets i (merge_slots slots (get_or m.top_secrets i []));
    }
    else m

-- the loop over the secrets, from number i on
unfoldable pub merge_secrets : ℕ → ℕ → Worker → Master → Master
unfolding ja4_master_merge_secret
merge_secrets zero i w m = m
merge_secrets (suc n) i w m =
    merge_secrets n (i + 1) w
      (ja4_master_merge_secret (pos i) (ja4_secret_snapshot (pos i) per_secret_max w) m)

unfoldable pub ja4_master_prepare_local : Worker → Master
unfolding ja4_master_merge merge_secrets
ja4_master_prepare_local w =
    merge_secrets secret_slots_max 0 w
      (ja4_master_merge (ja4_snapshot worker_max w) ja4_master_reset)

-- `sort` is qsort with master_cmp_desc, which leaves the table sorted.
unfoldable pub ja4_master_secret_snapshot :
    (List TopJa4 → List TopJa4) → ℤ → ℕ → Master → List TopJa4 × Master
ja4_master_secret_snapshot sort secret_id max m =
    let i = slot_index secret_id in
    let table = sort (get_or m.top_secrets i []) in
    if not (is_slot secret_id) || ((max == 0) || (length (get_or m.top_secrets i []) == 0))
    then ([], m)
    else (
      take (min (min (length table) per_secret_max) max) table,
      record m { top_secrets = set m.top_secrets i table },
    )
