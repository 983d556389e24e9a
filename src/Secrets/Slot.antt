-- ===== src/Secrets/Slot.antt =====
-- The slots of the arrays `ext_secret_*` and `per_secret_*` of src/net/net-tcp-rpc-ext-server.c, one
-- record for the elements of one index, and the state that the reload and the sweeper change.
-- A label is its bytes in front of the terminating zero. A clock reading is a number. The table of
-- fingerprints is the list of its entries, and the bitmap of the Bloom filter the list of its set bits.
use mtbolt.Common.{
  ℕ, suc, ◌+◌, ◌/◌, ◌%◌, Bool, true, false, not, ◌&&◌, ◌||◌, List, [], ◌∷◌, Bytes, take, replicate,
  ltb, if◌then◌else◌, eq_bytes,
}
use mtbolt.Common.Int.{ℤ, pos}

-- `SLOT_FREE`, `SLOT_ACTIVE`, `SLOT_DRAINING`
pub data SlotState : Type 0 where
  slot_free : SlotState
  slot_active : SlotState
  slot_draining : SlotState

abbrev pub max_active : ℕ
max_active = 16

abbrev pub label_max : ℕ
label_max = 32

-- `ext_secret_limit`, `_quota`, `_rate_limit`, `_max_ips` and `_expires`
pub record Policy : Type 0 where
  pub limit : ℤ
  pub quota : ℤ
  pub rate_limit : ℤ
  pub max_ips : ℤ
  pub expires : ℤ

abbrev pub no_policy : Policy
no_policy = record {
  limit = pos 0;
  quota = pos 0;
  rate_limit = pos 0;
  max_ips = pos 0;
  expires = pos 0;
}

-- the `per_secret_*` counters
pub record Counters : Type 0 where
  pub connections : ℕ
  pub connections_created : ℕ
  pub connections_rejected : ℕ
  pub bytes_received : ℕ
  pub bytes_sent : ℕ
  pub rejected_quota : ℕ
  pub rejected_ips : ℕ
  pub rejected_expired : ℕ
  pub unique_ips : ℕ
  pub rate_limited : ℕ
  pub rejected_draining : ℕ
  pub drain_forced : ℕ

abbrev pub no_counters : Counters
no_counters = record {
  connections = 0;
  connections_created = 0;
  connections_rejected = 0;
  bytes_received = 0;
  bytes_sent = 0;
  rejected_quota = 0;
  rejected_ips = 0;
  rejected_expired = 0;
  unique_ips = 0;
  rate_limited = 0;
  rejected_draining = 0;
  drain_forced = 0;
}

-- `struct tracked_ip`
pub record TrackedIp : Type 0 where
  pub ip : ℕ
  pub ipv6 : Bytes
  pub connections : ℕ
  pub tokens : ℤ
  pub last_refill_time : ℕ

abbrev pub zero_ipv6 : Bytes
zero_ipv6 = replicate 16 0

abbrev pub no_ip : TrackedIp
no_ip = record { ip = 0; ipv6 = zero_ipv6; connections = 0; tokens = pos 0; last_refill_time = 0 }

-- `SECRET_MAX_TRACKED_IPS`
abbrev pub max_tracked_ips : ℕ
max_tracked_ips = 256

-- `per_secret_ips[s]`, its Bloom filter, its fingerprints and `per_secret_unique_ip_count[s]`
pub record Tracking : Type 0 where
  pub tracked_ips : List TrackedIp
  pub bloom : List ℕ
  pub fingerprints : List Bytes
  pub unique_ip_count : ℕ

-- what `tcp_rpcs_ip_track_clear_slot` leaves
abbrev pub cleared : Tracking
cleared = record {
  tracked_ips = replicate max_tracked_ips no_ip;
  bloom = [];
  fingerprints = [];
  unique_ip_count = 0;
}

pub record Slot : Type 0 where
  pub key : Bytes
  pub label : Bytes
  pub policy : Policy
  pub state : SlotState
  pub drain_started : ℕ
  pub counters : Counters
  pub tracking : Tracking

-- a secret of the configuration; an array that the caller does not pass has zeros
pub record Entry : Type 0 where
  pub secret : Bytes
  pub name : Bytes
  pub terms : Policy

-- The slots before `ext_secret_pinned` and the others, and `ext_secret_cnt`.
pub record Table : Type 0 where
  pub pinned : List Slot
  pub slots : List Slot
  pub cnt : ℕ

unfoldable pub is_free : Slot → Bool
is_free s = elim s.state [ slot_free ↦ true | _ ↦ false ]

unfoldable pub is_active : Slot → Bool
is_active s = elim s.state [ slot_active ↦ true | _ ↦ false ]

unfoldable pub is_draining : Slot → Bool
is_draining s = elim s.state [ slot_draining ↦ true | _ ↦ false ]

-- `%d` of a slot number
abbrev pub decimal : ℕ → Bytes
decimal n = if ltb n 10 then (48 + n) ∷ [] else (48 + n / 10) ∷ (48 + n % 10) ∷ []

-- The label of a slot: the entry's, cut by `snprintf`, or "secret_%d".
abbrev pub label_for : ℕ → Bytes → Bytes
label_for i [] = 115 ∷ 101 ∷ 99 ∷ 114 ∷ 101 ∷ 116 ∷ 95 ∷ decimal i
label_for i (c ∷ cs) = take label_max (c ∷ cs)

-- Whether one of the slots holds a secret.
unfoldable pub has_key : List Slot → Bytes → Bool
has_key [] k = false
has_key (s ∷ ss) k = eq_bytes s.key k || has_key ss k

-- Whether one of the slots is active with a secret.
unfoldable pub has_active : List Slot → Bytes → Bool
has_active [] k = false
has_active (s ∷ ss) k = (is_active s && eq_bytes s.key k) || has_active ss k

-- The number of active slots.
unfoldable pub count_active : List Slot → ℕ
count_active [] = 0
count_active (s ∷ ss) = (if is_active s then 1 else 0) + count_active ss

-- `s + 1` for the last slot that is not free, or `high` when all are; the first is slot `i`.
unfoldable pub high_water : List Slot → ℕ → ℕ → ℕ
high_water [] i high = high
high_water (s ∷ ss) i high =
    high_water ss (suc i) (if not (is_free s) && ltb high (suc i) then suc i else high)
