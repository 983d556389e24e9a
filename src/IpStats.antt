-- ===== src/IpStats.antt =====
-- The hash table of addresses of src/mtproto/ip-stats.c, which the worker processes share: the loops of
-- ip_ht_get_or_create and ip_ht_find, cut where another process may run. The size is a power of two
-- (src/mtproto/mtbolt-config.c refuses another), so that `& IP_HT_MASK` is `% size`.
pub mod Probe
mod Tests
use Prim.Native.Nat.{bit_xor}
use mtbolt.Common.{
  ℕ, zero, suc, ◌+◌, ◌*◌, ◌/◌, ◌%◌, ◌^◌, Bool, true, false, not, ◌&&◌, List, [], ◌∷◌, ltb, leb,
  ◌==◌, if◌then◌else◌,
}

-- Where a call of a worker is: what it looks for, its slot, and the slots that it scanned. `creates` is
-- whether the call is ip_ht_get_or_create.
pub data Call : Type 0 where
  idle : Call
  looking : (creates : Bool) (ip idx scanned : ℕ) → Call
  claiming : (ip idx scanned : ℕ) → Call
  publishing : (ip idx : ℕ) → Call
  waiting : (ip idx : ℕ) → Call
  found : (ip idx : ℕ) (is_new_ip : Bool) → Call
  not_found : Call

pub record Shared : Type 0 where
  pub ip : ℕ → ℕ
  pub ready : ℕ → Bool
  pub used : ℕ
  pub table_full_total : ℕ
  pub call : ℕ → Call

abbrev pub update {ℓ} : {A : Type ℓ} → (ℕ → A) → ℕ → A → ℕ → A
update f i v j = if j == i then v else f j

abbrev pub xor_half : ℕ → ℕ
xor_half h = bit_xor h (h / 2 ^ 16)

unfoldable pub ip_ht_hash : ℕ → ℕ → ℕ
ip_ht_hash size ip = xor_half (xor_half ip * 0x45d9f3b % 2 ^ 32) % size

-- A worker starts a call, goes on, or gives up waiting.
pub data Event : Type 0 where
  start : (worker : ℕ) (creates : Bool) (ip : ℕ) → Event
  go : (worker : ℕ) → Event
  time_out : (worker : ℕ) → Event

module _ (size : ℕ) where
  abbrev pub next_slot : ℕ → ℕ
  next_slot idx = (idx + 1) % size

  -- one round of the loop of ip_ht_find, or of ip_ht_get_or_create
  unfoldable pub look : Bool → ℕ → ℕ → ℕ → Shared → Call
  look creates ip idx scanned s =
      if leb size scanned
      then not_found
      else (if s.ip idx == ip
          then waiting ip idx
          else (if s.ip idx == 0
              then (if creates then claiming ip idx scanned else not_found)
              else looking creates ip (next_slot idx) (scanned + 1)))

  abbrev pub goes_to : Shared → ℕ → Call → Shared
  goes_to s i c = record s { call = update s.call i c }

  -- the table is full
  abbrev pub count_full : Bool → ℕ → Shared → Shared
  count_full creates scanned s =
      if creates && leb size scanned
      then record s { table_full_total = s.table_full_total + 1 }
      else s

  -- The worker's next step, from where its call is.
  unfoldable pub advance : ℕ → Call → Shared → Shared
  unfolding look
  advance i idle s = s
  advance i (looking creates ip idx scanned) s =
      goes_to (count_full creates scanned s) i (look creates ip idx scanned s)
  advance i (claiming ip idx scanned) s =
      if s.ip idx == 0
      then goes_to (record s { ip = update s.ip idx ip }) i (publishing ip idx)
      else (if s.ip idx == ip
          then goes_to s i (waiting ip idx)
          else goes_to s i (looking true ip (next_slot idx) (scanned + 1)))
  advance i (publishing ip idx) s =
      goes_to (record s { ready = update s.ready idx true; used = s.used + 1 }) i
        (found ip idx true)
  advance i (waiting ip idx) s = if s.ready idx then goes_to s i (found ip idx false) else s
  advance i (found ip idx is_new_ip) s = s
  advance i not_found s = s

  -- a wait of two seconds ends
  unfoldable pub give_up : ℕ → Call → Shared → Shared
  give_up i (waiting ip idx) s = goes_to s i not_found
  give_up i _ s = s

  -- The callers refuse the address 0.
  unfoldable pub step : Event → Shared → Shared
  unfolding advance give_up ip_ht_hash
  step (start i creates ip) s =
      if ip == 0 then s else goes_to s i (looking creates ip (ip_ht_hash size ip) 0)
  step (go i) s = advance i (s.call i) s
  step (time_out i) s = give_up i (s.call i) s

  -- the events, the last first
  unfoldable pub run_events : List Event → Shared → Shared
  unfolding step
  run_events [] s = s
  run_events (e ∷ es) s = step e (run_events es s)

abbrev pub empty_shared : Shared
empty_shared = record {
  ip = λ k. 0;
  ready = λ k. false;
  used = 0;
  table_full_total = 0;
  call = λ i. idle;
}
