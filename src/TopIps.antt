-- ===== src/TopIps.antt =====
-- The busiest addresses of each secret: src/net/net-tcp-rpc-ext-top-ips.c. The table of a secret is the
-- list of its entries; a clock reading is a number of ticks, of which `second` make a second. The callers
-- pass an array for `ipv6`, never a null pointer. Byte counts are not reduced to 64 bits.
pub mod Select
pub mod Kept
mod Tests
use mtbolt.Common.{
  ℕ, zero, suc, ◌+◌, ◌-◌, ◌*◌, Bool, true, false, not, ◌&&◌, ◌||◌, Option, none, some, List, [],
  ◌∷◌, Bytes, length, get_or, set, replicate, map, ltb, leb, ◌==◌, if◌then◌else◌, eq_bytes,
}
use mtbolt.Common.Int.{ℤ, pos, negsuc}

-- `struct ip_volume_entry`
pub record VolumeEntry : Type 0 where
  pub ip : ℕ
  pub ipv6 : Bytes
  pub connections : ℕ
  pub bytes_in : ℕ
  pub bytes_out : ℕ
  pub last_seen : ℕ

-- `struct worker_top_ip`
pub record TopIp : Type 0 where
  pub ip : ℕ
  pub ipv6 : Bytes
  pub connections : ℕ
  pub bytes_in : ℕ
  pub bytes_out : ℕ

abbrev pub zero_addr : Bytes
zero_addr = replicate 16 0

abbrev pub no_volume : VolumeEntry
no_volume = record {
  ip = 0;
  ipv6 = zero_addr;
  connections = 0;
  bytes_in = 0;
  bytes_out = 0;
  last_seen = 0;
}

-- `top_ips_per_secret_runtime`, and `ip_volume` by the secret's number
pub record Volumes : Type 0 where
  pub runtime : ℕ
  pub tables : List (List VolumeEntry)

abbrev pub max_secrets : ℕ
max_secrets = 16

abbrev pub worker_top_ips_max : ℕ
worker_top_ips_max = 32

unfoldable pub set_top_ips_per_secret : ℤ → Volumes → Volumes
set_top_ips_per_secret (negsuc n) v = record v { runtime = 0 }
set_top_ips_per_secret (pos n) v = record v {
  runtime = if ltb worker_top_ips_max n then worker_top_ips_max else n;
}

abbrev pub total : VolumeEntry → ℕ
total e = e.bytes_in + e.bytes_out

unfoldable pub is_unused : VolumeEntry → Bool
is_unused e = e.ip == 0 && eq_bytes e.ipv6 zero_addr

unfoldable pub is_for : ℕ → Bytes → VolumeEntry → Bool
is_for ip ipv6 e =
    if not (ip == 0)
    then e.ip == ip
    else (not (eq_bytes ipv6 zero_addr)
        && (e.ip == 0 && (eq_bytes e.ipv6 ipv6 && not (eq_bytes e.ipv6 zero_addr))))

-- the first index, from `i` on, whose entry passes a test
unfoldable pub find_from : (VolumeEntry → Bool) → ℕ → List VolumeEntry → Option ℕ
find_from p i [] = none
find_from p i (e ∷ es) = let rest = find_from p (i + 1) es in if p e then some i else rest

unfoldable pub ip_volume_lookup : ℕ → Bytes → List VolumeEntry → Option ℕ
unfolding is_for find_from
ip_volume_lookup ip ipv6 es = find_from (is_for ip ipv6) 0 es

module _ (second now : ℕ) where
  -- `e->connections > 0`, or `e->last_seen >= cutoff`
  unfoldable pub is_fresh : VolumeEntry → Bool
  is_fresh e = ltb 0 e.connections || leb now (e.last_seen + 5 * second)

  -- the second pass: the entry with the fewest bytes of those that are not fresh
  unfoldable pub find_victim : ℕ → List VolumeEntry → Option (ℕ × ℕ) → Option (ℕ × ℕ)
  unfolding is_fresh
  find_victim i [] victim = victim
  find_victim i (e ∷ es) victim =
      if is_fresh e
      then find_victim (i + 1) es victim
      else find_victim (i + 1) es (elim victim [
        | none ↦ some (i, total e)
        | some (j, bytes) ↦ if ltb (total e) bytes then some (i, total e) else some (j, bytes)
      ])

  -- an empty slot, or a victim's, which is emptied
  unfoldable pub ip_volume_acquire_slot : List VolumeEntry → Option (ℕ × List VolumeEntry)
  unfolding find_from is_unused find_victim
  ip_volume_acquire_slot es = elim (find_from is_unused 0 es) [
    | some i ↦ some (i, es)
    | none ↦ elim (find_victim 0 es none) [
      | none ↦ none
      | some (i, bytes) ↦ some (i, set es i no_volume)
    ]
  ]

  unfoldable pub ip_volume_get_or_create :
      ℕ → Bytes → List VolumeEntry → Option (ℕ × List VolumeEntry)
  unfolding ip_volume_lookup ip_volume_acquire_slot
  ip_volume_get_or_create ip ipv6 es = elim (ip_volume_lookup ip ipv6 es) [
    | some i ↦ some (i, es)
    | none ↦ elim (ip_volume_acquire_slot es) [
      | none ↦ none
      | some (i, es') ↦ some (
        i,
        set es' i (record no_volume {
          ip = ip;
          ipv6 = if ip == 0 then ipv6 else zero_addr;
          last_seen = now;
        }),
      )
    ]
  ]

  -- a change of the table of a secret that is counted
  abbrev pub with_table : ℕ → (List VolumeEntry → List VolumeEntry) → Volumes → Volumes
  with_table sid f v =
      if v.runtime == 0
      then v
      else (if leb max_secrets sid
          then v
          else record v { tables = set v.tables sid (f (get_or v.tables sid [])) })

  -- a change of an entry, which has then been seen
  abbrev pub touch : (VolumeEntry → VolumeEntry) → ℕ → List VolumeEntry → List VolumeEntry
  touch f i es = set es i (record (f (get_or es i no_volume)) { last_seen = now })

  unfoldable pub account_connect : ℕ → ℕ → Bytes → Volumes → Volumes
  unfolding ip_volume_get_or_create
  account_connect sid ip ipv6 = with_table sid (λ es. elim (ip_volume_get_or_create ip ipv6 es) [
    | none ↦ es
    | some (i, es') ↦ touch (λ e. record e { connections = e.connections + 1 }) i es'
  ])

  unfoldable pub account_disconnect : ℕ → ℕ → Bytes → Volumes → Volumes
  unfolding ip_volume_lookup
  account_disconnect sid ip ipv6 = with_table sid (λ es. elim (ip_volume_lookup ip ipv6 es) [
    | none ↦ es
    | some i ↦ touch (λ e. record e { connections = e.connections - 1 }) i es
  ])

  -- `bytes` is positive; `inward` is `direction == 0`
  unfoldable pub account_bytes : ℕ → ℕ → Bytes → ℕ → Bool → Volumes → Volumes
  unfolding ip_volume_get_or_create
  account_bytes sid ip ipv6 bytes inward v =
      if bytes == 0
      then v
      else with_table sid
          (λ es. elim (ip_volume_get_or_create ip ipv6 es) [
            | none ↦ es
            | some (i, es') ↦
                touch
                  (λ e.
                    if inward
                    then record e { bytes_in = e.bytes_in + bytes }
                    else record e { bytes_out = e.bytes_out + bytes })
                  i es'
          ])
          v

-- an entry and its `picked`
abbrev pub Candidate : Type 0
Candidate = VolumeEntry × Bool

unfoldable pub is_reported : Candidate → Bool
unfolding is_unused
is_reported (e, picked) =
    not picked && (not (is_unused e) && not (total e == 0 && e.connections == 0))

-- the scan for the entry with the most bytes, and these
unfoldable pub find_best : ℕ → List Candidate → Option (ℕ × ℕ) → Option (ℕ × ℕ)
unfolding is_reported
find_best i [] best = best
find_best i (c ∷ cs) best =
    if not (is_reported c)
    then find_best (i + 1) cs best
    else find_best (i + 1) cs (elim best [
      | none ↦ some (i, total c.0)
      | some (j, most) ↦ if ltb most (total c.0) then some (i, total c.0) else some (j, most)
    ])

abbrev pub top_ip : VolumeEntry → TopIp
top_ip e = record {
  ip = e.ip;
  ipv6 = e.ipv6;
  connections = e.connections;
  bytes_in = e.bytes_in;
  bytes_out = e.bytes_out;
}

-- the selection
unfoldable pub select : ℕ → List Candidate → List TopIp
unfolding find_best
select zero cs = []
select (suc max) cs = elim (find_best 0 cs none) [
  | none ↦ []
  | some (i, most) ↦
      let e = (get_or cs i (no_volume, true)).0 in top_ip e ∷ select max (set cs i (e, true))
]

unfoldable pub snapshot_top_ips : ℕ → ℕ → Volumes → List TopIp
unfolding select
snapshot_top_ips sid max v =
    if v.runtime == 0
    then []
    else (if leb max_secrets sid
        then []
        else select max (map (λ e. (e, false)) (get_or v.tables sid [])))
