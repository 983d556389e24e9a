-- ===== src/Secrets/Track.antt =====
-- The tracking of the addresses of a secret, in src/net/net-tcp-rpc-ext-server.c. The callers pass an
-- array for `ipv6`, never a null pointer; a clock reading is a number; the warning about a full table is
-- left out.
pub mod Counts
pub mod Loops
pub mod Connect
use mtbolt.Common.{
  ℕ, zero, suc, ◌+◌, ◌-◌, ◌/◌, Bool, true, false, not, ◌&&◌, ◌||◌, Option, none, some, List, [],
  ◌∷◌, Bytes, ltb, leb, ◌==◌, if◌then◌else◌, eq_bytes,
}
use mtbolt.Common.Int.{ℤ, pos, negsuc}
use mtbolt.Secrets.Slot.{TrackedIp, zero_ipv6, Tracking, Counters, Policy, Slot}
use mtbolt.Secrets.Bloom.{test_and_set}

-- a positive limit, as a number
unfoldable pub positive : ℤ → Bool
positive (pos n) = ltb 0 n
positive (negsuc n) = false

-- the share of a worker: `eff` of a positive limit
unfoldable pub share : ℕ → ℕ → ℕ
share workers limit =
    let eff = if ltb 1 workers then limit / workers else limit in if ltb eff 1 then 1 else eff

-- Whether an entry with the address `ip'` and `ipv6'` has that of a client.
unfoldable pub same : ℕ → Bytes → ℕ → Bytes → Bool
same ip ipv6 ip' ipv6' =
    if not (ip == 0)
    then ip' == ip
    else (ip' == 0 && (not (eq_bytes ipv6' zero_ipv6) && eq_bytes ipv6' ipv6))

unfoldable pub tracks : ℕ → Bytes → TrackedIp → Bool
unfolding same
tracks ip ipv6 e = ltb 0 e.connections && same ip ipv6 e.ip e.ipv6

-- the first loop of `ip_over_limit`
unfoldable pub is_tracked : ℕ → Bytes → List TrackedIp → Bool
unfolding tracks
is_tracked ip ipv6 [] = false
is_tracked ip ipv6 (e ∷ es) = tracks ip ipv6 e || is_tracked ip ipv6 es

-- the first loop of `ip_track_connect`; `none` when it finds nothing
unfoldable pub bump : ℕ → Bytes → List TrackedIp → Option (List TrackedIp)
unfolding tracks
bump ip ipv6 [] = none
bump ip ipv6 (e ∷ es) =
    if tracks ip ipv6 e
    then some (record e { connections = e.connections + 1 } ∷ es)
    else elim (bump ip ipv6 es) [ none ↦ none | some es' ↦ some (e ∷ es') ]

-- The new entry; without a rate limit the bucket of the old one stays.
unfoldable pub new_entry : ℕ → ℕ → ℤ → ℕ → Bytes → TrackedIp → TrackedIp
unfolding share
new_entry workers now (pos (suc n)) ip ipv6 e = record {
  ip = ip;
  ipv6 = ipv6;
  connections = 1;
  tokens = pos (share workers (suc n));
  last_refill_time = now;
}
new_entry workers now _ ip ipv6 e = record e { ip = ip; ipv6 = ipv6; connections = 1 }

-- its second loop
unfoldable pub place : (TrackedIp → TrackedIp) → List TrackedIp → Option (List TrackedIp)
place new [] = none
place new (e ∷ es) =
    if not (ltb 0 e.connections)
    then some (new e ∷ es)
    else elim (place new es) [ none ↦ none | some es' ↦ some (e ∷ es') ]

-- what `ip_track_connect` does for a secret with a limit
unfoldable pub connect_entry : (TrackedIp → TrackedIp) → ℕ → Bytes → Tracking → Tracking
unfolding bump place
connect_entry new ip ipv6 t = elim (bump ip ipv6 t.tracked_ips) [
  | some es ↦ record t { tracked_ips = es }
  | none ↦ elim (place new t.tracked_ips) [
    | some es ↦ record t { tracked_ips = es; unique_ip_count = t.unique_ip_count + 1 }
    | none ↦ t
  ]
]

unfoldable pub ip_track_connect : ℕ → ℕ → ℕ → Bytes → Slot → Slot
unfolding positive new_entry connect_entry
ip_track_connect workers now ip ipv6 s =
    let seen = test_and_set ip ipv6 s.tracking.bloom in
    let t = record s.tracking { bloom = seen.1 } in
    record s {
      counters = record s.counters {
        unique_ips = s.counters.unique_ips + (if seen.0 then 1 else 0);
      };
      tracking =
          if not (positive s.policy.max_ips) && not (positive s.policy.rate_limit)
          then t
          else connect_entry (new_entry workers now s.policy.rate_limit ip ipv6) ip ipv6 t;
    }

-- `e->connections--`, with the entry's end, and whether it ended
unfoldable pub drop_connection : TrackedIp → TrackedIp × Bool
drop_connection e =
    if leb e.connections 1
    then (record e { ip = 0; ipv6 = zero_ipv6; connections = 0 }, true)
    else (record e { connections = e.connections - 1 }, false)

-- the loop of `ip_track_disconnect_impl`
unfoldable pub release_entry : ℕ → Bytes → List TrackedIp → List TrackedIp × Bool
unfolding tracks drop_connection
release_entry ip ipv6 [] = ([], false)
release_entry ip ipv6 (e ∷ es) =
    if tracks ip ipv6 e
    then (let r = drop_connection e in (r.0 ∷ es, r.1))
    else (let r = release_entry ip ipv6 es in (e ∷ r.0, r.1))

unfoldable pub ip_track_disconnect : ℕ → Bytes → Slot → Slot
unfolding release_entry
ip_track_disconnect ip ipv6 s =
    let r = release_entry ip ipv6 s.tracking.tracked_ips in
    record s {
      tracking = record s.tracking {
        tracked_ips = r.0;
        unique_ip_count = s.tracking.unique_ip_count - (if r.1 then 1 else 0);
      };
    }
