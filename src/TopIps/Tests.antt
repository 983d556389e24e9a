-- ===== src/TopIps/Tests.antt =====
-- Three addresses of a secret, one of which has most bytes.
use mtbolt.Common.{
  ℕ, ◌≡◌, refl, arith, true, false, [], ◌∷◌, List, replicate, map, set, some, get_or, eq_bytes,
}
use mtbolt.TopIps.{
  VolumeEntry, TopIp, Volumes, no_volume, zero_addr, account_connect, account_bytes,
  snapshot_top_ips, ip_volume_get_or_create,
}
use mtbolt.TopIps.Kept.{IsGiven, ip_volume_get_or_create-IsGiven}
use mtbolt.TopIps.Select.{Chosen, snapshot_top_ips-Chosen}

abbrev empty_tables : Volumes
empty_tables = record { runtime = 2; tables = replicate 16 (replicate 4 no_volume) }

abbrev busy : Volumes
busy = account_bytes 1000 50 3 7 zero_addr 10 true (
    account_bytes 1000 40 3 8 zero_addr 30 false
      (account_connect 1000 30 3 9 zero_addr empty_tables))

abbrev ips : List TopIp → List ℕ
ips = map (λ t. t.ip)

top_two : ips (snapshot_top_ips 3 2 busy) ≡ 8 ∷ 7 ∷ []
unfolding snapshot_top_ips account_bytes account_connect eq_bytes
top_two = refl

busy_runtime : busy.runtime ≡ 2
unfolding account_bytes account_connect
busy_runtime = refl

snapshot_top_ips-Chosen_example :
    Chosen 2 (map (λ e. (e, false)) (get_or busy.tables 3 [])) (snapshot_top_ips 3 2 busy)
snapshot_top_ips-Chosen_example =
    snapshot_top_ips-Chosen 3 2 busy (omega (arith, busy_runtime)) (omega arith)

-- A table without room, whose second entry is the only stale one.
abbrev full_table : List VolumeEntry
full_table =
    record no_volume { ip = 1; connections = 1 }
    ∷ record no_volume { ip = 2; bytes_in = 5 }
    ∷ record no_volume { ip = 3; last_seen = 9000 }
    ∷ []

evicted :
    ip_volume_get_or_create 1000 10000 4 zero_addr full_table
    ≡ some (1, set full_table 1 (record no_volume { ip = 4; last_seen = 10000 }))
unfolding ip_volume_get_or_create eq_bytes
evicted = refl

ip_volume_get_or_create-IsGiven_example :
    IsGiven 1000 10000 4 zero_addr full_table
      (ip_volume_get_or_create 1000 10000 4 zero_addr full_table)
ip_volume_get_or_create-IsGiven_example =
    ip_volume_get_or_create-IsGiven 1000 10000 4 zero_addr full_table
