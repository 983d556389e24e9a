-- ===== src/Secrets/Rate/Tests.antt =====
-- A limit of 1000 bytes a second, of which a client relays 4500 at once and its data center 200 later.
use mtbolt.Common.{◌≡◌, refl, true, false, List, [], ◌∷◌}
use mtbolt.Common.Int.{pos, negsuc}
use mtbolt.Secrets.Slot.{no_ip, zero_ipv6}
use mtbolt.Secrets.Track.{share, new_entry}
use mtbolt.Secrets.Rate.{Traffic, relay, alarm, Flow, run_traffic}
use mtbolt.Secrets.Rate.Bound.{fresh, Allowance, run_traffic-Allowance}

-- The client is 1, the data center 2; the last event comes first.
abbrev busy : List Traffic
busy = relay 10 2 200 ∷ alarm 1_000_000 1 ∷ relay 0 1 4500 ∷ []

abbrev start_of : Flow
start_of = fresh 1 50 999 7 zero_ipv6 no_ip

-- The client's alarm comes too early for its debt, and only the data center is stopped then.
stopped_alone :
    ((run_traffic 1 (pos 1000) busy start_of).stopped 1 ≡ false)
    × ((run_traffic 1 (pos 1000) busy start_of).stopped 2 ≡ true)
    × ((run_traffic 1 (pos 1000) busy start_of).tip.tokens ≡ negsuc 2699)
unfolding run_traffic new_entry share
stopped_alone = (refl, refl, refl)

run_traffic-Allowance_example :
    Allowance (share 1 1000) 50 busy (run_traffic 1 (pos 1000) busy start_of)
run_traffic-Allowance_example = run_traffic-Allowance 1 50 999 7 zero_ipv6 no_ip busy
