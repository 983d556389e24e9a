-- ===== src/IpStats/Tests.antt =====
-- Two workers that meet an address at the same time.
use mtbolt.Common.{◌≡◌, refl, true, false, List, [], ◌∷◌}
use mtbolt.IpStats.{found, Event, start, go, Shared, run_events, empty_shared}
use mtbolt.IpStats.Probe.{IsUnique, run_events-IsUnique}

-- Both read the empty slot before either takes it; worker 1 takes it. The last event comes first.
abbrev race : List Event
race = go 0 ∷ go 1 ∷ go 0 ∷ go 1 ∷ go 1 ∷ go 0 ∷ start 1 true 77 ∷ start 0 true 77 ∷ []

abbrev after : Shared
after = run_events 1024 race empty_shared

first_found : after.call 1 ≡ found 77 151 true
unfolding run_events
first_found = refl

second_found : after.call 0 ≡ found 77 151 false
unfolding run_events
second_found = refl

run_events-IsUnique_example : IsUnique 1024 after
run_events-IsUnique_example = run_events-IsUnique 1024 race
