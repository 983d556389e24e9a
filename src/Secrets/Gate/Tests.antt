-- ===== src/Secrets/Gate/Tests.antt =====
-- A secret with at most one address and no other limit.
use mtbolt.Common.{◌≤◌, ◌≡◌, refl, arith, true, false, [], ◌∷◌, Bytes, replicate, if◌then◌else◌}
use mtbolt.Common.Int.{pos}
use mtbolt.Secrets.Slot.{slot_active, Slot, no_policy, no_counters, cleared}
use mtbolt.Secrets.Track.{share}
use mtbolt.Secrets.Bloom.{test_and_set}
use mtbolt.Secrets.Bloom.Old.{add_all, test_and_set-old}
use mtbolt.Secrets.Gate.{accept, leave}
use mtbolt.Secrets.Gate.Limits.{State, here, next, arrive, Holds, Reach-Holds}

abbrev secret : Slot
secret = record {
  key = replicate 16 1;
  label = [];
  policy = record no_policy { max_ips = pos 1 };
  state = slot_active;
  drain_started = 0;
  counters = no_counters;
  tracking = cleared;
}

abbrev ipv6 : Bytes
ipv6 = replicate 16 0

-- The first address is accepted twice, and another one is not until the first has left.
abbrev first : Slot
first = (accept 1 0 0 9 ipv6 secret).1

second_address : (accept 1 0 0 8 ipv6 first).0 ≡ false
unfolding accept
second_address = refl

same_address : (accept 1 0 0 9 ipv6 first).0 ≡ true
unfolding accept
same_address = refl

after_leave : (accept 1 0 0 8 ipv6 (leave 9 ipv6 first)).0 ≡ true
unfolding accept leave
after_leave = refl

share_fits : share 1 1 ≤ 256
unfolding share
share_fits = ground arith

abbrev arrived : State
arrived = record {
  slot = first;
  open_now = if◌then◌else◌ (accept 1 0 0 9 ipv6 secret).0 ((9, ipv6) ∷ []) [];
}

Reach-Holds_example : Holds 1 0 arrived.slot arrived.open_now
Reach-Holds_example =
    Reach-Holds 1 0 share_fits secret arrived refl refl refl (next here (arrive 0 0 9 ipv6 refl))

test_and_set-old_example :
    (test_and_set 9 ipv6 (add_all ((8, ipv6) ∷ []) (test_and_set 9 ipv6 []).1)).0 ≡ false
test_and_set-old_example = test_and_set-old 9 ipv6 [] ((8, ipv6) ∷ [])
