-- ===== src/Dc/Tests.antt =====
-- The data centre tables with a C library that takes one character as an IPv4 host, and no IPv6 host.
use mtbolt.Common.{
  ℕ, ◌^◌, ◌-◌, ◌≡◌, ◌≢◌, refl, arith, true, false, Option, none, some, List, [], ◌∷◌, ◌++◌, Bytes,
  replicate,
}
use mtbolt.Common.Int.{ℤ, pos, negsuc}
use mtbolt.Dc.{
  DcAddr, DcEntry, Tables, eq_int, find_dc, base_id, direct_dc_lookup, addr_of, direct_dc_override,
}
use mtbolt.Dc.Override.{addrs_of, direct_dc_override-lookup, direct_dc_override_bad}

abbrev pton : Bytes → Option Bytes
pton host = none

abbrev addr : Bytes → ℕ
addr (c ∷ []) = c
addr _ = 2 ^ 32 - 1

abbrev given : DcAddr
given = record { ipv4 = 7; ipv6 = replicate 16 0; port = pos 443 }

abbrev before : DcAddr
before = record { ipv4 = 5; ipv6 = replicate 16 0; port = pos 80 }

abbrev tables : Tables
tables = record { prod_table = record { dc_id = pos 2; addrs = before ∷ [] } ∷ []; test_table = [] }

abbrev overrides : List DcEntry
overrides = record { dc_id = pos 2; addrs = before ∷ [] } ∷ []

overridden : (direct_dc_override pton addr (pos 2) (7 ∷ []) (pos 443) overrides).0 ≡ true
unfolding direct_dc_override eq_int
overridden = refl

addressed : addr_of pton addr (7 ∷ []) (pos 443) ≡ some given
unfolding addr_of
addressed = refl

-- the CDN's data centre 202 is data centre 2
cdn : direct_dc_lookup tables [] (negsuc 201) ≡ some (record { dc_id = pos 2; addrs = before ∷ [] })
unfolding direct_dc_lookup find_dc eq_int
cdn = refl

direct_dc_override-lookup_example :
    ((dc_id : ℤ)
      → base_id dc_id ≡ 2
      → (e : DcEntry) × (direct_dc_lookup tables
            (direct_dc_override pton addr (pos 2) (7 ∷ []) (pos 443) overrides).1
            dc_id
          ≡ some e)
        × (e.addrs ≡ addrs_of (find_dc (pos 2) overrides) ++ (given ∷ [])))
    × ((dc_id : ℤ)
        → base_id dc_id ≢ 2
        → direct_dc_lookup tables
            (direct_dc_override pton addr (pos 2) (7 ∷ []) (pos 443) overrides).1
            dc_id
          ≡ direct_dc_lookup tables overrides dc_id)
direct_dc_override-lookup_example =
    direct_dc_override-lookup pton addr tables 2 (7 ∷ []) (pos 443) overrides given addressed
      overridden

unaddressed : addr_of pton addr [] (pos 443) ≡ none
unfolding addr_of
unaddressed = refl

unlisted : find_dc (pos 2) [] ≡ none
unfolding find_dc
unlisted = refl

direct_dc_override_bad_example :
    ((direct_dc_override pton addr (pos 2) [] (pos 443) []).0 ≡ false)
    × (direct_dc_lookup tables (direct_dc_override pton addr (pos 2) [] (pos 443) []).1 (pos 2)
        ≡ some (record { dc_id = pos 2; addrs = [] }))
direct_dc_override_bad_example =
    direct_dc_override_bad pton addr tables 2 [] (pos 443) [] (pos 2) unaddressed unlisted
      (omega arith) refl
