-- ===== src/Dc.antt =====
-- The data centre addresses of src/mtproto/mtproto-dc-table.c: the built-in tables, the overrides,
-- and the lookup. `inet_pton` (for IPv6) and `inet_addr` are the C library's; `inet_pton` gives none
-- where the C function does not return 1, and `inet_addr` gives 2 ^ 32 - 1 for a bad address.
-- `addr_count` is the length of `addrs`: what stands behind it in the array is never read.
pub mod Override
mod Tests
use mtbolt.Common.{
  ℕ, zero, suc, ◌+◌, ◌-◌, ◌^◌, Bool, true, false, ◌&&◌, Option, none, some, List, [], ◌∷◌, ◌++◌,
  map, length, ltb, leb, ◌==◌, if◌then◌else◌, Bytes, replicate,
}
use mtbolt.Common.Int.{ℤ, pos, negsuc, abs_ℕ}

-- `struct dc_addr`
pub record DcAddr : Type 0 where
  pub ipv4 : ℕ
  pub ipv6 : Bytes
  pub port : ℤ

-- `struct dc_entry`
pub record DcEntry : Type 0 where
  pub dc_id : ℤ
  pub addrs : List DcAddr

pub record Tables : Type 0 where
  pub prod_table : List DcEntry
  pub test_table : List DcEntry

abbrev pub max_addrs : ℕ
max_addrs = 4

abbrev pub max_overrides : ℕ
max_overrides = 16

unfoldable pub eq_int : ℤ → ℤ → Bool
eq_int (pos a) (pos b) = a == b
eq_int (negsuc a) (negsuc b) = a == b
eq_int _ _ = false

-- "149.154.175.50"
abbrev prod1_ipv4 : Bytes
prod1_ipv4 = 49 ∷ 52 ∷ 57 ∷ 46 ∷ 49 ∷ 53 ∷ 52 ∷ 46 ∷ 49 ∷ 55 ∷ 53 ∷ 46 ∷ 53 ∷ 48 ∷ []

-- "2001:0b28:f23d:f001::a"
abbrev prod1_ipv6 : Bytes
prod1_ipv6 =
    50 ∷ 48 ∷ 48 ∷ 49 ∷ 58 ∷ 48 ∷ 98 ∷ 50 ∷ 56 ∷ 58 ∷ 102 ∷ 50 ∷ 51 ∷ 100 ∷ 58 ∷ 102 ∷ 48 ∷ 48 ∷ 49
    ∷ 58 ∷ 58 ∷ 97 ∷ []

-- "149.154.167.51"
abbrev prod2_ipv4 : Bytes
prod2_ipv4 = 49 ∷ 52 ∷ 57 ∷ 46 ∷ 49 ∷ 53 ∷ 52 ∷ 46 ∷ 49 ∷ 54 ∷ 55 ∷ 46 ∷ 53 ∷ 49 ∷ []

-- "2001:067c:04e8:f002::a"
abbrev prod2_ipv6 : Bytes
prod2_ipv6 =
    50 ∷ 48 ∷ 48 ∷ 49 ∷ 58 ∷ 48 ∷ 54 ∷ 55 ∷ 99 ∷ 58 ∷ 48 ∷ 52 ∷ 101 ∷ 56 ∷ 58 ∷ 102 ∷ 48 ∷ 48 ∷ 50
    ∷ 58 ∷ 58 ∷ 97 ∷ []

-- "149.154.175.100"
abbrev prod3_ipv4 : Bytes
prod3_ipv4 = 49 ∷ 52 ∷ 57 ∷ 46 ∷ 49 ∷ 53 ∷ 52 ∷ 46 ∷ 49 ∷ 55 ∷ 53 ∷ 46 ∷ 49 ∷ 48 ∷ 48 ∷ []

-- "2001:0b28:f23d:f003::a"
abbrev prod3_ipv6 : Bytes
prod3_ipv6 =
    50 ∷ 48 ∷ 48 ∷ 49 ∷ 58 ∷ 48 ∷ 98 ∷ 50 ∷ 56 ∷ 58 ∷ 102 ∷ 50 ∷ 51 ∷ 100 ∷ 58 ∷ 102 ∷ 48 ∷ 48 ∷ 51
    ∷ 58 ∷ 58 ∷ 97 ∷ []

-- "149.154.167.91"
abbrev prod4_ipv4 : Bytes
prod4_ipv4 = 49 ∷ 52 ∷ 57 ∷ 46 ∷ 49 ∷ 53 ∷ 52 ∷ 46 ∷ 49 ∷ 54 ∷ 55 ∷ 46 ∷ 57 ∷ 49 ∷ []

-- "2001:067c:04e8:f004::a"
abbrev prod4_ipv6 : Bytes
prod4_ipv6 =
    50 ∷ 48 ∷ 48 ∷ 49 ∷ 58 ∷ 48 ∷ 54 ∷ 55 ∷ 99 ∷ 58 ∷ 48 ∷ 52 ∷ 101 ∷ 56 ∷ 58 ∷ 102 ∷ 48 ∷ 48 ∷ 52
    ∷ 58 ∷ 58 ∷ 97 ∷ []

-- "91.108.56.100"
abbrev prod5_ipv4 : Bytes
prod5_ipv4 = 57 ∷ 49 ∷ 46 ∷ 49 ∷ 48 ∷ 56 ∷ 46 ∷ 53 ∷ 54 ∷ 46 ∷ 49 ∷ 48 ∷ 48 ∷ []

-- "2001:0b28:f23f:f005::a"
abbrev prod5_ipv6 : Bytes
prod5_ipv6 =
    50 ∷ 48 ∷ 48 ∷ 49 ∷ 58 ∷ 48 ∷ 98 ∷ 50 ∷ 56 ∷ 58 ∷ 102 ∷ 50 ∷ 51 ∷ 102 ∷ 58 ∷ 102 ∷ 48 ∷ 48 ∷ 53
    ∷ 58 ∷ 58 ∷ 97 ∷ []

-- "149.154.175.10"
abbrev test1_ipv4 : Bytes
test1_ipv4 = 49 ∷ 52 ∷ 57 ∷ 46 ∷ 49 ∷ 53 ∷ 52 ∷ 46 ∷ 49 ∷ 55 ∷ 53 ∷ 46 ∷ 49 ∷ 48 ∷ []

-- "2001:0b28:f23d:f001::e"
abbrev test1_ipv6 : Bytes
test1_ipv6 =
    50 ∷ 48 ∷ 48 ∷ 49 ∷ 58 ∷ 48 ∷ 98 ∷ 50 ∷ 56 ∷ 58 ∷ 102 ∷ 50 ∷ 51 ∷ 100 ∷ 58 ∷ 102 ∷ 48 ∷ 48 ∷ 49
    ∷ 58 ∷ 58 ∷ 101 ∷ []

-- "149.154.167.40"
abbrev test2_ipv4 : Bytes
test2_ipv4 = 49 ∷ 52 ∷ 57 ∷ 46 ∷ 49 ∷ 53 ∷ 52 ∷ 46 ∷ 49 ∷ 54 ∷ 55 ∷ 46 ∷ 52 ∷ 48 ∷ []

-- "2001:067c:04e8:f002::e"
abbrev test2_ipv6 : Bytes
test2_ipv6 =
    50 ∷ 48 ∷ 48 ∷ 49 ∷ 58 ∷ 48 ∷ 54 ∷ 55 ∷ 99 ∷ 58 ∷ 48 ∷ 52 ∷ 101 ∷ 56 ∷ 58 ∷ 102 ∷ 48 ∷ 48 ∷ 50
    ∷ 58 ∷ 58 ∷ 101 ∷ []

-- "149.154.175.117"
abbrev test3_ipv4 : Bytes
test3_ipv4 = 49 ∷ 52 ∷ 57 ∷ 46 ∷ 49 ∷ 53 ∷ 52 ∷ 46 ∷ 49 ∷ 55 ∷ 53 ∷ 46 ∷ 49 ∷ 49 ∷ 55 ∷ []

-- "2001:0b28:f23d:f003::e"
abbrev test3_ipv6 : Bytes
test3_ipv6 =
    50 ∷ 48 ∷ 48 ∷ 49 ∷ 58 ∷ 48 ∷ 98 ∷ 50 ∷ 56 ∷ 58 ∷ 102 ∷ 50 ∷ 51 ∷ 100 ∷ 58 ∷ 102 ∷ 48 ∷ 48 ∷ 51
    ∷ 58 ∷ 58 ∷ 101 ∷ []

-- The first entry of a table for a data centre.
unfoldable pub find_dc : ℤ → List DcEntry → Option DcEntry
find_dc id [] = none
find_dc id (e ∷ es) = let rest = find_dc id es in if eq_int e.dc_id id then some e else rest

-- `if (dc_id < 0) { … } if (dc_id >= 10000) { … }`: whether a test server is meant, and its number
abbrev pub is_test : ℤ → Bool
is_test dc_id = leb 10000 (abs_ℕ dc_id)

abbrev pub base_id : ℤ → ℕ
base_id dc_id = if is_test dc_id then abs_ℕ dc_id - 10000 else abs_ℕ dc_id

-- The origin of a CDN data centre.
abbrev pub origin_id : ℕ → ℕ
origin_id id = if ltb 200 id && ltb id 300 then id - 200 else id

unfoldable pub built_in : Tables → ℤ → Option DcEntry
built_in tables dc_id =
    find_dc (pos (origin_id (base_id dc_id)))
      (if is_test dc_id then tables.test_table else tables.prod_table)

-- `direct_dc_lookup`, with the tables that `dc_table_init` fills
unfoldable pub direct_dc_lookup : Tables → List DcEntry → ℤ → Option DcEntry
unfolding built_in
direct_dc_lookup tables overrides dc_id = elim (find_dc (pos (base_id dc_id)) overrides) [
  | some e ↦ some e
  | none ↦ built_in tables dc_id
]

module _ (inet_pton : Bytes → Option Bytes) (inet_addr : Bytes → ℕ) where
  -- The one address of an entry of `dc_table_init`; none where its assertion fails.
  unfoldable pub entry : ℕ → Bytes → Bytes → Option DcEntry
  entry id host4 host6 = elim (inet_pton host6) [
    | none ↦ none
    | some ipv6 ↦ some (record {
      dc_id = pos id;
      addrs = record { ipv4 = inet_addr host4; ipv6 = ipv6; port = pos 443 } ∷ [];
    })
  ]

  -- The entries, if every one is there.
  unfoldable pub all_entries : List (Option DcEntry) → Option (List DcEntry)
  all_entries [] = some []
  all_entries (none ∷ es) = none
  all_entries (some e ∷ es) = elim (all_entries es) [ none ↦ none | some es' ↦ some (e ∷ es') ]

  unfoldable pub dc_table_init : Option Tables
  unfolding all_entries
  dc_table_init =
      elim (all_entries (
        entry 1 prod1_ipv4 prod1_ipv6
        ∷ entry 2 prod2_ipv4 prod2_ipv6
        ∷ entry 3 prod3_ipv4 prod3_ipv6
        ∷ entry 4 prod4_ipv4 prod4_ipv6
        ∷ entry 5 prod5_ipv4 prod5_ipv6
        ∷ [])) [
          | none ↦ none
          | some prod ↦
              elim (all_entries (
                entry 1 test1_ipv4 test1_ipv6
                ∷ entry 2 test2_ipv4 test2_ipv6
                ∷ entry 3 test3_ipv4 test3_ipv6
                ∷ [])) [
                  | none ↦ none
                  | some test ↦ some (record { prod_table = prod; test_table = test })
                ]
        ]

  -- The address that a host stands for.
  unfoldable pub addr_of : Bytes → ℤ → Option DcAddr
  addr_of host port = elim (inet_pton host) [
    | some ipv6 ↦ some (record { ipv4 = 0; ipv6 = ipv6; port = port })
    | none ↦
        if inet_addr host == 2 ^ 32 - 1
        then none
        else some (record { ipv4 = inet_addr host; ipv6 = replicate 16 0; port = port })
  ]

  unfoldable pub add_addr : Bytes → ℤ → DcEntry → Bool × DcEntry
  unfolding addr_of
  add_addr host port e =
      if leb max_addrs (length e.addrs) then (false, e) else elim (addr_of host port) [
        | none ↦ (false, e)
        | some a ↦ (true, record e { addrs = e.addrs ++ (a ∷ []) })
      ]

  -- The address added to the first entry of the data centre, if there is one.
  unfoldable pub add_to : ℤ → Bytes → ℤ → List DcEntry → Option (Bool × List DcEntry)
  unfolding add_addr
  add_to id host port [] = none
  add_to id host port (e ∷ es) =
      let rest = add_to id host port es in
      let added = add_addr host port e in
      if eq_int e.dc_id id
      then some (added.0, added.1 ∷ es)
      else elim rest [ none ↦ none | some r ↦ some (r.0, e ∷ r.1) ]

  -- `direct_dc_override`: the overrides afterwards, and `false` for -1. A new entry stays when its
  -- address is refused.
  unfoldable pub direct_dc_override : ℤ → Bytes → ℤ → List DcEntry → Bool × List DcEntry
  unfolding add_to
  direct_dc_override id host port overrides = elim (add_to id host port overrides) [
    | some r ↦ r
    | none ↦
        if leb max_overrides (length overrides)
        then (false, overrides)
        else (let added = add_addr host port (record { dc_id = id; addrs = [] }) in
            (added.0, overrides ++ (added.1 ∷ [])))
  ]
