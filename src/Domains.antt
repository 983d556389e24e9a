-- ===== src/Domains.antt =====
-- The domains that the fake-TLS front imitates: the tables of src/net/net-tcp-rpc-ext-server.c (the
-- hash buckets and the lookup) and `wildcard_match`, with the end of `tcp_rpc_add_proxy_domain`, of
-- src/net/net-tcp-rpc-ext-domain.c. A string is its bytes in front of the terminating zero; the array
-- of the buckets is a function of the index; a `next` chain is a list. `Info` is the data of a domain,
-- of which the tables read the name only.
pub mod Wildcard
pub mod Lookup
mod Tests
use mtbolt.Common.{
  ℕ, zero, suc, ◌+◌, ◌-◌, ◌*◌, ◌%◌, ◌^◌, Bool, true, false, not, ◌&&◌, ◌||◌, Option, none, some,
  List, [], ◌∷◌, length, leb, ◌==◌, if◌then◌else◌, Bytes, eq_bytes, take, drop,
}

-- `memchr (s, c, n) != NULL`
unfoldable pub has_byte : ℕ → Bytes → Bool
has_byte c [] = false
has_byte c (b ∷ bs) = b == c || has_byte c bs

unfoldable pub wildcard_match : Bytes → Bytes → Bool
wildcard_match wild sni =
    let suffix = drop 1 wild in
    let label_len = length sni - length suffix in
    if leb (length sni) (length suffix)
    then false
    else (if has_byte 46 (take label_len sni)
        then false
        else (if has_byte 42 (take label_len sni)
            then false
            else eq_bytes (drop label_len sni) suffix))

-- `DOMAIN_HASH_MOD`
abbrev pub hash_mod : ℕ
hash_mod = 257

-- the loop of `get_domain_info_bucket`, on 32 bits
unfoldable pub hash_from : ℕ → Bytes → ℕ
hash_from hash [] = hash
hash_from hash (b ∷ bs) = hash_from ((hash * 239017 + b) % 2 ^ 32) bs

abbrev pub bucket_of : Bytes → ℕ
bucket_of name = hash_from 0 name % hash_mod

module _ (Info : Type 0) (domain : Info → Bytes) where
  pub record Domains : Type 0 where
    pub buckets : ℕ → List Info
    pub wildcards : List Info

  unfoldable pub find_exact : Bytes → List Info → Option Info
  find_exact name [] = none
  find_exact name (i ∷ is) =
      let rest = find_exact name is in if eq_bytes (domain i) name then some i else rest

  unfoldable pub find_wildcard : Bytes → List Info → Option Info
  find_wildcard name [] = none
  find_wildcard name (i ∷ is) =
      let rest = find_wildcard name is in if wildcard_match (domain i) name then some i else rest

  unfoldable pub get_domain_info : Domains → Bytes → Option Info
  unfolding find_exact find_wildcard
  get_domain_info d name = elim (find_exact name (d.buckets (bucket_of name))) [
    | some i ↦ some i
    | none ↦ find_wildcard name d.wildcards
  ]

  -- `info->domain[0] == '*'`
  unfoldable pub is_wildcard : Info → Bool
  is_wildcard i = elim (domain i) [ [] ↦ false | ◌∷◌ c cs ↦ c == 42 ]

  -- The end of `tcp_rpc_add_proxy_domain`, for a domain that passed its checks.
  unfoldable pub insert : Info → Domains → Domains
  unfolding is_wildcard
  insert i d = if is_wildcard i then record d { wildcards = i ∷ d.wildcards } else record d {
    buckets = λ b. if b == bucket_of (domain i) then i ∷ d.buckets b else d.buckets b;
  }
