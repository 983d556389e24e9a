-- ===== src/Acl.antt =====
-- The address access lists of src/net/net-ip-acl.c: CIDR rules, and the allow and the block list.
-- An IPv4 address is a number in host byte order; an IPv6 address is its 16 bytes; a string is its
-- bytes in front of the terminating zero. A list that is not loaded has no rules, which the tests
-- `acl && acl->count > 0` do not tell from a list without rules.
-- `inet_pton` is the C library's (for IPv4 with `ntohl` behind it), as are `strtol` in base 10, which
-- gives the number and the rest of the string, and `isspace`.
pub mod Prefix
pub mod Mapped
mod Tests
use mtbolt.Common.{
  ℕ, zero, suc, ◌+◌, ◌-◌, ◌*◌, ◌/◌, ◌%◌, ◌^◌, Bool, true, false, not, ◌&&◌, ◌||◌, Option, none,
  some, List, [], ◌∷◌, ◌++◌, length, ltb, leb, ◌==◌, if◌then◌else◌, Bytes, eq_bytes, get_or, take,
}
use mtbolt.Common.Int.{ℤ, pos, negsuc}

-- `struct ip_acl_rule`: the family, the prefix length and the address
pub data Rule : Type 0 where
  rule_v4 : ℕ → ℕ → Rule
  rule_v6 : ℕ → Bytes → Rule

-- `addr & (0xFFFFFFFFu << (32 - prefix_len))`; nothing is kept of a prefix of 0, and all of one of 32.
unfoldable pub mask_v4 : ℕ → ℕ → ℕ
mask_v4 addr prefix_len =
    if prefix_len == 0
    then 0
    else (if leb 32 prefix_len then addr else addr - addr % 2 ^ (32 - prefix_len))

-- `addr[i] & mask` where `bits` of the prefix are left for the byte; a negative number is 0 here
unfoldable pub mask_byte : ℕ → ℕ → ℕ
mask_byte bits b = if leb 8 bits then b else (if ltb 0 bits then b - b % 2 ^ (8 - bits) else 0)

-- The bytes from one on, with the bits of the prefix that are left for them.
unfoldable pub mask_v6 : ℕ → Bytes → Bytes
unfolding mask_byte
mask_v6 bits [] = []
mask_v6 bits (b ∷ bs) = mask_byte bits b ∷ mask_v6 (bits - 8) bs

unfoldable pub match_v4 : Rule → ℕ → Bool
unfolding mask_v4
match_v4 (rule_v4 prefix_len addr) ip = mask_v4 ip prefix_len == addr
match_v4 (rule_v6 prefix_len addr) ip = false

-- the loop of `match_v6`
unfoldable pub match_bytes : ℕ → Bytes → Bytes → Bool
unfolding mask_byte
match_bytes bits (x ∷ xs) (y ∷ ys) = mask_byte bits x == y && match_bytes (bits - 8) xs ys
match_bytes bits _ _ = true

unfoldable pub match_v6 : Rule → Bytes → Bool
unfolding match_bytes
match_v6 (rule_v4 prefix_len addr) ipv6 = false
match_v6 (rule_v6 prefix_len addr) ipv6 = match_bytes prefix_len ipv6 addr

unfoldable pub contains_v4 : List Rule → ℕ → Bool
contains_v4 [] ip = false
contains_v4 (r ∷ rs) ip = match_v4 r ip || contains_v4 rs ip

unfoldable pub contains_v6 : List Rule → Bytes → Bool
contains_v6 [] ipv6 = false
contains_v6 (r ∷ rs) ipv6 = match_v6 r ipv6 || contains_v6 rs ipv6

abbrev pub v4mapped_prefix : Bytes
v4mapped_prefix = 0 ∷ 0 ∷ 0 ∷ 0 ∷ 0 ∷ 0 ∷ 0 ∷ 0 ∷ 0 ∷ 0 ∷ 255 ∷ 255 ∷ []

unfoldable pub v6_to_v4_mapped : Bytes → ℕ
v6_to_v4_mapped ipv6 =
    if eq_bytes (take 12 ipv6) v4mapped_prefix
    then get_or ipv6 12 0 * 2 ^ 24
      + get_or ipv6 13 0 * 2 ^ 16
      + get_or ipv6 14 0 * 2 ^ 8
      + get_or ipv6 15 0
    else 0

abbrev pub is_empty_list : List Rule → Bool
is_empty_list [] = true
is_empty_list (r ∷ rs) = false

unfoldable pub check_v4 : List Rule → List Rule → ℕ → Bool
check_v4 allow block ip =
    if not (is_empty_list allow)
    then contains_v4 allow ip
    else (if not (is_empty_list block) then not (contains_v4 block ip) else true)

unfoldable pub check_v6 : List Rule → List Rule → Bytes → Bool
unfolding v6_to_v4_mapped
check_v6 allow block ipv6 =
    let v4 = v6_to_v4_mapped ipv6 in
    if not (is_empty_list allow)
    then (if contains_v6 allow ipv6
        then true
        else (if not (v4 == 0) && contains_v4 allow v4 then true else false))
    else (if not (is_empty_list block)
        then (if contains_v6 block ipv6
            then false
            else (if not (v4 == 0) && contains_v4 block v4 then false else true))
        else true)

-- `strchr (s, '/')`: what stands in front of the slash, and behind it if there is one
unfoldable pub split_slash : Bytes → Bytes × Option Bytes
split_slash [] = ([], none)
split_slash (c ∷ cs) =
    let rest = split_slash cs in if c == 47 then ([], some cs) else (c ∷ rest.0, rest.1)

-- the 32-bit integer of a bit pattern
abbrev pub signed32 : ℕ → ℤ
signed32 w = if ltb w (2 ^ 31) then pos w else negsuc (2 ^ 32 - w - 1)

-- `(int) x`
unfoldable pub int_of_long : ℤ → ℤ
int_of_long (pos n) = signed32 (n % 2 ^ 32)
int_of_long (negsuc n) = signed32 (2 ^ 32 - 1 - n % 2 ^ 32)

module _ (inet_pton4 : Bytes → Option ℕ) (inet_pton6 : Bytes → Option Bytes)
    (strtol : Bytes → ℤ × Bytes) (isspace : ℕ → Bool) where
  -- `*endptr && !isspace (*endptr)`
  unfoldable pub is_garbage : Bytes → Bool
  is_garbage [] = false
  is_garbage (c ∷ cs) = not (isspace c)

  -- The prefix length behind the slash.
  unfoldable pub prefix_of : Bytes → Option ℤ
  unfolding is_garbage int_of_long
  prefix_of s =
      let parsed = strtol s in if is_garbage parsed.1 then none else some (int_of_long parsed.0)

  -- `explicit_prefix` with its value, or the whole address, in the range of the family
  unfoldable pub prefix_within : ℕ → Option ℤ → Option ℕ
  prefix_within bits none = some bits
  prefix_within bits (some (pos n)) = if ltb bits n then none else some n
  prefix_within bits (some (negsuc n)) = none

  unfoldable pub rule_of : Bytes → Option ℤ → Option Rule
  unfolding prefix_within mask_v4 mask_v6
  rule_of host explicit = elim (inet_pton4 host) [
    | some addr ↦ elim (prefix_within 32 explicit) [
      | none ↦ none
      | some p ↦ some (rule_v4 p (mask_v4 addr p))
    ]
    | none ↦ elim (inet_pton6 host) [
      | none ↦ none
      | some addr ↦ elim (prefix_within 128 explicit) [
        | none ↦ none
        | some p ↦ some (rule_v6 p (mask_v6 p addr))
      ]
    ]
  ]

  -- `ip_acl_parse_cidr`
  unfoldable pub parse_cidr : Bytes → Option Rule
  unfolding split_slash prefix_of rule_of
  parse_cidr s =
      let parts = split_slash s in
      elim parts.1 [
        | none ↦ rule_of parts.0 none
        | some after ↦ elim (prefix_of after) [ none ↦ none | some p ↦ rule_of parts.0 (some p) ]
      ]
