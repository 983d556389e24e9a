-- ===== src/Acl/Mapped.antt =====
-- The checks of an IPv4 client that reaches a dual-stack socket, as the address ::ffff:a.b.c.d
-- (`ip_acl_check_v6` and `ip_acl_check_v4` of src/net/net-ip-acl.c).
use mtbolt.Common.{
  ℕ, ◌/◌, ◌%◌, ◌^◌, ◌<◌, ◌≡◌, arith, Bool, true, false, List, [], ◌∷◌, ◌++◌, Bytes, ◌==◌,
  if◌then◌else◌, eq_bytes, not, ◌&&◌,
}
use mtbolt.Acl.{
  Rule, v4mapped_prefix, v6_to_v4_mapped, contains_v4, contains_v6, is_empty_list, check_v4,
  check_v6,
}

abbrev pub mapped : ℕ → Bytes
mapped ip =
    v4mapped_prefix ++ (ip / 2 ^ 24 ∷ ip / 2 ^ 16 % 2 ^ 8 ∷ ip / 2 ^ 8 % 2 ^ 8 ∷ ip % 2 ^ 8 ∷ [])

v6_to_v4_mapped-mapped : (ip : ℕ) → ip < 2 ^ 32 → v6_to_v4_mapped (mapped ip) ≡ ip
unfolding v6_to_v4_mapped eq_bytes
v6_to_v4_mapped-mapped ip below = omega arith

-- An IPv4 address other than 0.0.0.0 gets the same answer as its mapped form, if no IPv6 rule of the
-- lists matches the mapped form.
pub check_v6-mapped :
    (allow block : List Rule) (ip : ℕ)
    → 0 < ip
    → ip < 2 ^ 32
    → contains_v6 allow (mapped ip) ≡ false
    → contains_v6 block (mapped ip) ≡ false
    → check_v6 allow block (mapped ip) ≡ check_v4 allow block ip
unfolding check_v6 check_v4
check_v6-mapped allow block ip above below allowed blocked =
    let nonzero : (ip == 0) ≡ false = ground arith in
    rw (v6_to_v4_mapped-mapped ip below, allowed, blocked, nonzero)
      (answers (is_empty_list allow) (is_empty_list block) (contains_v4 allow ip)
        (contains_v4 block ip))
  where
    answers :
        (no_allow no_block allow4 block4 : Bool)
        → (if not no_allow
            then (if false then true else (if true && allow4 then true else false))
            else (if not no_block
                then (if false then false else (if true && block4 then false else true))
                else true))
          ≡ (if not no_allow then allow4 else (if not no_block then not block4 else true))
    answers a b c d = ground arith
