-- ===== src/Acl/Tests.antt =====
-- The access lists with a C library that reads one-character hosts: `4` is 1.2.3.4 and `6` is an
-- IPv6 address, and `strtol` reads one digit.
use mtbolt.Common.{
  ℕ, zero, suc, ◌-◌, ◌^◌, ◌<◌, ◌≡◌, refl, arith, Bool, false, Option, none, some, List, [], ◌∷◌,
  Bytes, replicate, Bool-cases, inl, inr, subst, ◌==◌, if◌then◌else◌,
}
use mtbolt.Common.Int.{ℤ, pos}
use mtbolt.Acl.{Rule, rule_v4, rule_v6, match_v6, contains_v6, check_v4, check_v6, parse_cidr}
use mtbolt.Acl.Prefix.{Parsed, AreBytes, parse_cidr-Parsed}
use mtbolt.Acl.Mapped.{mapped, check_v6-mapped}

abbrev pton4 : Bytes → Option ℕ
pton4 (c ∷ []) = if c == 52 then some 16909060 else none
pton4 _ = none

abbrev pton6 : Bytes → Option Bytes
pton6 (c ∷ []) = if c == 54 then some (replicate 16 255) else none
pton6 _ = none

abbrev digit : Bytes → ℤ × Bytes
digit [] = (pos 0, [])
digit (c ∷ cs) = (pos (c - 48), cs)

abbrev space : ℕ → Bool
space c = false

pton4_words : (s : Bytes) (a : ℕ) → pton4 s ≡ some a → a < 2 ^ 32
pton4_words [] a h = absurd (ground (arith, h))
pton4_words (c ∷ []) a h = ground (arith, h)
pton4_words (c ∷ c' ∷ cs) a h = absurd (ground (arith, h))

replicate_bytes : (n : ℕ) → AreBytes (replicate n 255)
replicate_bytes zero = tt
replicate_bytes (suc n) = (omega arith, replicate_bytes n)

pton6_bytes : (s a : Bytes) → pton6 s ≡ some a → AreBytes a
pton6_bytes [] a h = absurd (ground (arith, h))
pton6_bytes (c ∷ []) a h = elim (Bool-cases (c == 54)) [
  | inl is6 ↦
      let is : replicate 16 255 ≡ a = ground (arith, is6, h) in
      subst AreBytes is (replicate_bytes 16)
  | inr other ↦ absurd (ground (arith, other, h))
]
pton6_bytes (c ∷ c' ∷ cs) a h = absurd (ground (arith, h))

parse_cidr-Parsed_example :
    Parsed pton4 pton6 digit space
      (52 ∷ 47 ∷ 56 ∷ [])
      (parse_cidr pton4 pton6 digit space (52 ∷ 47 ∷ 56 ∷ []))
parse_cidr-Parsed_example =
    parse_cidr-Parsed pton4 pton6 digit space pton4_words pton6_bytes (52 ∷ 47 ∷ 56 ∷ [])

parsed : parse_cidr pton4 pton6 digit space (52 ∷ 47 ∷ 56 ∷ []) ≡ some (rule_v4 8 (2 ^ 24))
unfolding parse_cidr
parsed = refl

abbrev allow : List Rule
allow = rule_v4 8 (2 ^ 24) ∷ rule_v6 8 (replicate 16 255) ∷ []

unmatched : contains_v6 allow (mapped 16909060) ≡ false
unfolding contains_v6 match_v6
unmatched = refl

empty_unmatched : contains_v6 [] (mapped 16909060) ≡ false
unfolding contains_v6
empty_unmatched = refl

check_v6-mapped_example : check_v6 allow [] (mapped 16909060) ≡ check_v4 allow [] 16909060
check_v6-mapped_example =
    check_v6-mapped allow [] 16909060 (omega arith) (omega arith) unmatched empty_unmatched
