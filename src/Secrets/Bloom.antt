-- ===== src/Secrets/Bloom.antt =====
-- The Bloom filter of src/net/net-tcp-rpc-ext-uniq-bloom.c: a slot's bitmap is the list of its set bits.
-- A value is an `unsigned` of 32 bits.
pub mod Old
use Prim.Native.Nat.{bit_xor}
use mtbolt.Common.{
  ℕ, zero, suc, ◌+◌, ◌*◌, ◌/◌, ◌%◌, ◌^◌, Bool, true, false, not, ◌||◌, List, [], ◌∷◌, get_or, Bytes,
  ◌==◌, if◌then◌else◌,
}

-- `(x * k + a)` in 32 bits
abbrev pub mix : ℕ → ℕ → ℕ → ℕ
mix x k a = (x * k + a) % 2 ^ 32

-- `& BLOOM_MASK`
abbrev pub bloom_mask : ℕ → ℕ
bloom_mask x = x % 65536

-- four bytes from position `i`
abbrev pub word_at : ℕ → Bytes → ℕ
word_at i ipv6 =
    get_or ipv6 i 0 * 2 ^ 24
    + get_or ipv6 (i + 1) 0 * 2 ^ 16
    + get_or ipv6 (i + 2) 0 * 2 ^ 8
    + get_or ipv6 (i + 3) 0

abbrev pub hashes_v4 : ℕ → List ℕ
hashes_v4 x =
    bloom_mask (mix x 2654435761 0)
    ∷ bloom_mask (mix x 40503 0x9e3779b9)
    ∷ bloom_mask (mix (bit_xor x (x / 2 ^ 16)) 0x85ebca6b 0)
    ∷ bloom_mask (mix (bit_xor x (x / 2 ^ 13)) 0xc2b2ae35 0)
    ∷ []

abbrev pub hashes_v6 : ℕ → ℕ → ℕ → ℕ → List ℕ
hashes_v6 a b c d =
    bloom_mask (bit_xor a (mix b 2654435761 0))
    ∷ bloom_mask (bit_xor b (mix c 40503 0))
    ∷ bloom_mask (bit_xor c (mix d 0x85ebca6b 0))
    ∷ bloom_mask (bit_xor d (mix a 0xc2b2ae35 0))
    ∷ []

unfoldable pub hashes : ℕ → Bytes → List ℕ
hashes ip ipv6 =
    if not (ip == 0)
    then hashes_v4 ip
    else hashes_v6 (word_at 0 ipv6) (word_at 4 ipv6) (word_at 8 ipv6) (word_at 12 ipv6)

-- Whether a bit is set.
unfoldable pub has_bit : List ℕ → ℕ → Bool
has_bit [] b = false
has_bit (x ∷ xs) b = x == b || has_bit xs b

-- the loop over the hashes, from `novel`
unfoldable pub set_bits : List ℕ → Bool → List ℕ → Bool × List ℕ
unfolding has_bit
set_bits [] novel bloom = (novel, bloom)
set_bits (h ∷ hs) novel bloom =
    if not (has_bit bloom h) then set_bits hs true (h ∷ bloom) else set_bits hs novel bloom

unfoldable pub test_and_set : ℕ → Bytes → List ℕ → Bool × List ℕ
unfolding hashes set_bits
test_and_set ip ipv6 bloom = set_bits (hashes ip ipv6) false bloom
