-- ===== src/Obfs2/Header.antt =====
-- `obfs2_parse_header` of src/net/net-obfs2-parse.c: the 64-byte handshake header is tried against
-- each secret in turn. SHA-256 and AES-256-CTR are OpenSSL's: `sha256` maps the bytes hashed to the
-- digest, and `crypt` takes a key, an initial vector and the bytes.
-- The header is decrypted in place, so it is part of the state. `int` is 32 bits, little-endian.
pub mod Search
pub mod Handshake
use mtbolt.Common.{
  ℕ, zero, suc, ◌+◌, ◌-◌, ◌*◌, Bool, true, false, not, ◌&&◌, ◌||◌, Option, none, some, List, [],
  ◌∷◌, ◌++◌, map, Bytes, length, get_or, take, drop, ltb, ◌==◌, if◌then◌else◌,
}
use mtbolt.Common.Int.{ℤ, signed16}
use mtbolt.Obfs2.Frame.{le32}

-- `struct aes_key_data`
pub record Keys : Type 0 where
  pub read_key : Bytes
  pub read_iv : Bytes
  pub write_key : Bytes
  pub write_iv : Bytes

pub record HeaderResult : Type 0 where
  pub tag : ℕ
  pub dc : ℤ
  pub secret_id : ℕ
  pub keys : Keys

abbrev pub tag_pad : ℕ
tag_pad = 0xdddddddd

abbrev pub tag_medium : ℕ
tag_medium = 0xeeeeeeee

abbrev pub tag_compact : ℕ
tag_compact = 0xefefefef

-- `for (int i = 0; i < n; i++) { to[i] = header[from - i]; }`
unfoldable pub copy_down : Bytes → ℕ → ℕ → Bytes
copy_down header from zero = []
copy_down header from (suc n) = get_or header from 0 ∷ copy_down header (from - 1) n

-- `tag == OBFS2_TAG_PAD || ((tag == OBFS2_TAG_MEDIUM || tag == OBFS2_TAG_COMPACT) && !rand_pad_only)`
abbrev pub is_tag : Bool → ℕ → Bool
is_tag rand_pad_only tag =
    tag == tag_pad || ((tag == tag_medium || tag == tag_compact) && not rand_pad_only)

-- `*(short *)(header + 60)`
abbrev pub dc_at : Bytes → ℤ
dc_at header = signed16 (get_or header 60 0 + 256 * get_or header 61 0)

-- `secret_cnt` is the length of the list; with no secret there is one round.
abbrev pub rounds : List Bytes → List (Option Bytes)
rounds [] = none ∷ []
rounds (s ∷ ss) = map some (s ∷ ss)

module _ (sha256 : Bytes → Bytes) (crypt : Bytes → Bytes → Bytes → Bytes) where
  -- the keys of one secret, or of none when no secret is configured
  unfoldable pub derive : Bytes → Option Bytes → Keys
  unfolding copy_down
  derive header secret = record {
    read_key = hash (take 32 (drop 8 header));
    read_iv = take 16 (drop 40 header);
    write_key = hash (copy_down header 55 32);
    write_iv = copy_down header 23 16;
  }
    where
      hash : Bytes → Bytes
      hash k = elim secret [ none ↦ k | some s ↦ sha256 (k ++ s) ]

  -- The rounds left, from the secret number `sid` on: the result, and the header that is left.
  unfoldable pub try_secrets :
      Bool → Bytes → Bytes → ℕ → List (Option Bytes) → Option HeaderResult × Bytes
  unfolding derive
  try_secrets rand_pad_only saved header sid [] = (none, header)
  try_secrets rand_pad_only saved header sid (secret ∷ secrets) =
      let keys = derive header secret in
      let header' = crypt keys.read_key keys.read_iv header in
      let tag = le32 (drop 56 header') in
      let next = try_secrets rand_pad_only saved saved (sid + 1) secrets in
      if is_tag rand_pad_only tag
      then (some (record { tag = tag; dc = dc_at header'; secret_id = sid; keys = keys }), header')
      else next

  unfoldable pub parse_header : Bytes → List Bytes → Bool → Option HeaderResult × Bytes
  unfolding try_secrets
  parse_header header secrets rand_pad_only =
      try_secrets rand_pad_only header header 0 (rounds secrets)
