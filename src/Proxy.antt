-- ===== src/Proxy.antt =====
-- The PROXY protocol header in front of a connection: src/net/net-proxy-protocol.c. The raw message is
-- the list of its bytes, as `rwm_fetch_lookup` and `rwm_skip_data` of src/net/net-msg.c show it: a
-- header of `n` bytes leaves what stands behind the first `n`. `inet_pton` and `atoi` are the C
-- library's; `inet_pton` for IPv4 stands with `ntohl` behind it.
pub mod Stream
pub mod RoundTrip
mod Tests
use mtbolt.Common.{
  ℕ, zero, suc, ◌+◌, ◌-◌, ◌*◌, ◌/◌, ◌%◌, ◌^◌, Bool, true, false, not, ◌&&◌, ◌||◌, Option, none,
  some, List, [], ◌∷◌, ◌++◌, length, get_or, take, drop, replicate, ltb, leb, ◌==◌, if◌then◌else◌,
  Bytes, eq_bytes,
}
use mtbolt.Common.Int.{ℤ, pos, negsuc}
use mtbolt.Common.Text.{codes, c_string, starts_with, split_at}

-- `AF_INET`, `AF_INET6`, or 0 for a header that names no source
pub data Family : Type 0 where
  unknown : Family
  inet : Family
  inet6 : Family

-- `struct proxy_protocol_result`
pub record Source : Type 0 where
  pub family : Family
  pub src_ip : ℕ
  pub src_ipv6 : Bytes
  pub src_port : ℕ

-- What the parsers return: 0, -1, the length of the header with the source, or a failed assertion.
pub data Outcome : Type 0 where
  more : Outcome
  bad : Outcome
  abort : Outcome
  header : ℕ → Source → Outcome

-- `memset (out, 0, sizeof (*out))`
abbrev pub no_source : Source
no_source = record { family = unknown; src_ip = 0; src_ipv6 = replicate 16 0; src_port = 0 }

-- `rwm_fetch_lookup (in, buf, n) == n`
unfoldable pub lookup_bytes : ℕ → Bytes → Option Bytes
lookup_bytes n xs = if leb n (length xs) then some (take n xs) else none

-- `assert (rwm_skip_data (in, n) == n); return n;`
unfoldable pub finish : ℕ → Source → Bytes → Outcome
finish n out xs = if leb n (length xs) then header n out else abort

-- a big-endian number
abbrev pub be16 : Bytes → ℕ
be16 xs = get_or xs 0 0 * 256 + get_or xs 1 0

abbrev pub be32 : Bytes → ℕ
be32 xs = be16 xs * 65536 + be16 (drop 2 xs)

unfoldable pub first_is : ℕ → Bytes → Bool
first_is c [] = false
first_is c (b ∷ bs) = b == c

-- The position of the first `\r\n`; the bytes start at position `i`.
unfoldable pub find_crlf : ℕ → Bytes → Option ℕ
unfolding first_is
find_crlf i [] = none
find_crlf i (b ∷ bs) =
    let rest = find_crlf (suc i) bs in if b == 13 && first_is 10 bs then some i else rest

-- `(unsigned short) x`
unfoldable pub as_port : ℤ → ℕ
as_port (pos n) = n % 2 ^ 16
as_port (negsuc n) = 2 ^ 16 - 1 - n % 2 ^ 16

-- `addrs` and the port, behind the header of 16 bytes
unfoldable pub source_v4 : Bytes → Source
source_v4 full = record no_source {
  family = inet;
  src_ip = be32 (drop 16 full);
  src_port = be16 (drop 24 full);
}

unfoldable pub source_v6 : Bytes → Source
source_v6 full = record no_source {
  family = inet6;
  src_ipv6 = take 16 (drop 16 full);
  src_port = be16 (drop 48 full);
}

-- the part of `parse_v2` for the command PROXY
unfoldable pub finish_v2 : ℕ → ℕ → Bytes → Outcome
unfolding source_v4 source_v6 finish lookup_bytes
finish_v2 fam addr_len xs =
    if fam == 1 && leb 12 addr_len
    then elim (lookup_bytes 28 xs) [
      | none ↦ abort
      | some full ↦ finish (16 + addr_len) (source_v4 full) xs
    ]
    else (if fam == 2 && leb 36 addr_len
        then elim (lookup_bytes 52 xs) [
          | none ↦ abort
          | some full ↦ finish (16 + addr_len) (source_v6 full) xs
        ]
        else finish (16 + addr_len) no_source xs)

-- the tests on the header of 16 bytes
unfoldable pub check_v2 : Bytes → Bytes → Outcome
unfolding finish_v2 finish
check_v2 hdr xs =
    let addr_len = be16 (drop 14 hdr) in
    if not (get_or hdr 12 0 / 16 % 16 == 2)
    then bad
    else (if ltb 1 (get_or hdr 12 0 % 16)
        then bad
        else (if ltb (length xs) (16 + addr_len)
            then more
            else (if get_or hdr 12 0 % 16 == 0
                then finish (16 + addr_len) no_source xs
                else finish_v2 (get_or hdr 13 0 / 16 % 16) addr_len xs)))

unfoldable pub parse_v2 : Bytes → Outcome
unfolding check_v2 lookup_bytes
parse_v2 xs =
    if ltb (length xs) 16
    then more
    else elim (lookup_bytes 16 xs) [ none ↦ abort | some hdr ↦ check_v2 hdr xs ]

abbrev pub signature : Bytes
signature = 0x0d ∷ 0x0a ∷ 0x0d ∷ 0x0a ∷ 0x00 ∷ 0x0d ∷ 0x0a ∷ 0x51 ∷ 0x55 ∷ 0x49 ∷ 0x54 ∷ 0x0a ∷ []

module _ (inet_pton4 : Bytes → Option ℕ) (inet_pton6 : Bytes → Option Bytes)
    (atoi : Bytes → ℤ) where
  -- The source address of a family.
  unfoldable pub source_addr : Family → Bytes → Option Source
  source_addr unknown s = none
  source_addr inet s = elim (inet_pton4 s) [
    | none ↦ none
    | some ip ↦ some (record no_source { family = inet; src_ip = ip })
  ]
  source_addr inet6 s = elim (inet_pton6 s) [
    | none ↦ none
    | some ip ↦ some (record no_source { family = inet6; src_ipv6 = ip })
  ]

  -- `<src> <dst> <sport> <dport>`
  unfoldable pub parse_source : Family → Bytes → Option Source
  unfolding source_addr as_port split_at
  parse_source family p = elim (split_at 32 p) [
    | none ↦ none
    | some (src, behind_src) ↦ elim (source_addr family src) [
      | none ↦ none
      | some out ↦ elim (split_at 32 behind_src) [
        | none ↦ none
        | some (dst, behind_dst) ↦ elim (split_at 32 behind_dst) [
          | none ↦ none
          | some (sport, dport) ↦ some (record out { src_port = as_port (atoi sport) })
        ]
      ]
    ]
  ]

  -- The line behind "PROXY ", as a string.
  unfoldable pub parse_line : Bytes → Option Source
  unfolding parse_source
  parse_line p =
      if starts_with p (codes "UNKNOWN")
      then some no_source
      else (if starts_with p (codes "TCP4 ")
          then parse_source inet (drop 5 p)
          else (if starts_with p (codes "TCP6 ") then parse_source inet6 (drop 5 p) else none))

  -- the part of `parse_v1` behind the search for the end of the line
  unfoldable pub finish_v1 : ℕ → Bytes → Bytes → Outcome
  unfolding parse_line finish
  finish_v1 crlf_pos buf xs = elim (parse_line (c_string (drop 6 (take crlf_pos buf)))) [
    | none ↦ bad
    | some out ↦ finish (crlf_pos + 2) out xs
  ]

  unfoldable pub parse_v1 : Bytes → Outcome
  unfolding finish_v1 find_crlf
  parse_v1 xs =
      let buf = take 108 xs in
      if ltb (length xs) 15 then more else elim (find_crlf 6 (drop 6 buf)) [
        | none ↦ if leb 108 (length buf) then bad else more
        | some crlf_pos ↦ finish_v1 crlf_pos buf xs
      ]

  -- the choice by the first bytes
  unfoldable pub choose : Bytes → Bytes → Outcome
  choose peek xs =
      if starts_with peek (codes "PROXY ")
      then parse_v1 xs
      else (if leb 12 (length peek) && eq_bytes peek signature
          then parse_v2 xs
          else (if ltb (length peek) 12 then more else bad))

  unfoldable pub proxy_protocol_parse : Bytes → Outcome
  unfolding choose
  proxy_protocol_parse xs = if ltb (length xs) 6 then more else choose (take 12 xs) xs
