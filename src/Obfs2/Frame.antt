-- ===== src/Obfs2/Frame.antt =====
-- The length of a frame: `obfs2_parse_frame_length` of src/net/net-obfs2-parse.c, and the side that
-- writes frames, `tcp_rpc_write_packet_compact` of src/net/net-tcp-rpc-common.c.
-- An `int` is its 32-bit pattern; a mask of low bits is `%`, a shift right is `/`.
pub mod Sound
pub mod RoundTrip
use mtbolt.Common.{
  ℕ, ◌+◌, ◌-◌, ◌*◌, ◌/◌, ◌%◌, ◌^◌, Bool, true, false, not, ◌&&◌, ◌||◌, Option, none, some, List, [],
  ◌∷◌, ◌++◌, Bytes, length, get_or, drop, ltb, leb, ◌==◌, if◌then◌else◌,
}
use mtbolt.Common.Parse.{Parse, ok, reject, ◌>>=◌, ◌>>◌, reject_if}

-- bit k of a pattern
abbrev pub bit : ℕ → ℕ → Bool
bit w k = w / 2 ^ k % 2 == 1

abbrev pub is_negative : ℕ → Bool
is_negative w = leb (2 ^ 31) w

-- the flags of `struct tcp_rpc_data`
abbrev pub is_pad : ℕ → Bool
is_pad flags = bit flags 27

abbrev pub is_medium : ℕ → Bool
is_medium flags = bit flags 29

abbrev pub is_compact : ℕ → Bool
is_compact flags = bit flags 30

pub record FrameResult : Type 0 where
  pub packet_len : ℕ
  pub header_bytes : ℕ
  pub quickack : Bool

-- the length in a medium frame: RPC_F_QUICKACK is the sign bit
parse_medium : ℕ → Parse FrameResult
parse_medium packet_len = do
  reject_if (is_negative packet_len && ltb (2 ^ 32 - 1000) packet_len)
  ok (record { packet_len = packet_len % 2 ^ 31; header_bytes = 4; quickack = bit packet_len 31 })

-- `packet_len &= ~0x80`
abbrev clear_quickack : ℕ → ℕ
clear_quickack w = if bit w 7 then w - 0x80 else w

parse_compact : ℕ → Parse FrameResult
parse_compact raw4 =
    let packet_len = clear_quickack raw4 in
    if packet_len % 256 == 0x7f
    then (do
      let long_len = packet_len / 2 ^ 8
      reject_if (ltb long_len 0x7f)
      ok (record { packet_len = long_len * 4 % 2 ^ 32; header_bytes = 4; quickack = bit raw4 7 }))
    else ok (record {
      packet_len = packet_len % 128 * 4 % 2 ^ 32;
      header_bytes = 1;
      quickack = bit raw4 7;
    })

-- the checks that both forms share
check_length : ℕ → ℕ → FrameResult → Parse FrameResult
check_length flags max_packet_len r = do
  reject_if (r.packet_len == 0 || is_negative r.packet_len || not (r.packet_len / 2 ^ 30 % 4 == 0))
  reject_if (not (is_pad flags) && not (r.packet_len % 4 == 0))
  reject_if (ltb 0 max_packet_len && ltb max_packet_len r.packet_len)
  ok r

unfoldable pub parse_frame_length : ℕ → ℕ → ℕ → Parse FrameResult
unfolding parse_medium parse_compact check_length
parse_frame_length raw4 flags max_packet_len = do
  r ← if is_medium flags then parse_medium raw4 else parse_compact raw4
  check_length flags max_packet_len r

-- the first four bytes of a stream, as a little-endian `int`
abbrev pub le32 : Bytes → ℕ
le32 xs = get_or xs 0 0 + 256 * (get_or xs 1 0 + 256 * (get_or xs 2 0 + 256 * get_or xs 3 0))

-- the bytes of an `int`, first the lowest
abbrev pub int_bytes : ℕ → Bytes
int_bytes w = w % 256 ∷ w / 256 % 256 ∷ w / 256 / 256 % 256 ∷ w / 256 / 256 / 256 % 256 ∷ []

-- `(len << 6) | 0x7f`
abbrev long_header : ℕ → ℕ
long_header len = len * 64 % 2 ^ 32 / 128 * 128 + 0x7f

-- what goes in front of a frame of `len` bytes
frame_header : ℕ → ℕ → Bytes
frame_header flags len =
    if is_medium flags
    then int_bytes len
    else if leb len (0x7e * 4)
    then len / 4 % 256 ∷ []
    else int_bytes (long_header len)

-- The bytes that one call appends to the connection's output; `none` is a failed `assert`.
-- `padding` is what the random numbers add with RPC_F_PAD, three bytes at most; `uninited_tls` is the
-- test of the TLS state; `full` is the frame of `tcp_rpc_write_packet`, for the connections that have
-- neither form.
unfoldable pub write_packet_compact :
    (full : Bytes → Bytes) → ℕ → Bool → Bytes → Bytes → Option Bytes
unfolding frame_header
write_packet_compact full flags uninited_tls padding raw =
    if length raw == 5
    then (if get_or raw 0 0 == 0xdd then some (drop 1 raw) else none)
    else if uninited_tls
    then some raw
    else if not (is_compact flags || is_medium flags)
    then some (full raw)
    else (let packet = if is_pad flags then raw ++ padding else raw in
        let len = length packet in
        if leb (2 ^ 26) len || (not (is_pad flags) && not (len % 4 == 0))
        then none
        else some (frame_header flags len ++ packet))
