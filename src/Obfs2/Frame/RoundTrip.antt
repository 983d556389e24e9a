-- ===== src/Obfs2/Frame/RoundTrip.antt =====
-- The frames that `tcp_rpc_write_packet_compact` of src/net/net-tcp-rpc-common.c writes, read by
-- `obfs2_parse_frame_length` of src/net/net-obfs2-parse.c.
use mtbolt.Common.{
  ℕ, ◌+◌, ◌*◌, ◌/◌, ◌%◌, ◌^◌, ◌≤◌, ◌<◌, ◌≡◌, ◌≢◌, inl, inr, refl, arith, Bool, true, false, not,
  ◌&&◌, ◌||◌, none, some, [], ◌∷◌, ◌++◌, Bytes, length, get_or, drop, drop-append_length,
  append_assoc, ltb, leb, ◌==◌, if◌then◌else◌, Bool-cases, ap, ◌∙◌,
}
use native.Mathlib.Decide.{dec_lt}
use mtbolt.Common.Parse.{ok, reject_if}
use mtbolt.Obfs2.Frame.{
  bit, is_pad, is_medium, is_compact, FrameResult, parse_medium, parse_compact, check_length,
  parse_frame_length, le32, int_bytes, long_header, frame_header, write_packet_compact,
}

-- the length that the header stands for, and the bytes that it takes
abbrev decoded : ℕ → ℕ → FrameResult
decoded flags len = record {
  packet_len = len;
  header_bytes = length (frame_header flags len);
  quickack = false;
}

le32-int_bytes : (w : ℕ) (rest : Bytes) → w < 2 ^ 32 → le32 (int_bytes w ++ rest) ≡ w
le32-int_bytes w rest h = omega arith

-- What one word says, in each form.
read_short :
    (k x : ℕ)
    → k ≤ 0x7e
    → parse_compact (k + 256 * x)
      ≡ ok (record { packet_len = 4 * k; header_bytes = 1; quickack = false })
unfolding parse_compact
read_short k x h =
    let no_flag : bit (k + 256 * x) 7 ≡ false = ground arith in
    let short : (k + 256 * x) % 256 == 0x7f ≡ false = ground arith in
    rw (no_flag, parse_compact) (rw short (ap (λ n. ok (short_result n)) (omega arith)))
  where
    short_result : ℕ → FrameResult
    short_result n = record { packet_len = n; header_bytes = 1; quickack = false }

read_long :
    (k : ℕ)
    → 0x7f ≤ k
    → k < 2 ^ 24
    → parse_compact (k * 256 + 0x7f)
      ≡ ok (record { packet_len = 4 * k; header_bytes = 4; quickack = false })
unfolding parse_compact reject_if
read_long k h h' =
    let no_flag : bit (k * 256 + 0x7f) 7 ≡ false = ground arith in
    let long : (k * 256 + 0x7f) % 256 == 0x7f ≡ true = ground arith in
    let fits : ltb ((k * 256 + 0x7f) / 2 ^ 8) 0x7f ≡ false = ground arith in
    rw (no_flag, parse_compact)
      (rw long (rw (fits, reject_if) (ap (λ n. ok (long_result n)) (omega arith))))
  where
    long_result : ℕ → FrameResult
    long_result n = record { packet_len = n; header_bytes = 4; quickack = false }

read_medium :
    (len : ℕ)
    → len < 2 ^ 26
    → parse_medium len ≡ ok (record { packet_len = len; header_bytes = 4; quickack = false })
unfolding parse_medium reject_if
read_medium len h = ground arith

short_header :
    (flags len : ℕ)
    → is_medium flags ≡ false
    → len ≤ 0x7e * 4
    → frame_header flags len ≡ len / 4 ∷ []
unfolding frame_header
short_header flags len m h =
    let e : leb len (0x7e * 4) ≡ true = ground arith in
    rw (m, frame_header) (rw e (ap (λ (k : ℕ). k ∷ []) (omega arith)))

long_header_lem :
    (flags len : ℕ)
    → is_medium flags ≡ false
    → 0x7e * 4 < len
    → len < 2 ^ 26
    → len % 4 ≡ 0
    → frame_header flags len ≡ int_bytes (len / 4 * 256 + 0x7f)
unfolding frame_header
long_header_lem flags len m h h' a =
    let e : leb len (0x7e * 4) ≡ false = ground arith in
    let w : long_header len ≡ len / 4 * 256 + 0x7f = omega arith in
    rw (m, frame_header) (rw e (ap int_bytes w))

module _ (flags len : ℕ) (rest : Bytes) (small : len < 2 ^ 26) where
  read_header :
      (is_medium flags ≡ false → len % 4 ≡ 0)
      → let w = le32 (frame_header flags len ++ rest) in
        (if is_medium flags then parse_medium w else parse_compact w) ≡ ok (decoded flags len)
  read_header aligned = elim (Bool-cases (is_medium flags)) [
    | inl m ↦
        let e : frame_header flags len ≡ int_bytes len =
          unfold frame_header in rw (m, frame_header) in
        rw m (rw e (rw (le32-int_bytes len rest (omega arith)) (read_medium len small)))
    | inr m ↦ elim (dec_lt (0x7e * 4) len) [
      | yes long ↦
          let a : len % 4 ≡ 0 = aligned m in
          let w : ℕ = len / 4 * 256 + 0x7f in
          let four : 4 * (len / 4) ≡ len = omega arith in
          rw m (
            rw (long_header_lem flags len m long small a) (
              rw (le32-int_bytes w rest (omega arith)) (
                read_long (len / 4) (omega arith) (omega arith)
                ∙ ap (λ n. ok (record { packet_len = n; header_bytes = 4; quickack = false }))
                    four)))
      | no short ↦
          let a : len % 4 ≡ 0 = aligned m in
          let four : 4 * (len / 4) ≡ len = omega arith in
          let x = get_or rest 0 0 + 256 * (get_or rest 1 0 + 256 * get_or rest 2 0) in
          rw m (
            rw (short_header flags len m (omega arith)) (
              read_short (len / 4) x (omega arith)
              ∙ ap (λ n. ok (record { packet_len = n; header_bytes = 1; quickack = false })) four))
    ]
  ]

  check_decoded :
      (max : ℕ)
      → (is_pad flags ≡ false → len % 4 ≡ 0)
      → 0 < len
      → (0 < max → len ≤ max)
      → check_length flags max (decoded flags len) ≡ ok (decoded flags len)
  unfolding check_length reject_if
  check_decoded max aligned pos limit = ground arith

drop-length : (xs ys : Bytes) → drop (length xs) (xs ++ ys) ≡ ys
drop-length xs ys = drop-append_length xs ys (length xs) refl

abbrev pub packet_of : ℕ → Bytes → Bytes → Bytes
packet_of flags padding raw = if is_pad flags then raw ++ padding else raw

-- an `assert` that held
guarded :
    (b : Bool) {x out : Bytes} → (if b then none else some x) ≡ some out → (b ≡ false) × (out ≡ x)
guarded true e = cc
guarded false e = (refl, cc)

-- What the writer lets through, and what it puts in front.
written :
    (full : Bytes → Bytes) (flags : ℕ) (padding raw : Bytes) {out : Bytes}
    → length raw ≢ 5
    → (is_compact flags || is_medium flags) ≡ true
    → write_packet_compact full flags false padding raw ≡ some out
    → let packet = packet_of flags padding raw in
      (length packet < 2 ^ 26)
      × (is_pad flags ≡ false → length packet % 4 ≡ 0)
      × (out ≡ frame_header flags (length packet) ++ packet)
unfolding write_packet_compact
written full flags padding raw {out} ne form e =
    let other : (length raw == 5) ≡ false = ground arith in
    let packet = packet_of flags padding raw in
    let e₁ = rw (other, write_packet_compact) at e in
    let e₂ = rw form at e₁ in
    let (passed, out_is) =
      guarded (leb (2 ^ 26) (length packet) || (not (is_pad flags) && not (length packet % 4 == 0)))
        e₂ in
    (ground arith, λ plain. ground arith, out_is)

-- Whatever `tcp_rpc_write_packet_compact` sends as a frame in compact or medium form is read back by
-- `obfs2_parse_frame_length`, with any bytes behind it: the length of the packet, no quickack, and a
-- header behind which the packet stands. The packet (with its padding) is not empty and within the
-- reader's limit, is not the five-byte one that is sent as it is, and in compact form has a length
-- that is a multiple of four.
pub write_packet_compact-parse :
    (full : Bytes → Bytes) (flags max : ℕ) (padding raw rest : Bytes) {out : Bytes}
    → length raw ≢ 5
    → (is_compact flags || is_medium flags) ≡ true
    → (is_medium flags ≡ false → length (packet_of flags padding raw) % 4 ≡ 0)
    → 0 < length (packet_of flags padding raw)
    → (0 < max → length (packet_of flags padding raw) ≤ max)
    → write_packet_compact full flags false padding raw ≡ some out
    → (r : FrameResult) × (parse_frame_length (le32 (out ++ rest)) flags max ≡ ok r)
      × (r.packet_len ≡ length (packet_of flags padding raw))
      × (r.quickack ≡ false)
      × (drop r.header_bytes (out ++ rest) ≡ packet_of flags padding raw ++ rest)
unfolding parse_frame_length
write_packet_compact-parse full flags max padding raw rest {out} ne form aligned pos limit e =
    let packet = packet_of flags padding raw in
    let header = frame_header flags (length packet) in
    let (small, plain, out_is) = written full flags padding raw ne form e in
    let shape : out ++ rest ≡ header ++ (packet ++ rest) =
      ap (λ b. b ++ rest) out_is ∙ append_assoc header packet rest in
    let parsed = read_header flags (length packet) (packet ++ rest) small aligned in
    (
      decoded flags (length packet),
      rw shape (
          rw (parsed, parse_frame_length)
            (check_decoded flags (length packet) (packet ++ rest) small max plain pos limit)),
      refl,
      refl,
      rw shape (drop-length header (packet ++ rest)),
    )
