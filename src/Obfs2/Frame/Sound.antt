-- ===== src/Obfs2/Frame/Sound.antt =====
-- What an accepted frame length is (`obfs2_parse_frame_length` of src/net/net-obfs2-parse.c).
use mtbolt.Common.{
  ℕ, ◌%◌, ◌^◌, ◌≤◌, ◌<◌, ◌≡◌, ◌⊎◌, ◌-◌, ◌/◌, ◌*◌, not, ◌&&◌, ◌||◌, ltb, ◌==◌, inl, inr, refl, arith,
  true, false, Bool-cases,
}
use mtbolt.Common.Parse.{Ensures, returns, Ensures-bind, Ensures-reject_if, Ensures-if}
use mtbolt.Obfs2.Frame.{
  is_pad, is_medium, is_negative, clear_quickack, FrameResult, parse_medium, parse_compact,
  check_length, parse_frame_length,
}

-- A length that the caller may read: at least one byte, below 2 ^ 30, within the limit if there is
-- one, and a multiple of four unless the transport pads.
pub record IsFrame (flags max_packet_len : ℕ) (r : FrameResult) : Type 0 where
  pub positive : 0 < r.packet_len
  pub small : r.packet_len < 2 ^ 30
  pub limited : 0 < max_packet_len → r.packet_len ≤ max_packet_len
  pub aligned : is_pad flags ≡ false → r.packet_len % 4 ≡ 0
  pub header :
      (r.header_bytes ≡ 4)
      ⊎ ((r.header_bytes ≡ 1) × (is_medium flags ≡ false) × (r.packet_len < 0x80 * 4))

-- What the two forms of a header leave for the checks.
abbrev Decoded : ℕ → FrameResult → Type 0
Decoded flags r =
    (r.header_bytes ≡ 4)
    ⊎ ((r.header_bytes ≡ 1) × (is_medium flags ≡ false) × (r.packet_len < 0x80 * 4))

parse_medium-Decoded :
    (flags w : ℕ) → is_medium flags ≡ true → Ensures (Decoded flags) (parse_medium w)
unfolding parse_medium
parse_medium-Decoded flags w m =
    Ensures-reject_if (is_negative w && ltb (2 ^ 32 - 1000) w) λ _. returns (inl refl)

parse_compact-Decoded :
    (flags w : ℕ) → is_medium flags ≡ false → Ensures (Decoded flags) (parse_compact w)
unfolding parse_compact
parse_compact-Decoded flags w m =
    Ensures-if (clear_quickack w % 256 == 0x7f)
      (λ _. Ensures-reject_if (ltb (clear_quickack w / 2 ^ 8) 0x7f) λ _. returns (inl refl))
      (λ _. returns (inr (refl, m, omega arith)))

check_length-IsFrame :
    (flags max : ℕ) (r : FrameResult)
    → Decoded flags r
    → Ensures (IsFrame flags max) (check_length flags max r)
unfolding check_length
check_length-IsFrame flags max r d =
    Ensures-reject_if
      (r.packet_len == 0 || is_negative r.packet_len || not (r.packet_len / 2 ^ 30 % 4 == 0))
      λ range. Ensures-reject_if (not (is_pad flags) && not (r.packet_len % 4 == 0)) λ align.
        Ensures-reject_if (ltb 0 max && ltb max r.packet_len) λ limit. returns (record {
          positive = ground arith;
          small = ground arith;
          limited = λ h. ground arith;
          aligned = λ h. ground arith;
          header = d;
        })

-- An accepted frame has at least one byte, fewer than 2 ^ 30, no more than the limit if there is
-- one, and a multiple of four unless the transport pads; its header takes four bytes, or one byte in
-- compact mode for a length below 512. No first word makes the parser fail in another way.
pub parse_frame_length-IsFrame :
    (raw4 flags max_packet_len : ℕ)
    → Ensures (IsFrame flags max_packet_len) (parse_frame_length raw4 flags max_packet_len)
unfolding parse_frame_length
parse_frame_length-IsFrame raw4 flags max = elim (Bool-cases (is_medium flags)) [
  | inl m ↦
      rw (m, parse_frame_length)
        (Ensures-bind (parse_medium-Decoded flags raw4 m) (check_length-IsFrame flags max))
  | inr m ↦
      rw (m, parse_frame_length)
        (Ensures-bind (parse_compact-Decoded flags raw4 m) (check_length-IsFrame flags max))
]
