-- ===== src/Proxy/RoundTrip.antt =====
-- A version 1 header that a balancer writes, and `proxy_protocol_parse` of
-- src/net/net-proxy-protocol.c on it.
use mtbolt.Common.{
  ℕ, suc, ◌+◌, ◌-◌, ◌≤◌, ◌≡◌, ◌≢◌, refl, ◌∙◌, ap, arith, false, Option, some, [], ◌∷◌, ◌++◌, length,
  take, drop, ltb-ge, le→leb, ◌==◌, Bytes, eq_bytes, length-append, take-append, take_all,
  take-append_length, All,
}
use mtbolt.Common.Int.{ℤ}
use mtbolt.Common.Text.{codes, c_string, split_at}
use mtbolt.Proxy.{
  Family, unknown, inet, inet6, Source, header, find_crlf, source_addr, parse_source, parse_line,
  finish, finish_v1, parse_v1, as_port, proxy_protocol_parse,
}

-- A field of the line: no zero, no line end, no space.
abbrev pub IsField : Bytes → Type 0
IsField = All (λ b. (b ≢ 0) × (b ≢ 13) × (b ≢ 32))

abbrev IsLine : Bytes → Type 0
IsLine = All (λ b. (b ≢ 0) × (b ≢ 13))

IsField-IsLine : (xs : Bytes) → IsField xs → IsLine xs
IsField-IsLine [] h = tt
IsField-IsLine (x ∷ xs) h = ((h.0.0, h.0.1), IsField-IsLine xs h.1)

IsLine-append : (xs ys : Bytes) → IsLine xs → IsLine ys → IsLine (xs ++ ys)
IsLine-append [] ys hx hy = hy
IsLine-append (x ∷ xs) ys hx hy = (hx.0, IsLine-append xs ys hx.1 hy)

find_crlf-line :
    (i : ℕ) (xs rest : Bytes)
    → IsLine xs
    → find_crlf i (xs ++ (13 ∷ 10 ∷ rest)) ≡ some (i + length xs)
unfolding find_crlf
find_crlf-line i [] rest h = ap some (omega arith)
find_crlf-line i (x ∷ xs) rest h =
    let not_cr : (x == 13) ≡ false = ground (arith, h.0.1) in
    rw not_cr (find_crlf-line (suc i) xs rest h.1 ∙ ap some (omega arith))

c_string-line : (xs : Bytes) → IsLine xs → c_string xs ≡ xs
unfolding c_string
c_string-line [] h = refl
c_string-line (x ∷ xs) h =
    let not_zero : (x == 0) ≡ false = ground (arith, h.0.0) in
    rw not_zero (ap (◌∷◌ x) (c_string-line xs h.1))

split_at-field : (xs rest : Bytes) → IsField xs → split_at 32 (xs ++ (32 ∷ rest)) ≡ some (xs, rest)
unfolding split_at
split_at-field [] rest h = refl
split_at-field (x ∷ xs) rest h =
    let not_space : (x == 32) ≡ false = ground (arith, h.0.2) in
    rw (not_space, split_at-field xs rest h.1) refl

-- A line behind "PROXY ", with the line end and what follows.
abbrev with_end : Bytes → Bytes → Bytes
with_end line rest = line ++ (13 ∷ 10 ∷ rest)

take-with_end :
    (line rest : Bytes)
    → length line ≤ 100
    → take 102 (with_end line rest) ≡ with_end line (take (100 - length line) rest)
take-with_end line rest h =
    let left : 102 - length line ≡ suc (suc (100 - length line)) = omega arith in
    take-append 102 line (13 ∷ 10 ∷ rest)
    ∙ ap (λ t. t ++ take (102 - length line) (13 ∷ 10 ∷ rest)) (take_all 102 line (omega arith))
    ∙ ap (λ n. line ++ take n (13 ∷ 10 ∷ rest)) left

module _ (inet_pton4 : Bytes → Option ℕ) (inet_pton6 : Bytes → Option Bytes) (atoi : Bytes → ℤ)
    (line rest : Bytes) (out : Source) (is_line : IsLine line) (low : 7 ≤ length line)
    (high : length line ≤ 100)
    (parses : parse_line inet_pton4 inet_pton6 atoi line ≡ some out) where
  abbrev input : Bytes
  input = codes "PROXY " ++ with_end line rest

  input-length : 8 + length line ≤ length input
  input-length = omega (arith, length-append line (13 ∷ 10 ∷ rest))

  crlf-input : find_crlf 6 (drop 6 (take 108 input)) ≡ some (6 + length line)
  crlf-input =
      ap (find_crlf 6) (take-with_end line rest high)
      ∙ find_crlf-line 6 line (take (100 - length line) rest) is_line

  line-input : drop 6 (take (6 + length line) (take 108 input)) ≡ line
  line-input =
      let six : 6 + length line ≡ suc (suc (suc (suc (suc (suc (length line)))))) = omega arith in
      ap (λ n. drop 6 (take n (take 108 input))) six
      ∙ ap (take (length line)) (take-with_end line rest high)
      ∙ take-append_length line (13 ∷ 10 ∷ take (100 - length line) rest) (length line) refl

  finish_v1-input :
      finish_v1 inet_pton4 inet_pton6 atoi (6 + length line) (take 108 input) input
      ≡ header (8 + length line) out
  unfolding finish_v1 finish
  finish_v1-input =
      let eight : 6 + length line + 2 ≡ 8 + length line = omega arith in
      rw
        (
          line-input,
          finish_v1,
          c_string-line line is_line,
          parses,
          eight,
          finish,
          le→leb (8 + length line) (length input) input-length,
        )
        refl

  parse-input : proxy_protocol_parse inet_pton4 inet_pton6 atoi input ≡ header (8 + length line) out
  unfolding proxy_protocol_parse parse_v1 eq_bytes
  parse-input =
      rw
        (
          ltb-ge (length input) 6 (omega (arith, input-length)),
          ltb-ge (length input) 15 (omega (arith, input-length)),
          crlf-input,
        )
        finish_v1-input

-- The line behind the family's name.
abbrev pub fields : Bytes → Bytes → Bytes → Bytes → Bytes
fields src dst sport dport = src ++ (32 ∷ (dst ++ (32 ∷ (sport ++ (32 ∷ dport)))))

fields-length : (src dst sport dport : Bytes) → 3 ≤ length (fields src dst sport dport)
fields-length src dst sport dport = omega (
  arith,
  length-append src (32 ∷ (dst ++ (32 ∷ (sport ++ (32 ∷ dport))))),
  length-append dst (32 ∷ (sport ++ (32 ∷ dport))),
  length-append sport (32 ∷ dport),
)

module _ (inet_pton4 : Bytes → Option ℕ) (inet_pton6 : Bytes → Option Bytes) (atoi : Bytes → ℤ)
    (src dst sport dport : Bytes) (hs : IsField src) (hd : IsField dst) (hp : IsField sport)
    (hq : IsField dport) where
  fields-IsLine : IsLine (fields src dst sport dport)
  fields-IsLine =
      let space : (32 ≢ 0) × (32 ≢ 13) = (ground arith, ground arith) in
      IsLine-append src _ (IsField-IsLine src hs) (
        space,
        IsLine-append dst _ (IsField-IsLine dst hd) (
          space,
          IsLine-append sport _ (IsField-IsLine sport hp) (space, IsField-IsLine dport hq),
        ),
      )

  parse_source-fields :
      (family : Family) (out : Source)
      → source_addr inet_pton4 inet_pton6 atoi family src ≡ some out
      → parse_source inet_pton4 inet_pton6 atoi family (fields src dst sport dport)
        ≡ some (record out { src_port = as_port (atoi sport) })
  unfolding parse_source
  parse_source-fields family out h =
      rw
        (
          split_at-field src (dst ++ (32 ∷ (sport ++ (32 ∷ dport)))) hs,
          parse_source,
          h,
          split_at-field dst (sport ++ (32 ∷ dport)) hd,
          split_at-field sport dport hp,
        )
        refl

-- The name of a family in the header.
abbrev pub tag : Family → Bytes
tag unknown = codes "UNKNOWN"
tag inet = codes "TCP4 "
tag inet6 = codes "TCP6 "

module _ (inet_pton4 : Bytes → Option ℕ) (inet_pton6 : Bytes → Option Bytes)
    (atoi : Bytes → ℤ) where
  parse_line-tag :
      (family : Family) (text src : Bytes) (out : Source)
      → source_addr inet_pton4 inet_pton6 atoi family src ≡ some out
      → parse_line inet_pton4 inet_pton6 atoi (tag family ++ text)
        ≡ parse_source inet_pton4 inet_pton6 atoi family text
  unfolding parse_line eq_bytes source_addr
  parse_line-tag unknown text src out h = absurd (ground (arith, h))
  parse_line-tag inet text src out h = refl
  parse_line-tag inet6 text src out h = refl

  tag-IsLine : (family : Family) → IsLine (tag family)
  tag-IsLine unknown = ground arith
  tag-IsLine inet = ground arith
  tag-IsLine inet6 = ground arith

  tag_length : (family : Family) → 5 ≤ length (tag family)
  tag_length unknown = omega arith
  tag_length inet = omega arith
  tag_length inet6 = omega arith

  -- A version 1 header of four fields without spaces, zeros and carriage returns, whose line has at
  -- most 100 bytes, is read back as its own length, the family and the source address that inet_pton
  -- reads, and the port that atoi reads, whatever follows it.
  pub proxy_protocol_parse-header :
      (family : Family) (src dst sport dport rest : Bytes) (out : Source)
      → IsField src
      → IsField dst
      → IsField sport
      → IsField dport
      → source_addr inet_pton4 inet_pton6 atoi family src ≡ some out
      → length (tag family ++ fields src dst sport dport) ≤ 100
      → proxy_protocol_parse inet_pton4 inet_pton6 atoi
          (codes "PROXY " ++ ((tag family ++ fields src dst sport dport) ++ (13 ∷ 10 ∷ rest)))
        ≡ header
            (8 + length (tag family ++ fields src dst sport dport))
            (record out { src_port = as_port (atoi sport) })
  proxy_protocol_parse-header family src dst sport dport rest out hs hd hp hq h high =
      let text = fields src dst sport dport in
      parse-input inet_pton4 inet_pton6 atoi (tag family ++ text) rest
        (record out { src_port = as_port (atoi sport) })
        (IsLine-append (tag family) text (tag-IsLine family)
          (fields-IsLine inet_pton4 inet_pton6 atoi src dst sport dport hs hd hp hq))
        (omega (
          arith,
          length-append (tag family) text,
          tag_length family,
          fields-length src dst sport dport,
        ))
        high
        (parse_line-tag family text src out h
          ∙ parse_source-fields inet_pton4 inet_pton6 atoi src dst sport dport hs hd hp hq family
              out h)
