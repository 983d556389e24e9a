-- ===== src/Proxy/Stream.antt =====
-- The header parser on a connection whose bytes arrive in pieces (`proxy_protocol_parse` of
-- src/net/net-proxy-protocol.c).
use mtbolt.Common.{
  ℕ, suc, ◌+◌, ◌-◌, ◌/◌, ◌%◌, ◌≤◌, ◌<◌, ◌≡◌, refl, ◌∙◌, ap, arith, true, false, not, ◌&&◌, Option,
  none, some, [], ◌∷◌, ◌++◌, length, get_or, take, drop, ltb, leb, ltb-ge, ltb-false, le→leb, ◌==◌,
  Bytes, eq_bytes, length-append, length-take, length-drop, take-append, take-append_le,
  drop-append_le, Bool-cases, Option-cases, inl, inr,
}
use mtbolt.Common.Int.{ℤ}
use mtbolt.Common.Text.{codes, c_string, starts_with}
use mtbolt.Proxy.{
  Source, no_source, Outcome, more, bad, abort, header, lookup_bytes, finish, be16, find_crlf,
  parse_line, finish_v1, parse_v1, source_v4, source_v6, finish_v2, check_v2, parse_v2, signature,
  choose, proxy_protocol_parse,
}

-- What an answer for the bytes `xs` means when more bytes give the answer `later`: no assertion
-- fails, a refusal stays, and a header lies within `xs` and stays the same header.
abbrev pub Decided : Bytes → Outcome → Outcome → Type 0
Decided xs more later = Unit
Decided xs bad later = later ≡ bad
Decided xs abort later = ⊥
Decided xs (header n out) later = (8 ≤ n) × (n ≤ length xs) × (later ≡ header n out)

finish-Decided :
    (n : ℕ) (out : Source) (xs ys : Bytes)
    → 8 ≤ n
    → n ≤ length xs
    → Decided xs (finish n out xs) (finish n out (xs ++ ys))
unfolding finish
finish-Decided n out xs ys low high =
    let long : n ≤ length (xs ++ ys) = omega (arith, length-append xs ys) in
    rw (le→leb n (length xs) high, le→leb n (length (xs ++ ys)) long) (low, high, refl)

-- The end of the line lies within the bytes, and stays the first when bytes follow.
find_crlf-append :
    (i k : ℕ) (xs ys : Bytes)
    → find_crlf i xs ≡ some k
    → (i ≤ k) × (k + 2 ≤ i + length xs) × (find_crlf i (xs ++ ys) ≡ some k)
unfolding find_crlf
find_crlf-append i k [] ys h = absurd (ground (arith, h))
find_crlf-append i k (b ∷ []) ys h = absurd (ground (arith, h))
find_crlf-append i k (b ∷ b' ∷ xs) ys h = elim (Bool-cases (b == 13 && b' == 10)) [
  | inl here ↦ (ground (arith, here, h), ground (arith, here, h), rw here (ground (arith, here, h)))
  | inr not_here ↦
      let rest = find_crlf-append (suc i) k (b' ∷ xs) ys (ground (arith, not_here, h)) in
      (omega (arith, rest.0), omega (arith, rest.1), rw not_here rest.2)
]

finish_v2-Decided :
    (fam addr_len : ℕ) (xs ys : Bytes)
    → 16 + addr_len ≤ length xs
    → Decided xs (finish_v2 fam addr_len xs) (finish_v2 fam addr_len (xs ++ ys))
unfolding finish_v2 lookup_bytes
finish_v2-Decided fam addr_len xs ys high =
    let total = length-append xs ys in
    elim (Bool-cases (fam == 1 && leb 12 addr_len)) [
      | inl v4 ↦
          let fits : 28 ≤ length xs = ground (arith, v4, high) in
          rw
            (
              v4,
              le→leb 28 (length xs) fits,
              le→leb 28 (length (xs ++ ys)) (omega (arith, total)),
              take-append_le 28 xs ys fits,
            )
            (finish-Decided (16 + addr_len) (source_v4 (take 28 xs)) xs ys (omega arith) high)
      | inr not_v4 ↦ elim (Bool-cases (fam == 2 && leb 36 addr_len)) [
        | inl v6 ↦
            let fits : 52 ≤ length xs = ground (arith, v6, high) in
            rw
              (
                not_v4,
                v6,
                le→leb 52 (length xs) fits,
                le→leb 52 (length (xs ++ ys)) (omega (arith, total)),
                take-append_le 52 xs ys fits,
              )
              (finish-Decided (16 + addr_len) (source_v6 (take 52 xs)) xs ys (omega arith) high)
        | inr other ↦
            rw (not_v4, other) (finish-Decided (16 + addr_len) no_source xs ys (omega arith) high)
      ]
    ]

check_v2-Decided : (hdr xs ys : Bytes) → Decided xs (check_v2 hdr xs) (check_v2 hdr (xs ++ ys))
unfolding check_v2
check_v2-Decided hdr xs ys =
    let n = be16 (drop 14 hdr) in
    elim (Bool-cases (not (get_or hdr 12 0 / 16 % 16 == 2))) [
      | inl wrong ↦ rw wrong refl
      | inr version ↦ elim (Bool-cases (ltb 1 (get_or hdr 12 0 % 16))) [
        | inl wrong ↦ rw (version, wrong) refl
        | inr command ↦ elim (Bool-cases (ltb (length xs) (16 + n))) [
          | inl short ↦ rw (version, command, short) tt
          | inr long ↦
              let high = ltb-false (length xs) (16 + n) long in
              let long' =
                ltb-ge (length (xs ++ ys)) (16 + n) (omega (arith, length-append xs ys, high)) in
              elim (Bool-cases (get_or hdr 12 0 % 16 == 0)) [
                | inl local ↦
                    rw (version, command, long, long', local)
                      (finish-Decided (16 + n) no_source xs ys (omega arith) high)
                | inr proxy ↦
                    rw (version, command, long, long', proxy)
                      (finish_v2-Decided (get_or hdr 13 0 / 16 % 16) n xs ys high)
              ]
        ]
      ]
    ]

parse_v2-long : (xs : Bytes) → 16 ≤ length xs → parse_v2 xs ≡ check_v2 (take 16 xs) xs
unfolding parse_v2 lookup_bytes
parse_v2-long xs h = rw (ltb-ge (length xs) 16 h, le→leb 16 (length xs) h) refl

parse_v2-short : (xs : Bytes) → ltb (length xs) 16 ≡ true → parse_v2 xs ≡ more
unfolding parse_v2
parse_v2-short xs h = rw h refl

parse_v2-Decided : (xs ys : Bytes) → Decided xs (parse_v2 xs) (parse_v2 (xs ++ ys))
parse_v2-Decided xs ys = elim (Bool-cases (ltb (length xs) 16)) [
  | inl short ↦ rw (parse_v2-short xs short) tt
  | inr long ↦
      let fits = ltb-false (length xs) 16 long in
      let fits' : 16 ≤ length (xs ++ ys) = omega (arith, length-append xs ys) in
      rw (parse_v2-long xs fits, parse_v2-long (xs ++ ys) fits', take-append_le 16 xs ys fits)
        (check_v2-Decided (take 16 xs) xs ys)
]

module _ (inet_pton4 : Bytes → Option ℕ) (inet_pton6 : Bytes → Option Bytes)
    (atoi : Bytes → ℤ) where
  finish_v1-Decided :
      (k : ℕ) (buf buf' xs ys : Bytes)
      → take k buf' ≡ take k buf
      → 6 ≤ k
      → k + 2 ≤ length xs
      → Decided xs
          (finish_v1 inet_pton4 inet_pton6 atoi k buf xs)
          (finish_v1 inet_pton4 inet_pton6 atoi k buf' (xs ++ ys))
  unfolding finish_v1
  finish_v1-Decided k buf buf' xs ys same low high =
      rw (same, finish_v1)
        (line (parse_line inet_pton4 inet_pton6 atoi (c_string (drop 6 (take k buf)))))
    where
      line :
          (o : Option Source)
          → Decided xs
              (elim o [ none ↦ bad | some out ↦ finish (k + 2) out xs ])
              (elim o [ none ↦ bad | some out ↦ finish (k + 2) out (xs ++ ys) ])
      line none = refl
      line (some out) = finish-Decided (k + 2) out xs ys (omega arith) high

  parse_v1-Decided :
      (xs ys : Bytes)
      → Decided xs
          (parse_v1 inet_pton4 inet_pton6 atoi xs)
          (parse_v1 inet_pton4 inet_pton6 atoi (xs ++ ys))
  unfolding parse_v1
  parse_v1-Decided xs ys = elim (Bool-cases (ltb (length xs) 15)) [
    | inl short ↦ rw short tt
    | inr long ↦
        let enough : 15 ≤ length xs = ltb-false (length xs) 15 long in
        let long' : ltb (length (xs ++ ys)) 15 ≡ false =
          ltb-ge (length (xs ++ ys)) 15 (omega (arith, length-append xs ys)) in
        let size = length-take 108 xs in
        let tail = take (108 - length xs) ys in
        let buf : drop 6 (take 108 (xs ++ ys)) ≡ drop 6 (take 108 xs) ++ tail =
          ap (drop 6) (take-append 108 xs ys)
          ∙ drop-append_le 6 (take 108 xs) tail (omega (arith, size)) in
        elim (Option-cases (find_crlf 6 (drop 6 (take 108 xs)))) [
          | inr (k, found) ↦
              let there = find_crlf-append 6 k (drop 6 (take 108 xs)) tail found in
              let k_le : k ≤ length (take 108 xs) =
                omega (arith, there.1, length-drop 6 (take 108 xs), size) in
              let same : take k (take 108 (xs ++ ys)) ≡ take k (take 108 xs) =
                ap (take k) (take-append 108 xs ys) ∙ take-append_le k (take 108 xs) tail k_le in
              rw (long, long', found, buf, there.2)
                (finish_v1-Decided k (take 108 xs) (take 108 (xs ++ ys)) xs ys same there.0
                  (omega (arith, there.1, length-drop 6 (take 108 xs), size)))
          | inl missing ↦ elim (Bool-cases (leb 108 (length (take 108 xs)))) [
            | inr room ↦ rw (long, missing, room) tt
            | inl full ↦
                let whole : take 108 (xs ++ ys) ≡ take 108 xs =
                  take-append_le 108 xs ys (ground (arith, size, full)) in
                rw (long, long', whole, missing, whole, full) refl
          ]
        ]
  ]

  -- Both versions are told by the first bytes, which stay.
  choose-Decided_same :
      (peek xs ys : Bytes)
      → Decided xs
          (choose inet_pton4 inet_pton6 atoi peek xs)
          (choose inet_pton4 inet_pton6 atoi peek (xs ++ ys))
  unfolding choose
  choose-Decided_same peek xs ys = elim (Bool-cases (starts_with peek (codes "PROXY "))) [
    | inl v1 ↦ rw v1 (parse_v1-Decided xs ys)
    | inr not_v1 ↦ elim (Bool-cases (leb 12 (length peek) && eq_bytes peek signature)) [
      | inl v2 ↦ rw (not_v1, v2) (parse_v2-Decided xs ys)
      | inr neither ↦ elim (Bool-cases (ltb (length peek) 12)) [
        | inl short ↦ rw (not_v1, neither, short) tt
        | inr long ↦ rw (not_v1, neither, long) refl
      ]
    ]
  ]

  choose-Decided_short :
      (peek peek' xs ys : Bytes)
      → length peek < 12
      → starts_with peek' (codes "PROXY ") ≡ starts_with peek (codes "PROXY ")
      → Decided xs
          (choose inet_pton4 inet_pton6 atoi peek xs)
          (choose inet_pton4 inet_pton6 atoi peek' (xs ++ ys))
  unfolding choose
  choose-Decided_short peek peek' xs ys short same =
      let no_v2 : leb 12 (length peek) ≡ false = ground (arith, short) in
      let few : ltb (length peek) 12 ≡ true = ground (arith, short) in
      elim (Bool-cases (starts_with peek (codes "PROXY "))) [
        | inl v1 ↦ rw (v1, same ∙ v1) (parse_v1-Decided xs ys)
        | inr not_v1 ↦ rw (not_v1, no_v2, few) tt
      ]

  -- An answer other than 0 is final: when more bytes follow, a refused header stays refused, and an
  -- accepted one is accepted again with the same length and source. The length is at least 8 and no
  -- more than the bytes that are there, and no assertion fails.
  pub proxy_protocol_parse-Decided :
      (xs ys : Bytes)
      → Decided xs
          (proxy_protocol_parse inet_pton4 inet_pton6 atoi xs)
          (proxy_protocol_parse inet_pton4 inet_pton6 atoi (xs ++ ys))
  unfolding proxy_protocol_parse
  proxy_protocol_parse-Decided xs ys =
      let total = length-append xs ys in
      elim (Bool-cases (ltb (length xs) 6)) [
        | inl short ↦ rw short tt
        | inr long ↦
            let fits = ltb-false (length xs) 6 long in
            let long' = ltb-ge (length (xs ++ ys)) 6 (omega (arith, total)) in
            elim (Bool-cases (ltb (length xs) 12)) [
              | inr all ↦
                  rw (long, long', take-append_le 12 xs ys (ltb-false (length xs) 12 all))
                    (choose-Decided_same (take 12 xs) xs ys)
              | inl few ↦
                  let size = length-take 12 xs in
                  let six : 6 ≤ length (take 12 xs) = omega (arith, size) in
                  rw (long, long')
                    (choose-Decided_short (take 12 xs) (take 12 (xs ++ ys)) xs ys
                      (ground (arith, size, few))
                      (ap (λ p. eq_bytes p (codes "PROXY "))
                        (ap (take 6) (take-append 12 xs ys)
                          ∙ take-append_le 6 (take 12 xs) (take (12 - length xs) ys) six)))
            ]
      ]
