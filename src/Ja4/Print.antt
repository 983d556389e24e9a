-- ===== src/Ja4/Print.antt =====
-- The string that ja4_compute of src/net/net-ja4.c prints.
use mtbolt.Common.{
  ℕ, zero, suc, ◌+◌, ◌*◌, ◌/◌, ◌%◌, ◌≤◌, ◌<◌, ◌≡◌, refl, ap, arith, Bool, true, false, ◌&&◌, List,
  [], ◌∷◌, ◌++◌, Bytes, length, length-append, get_or, All, ◌==◌, if◌then◌else◌, Bool-cases, inl,
  inr, le→leb,
}
use mtbolt.Common.Parse.{ok, Ensures, returns, Ensures-bind, Ensures-elim, Ensures-ok}
use mtbolt.Ja4.{hex_digit, max_entries, Inputs, parse}
use mtbolt.Ja4.Fingerprint.{
  in_buffer, join, zeros, two_digits, at_most_99, alpn_chars, hex_pairs, sha256_hex12, ja4_b,
  sigalgs_part, ja4_c, fingerprint, compute,
}
use mtbolt.Ja4.Safe.{IsHex4, IsCapped, parse-safe}
use mtbolt.Ja4.Sorting.{IsRearranged, IsQsort, All-occurs, occurs-All, qsort-IsRearranged}

-- A string of n bytes, none of them NUL.
abbrev pub IsString : ℕ → Bytes → Type 0
IsString n s = (length s ≡ n) × All (λ c. 0 < c) s

length-join : (xs : List Bytes) → All IsHex4 xs → length (join xs) ≤ 5 * length xs
length-join [] h = omega arith
length-join (x ∷ []) h = omega (arith, h.0)
length-join (x ∷ y ∷ xs) h =
    omega (arith, length-append x (44 ∷ join (y ∷ xs)), h.0, length-join (y ∷ xs) h.1)

in_buffer-ok : (size : ℕ) (s : Bytes) → length s ≤ size → in_buffer size s ≡ ok s
unfolding in_buffer
in_buffer-ok size s h = rw (le→leb (length s) size h) refl

hex_digit-pos : (d : ℕ) → 0 < hex_digit d
hex_digit-pos d = ground arith

All-append : (P : ℕ → Type 0) (xs ys : Bytes) → All P xs → All P ys → All P (xs ++ ys)
All-append P [] ys h k = k
All-append P (x ∷ xs) ys h k = (h.0, All-append P xs ys h.1 k)

IsString-append :
    (m n : ℕ) (xs ys : Bytes) → IsString m xs → IsString n ys → IsString (m + n) (xs ++ ys)
IsString-append m n xs ys h k =
    (omega (arith, length-append xs ys, h.0, k.0), All-append (λ c. 0 < c) xs ys h.1 k.1)

IsString-alpn : (a b : ℕ) → IsString 2 (alpn_chars a b)
IsString-alpn a b = ground arith

IsString-two_digits : (n : ℕ) → IsString 2 (two_digits n)
IsString-two_digits n = (refl, (omega arith, (omega arith, tt)))

flag-pos : (b : Bool) → 0 < (if b then 100 else 105)
flag-pos true = omega arith
flag-pos false = omega arith

underscore : IsString 1 (95 ∷ [])
underscore = (refl, (omega arith, tt))

zeros-IsString : IsString 12 zeros
zeros-IsString = ground arith

module _ (qsort : List Bytes → List Bytes) (sha256 : Bytes → Bytes) (sorts : IsQsort qsort) where
  qsort-IsHex4 : (xs : List Bytes) → All IsHex4 xs → All IsHex4 (qsort xs)
  qsort-IsHex4 xs h =
      occurs-All IsHex4 (qsort xs)
        λ v p. All-occurs IsHex4 v xs h (omega (arith, sorts.rearranged xs v, p))

  length-join_sorted : (xs : List Bytes) → All IsHex4 xs → length (join (qsort xs)) ≤ 5 * length xs
  length-join_sorted xs h =
      omega (arith, length-join (qsort xs) (qsort-IsHex4 xs h), sorts.length_kept xs)

  hex_pairs-IsString : (n i : ℕ) (d : Bytes) → IsString (2 * n) (hex_pairs qsort sha256 n i d)
  hex_pairs-IsString zero i d = (refl, tt)
  hex_pairs-IsString (suc n) i d =
      let rest = hex_pairs-IsString n (i + 1) d in
      (
        omega (arith, rest.0),
        (hex_digit-pos (get_or d i 0 / 16 % 16), (hex_digit-pos (get_or d i 0 % 16), rest.1)),
      )

  hex12-IsString : (s : Bytes) → IsString 12 (sha256_hex12 qsort sha256 s)
  hex12-IsString s = hex_pairs-IsString 6 0 (sha256 s)

  ja4_b-IsString :
      (cs : List Bytes)
      → All IsHex4 cs
      → length cs ≤ max_entries
      → Ensures (IsString 12) (ja4_b qsort sha256 cs)
  unfolding ja4_b
  ja4_b-IsString [] h b = returns zeros-IsString
  ja4_b-IsString (c ∷ cs) h b =
      rw
        (in_buffer-ok (max_entries * 5 + 1) (join (qsort (c ∷ cs)))
          (omega (arith, length-join_sorted (c ∷ cs) h, b)))
        (returns (hex12-IsString (join (qsort (c ∷ cs)))))

  length-sigalgs :
      (ss : List Bytes) → All IsHex4 ss → length (sigalgs_part qsort sha256 ss) ≤ 5 * length ss + 1
  length-sigalgs [] h = omega arith
  length-sigalgs (s ∷ ss) h = omega (arith, length-join (s ∷ ss) h)

  ja4_c-IsString :
      (exts sigalgs : List Bytes)
      → All IsHex4 exts
      → All IsHex4 sigalgs
      → length exts ≤ max_entries
      → length sigalgs ≤ max_entries
      → Ensures (IsString 12) (ja4_c qsort sha256 exts sigalgs)
  unfolding ja4_c
  ja4_c-IsString exts ss h k b d =
      Ensures-elim ((length exts == 0) && (length ss == 0)) (λ _. returns zeros-IsString)
        λ _.
          rw
            (in_buffer-ok ((max_entries + max_entries) * 5 + 2)
              (join (qsort exts) ++ sigalgs_part qsort sha256 ss)
              (omega (
                arith,
                length-append (join (qsort exts)) (sigalgs_part qsort sha256 ss),
                length-join_sorted exts h,
                length-sigalgs ss k,
                b,
                d,
              )))
            (returns (hex12-IsString (join (qsort exts) ++ sigalgs_part qsort sha256 ss)))

  fingerprint-IsString :
      (s : Inputs) → IsCapped s → Ensures (IsString 36) (fingerprint qsort sha256 s)
  unfolding fingerprint
  fingerprint-IsString s w = Ensures-bind (ja4_b-IsString s.ciphers w.0.ciphers w.0.few) λ b h.
      Ensures-bind (ja4_c-IsString s.exts s.sigalgs w.0.exts.0 w.0.sigalgs.0 w.1 w.2) λ c k.
        let t1 = b ++ (95 ∷ c) in
        let t2 = alpn_chars s.alpn0_first s.alpn0_last ++ (95 ∷ t1) in
        let t3 = two_digits (at_most_99 s.ext_count_total) ++ t2 in
        let t4 = two_digits (at_most_99 (length s.ciphers)) ++ t3 in
        let p1 : IsString 25 t1 =
          IsString-append 12 13 b (95 ∷ c) h (IsString-append 1 12 (95 ∷ []) c underscore k) in
        let p2 : IsString 28 t2 =
          IsString-append 2 26 (alpn_chars s.alpn0_first s.alpn0_last) (95 ∷ t1)
            (IsString-alpn s.alpn0_first s.alpn0_last)
            (IsString-append 1 25 (95 ∷ []) t1 underscore p1) in
        let p3 : IsString 30 t3 =
          IsString-append 2 28 (two_digits (at_most_99 s.ext_count_total)) t2
            (IsString-two_digits (at_most_99 s.ext_count_total)) p2 in
        let p4 : IsString 32 t4 =
          IsString-append 2 30 (two_digits (at_most_99 (length s.ciphers))) t3
            (IsString-two_digits (at_most_99 (length s.ciphers))) p3 in
        returns (
          IsString-append 4 32
            (116 ∷ s.tls_ver.0 ∷ s.tls_ver.1 ∷ (if s.has_sni then 100 else 105) ∷ []) t4
            (refl, (omega arith, (w.0.digits.0, (w.0.digits.1, (flag-pos s.has_sni, tt))))) p4)

  -- For every buffer of at least `len` bytes, and a qsort that sorts, ja4_compute reads inside the
  -- buffer, writes inside its own buffers and arrays, reads of the arrays only what was written, and ends;
  -- a fingerprint that it returns has 36 characters, none of them NUL.
  pub compute-IsString :
      (ch : Bytes) (len : ℕ) → len ≤ length ch → Ensures (IsString 36) (compute qsort sha256 ch len)
  unfolding compute
  compute-IsString ch len h = Ensures-bind (parse-safe ch len h) λ s w. fingerprint-IsString s w

  length-IsRearranged :
      (xs ys : List Bytes) → All IsHex4 xs → IsRearranged xs ys → length xs ≡ length ys
  length-IsRearranged xs ys h r = omega (
    arith,
    sorts.length_kept xs,
    sorts.length_kept ys,
    ap length (qsort-IsRearranged qsort xs ys sorts h r),
  )

  ja4_b-IsRearranged :
      (cs ds : List Bytes)
      → All IsHex4 cs
      → IsRearranged cs ds
      → ja4_b qsort sha256 cs ≡ ja4_b qsort sha256 ds
  unfolding ja4_b
  ja4_b-IsRearranged [] [] h r = refl
  ja4_b-IsRearranged [] (d ∷ ds) h r = absurd (omega (arith, length-IsRearranged [] (d ∷ ds) h r))
  ja4_b-IsRearranged (c ∷ cs) [] h r = absurd (omega (arith, length-IsRearranged (c ∷ cs) [] h r))
  ja4_b-IsRearranged (c ∷ cs) (d ∷ ds) h r =
      rw (qsort-IsRearranged qsort (c ∷ cs) (d ∷ ds) sorts h r) refl

  ja4_c-IsRearranged :
      (es fs ss : List Bytes)
      → All IsHex4 es
      → IsRearranged es fs
      → ja4_c qsort sha256 es ss ≡ ja4_c qsort sha256 fs ss
  unfolding ja4_c
  ja4_c-IsRearranged es fs ss h r =
      let n = length-IsRearranged es fs h r in
      let q = qsort-IsRearranged qsort es fs sorts h r in
      elim (Bool-cases ((length fs == 0) && (length ss == 0))) [
        | inl t ↦ rw (n, t, ja4_c) refl
        | inr f ↦ rw (n, f, ja4_c) (rw q refl)
      ]

  -- With a qsort that sorts, two ClientHellos that ja4_parse reads as the same but for the order of
  -- ciphers and extensions have the same fingerprint.
  pub compute-IsRearranged :
      (ch : Bytes) (len : ℕ) (ch' : Bytes) (len' : ℕ) (s : Inputs) (cs es : List Bytes)
      → len ≤ length ch
      → parse ch len ≡ ok s
      → parse ch' len' ≡ ok (record s { ciphers = cs; exts = es })
      → IsRearranged s.ciphers cs
      → IsRearranged s.exts es
      → compute qsort sha256 ch len ≡ compute qsort sha256 ch' len'
  unfolding compute fingerprint
  compute-IsRearranged ch len ch' len' s cs es h p q r t =
      let w = Ensures-ok (parse-safe ch len h) p in
      rw
        (
          p,
          q,
          ja4_b-IsRearranged s.ciphers cs w.0.ciphers r,
          ja4_c-IsRearranged s.exts es s.sigalgs w.0.exts.0 t,
          length-IsRearranged s.ciphers cs w.0.ciphers r,
        )
        refl
