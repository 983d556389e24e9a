-- ===== src/Ja4/Fingerprint.antt =====
-- The fingerprint that ja4_compute of src/net/net-ja4.c makes of what ja4_parse returns.
use mtbolt.Common.{
  ℕ, zero, suc, ◌+◌, ◌*◌, ◌/◌, ◌%◌, Bool, true, false, ◌&&◌, List, [], ◌∷◌, ◌++◌, Bytes, length,
  get_or, ltb, leb, ◌==◌, if◌then◌else◌,
}
use mtbolt.Common.Text.{codes}
use mtbolt.Common.Parse.{Parse, ok, fault, ◌>>=◌}
use mtbolt.Ja4.{hex_digit, max_entries, Inputs, parse}

-- A local buffer of `size` bytes takes a string.
unfoldable pub in_buffer : ℕ → Bytes → Parse Bytes
in_buffer size s = if leb (length s) size then ok s else fault

abbrev pub join : List Bytes → Bytes
join [] = []
join (x ∷ []) = x
join (x ∷ y ∷ xs) = x ++ (44 ∷ join (y ∷ xs))

abbrev pub zeros : Bytes
zeros = codes "000000000000"

-- `%02d`, of a number below 100
abbrev pub two_digits : ℕ → Bytes
two_digits n = (48 + n / 10) ∷ (48 + n % 10) ∷ []

abbrev pub at_most_99 : ℕ → ℕ
at_most_99 n = if ltb 99 n then 99 else n

abbrev pub is_printable : ℕ → Bool
is_printable c = leb 0x20 c && ltb c 0x7f

abbrev pub alpn_chars : ℕ → ℕ → Bytes
alpn_chars first last =
    if (first == 0) && (last == 0)
    then 48 ∷ 48 ∷ []
    else (if is_printable first && is_printable last
        then first ∷ last ∷ []
        else hex_digit (first / 16 % 16) ∷ hex_digit (first % 16) ∷ [])

-- `qsort` sorts strings by `hex4_cmp`, `sha256` is the digest.
module _ (qsort : List Bytes → List Bytes) (sha256 : Bytes → Bytes) where
  abbrev pub hex_pairs : ℕ → ℕ → Bytes → Bytes
  hex_pairs zero i digest = []
  hex_pairs (suc n) i digest =
      hex_digit (get_or digest i 0 / 16 % 16)
      ∷ hex_digit (get_or digest i 0 % 16)
      ∷ hex_pairs n (i + 1) digest

  abbrev pub sha256_hex12 : Bytes → Bytes
  sha256_hex12 in' = hex_pairs 6 0 (sha256 in')

  unfoldable pub ja4_b : List Bytes → Parse Bytes
  unfolding in_buffer
  ja4_b [] = ok zeros
  ja4_b (c ∷ cs) = do
    buf ← in_buffer (max_entries * 5 + 1) (join (qsort (c ∷ cs)))
    ok (sha256_hex12 buf)

  abbrev pub sigalgs_part : List Bytes → Bytes
  sigalgs_part [] = []
  sigalgs_part (s ∷ ss) = 95 ∷ join (s ∷ ss)

  unfoldable pub ja4_c : List Bytes → List Bytes → Parse Bytes
  unfolding in_buffer
  ja4_c exts sigalgs = elim ((length exts == 0) && (length sigalgs == 0)) [
    | true ↦ ok zeros
    | false ↦ do
      buf ←
          in_buffer ((max_entries + max_entries) * 5 + 2)
            (join (qsort exts) ++ sigalgs_part sigalgs)
      ok (sha256_hex12 buf)
  ]

  unfoldable pub fingerprint : Inputs → Parse Bytes
  unfolding ja4_b ja4_c
  fingerprint s = do
    b ← ja4_b s.ciphers
    c ← ja4_c s.exts s.sigalgs
    ok (
        116
        ∷ s.tls_ver.0
        ∷ s.tls_ver.1
        ∷ (if s.has_sni then 100 else 105)
        ∷ (two_digits (at_most_99 (length s.ciphers))
            ++ (two_digits (at_most_99 s.ext_count_total)
                ++ (alpn_chars s.alpn0_first s.alpn0_last ++ (95 ∷ (b ++ (95 ∷ c)))))))

  unfoldable pub compute : Bytes → ℕ → Parse Bytes
  unfolding parse fingerprint
  compute ch len = do s ← parse ch len; fingerprint s
