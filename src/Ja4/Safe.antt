-- ===== src/Ja4/Safe.antt =====
-- The reads of ja4_parse of src/net/net-ja4.c, its buffers, and the length of the fingerprint.
use mtbolt.Common.{
  ℕ, zero, suc, ◌+◌, ◌-◌, ◌*◌, ◌/◌, ◌≤◌, ◌<◌, ◌≡◌, refl, arith, Bool, true, false, not, ◌&&◌, ◌||◌,
  List, [], ◌∷◌, ◌++◌, Bytes, length, length-append, length-take, take, All, Bool-cases, inl, inr,
  tests, ltb, leb, ◌==◌, if◌then◌else◌,
}
use mtbolt.Common.Parse.{
  Ensures, returns, Ensures-bind, Ensures-reject_if, Ensures-read, Ensures-elim,
}
use mtbolt.Ja4.{
  u16_be, u16_list, hex4, max_entries, Inputs, without_grease, supported_versions,
  signature_algorithms, alpn, extension_body, add_ext, extension, ja4_extensions, capped,
  write_entry, put_entry, put_all, cap_entries, first_entries, parse_extensions, parse,
  is_grease_u16, is_even, legacy_digits, best_minor, version_digits,
}

abbrev pub IsHex4 : Bytes → Type 0
IsHex4 b = length b ≡ 4

-- The cells that were written when n entries were counted.
abbrev pub IsFilled : ℕ → List Bytes → Type 0
IsFilled n array =
    All IsHex4 array
    × (n ≤ max_entries → length array ≡ n)
    × (max_entries ≤ n → length array ≡ max_entries)

-- Strings of four bytes, at most `max_entries` ciphers, and no NUL in the version.
pub record IsFit (s : Inputs) : Type 0 where
  pub ciphers : All IsHex4 s.ciphers
  pub few : length s.ciphers ≤ max_entries
  pub digits : (0 < s.tls_ver.0) × (0 < s.tls_ver.1)
  pub exts : IsFilled s.ext_n s.exts
  pub sigalgs : IsFilled s.sigalgs_n s.sigalgs

pub All-append : (P : Bytes → Type 0) (xs ys : List Bytes) → All P xs → All P ys → All P (xs ++ ys)
All-append P [] ys h k = k
All-append P (x ∷ xs) ys h k = (h.0, All-append P xs ys h.1 k)

All-take : (P : Bytes → Type 0) (n : ℕ) (xs : List Bytes) → All P xs → All P (take n xs)
All-take P zero xs h = tt
All-take P (suc n) [] h = tt
All-take P (suc n) (x ∷ xs) h = (h.0, All-take P n xs h.1)

put_entry-IsFilled :
    (n v : ℕ) (array : List Bytes)
    → IsFilled n array
    → Ensures (IsFilled (n + 1)) (put_entry n v array)
unfolding put_entry write_entry
put_entry-IsFilled n v array h = elim (Bool-cases (ltb n max_entries)) [
  | inl t ↦
      let grown = length-append array (hex4 v ∷ []) in
      let before : length array ≡ n = h.1 (ground (arith, t)) in
      rw t (
        returns (
          All-append IsHex4 array (hex4 v ∷ []) h.0 (refl, tt),
          λ _. omega (arith, grown, before),
          λ m. ground (arith, t, m, grown, before),
        ))
  | inr f ↦
      let full : max_entries ≤ n = ground (arith, f) in
      rw f (returns (h.0, λ m. absurd (omega (arith, m, full)), λ _. h.2 full))
]

put_all-IsFilled :
    (vs : List ℕ) (array : List Bytes) (n : ℕ)
    → IsFilled n array
    → Ensures (λ r. IsFilled r.1 r.0) (put_all vs array n)
unfolding put_all
put_all-IsFilled [] array n h = returns h
put_all-IsFilled (v ∷ vs) array n h =
    Ensures-bind (put_entry-IsFilled n v array h) λ a k. put_all-IsFilled vs a (n + 1) k

-- The capped number of cells was written.
first_entries-IsFilled :
    (n : ℕ) (array : List Bytes)
    → IsFilled n array
    → Ensures (IsFilled (cap_entries n)) (first_entries (cap_entries n) array)
unfolding first_entries
first_entries-IsFilled n array h =
    let low : cap_entries n ≤ max_entries = ground arith in
    let all : length array ≡ cap_entries n = ground (arith, h.1, h.2) in
    let read : leb (cap_entries n) (length array) ≡ true = ground (arith, all) in
    let len = length-take (cap_entries n) array in
    rw read (
      returns (
        All-take IsHex4 (cap_entries n) array h.0,
        λ _. omega (tests, len, all),
        λ m. omega (tests, len, all, m, low),
      ))

IsFilled-le : (n : ℕ) (array : List Bytes) → IsFilled n array → length array ≤ max_entries
IsFilled-le n array h = elim (Bool-cases (leb n max_entries)) [
  | inl t ↦ let few : n ≤ max_entries = ground (arith, t) in omega (arith, h.1 few, few)
  | inr f ↦ let full : max_entries ≤ n = ground (arith, f) in omega (arith, h.2 full)
]

legacy_positive : (a b : ℕ) → (0 < (legacy_digits a b).0) × (0 < (legacy_digits a b).1)
legacy_positive a b = ground arith

IsFit-if : (b : Bool) (s t : Inputs) → IsFit s → IsFit t → IsFit (if b then s else t)
IsFit-if true s t h k = h
IsFit-if false s t h k = k

best_fits :
    (vs : List ℕ) (s : Inputs)
    → IsFit s
    → IsFit (
        if leb 1 (best_minor 0 vs)
        then record s { tls_ver = version_digits (best_minor 0 vs) }
        else s)
best_fits vs s w =
    IsFit-if (leb 1 (best_minor 0 vs)) _ s
      (record {
        ciphers = w.ciphers;
        few = w.few;
        digits = (omega arith, omega arith);
        exts = w.exts;
        sigalgs = w.sigalgs;
      })
      w

-- What the parser returns has at most `max_entries` of each.
abbrev pub IsCapped : Inputs → Type 0
IsCapped s = IsFit s × (length s.exts ≤ max_entries) × (length s.sigalgs ≤ max_entries)

module _ (ch : Bytes) (len : ℕ) (inside : len ≤ length ch) where
  u16_be-safe : (i : ℕ) → i + 2 ≤ len → Ensures (λ _. Unit {0}) (u16_be ch i)
  unfolding u16_be
  u16_be-safe i h =
      Ensures-bind (Ensures-read ch i (omega arith))
        λ a _. Ensures-bind (Ensures-read ch (i + 1) (omega arith)) λ b _. returns tt

  u16_list-safe : (n pos : ℕ) → pos + 2 * n ≤ len → Ensures (λ _. Unit {0}) (u16_list n ch pos)
  unfolding u16_list
  u16_list-safe zero pos h = returns tt
  u16_list-safe (suc n) pos h =
      Ensures-bind (u16_be-safe pos (omega arith))
        λ v _. Ensures-bind (u16_list-safe n (pos + 2) (omega arith)) λ vs _. returns tt

  supported_versions-safe :
      (pos ext_len : ℕ) (s : Inputs)
      → pos + ext_len ≤ len
      → 1 ≤ ext_len
      → IsFit s
      → Ensures IsFit (supported_versions ch pos ext_len s)
  unfolding supported_versions
  supported_versions-safe pos ext_len s h p w =
      Ensures-bind (Ensures-read ch pos (omega arith)) λ n _.
        Ensures-elim (ltb 0 n && (leb (n + 1) ext_len && is_even n))
          (λ t.
            Ensures-bind (u16_list-safe (n / 2) (pos + 1) (ground arith))
              λ vs _. returns (best_fits vs s w))
          λ _. returns w

  signature_algorithms-safe :
      (pos ext_len : ℕ) (s : Inputs)
      → pos + ext_len ≤ len
      → 2 ≤ ext_len
      → IsFit s
      → Ensures IsFit (signature_algorithms ch pos ext_len s)
  unfolding signature_algorithms
  signature_algorithms-safe pos ext_len s h p w =
      Ensures-bind (u16_be-safe pos (omega arith)) λ n _.
        Ensures-elim (ltb 0 n && (leb (n + 2) ext_len && is_even n))
          (λ t. Ensures-bind (u16_list-safe (n / 2) (pos + 2) (ground arith)) λ vs _.
            Ensures-bind (put_all-IsFilled vs s.sigalgs s.sigalgs_n w.sigalgs) λ r k.
              returns (record {
                ciphers = w.ciphers;
                few = w.few;
                digits = w.digits;
                exts = w.exts;
                sigalgs = k;
              }))
          λ _. returns w

  alpn-safe :
      (pos ext_len ext_end : ℕ) (s : Inputs)
      → pos + ext_len ≤ ext_end
      → ext_end ≤ len
      → 3 ≤ ext_len
      → IsFit s
      → Ensures IsFit (alpn ch pos ext_len ext_end s)
  unfolding alpn
  alpn-safe pos ext_len ext_end s h b p w = Ensures-bind (u16_be-safe pos (omega arith)) λ n _.
      Ensures-elim (ltb 0 n && leb (n + 2) ext_len)
        (λ t. Ensures-bind (Ensures-read ch (pos + 2) (omega arith)) λ k _.
          Ensures-elim (ltb 0 k && leb (pos + 3 + k) ext_end)
            (λ u. Ensures-bind (Ensures-read ch (pos + 3) (ground arith)) λ first _.
              Ensures-bind (Ensures-read ch (pos + 3 + k - 1) (ground arith)) λ last _.
                returns (record {
                  ciphers = w.ciphers;
                  few = w.few;
                  digits = w.digits;
                  exts = w.exts;
                  sigalgs = w.sigalgs;
                }))
            λ _. returns w)
        λ _. returns w

  extension_body-safe :
      (pos ext_type ext_len ext_end : ℕ) (s : Inputs)
      → pos + ext_len ≤ ext_end
      → ext_end ≤ len
      → IsFit s
      → Ensures IsFit (extension_body ch pos ext_type ext_len ext_end s)
  unfolding extension_body
  extension_body-safe pos ext_type ext_len ext_end s h b w =
      Ensures-elim (ext_type == 0x0000)
        (λ _. returns (record {
          ciphers = w.ciphers;
          few = w.few;
          digits = w.digits;
          exts = w.exts;
          sigalgs = w.sigalgs;
        }))
        λ _.
          Ensures-elim ((ext_type == 0x002b) && leb 1 ext_len)
            (λ t. supported_versions-safe pos ext_len s (omega arith) (ground arith) w)
            λ _.
              Ensures-elim ((ext_type == 0x000d) && leb 2 ext_len)
                (λ t. signature_algorithms-safe pos ext_len s (omega arith) (ground arith) w)
                λ _.
                  Ensures-elim ((ext_type == 0x0010) && leb 3 ext_len)
                    (λ t. alpn-safe pos ext_len ext_end s h b (ground arith) w) λ _. returns w

  add_ext-IsFit : (ext_type : ℕ) (s : Inputs) → IsFit s → Ensures IsFit (add_ext ext_type s)
  unfolding add_ext
  add_ext-IsFit ext_type s w =
      Ensures-elim ((ext_type == 0x0000) || (ext_type == 0x0010)) (λ _. returns w)
        λ _. Ensures-bind (put_entry-IsFilled s.ext_n ext_type s.exts w.exts) λ a k.
          returns (record {
            ciphers = w.ciphers;
            few = w.few;
            digits = w.digits;
            exts = k;
            sigalgs = w.sigalgs;
          })

  extension-safe :
      (pos ext_type ext_len ext_end : ℕ) (s : Inputs)
      → pos + ext_len ≤ ext_end
      → ext_end ≤ len
      → IsFit s
      → Ensures IsFit (extension ch pos ext_type ext_len ext_end s)
  unfolding extension
  extension-safe pos ext_type ext_len ext_end s h b w =
      Ensures-elim (is_grease_u16 ext_type) (λ _. returns w)
        λ _.
          Ensures-bind
            (extension_body-safe pos ext_type ext_len ext_end
              (record s { ext_count_total = s.ext_count_total + 1 }) h b
              (record {
                ciphers = w.ciphers;
                few = w.few;
                digits = w.digits;
                exts = w.exts;
                sigalgs = w.sigalgs;
              }))
            λ t v. add_ext-IsFit ext_type t v

  ja4_extensions-safe :
      (fuel pos ext_end : ℕ) (s : Inputs)
      → ext_end ≤ len
      → ext_end < pos + fuel
      → pos ≤ ext_end
      → IsFit s
      → Ensures IsFit (ja4_extensions fuel ch pos ext_end s)
  unfolding ja4_extensions
  ja4_extensions-safe zero pos ext_end s b f h w = absurd (omega arith)
  ja4_extensions-safe (suc fuel) pos ext_end s b f h w =
      Ensures-elim (leb (pos + 4) ext_end)
        (λ t. Ensures-bind (u16_be-safe pos (ground arith)) λ ext_type _.
          Ensures-bind (u16_be-safe (pos + 2) (ground arith)) λ ext_len _.
            Ensures-reject_if (ltb ext_end (pos + 4 + ext_len)) λ within.
              let end : pos + 4 + ext_len ≤ ext_end = ground (arith, within) in
              Ensures-bind (extension-safe (pos + 4) ext_type ext_len ext_end s end b w)
                λ u v. ja4_extensions-safe fuel (pos + 4 + ext_len) ext_end u b (omega arith) end v)
        λ _. returns w

  capped-IsCapped : (s : Inputs) → IsFit s → Ensures IsCapped (capped s)
  unfolding capped
  capped-IsCapped s w = Ensures-bind (first_entries-IsFilled s.ext_n s.exts w.exts) λ exts h.
      Ensures-bind (first_entries-IsFilled s.sigalgs_n s.sigalgs w.sigalgs) λ sigalgs k. returns (
        record { ciphers = w.ciphers; few = w.few; digits = w.digits; exts = h; sigalgs = k },
        IsFilled-le (cap_entries s.ext_n) exts h,
        IsFilled-le (cap_entries s.sigalgs_n) sigalgs k,
      )

  parse_extensions-safe :
      (pos : ℕ) (s : Inputs) → IsCapped s → Ensures IsCapped (parse_extensions ch len pos s)
  unfolding parse_extensions
  parse_extensions-safe pos s w =
      Ensures-elim (ltb len (pos + 2)) (λ _. returns w)
        λ f. Ensures-bind (u16_be-safe pos (ground (arith, f))) λ n _.
          Ensures-reject_if (ltb len (pos + 2 + n)) λ within.
            let end : pos + 2 + n ≤ len = ground (arith, within) in
            Ensures-bind
              (ja4_extensions-safe (len + 1) (pos + 2) (pos + 2 + n) s end (omega arith)
                (omega arith) w.0)
              λ t v. capped-IsCapped t v

  pub parse-safe : Ensures IsCapped (parse ch len)
  unfolding parse
  parse-safe = Ensures-reject_if (ltb len 44) λ room.
      Ensures-bind (Ensures-read ch 43 (ground arith)) λ sid_len _.
        Ensures-reject_if (ltb len (44 + sid_len)) λ sid.
          Ensures-bind (Ensures-read ch 9 (ground (arith, room))) λ major _.
            Ensures-bind (Ensures-read ch 10 (ground (arith, room))) λ minor _.
              Ensures-reject_if (ltb len (44 + sid_len + 2)) λ room2.
                Ensures-bind (u16_be-safe (44 + sid_len) (ground (arith, room2))) λ cs_len _.
                  Ensures-reject_if (not (is_even cs_len) || ltb len (44 + sid_len + 2 + cs_len))
                    λ cs.
                      Ensures-bind
                        (u16_list-safe (cs_len / 2) (44 + sid_len + 2) (ground (arith, cs)))
                        λ vs _.
                          Ensures-bind
                            (put_all-IsFilled (without_grease vs) [] 0
                              (tt, (λ _. refl), λ m. absurd (omega (arith, m))))
                            λ r k. Ensures-bind (first_entries-IsFilled r.1 r.0 k) λ ciphers fill.
                              Ensures-reject_if (ltb len (44 + sid_len + 2 + cs_len + 1)) λ room3.
                                Ensures-bind
                                  (Ensures-read ch (44 + sid_len + 2 + cs_len)
                                    (ground (arith, room3)))
                                  λ comp_len _.
                                    Ensures-reject_if
                                      (ltb len (44 + sid_len + 2 + cs_len + 1 + comp_len))
                                      λ comp.
                                        parse_extensions-safe _ _
                                          (start major minor ciphers r.1 fill)
    where
      start :
          (major minor : ℕ) (ciphers : List Bytes) (n : ℕ)
          → IsFilled (cap_entries n) ciphers
          → IsCapped (record {
            tls_ver = legacy_digits major minor;
            has_sni = false;
            ciphers = ciphers;
            exts = [];
            ext_n = 0;
            ext_count_total = 0;
            sigalgs = [];
            sigalgs_n = 0;
            alpn0_first = 0;
            alpn0_last = 0;
          })
      start major minor ciphers n fill = (
        record {
          ciphers = fill.0;
          few = IsFilled-le (cap_entries n) ciphers fill;
          digits = legacy_positive major minor;
          exts = (tt, (λ _. refl), λ m. absurd (omega (arith, m)));
          sigalgs = (tt, (λ _. refl), λ m. absurd (omega (arith, m)));
        },
        omega arith,
        omega arith,
      )
