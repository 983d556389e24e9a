-- ===== src/Tls/Hello/Records.antt =====
-- The application data records behind an accepted ServerHello.
use mtbolt.Common.{
  ℕ, zero, suc, ◌+◌, ◌≤◌, ◌<◌, ◌≡◌, ◌⊎◌, refl, sym, ◌∙◌, ap, subst, arith, true, false, ◌||◌, List,
  [], ◌∷◌, ◌++◌, Bytes, length, length-append, take, drop, ltb, leb, ◌==◌, if◌then◌else◌, inl, inr,
  Bool-cases, eq_bytes_iff,
}
use mtbolt.Common.Parse.{
  ok, ◌>>=◌, ◌>>◌, reject_if, Ensures, returns, Ensures-reject_if, Ensures-bind, Ensures-fetch,
  Ensures-if,
}
use mtbolt.Tls.Read.{length_at, read_length-ok}
use mtbolt.Tls.Hello.{
  max_encrypted_records, Tail, count_record, starts_at, scan_records, check_records,
}

-- the bytes that records of these sizes take, with their headers
abbrev pub record_bytes : List ℕ → ℕ
record_bytes [] = 0
record_bytes (n ∷ ns) = 5 + n + record_bytes ns

-- At a position a record of n bytes of application data starts, which is not empty and ends within `len`.
abbrev pub IsRecord : Bytes → ℕ → ℕ → ℕ → Type 0
IsRecord response len pos n =
    (take 3 (drop pos response) ≡ 0x17 ∷ 0x03 ∷ 0x03 ∷ [])
    × (length_at response (pos + 3) ≡ n)
    × (0 < n)
    × (pos + 5 + n ≤ len)

-- Records of these sizes follow each other from a position on.
abbrev pub AreRecords : Bytes → ℕ → ℕ → List ℕ → Type 0
AreRecords response len pos [] = Unit
AreRecords response len pos (n ∷ ns) =
    IsRecord response len pos n × AreRecords response len (pos + 5 + n) ns

AreRecords-append :
    (response : Bytes) (len pos : ℕ) (ns : List ℕ) (n : ℕ)
    → AreRecords response len pos ns
    → IsRecord response len (pos + record_bytes ns) n
    → AreRecords response len pos (ns ++ (n ∷ []))
AreRecords-append response len pos [] n h r =
    (subst (λ q. IsRecord response len q n) (omega arith) r, tt)
AreRecords-append response len pos (m ∷ ns) n h r = (
  h.0,
  AreRecords-append response len (pos + 5 + m) ns n h.1
      (subst (λ q. IsRecord response len q n) (omega arith) r),
)

record_bytes-append :
    (xs : List ℕ) (n : ℕ) → record_bytes (xs ++ (n ∷ [])) ≡ record_bytes xs + 5 + n
record_bytes-append [] n = omega arith
record_bytes-append (x ∷ xs) n = omega (arith, record_bytes-append xs n)

-- One more entry is kept while there is room.
take-snoc_room :
    (k : ℕ) (xs : List ℕ) (n : ℕ) → length xs < k → take k (xs ++ (n ∷ [])) ≡ take k xs ++ (n ∷ [])
take-snoc_room zero xs n h = absurd (omega (arith, h))
take-snoc_room (suc k) [] n h = ap (λ ys. n ∷ ys) (take-nil k)
  where
    take-nil : (k : ℕ) → take {A = ℕ} k [] ≡ []
    take-nil zero = refl
    take-nil (suc k) = refl
take-snoc_room (suc k) (x ∷ xs) n h = ap (λ ys. x ∷ ys) (take-snoc_room k xs n (omega (arith, h)))

take-snoc_full : (k : ℕ) (xs : List ℕ) (n : ℕ) → k ≤ length xs → take k (xs ++ (n ∷ [])) ≡ take k xs
take-snoc_full zero xs n h = refl
take-snoc_full (suc k) [] n h = absurd (omega (arith, h))
take-snoc_full (suc k) (x ∷ xs) n h = ap (λ ys. x ∷ ys) (take-snoc_full k xs n (omega (arith, h)))

-- The records counted from `first` on, the sizes of the first eight of which are kept.
pub record Counted (response : Bytes) (first len : ℕ) (t : Tail) : Type 0 where
  pub all : List ℕ
  pub records : AreRecords response len first all
  pub counts : t.count ≡ length all
  pub kept : t.sizes ≡ take max_encrypted_records all
  pub ends : t.pos ≡ first + record_bytes all
  pub inside : t.pos ≤ len

-- the bytes of a change_cipher_spec record
abbrev pub change_cipher_spec : Bytes
change_cipher_spec = 0x14 ∷ 0x03 ∷ 0x03 ∷ 0x00 ∷ 0x01 ∷ 0x01 ∷ []

-- A string stands at a position, in front of `len`.
abbrev pub StandsAt : Bytes → ℕ → ℕ → ℕ → Bytes → Type 0
StandsAt response len pos n str = (pos + n ≤ len) × (take (length str) (drop pos response) ≡ str)

-- The records start behind a change_cipher_spec, if there is one.
abbrev pub IsFirst : Bytes → ℕ → ℕ → ℕ → Type 0
IsFirst response len start first =
    (StandsAt response len start 6 change_cipher_spec × (first ≡ start + 6))
    ⊎ ((¬ StandsAt response len start 6 change_cipher_spec) × (first ≡ start))

-- All records are counted, and none is left.
abbrev pub Scanned : Bytes → ℕ → ℕ → Tail → Type 0
Scanned response len first t =
    Counted response first len t × ((n : ℕ) → ¬ IsRecord response len t.pos n)

module _ (response : Bytes) (len : ℕ) (fits : len ≤ length response) where
  count_record-Counted :
      (first : ℕ) (t : Tail) (n : ℕ)
      → Counted response first len t
      → IsRecord response len t.pos n
      → Counted response first len (count_record t n)
  count_record-Counted first t n v h =
      let here : IsRecord response len (first + record_bytes v.all) n =
        subst (λ q. IsRecord response len q n) v.ends h in
      let sizes : (if ltb t.count max_encrypted_records then t.sizes ++ (n ∷ []) else t.sizes)
          ≡ take max_encrypted_records (v.all ++ (n ∷ [])) =
        elim (Bool-cases (ltb t.count max_encrypted_records)) [
          | inl room ↦ rw room (
              ap (λ ys. ys ++ (n ∷ [])) v.kept
              ∙ sym (take-snoc_room max_encrypted_records v.all n (ground (arith, room, v.counts))))
          | inr full ↦ rw full (
              v.kept
              ∙ sym (take-snoc_full max_encrypted_records v.all n (ground (arith, full, v.counts))))
        ] in
      record {
        all = v.all ++ (n ∷ []);
        records = AreRecords-append response len first v.all n v.records here;
        counts = omega (arith, v.counts, length-append v.all (n ∷ []));
        kept = sizes;
        ends = omega (arith, v.ends, record_bytes-append v.all n);
        inside = omega (arith, h.3);
      }

  starts_at-Ensures :
      (pos n : ℕ) (str : Bytes)
      → length str ≤ n
      → Ensures
          (λ b.
            (b ≡ true → StandsAt response len pos n str)
            × (b ≡ false → ¬ StandsAt response len pos n str))
          (starts_at response len pos n str)
  unfolding starts_at
  starts_at-Ensures pos n str h = elim (Bool-cases (leb (pos + n) len)) [
    | inl inside ↦
        rw (inside, starts_at)
          (Ensures-bind (Ensures-fetch response pos (length str) (ground arith)) λ bytes e.
            returns (
              (λ t. (ground arith, sym e ∙ (eq_bytes_iff bytes str).0 t)),
              λ f s. absurd (ground (arith, f, (eq_bytes_iff bytes str).1 (e ∙ s.1))),
            ))
    | inr outside ↦
        rw (outside, starts_at)
          (returns ((λ e. absurd (ground (arith, e))), λ f s. ground (arith, outside, s.0)))
  ]

  scan_records-Scanned :
      (first fuel : ℕ) (t : Tail)
      → Counted response first len t
      → len < t.pos + fuel
      → Ensures (Scanned response len first) (scan_records fuel response len t)
  unfolding scan_records
  scan_records-Scanned first zero t v f = absurd (omega (arith, v.inside))
  scan_records-Scanned first (suc fuel) t v f =
      Ensures-bind (starts_at-Ensures t.pos 5 (0x17 ∷ 0x03 ∷ 0x03 ∷ []) (omega arith)) (elim [
        | false ↦ λ h. returns (v, λ n r. h.1 refl (omega (arith, r.3), r.0))
        | true ↦ λ h.
            let stands = h.0 refl in
            let n = length_at response (t.pos + 3) in
            rw (read_length-ok response (t.pos + 3) (omega (arith, stands.0))) (
              Ensures-if (n == 0 || ltb len (t.pos + 3 + 2 + n))
                (λ bad. returns (v, λ m r. ground (arith, bad, r.1, r.2, r.3)))
                λ good.
                  scan_records-Scanned first fuel (count_record t n)
                    (count_record-Counted first t n v
                      (stands.1, refl, ground (arith, good), ground (arith, good)))
                    (omega arith))
      ])

  -- At least one record follows an accepted hello.
  pub check_records-Ensures :
      (start : ℕ)
      → start ≤ len
      → Ensures
          (λ t.
            (0 < t.count)
            × ((first : ℕ) × IsFirst response len start first × Scanned response len first t))
          (check_records response len start)
  unfolding check_records
  check_records-Ensures start h =
      Ensures-bind (starts_at-Ensures start 6 change_cipher_spec (omega arith)) (elim [
        | true ↦ λ s. from (start + 6) (omega (arith, (s.0 refl).0)) (inl (s.0 refl, refl))
        | false ↦ λ s. from start h (inr (s.1 refl, refl))
      ])
    where
      from :
          (first : ℕ)
          → first ≤ len
          → IsFirst response len start first
          → Ensures
              (λ t.
                (0 < t.count) × ((f : ℕ) × IsFirst response len start f × Scanned response len f t))
              (do
                t ←
                    scan_records
                      (len + 1)
                      response
                      len
                      (record { pos = first; sizes = []; count = 0 })
                reject_if (t.count == 0)
                ok t)
      from first b i =
          Ensures-bind
            (scan_records-Scanned first (len + 1) (record { pos = first; sizes = []; count = 0 })
              (record {
                all = [];
                records = tt;
                counts = refl;
                kept = refl;
                ends = omega arith;
                inside = b;
              })
              (omega arith))
            λ t v.
              Ensures-reject_if (t.count == 0) λ some_record. returns (ground arith, (first, i, v))
