-- ===== src/Tls/Ciphers/Choice.antt =====
-- The cipher suite that `tls_parse_client_hello_ciphers` of src/net/net-tls-parse.c takes.
use Prim.Native.Nat.{bit_and}
use native.Mathlib.Decide.{dec_lt}
use mtbolt.Common.{
  ℕ, zero, suc, ◌+◌, ◌-◌, ◌*◌, ◌≤◌, ◌<◌, ◌≡◌, ◌⊎◌, inl, inr, ap, ◌∙◌, sym, refl, arith, Bool, true,
  false, not, ◌&&◌, Bytes, length, get_or, ltb, leb, ◌==◌, Bool-cases, eq_of_not_ne,
}
use mtbolt.Common.Parse.{
  ok, Ensures, returns, Ensures-reject_if, Ensures-bind, Ensures-read, read-ok,
}
use mtbolt.Tls.Read.{length_at, read_length-ok}
use mtbolt.Tls.Ciphers.{is_grease, skip_grease, parse_client_hello_ciphers}

-- RFC 8701: both bytes of a GREASE value end in the digit A.
abbrev pub grease_at : Bytes → ℕ → Bool
grease_at xs pos =
    bit_and (get_or xs pos 0) 0x0F == 0x0A && bit_and (get_or xs (pos + 1) 0) 0x0F == 0x0A

-- `low` is the second byte of the suite number `index`, the first that is not GREASE.
pub record Choice (client_hello : Bytes) (low : ℕ) : Type 0 where
  pub index : ℕ
  pub inside : 2 * index + 2 ≤ length_at client_hello 76
  pub skipped : (k : ℕ) → k < index → grease_at client_hello (78 + 2 * k) ≡ true
  pub chosen : grease_at client_hello (78 + 2 * index) ≡ false
  pub tls13 : get_or client_hello (78 + 2 * index) 0 ≡ 0x13
  pub low_is : get_or client_hello (78 + 2 * index + 1) 0 ≡ low
  pub known : (1 ≤ low) × (low ≤ 3)

module _ (xs : Bytes) (total : ℕ) (fits : 78 + total ≤ length xs) where
  is_grease-ok : (pos : ℕ) → pos + 2 ≤ 78 + total → is_grease xs pos ≡ ok (grease_at xs pos)
  unfolding is_grease
  is_grease-ok pos h =
      let a = read-ok xs pos (omega arith) in
      let b = read-ok xs (pos + 1) (omega arith) in
      elim (Bool-cases (bit_and (get_or xs pos 0) 0x0F == 0x0A)) [
        | inl t ↦ rw a (rw t (rw b))
        | inr f ↦ rw a (rw f)
      ]

  -- The loop has passed `index` GREASE values.
  record Skipped (left pos : ℕ) : Type 0 where
    index : ℕ
    left_is : left + 2 * index ≡ total
    pos_is : pos ≡ 78 + 2 * index
    skipped : (k : ℕ) → k < index → grease_at xs (78 + 2 * k) ≡ true

  skip_one :
      (left pos : ℕ)
      → Skipped left pos
      → 2 ≤ left
      → grease_at xs pos ≡ true
      → Skipped (left - 2) (pos + 2)
  skip_one left pos v h g = record {
    index = suc v.index;
    left_is = omega (arith, v.left_is);
    pos_is = omega (arith, v.pos_is);
    skipped = λ k lt. elim (dec_lt k v.index) [
      | yes earlier ↦ v.skipped k earlier
      | no last ↦ let e : 78 + 2 * k ≡ pos = omega (arith, v.pos_is) in ap (grease_at xs) e ∙ g
    ];
  }

  skip_grease-Skipped :
      (fuel left pos : ℕ)
      → Skipped left pos
      → left < fuel
      → Ensures
          (λ r. Skipped r.0 r.1 × ((r.0 < 2) ⊎ (grease_at xs r.1 ≡ false)))
          (skip_grease fuel xs left pos)
  unfolding skip_grease
  skip_grease-Skipped zero left pos v f = absurd (omega arith)
  skip_grease-Skipped (suc fuel) left pos v f = elim (Bool-cases (leb 2 left)) [
    | inr few ↦ rw (few, skip_grease) (returns (v, inl (ground arith)))
    | inl more ↦
        rw (more, skip_grease)
          (rw (is_grease-ok pos (ground (arith, v.left_is, v.pos_is)))
            (elim (Bool-cases (grease_at xs pos)) [
              | inl g ↦ rw g (
                  skip_grease-Skipped fuel (left - 2) (pos + 2)
                    (skip_one left pos v (ground arith) g) (ground arith))
              | inr g ↦ rw g (returns (v, inr g))
            ]))
  ]

  left_inside : (left pos : ℕ) → Skipped left pos → leb left 1 ≡ false → pos + 2 ≤ length xs
  left_inside left pos v more = ground (arith, v.left_is, v.pos_is)

  choice :
      (left pos low : ℕ)
      → Skipped left pos
      → (left < 2) ⊎ (grease_at xs pos ≡ false)
      → leb left 1 ≡ false
      → length_at xs 76 ≡ total
      → get_or xs pos 0 ≡ 0x13
      → get_or xs (pos + 1) 0 ≡ low
      → ltb low 0x01 ≡ false
      → ltb 0x03 low ≡ false
      → Choice xs low
  choice left pos low v g more e high low_is above below =
      let at = v.pos_is in
      record {
        index = v.index;
        inside = ground (arith, v.left_is);
        skipped = v.skipped;
        chosen = elim g [ inl few ↦ absurd (ground arith) | inr plain ↦ rw at at plain ];
        tls13 = rw at at high;
        low_is = rw at at low_is;
        known = ground arith;
      }

-- For every buffer of at least `len` bytes the search for the cipher reads inside the buffer and
-- ends. What it returns is the second byte of the first suite of the client's list that is not
-- GREASE; that suite lies in the list, and is one of 0x1301 to 0x1303.
pub parse_client_hello_ciphers-Choice :
    (client_hello : Bytes) (len : ℕ)
    → len ≤ length client_hello
    → Ensures (Choice client_hello) (parse_client_hello_ciphers client_hello len)
unfolding parse_client_hello_ciphers
parse_client_hello_ciphers-Choice xs len fits = Ensures-reject_if (ltb len (76 + 2)) λ room.
    rw (read_length-ok xs 76 (ground arith)) (
      let total = length_at xs 76 in
      Ensures-reject_if (ltb len (76 + 2 + total)) λ inside.
        let within : 78 + total ≤ length xs = ground arith in
        Ensures-bind
          (skip_grease-Skipped xs total within (total + 1) total 78
            (record {
              index = 0;
              left_is = omega arith;
              pos_is = omega arith;
              skipped = λ k h. absurd (omega arith);
            })
            (omega arith))
          λ r v. Ensures-reject_if (leb r.0 1) λ more.
            let end : r.1 + 2 ≤ length xs = left_inside xs total within r.0 r.1 v.0 more in
            Ensures-bind (Ensures-read xs r.1 (omega arith)) λ high e.
              Ensures-reject_if (not (high == 0x13)) λ tls.
                Ensures-bind (Ensures-read xs (r.1 + 1) (omega arith)) λ low e'.
                  Ensures-reject_if (ltb low 0x01) λ above.
                    Ensures-reject_if (ltb 0x03 low) λ below. returns (
                      choice xs total within r.0 r.1 low v.0 v.1 more refl
                        (sym e ∙ eq_of_not_ne high 0x13 tls) (sym e') above below))
