-- ===== src/Tls/Mlkem/Safe.antt =====
-- The reads of `tls_client_hello_offers_mlkem` of src/net/net-tls-parse.c.
use mtbolt.Common.{
  ℕ, zero, suc, ◌+◌, ◌-◌, ◌≤◌, ◌<◌, inl, inr, arith, Bool, false, Bytes, length, ltb, leb, ◌==◌,
  Bool-cases,
}
use mtbolt.Common.Parse.{
  Parse, ok, reject, fault, out_of_fuel, Ensures, returns, rejects, Ensures-reject_if, Ensures-bind,
  Ensures-read, Ensures-if,
}
use mtbolt.Tls.Read.{length_at, read_length-ok}
use mtbolt.Tls.Mlkem.{
  scan_groups, scan_key_share, scan_hello, offers_mlkem, client_hello_offers_mlkem,
}

-- The run is safe and ends.
abbrev Safe : Parse Bool → Type 0
Safe r = Ensures {A = Bool} (λ _. Unit {0}) r

module _ (xs : Bytes) (len : ℕ) (fits : len ≤ length xs) where
  scan_groups-Safe :
      (fuel ks_end p : ℕ)
      → ks_end ≤ len
      → p ≤ ks_end
      → ks_end < p + fuel
      → Safe (scan_groups fuel xs ks_end p)
  unfolding scan_groups
  scan_groups-Safe zero ks_end p h b f = absurd (omega arith)
  scan_groups-Safe (suc fuel) ks_end p h b f = elim (Bool-cases (leb (p + 4) ks_end)) [
    | inr few ↦ rw (few, scan_groups) (returns tt)
    | inl more ↦
        rw (more, scan_groups)
          (rw (read_length-ok xs p (ground arith)) (
            rw (read_length-ok xs (p + 2) (ground arith)) (
              let klen = length_at xs (p + 2) in
              Ensures-reject_if (ltb (ks_end - (p + 2 + 2)) klen) λ room.
                Ensures-if (length_at xs p == 0x11ec) (λ _. returns tt)
                  λ _.
                    scan_groups-Safe fuel ks_end (p + 2 + 2 + klen) h (ground arith)
                      (omega arith))))
  ]

  scan_key_share-Safe : (pos size : ℕ) → pos + size ≤ len → Safe (scan_key_share xs pos size)
  unfolding scan_key_share
  scan_key_share-Safe pos size h = Ensures-reject_if (ltb (pos + size) (pos + 2)) λ room.
      rw (read_length-ok xs pos (ground arith)) (
        let ks_len = length_at xs pos in
        Ensures-reject_if (ltb (pos + size) (pos + 2 + ks_len)) λ inside.
          scan_groups-Safe (ks_len + 1) (pos + 2 + ks_len) (pos + 2) (ground arith) (omega arith)
            (omega arith))

  scan_hello-Safe :
      (fuel ext_end pos : ℕ)
      → ext_end ≤ len
      → pos ≤ ext_end
      → ext_end < pos + fuel
      → Safe (scan_hello fuel xs ext_end pos)
  unfolding scan_hello
  scan_hello-Safe zero ext_end pos h b f = absurd (omega arith)
  scan_hello-Safe (suc fuel) ext_end pos h b f = elim (Bool-cases (leb (pos + 4) ext_end)) [
    | inr few ↦ rw (few, scan_hello) (returns tt)
    | inl more ↦
        rw (more, scan_hello)
          (rw (read_length-ok xs pos (ground arith)) (
            rw (read_length-ok xs (pos + 2) (ground arith)) (
              let size = length_at xs (pos + 2) in
              Ensures-reject_if (ltb ext_end (pos + 2 + 2 + size)) λ room.
                let inside : pos + 2 + 2 + size ≤ ext_end = ground arith in
                Ensures-if (length_at xs pos == 0x33)
                  (λ _. scan_key_share-Safe (pos + 2 + 2) size (omega arith))
                  (λ _. scan_hello-Safe fuel ext_end (pos + 2 + 2 + size) h inside (omega arith)))))
  ]

  offers_mlkem-Safe : Safe (offers_mlkem xs len)
  unfolding offers_mlkem
  offers_mlkem-Safe = Ensures-reject_if (ltb len (11 + 32 + 1)) λ a.
      Ensures-bind (Ensures-read xs 43 (ground arith)) λ sid _.
        let pos₁ = 43 + (1 + sid) in
        Ensures-reject_if (ltb len (pos₁ + 2)) λ b. rw (read_length-ok xs pos₁ (ground arith)) (
          let pos₂ = pos₁ + 2 + length_at xs pos₁ in
          Ensures-reject_if (ltb len (pos₂ + 1)) λ c.
            Ensures-bind (Ensures-read xs pos₂ (ground arith)) λ comp _.
              let pos₃ = pos₂ + (1 + comp) in
              Ensures-reject_if (ltb len (pos₃ + 2)) λ d.
                rw (read_length-ok xs pos₃ (ground arith)) (
                  let ext_len = length_at xs pos₃ in
                  Ensures-reject_if (ltb len (pos₃ + 2 + ext_len)) λ e.
                    scan_hello-Safe (ext_len + 1) (pos₃ + 2 + ext_len) (pos₃ + 2) (ground arith)
                      (omega arith) (omega arith)))

  pub client_hello_offers_mlkem-Safe : Safe (client_hello_offers_mlkem xs len)
  unfolding client_hello_offers_mlkem
  client_hello_offers_mlkem-Safe = answer offers_mlkem-Safe
    where
      answer :
          {r : Parse Bool}
          → Safe r
          → Safe (elim r [
            | ok b ↦ ok b
            | reject ↦ ok false
            | fault ↦ fault
            | out_of_fuel ↦ out_of_fuel
          ])
      answer (returns _) = returns tt
      answer rejects = returns tt
