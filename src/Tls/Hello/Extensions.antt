-- ===== src/Tls/Hello/Extensions.antt =====
-- The extension list of an accepted ServerHello: one key_share and one supported_versions.
use mtbolt.Common.{
  ℕ, suc, ◌+◌, ◌-◌, ◌*◌, ◌≤◌, ◌<◌, ◌≡◌, ◌⊎◌, inl, inr, refl, ap, ◌∙◌, arith, Bool, false, not, ◌&&◌,
  Bytes, length, ltb, ◌==◌, if◌then◌else◌, Bool-cases, zero,
}
use mtbolt.Common.Parse.{Ensures, returns, Ensures-reject_if, Ensures-bind}
use mtbolt.Tls.Read.{length_at, read_length-ok}
use mtbolt.Tls.Hello.{Scan, scan_extension, scan_extensions, check_extensions}

-- How many extensions of each kind the loop has passed, and what it keeps of them.
pub record Scanned (response : Bytes) (shl : ℕ) (s : Scan) : Type 0 where
  pub x25519 : ℕ
  pub mlkem : ℕ
  pub versions : ℕ
  pub sum_is : s.sum ≡ 0x33 * (x25519 + mlkem) + 0x2b * versions
  pub pos_is : s.pos ≡ 81 + 40 * x25519 + 1128 * mlkem + 6 * versions
  pub inside : s.pos ≤ 5 + shl
  pub order : (s.pos ≡ 81) ⊎ (s.is_reversed ≡ (length_at response 81 == 0x2b))

-- the state after an extension with this identifier and length
abbrev scanned : Scan → ℕ → ℕ → Scan
scanned s id size = record {
  pos = s.pos + 2 + 2 + size;
  sum = s.sum + id;
  is_reversed = if s.pos + 2 == 83 then id == 0x2b else s.is_reversed;
}

-- An extension is a supported_versions, an x25519 key share, or a hybrid key share.
extension_kinds :
    (id size : ℕ)
    → not (id == 0x33) && not (id == 0x2b) ≡ false
    → (if id == 0x2b then not (size == 2) else (not (size == 36) && not (size == 1124))) ≡ false
    → ((id ≡ 0x2b) × (size ≡ 2)) ⊎ (((id ≡ 0x33) × (size ≡ 36)) ⊎ ((id ≡ 0x33) × (size ≡ 1124)))
extension_kinds id size known fits' = ground arith

module _ (response : Bytes) (shl : ℕ) (fits : 5 + shl ≤ length response) where
  order_kept :
      (pos : ℕ) (r : Bool) (id : ℕ)
      → (pos ≡ 81) ⊎ (r ≡ (length_at response 81 == 0x2b))
      → id ≡ length_at response pos
      → (if pos + 2 == 83 then id == 0x2b else r) ≡ (length_at response 81 == 0x2b)
  order_kept pos r id (inl p) e = rw p (rw (e ∙ ap (length_at response) p))
  order_kept pos r id (inr q) e = elim (Bool-cases (pos + 2 == 83)) [
    | inl t ↦ rw t (ap (λ k. k == 0x2b) (e ∙ ap (length_at response) (ground arith)))
    | inr f ↦ rw f q
  ]

  -- The counts after one more extension.
  scanned_next :
      (s : Scan) (id size x m w : ℕ)
      → Scanned response shl s
      → id ≡ length_at response s.pos
      → ltb (5 + shl) (s.pos + 2 + 2 + size) ≡ false
      → s.sum + id ≡ 0x33 * (x + m) + 0x2b * w
      → s.pos + 2 + 2 + size ≡ 81 + 40 * x + 1128 * m + 6 * w
      → let s' = scanned s id size in Scanned response shl s' × (s.pos < s'.pos)
  scanned_next s id size x m w v e room sum pos = (
    record {
      x25519 = x;
      mlkem = m;
      versions = w;
      sum_is = sum;
      pos_is = pos;
      inside = ground arith;
      order = inr (order_kept s.pos s.is_reversed id v.order e);
    },
    omega arith,
  )

  scan_extension_step :
      (s : Scan) (id size : ℕ)
      → Scanned response shl s
      → id ≡ length_at response s.pos
      → not (id == 0x33) && not (id == 0x2b) ≡ false
      → ltb (5 + shl) (s.pos + 2 + 2 + size) ≡ false
      → (if id == 0x2b then not (size == 2) else (not (size == 36) && not (size == 1124))) ≡ false
      → let s' = scanned s id size in Scanned response shl s' × (s.pos < s'.pos)
  scan_extension_step s id size v e known room fits' = elim (extension_kinds id size known fits') [
    | inl k ↦
        scanned_next s id size v.x25519 v.mlkem (suc v.versions) v e room (omega arith)
          (omega arith)
    | inr (inl k) ↦
        scanned_next s id size (suc v.x25519) v.mlkem v.versions v e room (omega arith)
          (omega arith)
    | inr (inr k) ↦
        scanned_next s id size v.x25519 (suc v.mlkem) v.versions v e room (omega arith)
          (omega arith)
  ]

  scan_extension-Scanned :
      (s : Scan)
      → Scanned response shl s
      → s.pos < 5 + shl - 4
      → Ensures (λ s'. Scanned response shl s' × (s.pos < s'.pos)) (scan_extension response shl s)
  unfolding scan_extension
  scan_extension-Scanned s v h = rw (read_length-ok response s.pos (omega arith)) (
      Ensures-reject_if _ λ known. rw (read_length-ok response (s.pos + 2) (omega arith)) (
        Ensures-reject_if _ λ room.
          Ensures-reject_if _ λ size. returns (scan_extension_step s _ _ v refl known room size)))

  -- The loop ends, stays inside the record, and stops within three bytes of its end.
  scan_extensions-Scanned :
      (fuel : ℕ) (s : Scan)
      → Scanned response shl s
      → 5 + shl < s.pos + fuel
      → Ensures
          (λ s'. Scanned response shl s' × (5 + shl - 4 ≤ s'.pos))
          (scan_extensions fuel response shl s)
  unfolding scan_extensions
  scan_extensions-Scanned zero s v f = absurd (omega arith)
  scan_extensions-Scanned (suc fuel) s v f = elim (Bool-cases (ltb s.pos (5 + shl - 4))) [
    | inl more ↦
        rw (more, scan_extensions)
          (Ensures-bind (scan_extension-Scanned s v (ground arith))
            λ s' v'. scan_extensions-Scanned fuel s' v'.0 (omega arith))
    | inr done ↦ rw (done, scan_extensions) (returns (v, ground arith))
  ]

  -- What the extension checks of an accepted hello have established: the record is as long as one
  -- supported_versions and one key share of either size make it.
  pub check_extensions-Ensures :
      75 < shl
      → Ensures
          (λ s.
            (s.pos ≡ 5 + shl)
            × ((shl ≡ 122) ⊎ (shl ≡ 1210))
            × (s.is_reversed ≡ (length_at response 81 == 0x2b)))
          (check_extensions response shl 79)
  unfolding check_extensions
  check_extensions-Ensures h = rw (read_length-ok response 79 (omega arith)) (
      Ensures-reject_if _ λ total.
        Ensures-bind
          (scan_extensions-Scanned (shl + 1) _
            (record {
              x25519 = 0;
              mlkem = 0;
              versions = 0;
              sum_is = refl;
              pos_is = refl;
              inside = ground arith;
              order = inl refl;
            })
            (omega arith))
          λ s v.
            Ensures-reject_if _
              λ sum. Ensures-reject_if _ λ end. returns (both s v.0 (ground arith) (ground arith)))
    where
      both :
          (s : Scan)
          → Scanned response shl s
          → s.sum ≡ 94
          → s.pos ≡ 5 + shl
          → (s.pos ≡ 5 + shl)
            × ((shl ≡ 122) ⊎ (shl ≡ 1210))
            × (s.is_reversed ≡ (length_at response 81 == 0x2b))
      both s v sum end = (end, omega arith, grind arith)
