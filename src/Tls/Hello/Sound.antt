-- ===== src/Tls/Hello/Sound.antt =====
-- The reads of `tls_check_server_hello` of src/net/net-tls-parse.c, and the shape of what it accepts.
use mtbolt.Common.{
  ℕ, ◌+◌, ◌≤◌, ◌<◌, ◌≡◌, ◌≢◌, ◌⊎◌, refl, sym, ◌∙◌, arith, false, List, not, ◌||◌, [], ◌∷◌, Bytes,
  length, get_or, take, drop, ltb, leb, ◌==◌, eq_bytes, eq_bytes_iff, eq_bytes_passed, eq_of_not_ne,
  subst, get_or-take-drop,
}
use mtbolt.Common.Parse.{
  Ensures, returns, Ensures-reject_if, Ensures-guard, Ensures-bind, Ensures-fetch, Ensures-read,
  Ensures-mono,
}
use mtbolt.Tls.Read.{length_at, read_length-ok}
use mtbolt.Tls.Hello.{
  Hello, Scan, Tail, max_encrypted_records, hello_retry_request, expect, check_record, check_cipher,
  check_fields, check_extensions, check_server_hello,
}
use mtbolt.Tls.Hello.Extensions.{check_extensions-Ensures}
use mtbolt.Tls.Hello.Records.{
  record_bytes, IsRecord, AreRecords, IsFirst, Scanned, check_records-Ensures,
}

-- The fixed fields of a ServerHello that mirrors the client's session.
pub record IsHello (response session_id : Bytes) : Type 0 where
  pub handshake : take 2 (drop 5 response) ≡ 0x02 ∷ 0x00 ∷ []
  pub version : take 2 (drop 9 response) ≡ 0x03 ∷ 0x03 ∷ []
  pub not_retry : take 32 (drop 11 response) ≢ hello_retry_request
  pub session_length : get_or response 43 0 ≡ 0x20
  pub session : take 32 (drop 44 response) ≡ session_id
  pub cipher_high : get_or response 76 0 ≡ 0x13
  pub cipher_low : (1 ≤ get_or response 77 0) × (get_or response 77 0 ≤ 3)
  pub compression : get_or response 78 0 ≡ 0

in_range : (b : ℕ) → (ltb b 1 || ltb 3 b) ≡ false → (1 ≤ b) × (b ≤ 3)
in_range b h = ground arith

module _ (response : Bytes) (len : ℕ) (fits : len ≤ length response) where
  expect-Ensures :
      (pos : ℕ) (str : Bytes)
      → pos + length str ≤ len
      → Ensures (λ _. take (length str) (drop pos response) ≡ str) (expect response pos str)
  expect-Ensures pos str h =
      Ensures-bind (Ensures-fetch response pos (length str) (omega arith)) λ bytes e.
        Ensures-mono (Ensures-guard (not (eq_bytes bytes str)))
          λ _ same. sym e ∙ eq_bytes_passed bytes str same

  check_cipher-Ensures :
      80 < len
      → Ensures
          (λ _.
            (get_or response 76 0 ≡ 0x13)
            × ((1 ≤ get_or response 77 0) × (get_or response 77 0 ≤ 3))
            × (get_or response 78 0 ≡ 0))
          (check_cipher response)
  unfolding check_cipher
  check_cipher-Ensures h = Ensures-bind (expect-Ensures 76 (0x13 ∷ []) (omega arith)) λ _ high.
      Ensures-bind (Ensures-read response 77 (omega arith)) λ low e.
        Ensures-reject_if (ltb low 0x01 || ltb 0x03 low) λ range.
          Ensures-bind (Ensures-read response 78 (omega arith)) λ method e'.
            Ensures-mono (Ensures-guard (not (method == 0))) λ _ zero_method. (
              get_or-take-drop response 76 0x13 high,
              subst (λ b. (1 ≤ b) × (b ≤ 3)) e (in_range low range),
              sym e' ∙ eq_of_not_ne method 0 zero_method,
            )

  check_fields-Ensures :
      (shl : ℕ) (session_id : Bytes)
      → 39 < shl
      → 5 + shl ≤ len
      → Ensures
          (λ _. (75 < shl) × IsHello response session_id)
          (check_fields response shl session_id)
  unfolding check_fields
  check_fields-Ensures shl session_id h h' =
      Ensures-bind (expect-Ensures 5 (0x02 ∷ 0x00 ∷ []) (omega arith)) λ _ handshake.
        Ensures-bind (expect-Ensures 9 (0x03 ∷ 0x03 ∷ []) (omega arith)) λ _ version.
          Ensures-bind (Ensures-fetch response 11 32 (omega arith)) λ random e.
            Ensures-reject_if (eq_bytes random hello_retry_request) λ retry.
              Ensures-bind (Ensures-read response 43 (omega arith)) λ l e'.
                Ensures-reject_if (l == 0) λ _.
                  Ensures-bind (expect-Ensures 43 (0x20 ∷ []) (omega arith)) λ _ size.
                    Ensures-reject_if (leb shl 75) λ long.
                      let far : 80 < len = ground arith in
                      Ensures-bind (Ensures-fetch response 44 32 (omega arith)) λ session f.
                        Ensures-reject_if (not (eq_bytes session session_id)) λ mirrored.
                          Ensures-mono (check_cipher-Ensures far) λ _ c. (
                            ground arith,
                            record {
                              handshake = handshake;
                              version = version;
                              not_retry = λ same.
                                  cc
                                    (retry, (eq_bytes_iff random hello_retry_request).1 (e ∙ same));
                              session_length = get_or-take-drop response 43 0x20 size;
                              session = sym f ∙ eq_bytes_passed session session_id mirrored;
                              cipher_high = c.0;
                              cipher_low = c.1;
                              compression = c.2;
                            },
                          )

  check_record-Ensures :
      Ensures
        (λ r.
          (r.0 ≡ length_at response 3)
          × (39 < r.0)
          × (r.1 ≡ 5)
          × (5 + r.0 ≤ len)
          × (take 3 (drop 0 response) ≡ 0x16 ∷ 0x03 ∷ 0x03 ∷ []))
        (check_record response len)
  unfolding check_record
  check_record-Ensures = Ensures-reject_if (ltb len (0 + 3)) λ a.
      Ensures-bind (expect-Ensures 0 (0x16 ∷ 0x03 ∷ 0x03 ∷ []) (ground arith)) λ _ magic.
        Ensures-reject_if (ltb len (3 + 2)) λ b. rw (read_length-ok response 3 (ground arith)) (
          Ensures-reject_if (leb (length_at response 3) 39) λ c.
            Ensures-reject_if (ltb len (5 + length_at response 3))
              λ d. returns (refl, ground arith, refl, ground arith, magic))

-- What an accepted response is, and what the out parameters say of it.
pub record Accepted (response session_id : Bytes) (len : ℕ) (h : Hello) : Type 0 where
  pub magic : take 3 (drop 0 response) ≡ 0x16 ∷ 0x03 ∷ 0x03 ∷ []
  pub hello : IsHello response session_id
  pub size : (length_at response 3 ≡ 122) ⊎ (length_at response 3 ≡ 1210)
  pub order : h.is_reversed_extension_order ≡ (length_at response 81 == 0x2b)
  pub first : ℕ
  pub start : IsFirst response len (5 + length_at response 3) first
  pub all : List ℕ
  pub records : AreRecords response len first all
  pub no_more : (n : ℕ) → ¬ IsRecord response len (first + record_bytes all) n
  pub some_record : 0 < h.encrypted_record_count
  pub counts : h.encrypted_record_count ≡ length all
  pub kept : h.encrypted_record_sizes ≡ take max_encrypted_records all

accepted :
    {response session_id : Bytes} (len shl : ℕ) (s : Scan) (t : Tail)
    → shl ≡ length_at response 3
    → take 3 (drop 0 response) ≡ 0x16 ∷ 0x03 ∷ 0x03 ∷ []
    → IsHello response session_id
    → (s.pos ≡ 5 + shl)
      × ((shl ≡ 122) ⊎ (shl ≡ 1210))
      × (s.is_reversed ≡ (length_at response 81 == 0x2b))
    → (0 < t.count)
      × ((first : ℕ) × IsFirst response len s.pos first × Scanned response len first t)
    → Accepted response session_id len (record {
      is_reversed_extension_order = s.is_reversed;
      encrypted_record_sizes = t.sizes;
      encrypted_record_count = t.count;
    })
accepted {response} {session_id} len shl s t e m f x y = record {
  magic = m;
  hello = f;
  size = subst (λ n. (n ≡ 122) ⊎ (n ≡ 1210)) e x.1;
  order = x.2;
  first = y.1.0;
  start = subst (λ n. IsFirst response len n y.1.0) (omega (arith, x.0, e)) y.1.1;
  all = y.1.2.0.all;
  records = y.1.2.0.records;
  no_more = λ n r. y.1.2.1 n (subst (λ q. IsRecord response len q n) (sym y.1.2.0.ends) r);
  some_record = y.0;
  counts = y.1.2.0.counts;
  kept = y.1.2.0.kept;
}

-- For every buffer of at least `len` bytes the check reads inside the buffer and ends. What it
-- accepts has the header, the fixed fields and the mirrored session of a TLS 1.3 ServerHello that
-- is no HelloRetryRequest; its handshake record is 122 or 1210 bytes long, as one
-- supported_versions and one key share of x25519 or X25519MLKEM768 make it; the order flag says
-- whether supported_versions stands first. Behind it, and behind a change_cipher_spec if one follows,
-- stand one or more records of application data, not empty and within `len`; the count is the number of
-- all that follow each other, and the sizes kept are those of the first eight.
pub check_server_hello-Accepted :
    (response session_id : Bytes) (len : ℕ)
    → len ≤ length response
    → Ensures (Accepted response session_id len) (check_server_hello response len session_id)
unfolding check_server_hello
check_server_hello-Accepted response session_id len fits =
    Ensures-bind (check_record-Ensures response len fits) λ r v.
      Ensures-bind (check_fields-Ensures response len fits r.0 session_id v.1 v.3) λ _ f.
        Ensures-bind (extensions r.0 r.1 v.2 v.3 f.0) λ s x.
          Ensures-bind (check_records-Ensures response len fits s.pos (omega arith))
            λ t y. returns (accepted len r.0 s t v.0 v.4 f.1 x y)
  where
    extensions :
        (shl pos : ℕ)
        → pos ≡ 5
        → 5 + shl ≤ len
        → 75 < shl
        → Ensures
            (λ s.
              (s.pos ≡ 5 + shl)
              × ((shl ≡ 122) ⊎ (shl ≡ 1210))
              × (s.is_reversed ≡ (length_at response 81 == 0x2b)))
            (check_extensions response shl (pos + 74))
    extensions shl pos e h long = rw e (check_extensions-Ensures response shl (omega arith) long)
