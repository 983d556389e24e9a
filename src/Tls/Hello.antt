-- ===== src/Tls/Hello.antt =====
-- `tls_check_server_hello`: the checks of an upstream ServerHello, in the order of the source.
mod Extensions
mod Records
pub mod Sound
use mtbolt.Common.{
  ℕ, zero, suc, ◌+◌, ◌-◌, Bool, true, false, not, ◌&&◌, ◌||◌, List, [], ◌∷◌, ◌++◌, Bytes, length,
  ltb, leb, ◌==◌, if◌then◌else◌, eq_bytes,
}
use mtbolt.Common.Parse.{Parse, ok, reject, fault, out_of_fuel, ◌>>=◌, ◌>>◌, reject_if, read, fetch}
use mtbolt.Tls.Read.{read_length}

abbrev pub max_encrypted_records : ℕ
max_encrypted_records = 8

-- the out parameters of an accepted hello
pub record Hello : Type 0 where
  pub is_reversed_extension_order : Bool
  pub encrypted_record_sizes : List ℕ
  pub encrypted_record_count : ℕ

-- `EXPECT_STR` and the other calls of `memcmp`
abbrev expect : Bytes → ℕ → Bytes → Parse (Unit {0})
expect response pos str = do
  bytes ← fetch response pos (length str)
  reject_if (not (eq_bytes bytes str))

-- the random bytes that mark a HelloRetryRequest
abbrev pub hello_retry_request : Bytes
hello_retry_request =
    0xcf ∷ 0x21 ∷ 0xad ∷ 0x74 ∷ 0xe5 ∷ 0x9a ∷ 0x61 ∷ 0x11 ∷ 0xbe ∷ 0x1d ∷ 0x8c ∷ 0x02 ∷ 0x1e ∷ 0x65
    ∷ 0xb8 ∷ 0x91 ∷ 0xc2 ∷ 0xa2 ∷ 0x11 ∷ 0x16 ∷ 0x7a ∷ 0xbb ∷ 0x8c ∷ 0x5e ∷ 0x07 ∷ 0x9e ∷ 0x09
    ∷ 0xe2 ∷ 0xc8 ∷ 0xa8 ∷ 0x33 ∷ 0x9c ∷ []

-- up to the extensions: the length of the handshake record, and the position behind it
unfoldable pub check_record : Bytes → ℕ → Parse (ℕ × ℕ)
check_record response len = do
  reject_if (ltb len (0 + 3))
  expect response 0 (0x16 ∷ 0x03 ∷ 0x03 ∷ [])
  reject_if (ltb len (3 + 2))
  (server_hello_length, pos) ← read_length response 3
  reject_if (leb server_hello_length 39)
  reject_if (ltb len (pos + server_hello_length))
  ok (server_hello_length, pos)

-- the cipher and the compression method
unfoldable pub check_cipher : Bytes → Parse (Unit {0})
check_cipher response = do
  expect response 76 (0x13 ∷ [])
  cipher ← read response 77
  reject_if (ltb cipher 0x01 || ltb 0x03 cipher)
  compression ← read response 78
  reject_if (not (compression == 0))

-- from the handshake type to the compression method
unfoldable pub check_fields : Bytes → ℕ → Bytes → Parse (Unit {0})
check_fields response server_hello_length request_session_id = do
  expect response 5 (0x02 ∷ 0x00 ∷ [])
  expect response 9 (0x03 ∷ 0x03 ∷ [])
  random ← fetch response 11 32
  reject_if (eq_bytes random hello_retry_request)
  session_id_length ← read response 43
  reject_if (session_id_length == 0)
  expect response 43 (0x20 ∷ [])
  reject_if (leb server_hello_length 75)
  session_id ← fetch response 44 32
  reject_if (not (eq_bytes session_id request_session_id))
  check_cipher response

-- the state of the loop over the extensions
pub record Scan : Type 0 where
  pub pos : ℕ
  pub sum : ℕ
  pub is_reversed : Bool

-- one round of the loop over the extensions
unfoldable pub scan_extension : Bytes → ℕ → Scan → Parse Scan
scan_extension response server_hello_length s = do
  (extension_id, pos) ← read_length response s.pos
  reject_if (not (extension_id == 0x33) && not (extension_id == 0x2b))
  let is_reversed = if pos == 83 then extension_id == 0x2b else s.is_reversed
  (extension_length, pos') ← read_length response pos
  reject_if (ltb (5 + server_hello_length) (pos' + extension_length))
  reject_if (
      if extension_id == 0x2b
      then not (extension_length == 2)
      else (not (extension_length == 36) && not (extension_length == 1124)))
  ok (record {
    pos = pos' + extension_length;
    sum = s.sum + extension_id;
    is_reversed = is_reversed;
  })

-- `while (pos < 5 + server_hello_length - 4)`
unfoldable pub scan_extensions : ℕ → Bytes → ℕ → Scan → Parse Scan
scan_extensions zero response server_hello_length s = out_of_fuel
scan_extensions (suc fuel) response server_hello_length s =
    elim (ltb s.pos (5 + server_hello_length - 4)) [
      | true ↦
          scan_extension response server_hello_length s
          >>= scan_extensions fuel response server_hello_length
      | false ↦ ok s
    ]

-- the state of the loop over the records behind the hello
pub record Tail : Type 0 where
  pub pos : ℕ
  pub sizes : List ℕ
  pub count : ℕ

abbrev pub count_record : Tail → ℕ → Tail
count_record t rec_len = record {
  pos = t.pos + 5 + rec_len;
  sizes = if ltb t.count max_encrypted_records then t.sizes ++ (rec_len ∷ []) else t.sizes;
  count = t.count + 1;
}

-- `pos + n <= len && memcmp (response + pos, str, …) == 0`
starts_at : Bytes → ℕ → ℕ → ℕ → Bytes → Parse Bool
starts_at response len pos n str =
    if leb (pos + n) len
    then (do bytes ← fetch response pos (length str); ok (eq_bytes bytes str))
    else ok false

unfoldable pub scan_records : ℕ → Bytes → ℕ → Tail → Parse Tail
unfolding starts_at
scan_records zero response len t = out_of_fuel
scan_records (suc fuel) response len t = do
  more ← starts_at response len t.pos 5 (0x17 ∷ 0x03 ∷ 0x03 ∷ [])
  elim more [
    | false ↦ ok t
    | true ↦ do
      (rec_len, pos) ← read_length response (t.pos + 3)
      let next = scan_records fuel response len (count_record t rec_len)
      if rec_len == 0 || ltb len (pos + rec_len) then ok t else next
  ]

unfoldable pub check_records : Bytes → ℕ → ℕ → Parse Tail
unfolding starts_at
check_records response len pos = do
  change_cipher_spec ← starts_at response len pos 6 (0x14 ∷ 0x03 ∷ 0x03 ∷ 0x00 ∷ 0x01 ∷ 0x01 ∷ [])
  let pos' = if change_cipher_spec then pos + 6 else pos
  t ← scan_records (len + 1) response len (record { pos = pos'; sizes = []; count = 0 })
  reject_if (t.count == 0)
  ok t

unfoldable pub check_extensions : Bytes → ℕ → ℕ → Parse Scan
check_extensions response server_hello_length pos = do
  (extensions_length, pos') ← read_length response pos
  reject_if (not (extensions_length + 76 == server_hello_length))
  s ←
      scan_extensions (server_hello_length + 1) response server_hello_length
        (record { pos = pos'; sum = 0; is_reversed = false })
  reject_if (not (s.sum == 0x33 + 0x2b))
  reject_if (not (s.pos == 5 + server_hello_length))
  ok s

unfoldable pub check_server_hello : Bytes → ℕ → Bytes → Parse Hello
unfolding check_record check_fields check_cipher check_extensions check_records scan_extensions
    scan_extension scan_records
check_server_hello response len request_session_id = do
  (server_hello_length, pos) ← check_record response len
  check_fields response server_hello_length request_session_id
  s ← check_extensions response server_hello_length (pos + 74)
  t ← check_records response len s.pos
  ok (record {
    is_reversed_extension_order = s.is_reversed;
    encrypted_record_sizes = t.sizes;
    encrypted_record_count = t.count;
  })
