-- ===== src/Tls/Sni.antt =====
-- `tls_parse_sni`: the server name of a ClientHello.
pub mod Sound
pub mod RoundTrip
use mtbolt.Common.{
  ℕ, zero, suc, ◌+◌, Bool, true, false, not, ◌||◌, Bytes, ltb, leb, ◌==◌, if◌then◌else◌,
}
use mtbolt.Common.Parse.{Parse, ok, out_of_fuel, ◌>>=◌, ◌>>◌, reject_if, read, fetch}
use mtbolt.Tls.Read.{read_length}

-- the loop that looks for a zero byte in the name
unfoldable pub has_zero : ℕ → Bytes → ℕ → Parse Bool
has_zero zero client_hello pos = ok false
has_zero (suc n) client_hello pos = do
  c ← read client_hello pos
  let rest = has_zero n client_hello (pos + 1)
  if c == 0 then ok true else rest

-- the body of the server_name extension
unfoldable pub parse_name : Bytes → ℕ → ℕ → ℕ → ℕ → Parse Bytes
unfolding has_zero
parse_name client_hello len max_domain_len pos extension_length = do
  reject_if (ltb len (pos + 5))
  (inner_length, pos₁) ← read_length client_hello pos
  reject_if (not (inner_length + 2 == extension_length))
  name_type ← read client_hello pos₁
  reject_if (not (name_type == 0))
  (domain_length, pos₂) ← read_length client_hello (pos₁ + 1)
  reject_if (not (domain_length + 5 == extension_length))
  zeros ← has_zero domain_length client_hello pos₂
  reject_if zeros
  reject_if (leb max_domain_len domain_length || domain_length == 0)
  fetch client_hello pos₂ domain_length

-- `while (1)`: each round moves four bytes at least, and stays within `len`.
unfoldable pub find_name : ℕ → Bytes → ℕ → ℕ → ℕ → Parse Bytes
find_name zero client_hello len max_domain_len pos = out_of_fuel
find_name (suc fuel) client_hello len max_domain_len pos = do
  reject_if (ltb len (pos + 4))
  (extension_id, pos₁) ← read_length client_hello pos
  (extension_length, pos₂) ← read_length client_hello pos₁
  reject_if (ltb len (pos₂ + extension_length))
  let next = find_name fuel client_hello len max_domain_len (pos₂ + extension_length)
  if extension_id == 0
      then parse_name client_hello len max_domain_len pos₂ extension_length
      else next

unfoldable pub parse_sni : Bytes → ℕ → ℕ → Parse Bytes
unfolding find_name parse_name
parse_sni client_hello len max_domain_len = do
  let pos = 11 + 32 + 1 + 32
  reject_if (ltb len (pos + 2))
  (cipher_suites_length, pos₁) ← read_length client_hello pos
  reject_if (ltb len (pos₁ + (cipher_suites_length + 4)))
  find_name (len + 1) client_hello len max_domain_len (pos₁ + (cipher_suites_length + 4))
