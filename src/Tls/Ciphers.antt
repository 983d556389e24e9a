-- ===== src/Tls/Ciphers.antt =====
-- `tls_parse_client_hello_ciphers`: the first cipher suite of a ClientHello that is not GREASE.
pub mod Choice
use Prim.Native.Nat.{bit_and}
use mtbolt.Common.{
  ℕ, zero, suc, ◌+◌, ◌-◌, Bool, true, false, not, ◌||◌, Bytes, ltb, leb, ◌==◌, if◌then◌else◌,
}
use mtbolt.Common.Parse.{Parse, ok, out_of_fuel, ◌>>=◌, ◌>>◌, reject_if, read}
use mtbolt.Tls.Read.{read_length}

-- `(client_hello[pos] & 0x0F) == 0x0A && (client_hello[pos + 1] & 0x0F) == 0x0A`
unfoldable pub is_grease : Bytes → ℕ → Parse Bool
is_grease client_hello pos = do
  a ← read client_hello pos
  if bit_and a 0x0F == 0x0A
      then (do b ← read client_hello (pos + 1); ok (bit_and b 0x0F == 0x0A))
      else ok false

-- the loop that skips GREASE: the length left, and the position
unfoldable pub skip_grease : ℕ → Bytes → ℕ → ℕ → Parse (ℕ × ℕ)
skip_grease zero client_hello cipher_suites_length pos = out_of_fuel
skip_grease (suc fuel) client_hello cipher_suites_length pos = elim (leb 2 cipher_suites_length) [
  | false ↦ ok (cipher_suites_length, pos)
  | true ↦ do
    grease ← is_grease client_hello pos
    elim grease [
      | true ↦ skip_grease fuel client_hello (cipher_suites_length - 2) (pos + 2)
      | false ↦ ok (cipher_suites_length, pos)
    ]
]

unfoldable pub parse_client_hello_ciphers : Bytes → ℕ → Parse ℕ
unfolding skip_grease is_grease
parse_client_hello_ciphers client_hello len = do
  reject_if (ltb len (76 + 2))
  (cipher_suites_length, pos) ← read_length client_hello 76
  reject_if (ltb len (pos + cipher_suites_length))
  (left, pos') ← skip_grease (cipher_suites_length + 1) client_hello cipher_suites_length pos
  reject_if (leb left 1)
  high ← read client_hello pos'
  reject_if (not (high == 0x13))
  low ← read client_hello (pos' + 1)
  reject_if (ltb low 0x01)
  reject_if (ltb 0x03 low)
  ok low
