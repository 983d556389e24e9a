-- ===== src/Tls/Mlkem.antt =====
-- `tls_client_hello_offers_mlkem`: whether a ClientHello has a key share for X25519MLKEM768.
pub mod Safe
pub mod Offer
use mtbolt.Common.{ℕ, zero, suc, ◌+◌, ◌-◌, Bool, true, false, Bytes, ltb, leb, ◌==◌, if◌then◌else◌}
use mtbolt.Common.Parse.{Parse, ok, reject, fault, out_of_fuel, ◌>>=◌, ◌>>◌, reject_if, read}
use mtbolt.Tls.Read.{read_length}

-- The loop over the entries of the key_share extension. `return 0` is `ok false` where the hello is
-- read to its end, and `reject` where its lengths do not fit.
unfoldable pub scan_groups : ℕ → Bytes → ℕ → ℕ → Parse Bool
scan_groups zero client_hello ks_end p = out_of_fuel
scan_groups (suc fuel) client_hello ks_end p = elim (leb (p + 4) ks_end) [
  | false ↦ ok false
  | true ↦ do
    (group, p₁) ← read_length client_hello p
    (klen, p₂) ← read_length client_hello p₁
    reject_if (ltb (ks_end - p₂) klen)
    let next = scan_groups fuel client_hello ks_end (p₂ + klen)
    if group == 0x11ec then ok true else next
]

unfoldable pub scan_key_share : Bytes → ℕ → ℕ → Parse Bool
unfolding scan_groups
scan_key_share client_hello pos ext_size = do
  reject_if (ltb (pos + ext_size) (pos + 2))
  (ks_len, p) ← read_length client_hello pos
  reject_if (ltb (pos + ext_size) (p + ks_len))
  scan_groups (ks_len + 1) client_hello (p + ks_len) p

-- the loop over the extensions
unfoldable pub scan_hello : ℕ → Bytes → ℕ → ℕ → Parse Bool
scan_hello zero client_hello ext_end pos = out_of_fuel
scan_hello (suc fuel) client_hello ext_end pos = elim (leb (pos + 4) ext_end) [
  | false ↦ ok false
  | true ↦ do
    (ext_id, pos₁) ← read_length client_hello pos
    (ext_size, pos₂) ← read_length client_hello pos₁
    reject_if (ltb ext_end (pos₂ + ext_size))
    let next = scan_hello fuel client_hello ext_end (pos₂ + ext_size)
    let share = scan_key_share client_hello pos₂ ext_size
    if ext_id == 0x33 then share else next
]

unfoldable pub offers_mlkem : Bytes → ℕ → Parse Bool
unfolding scan_hello scan_key_share
offers_mlkem client_hello len = do
  reject_if (ltb len (11 + 32 + 1))
  session_id_len ← read client_hello 43
  let pos₁ = 43 + (1 + session_id_len)
  reject_if (ltb len (pos₁ + 2))
  (cs_len, pos₂) ← read_length client_hello pos₁
  reject_if (ltb len (pos₂ + cs_len + 1))
  compression_len ← read client_hello (pos₂ + cs_len)
  let pos₃ = pos₂ + cs_len + (1 + compression_len)
  reject_if (ltb len (pos₃ + 2))
  (ext_len, pos₄) ← read_length client_hello pos₃
  reject_if (ltb len (pos₄ + ext_len))
  scan_hello (ext_len + 1) client_hello (pos₄ + ext_len) pos₄

-- The return value: a refusal is 0 as well.
unfoldable pub client_hello_offers_mlkem : Bytes → ℕ → Parse Bool
unfolding offers_mlkem
client_hello_offers_mlkem client_hello len = elim (offers_mlkem client_hello len) [
  | ok b ↦ ok b
  | reject ↦ ok false
  | fault ↦ fault
  | out_of_fuel ↦ out_of_fuel
]
