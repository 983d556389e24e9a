-- ===== src/Tls/Sni/RoundTrip.antt =====
-- A ClientHello with a server_name extension, and `tls_parse_sni` of src/net/net-tls-parse.c on it.
use mtbolt.Common.{
  ℕ, zero, suc, ◌+◌, ◌<◌, ◌≡◌, ◌≢◌, refl, subst, arith, false, List, [], ◌∷◌, ◌++◌, Bytes, length,
  length-append, All,
}
use mtbolt.Common.Parse.{ok, reject_if, reject_if-le}
use mtbolt.Common.Suffix.{At, At-start, At-append, At-read, At-fetch}
use mtbolt.Tls.Read.{u16, At-read_length}
use mtbolt.Tls.Sni.{has_zero, parse_name, find_name, parse_sni}

-- An extension that is not a server_name: its type, which is not 0, and its body.
pub record Extension : Type 0 where
  pub id : ℕ
  pub body : Bytes
  pub id_ne_zero : id ≢ 0

abbrev pub extension_bytes : List Extension → Bytes → Bytes
extension_bytes [] rest = rest
extension_bytes (e ∷ es) rest =
    u16 e.id ++ (u16 (length e.body) ++ (e.body ++ extension_bytes es rest))

-- RFC 6066: one name of type host_name
abbrev pub server_name : Bytes → Bytes → Bytes
server_name domain rest =
    u16 0
    ++ (u16 (length domain + 5)
        ++ (u16 (length domain + 3) ++ (0 ∷ (u16 (length domain) ++ (domain ++ rest)))))

-- `front` is the hello up to the cipher suites; `compression` holds the compression methods (one)
-- and the length of the extensions.
abbrev pub client_hello_with : Bytes → Bytes → Bytes → List Extension → Bytes → Bytes → Bytes
client_hello_with front ciphers compression before domain rest =
    front
    ++ (u16 (length ciphers)
        ++ (ciphers ++ (compression ++ extension_bytes before (server_name domain rest))))

has_zero-none :
    (domain xs rest : Bytes) (pos : ℕ)
    → All (λ c. c ≢ 0) domain
    → At xs pos (domain ++ rest)
    → has_zero (length domain) xs pos ≡ ok false
unfolding has_zero
has_zero-none [] xs rest pos a h = refl
has_zero-none (c ∷ cs) xs rest pos a h =
    let (r, h') = At-read xs pos c h in
    rw r (rw (has_zero-none cs xs rest (pos + 1) a.1 h') (ground (arith, a.0)))

parse_name-server_name :
    (xs domain rest : Bytes) (max pos : ℕ)
    → All (λ c. c ≢ 0) domain
    → 0 < length domain
    → length domain < max
    → At xs pos (u16 (length domain + 3) ++ (0 ∷ (u16 (length domain) ++ (domain ++ rest))))
    → parse_name xs (length xs) max pos (length domain + 5) ≡ ok domain
unfolding parse_name reject_if
parse_name-server_name xs domain rest max pos a h h' at =
    let n = length domain in
    let (r₁, at₁) = At-read_length xs pos (n + 3) _ at in
    let (r₂, at₂) = At-read xs (pos + 2) 0 at₁ in
    let (r₃, at₃) = At-read_length xs (pos + 2 + 1) n _ at₂ in
    let z = has_zero-none domain xs rest (pos + 2 + 1 + 2) a at₃ in
    let f = At-fetch xs (pos + 2 + 1 + 2) domain rest at₃ in
    ground (arith, r₁, r₂, r₃, z, f, at₃.1, length-append domain rest)

find_name-skips :
    (before : List Extension) (fuel : ℕ) (xs domain rest : Bytes) (max pos : ℕ)
    → All (λ c. c ≢ 0) domain
    → 0 < length domain
    → length domain < max
    → length xs < pos + fuel
    → At xs pos (extension_bytes before (server_name domain rest))
    → find_name fuel xs (length xs) max pos ≡ ok domain
unfolding find_name reject_if
find_name-skips [] zero xs domain rest max pos a h h' f at = absurd (omega (arith, at.1))
find_name-skips (e ∷ es) zero xs domain rest max pos a h h' f at = absurd (omega (arith, at.1))
find_name-skips [] (suc fuel) xs domain rest max pos a h h' f at =
    let (r₁, at₁) = At-read_length xs pos 0 _ at in
    let (r₂, at₂) = At-read_length xs (pos + 2) (length domain + 5) _ at₁ in
    let p = parse_name-server_name xs domain rest max (pos + 2 + 2) a h h' at₂ in
    ground (arith, r₁, r₂, p, at₂.1, length-append domain rest)
find_name-skips (e ∷ es) (suc fuel) xs domain rest max pos a h h' f at =
    let (r₁, at₁) = At-read_length xs pos e.id _ at in
    let (r₂, at₂) = At-read_length xs (pos + 2) (length e.body) _ at₁ in
    let later = extension_bytes es (server_name domain rest) in
    let at₃ = At-append xs (pos + 2 + 2) e.body later at₂ in
    let next =
      find_name-skips es fuel xs domain rest max (pos + 2 + 2 + length e.body) a h h' (omega arith)
        at₃ in
    ground (arith, r₁, r₂, next, at₃.1, e.id_ne_zero)

parse_sni-At :
    (xs ciphers compression : Bytes) (before : List Extension) (domain rest : Bytes) (max : ℕ)
    → length compression ≡ 4
    → All (λ c. c ≢ 0) domain
    → 0 < length domain
    → length domain < max
    → At xs 76 (
        u16 (length ciphers)
        ++ (ciphers ++ (compression ++ extension_bytes before (server_name domain rest))))
    → parse_sni xs (length xs) max ≡ ok domain
unfolding parse_sni
parse_sni-At xs ciphers compression before domain rest max e a h h' at =
    let later = extension_bytes before (server_name domain rest) in
    let (r₁, at₁) = At-read_length xs 76 (length ciphers) _ at in
    let at₂ = At-append xs 78 ciphers _ at₁ in
    let at₃ = At-append xs (78 + length ciphers) compression later at₂ in
    let pos : ℕ = 78 + (length ciphers + 4) in
    let e₄ : 78 + length ciphers + length compression ≡ pos = omega arith in
    let at₄ : At xs pos later = subst (λ n. At xs n later) e₄ at₃ in
    let next =
      find_name-skips before (length xs + 1) xs domain rest max pos a h h' (omega arith) at₄ in
    rw (reject_if-le 78 (length xs) (omega arith))
      (rw r₁ (rw (reject_if-le pos (length xs) (omega arith)) next))

-- A ClientHello with any extensions of other types in front of a server_name extension for `domain`,
-- and anything behind it, yields `domain`, if this is not empty, holds no zero byte and is shorter
-- than `max_domain_len`.
pub parse_sni-client_hello_with :
    (front ciphers compression : Bytes) (before : List Extension) (domain rest : Bytes) (max : ℕ)
    → length front ≡ 76
    → length compression ≡ 4
    → All (λ c. c ≢ 0) domain
    → 0 < length domain
    → length domain < max
    → let hello = client_hello_with front ciphers compression before domain rest in
      parse_sni hello (length hello) max ≡ ok domain
parse_sni-client_hello_with front ciphers compression before domain rest max e e' a h h' =
    let hello = client_hello_with front ciphers compression before domain rest in
    let later =
      u16 (length ciphers)
      ++ (ciphers ++ (compression ++ extension_bytes before (server_name domain rest))) in
    let e₀ : 0 + length front ≡ 76 = omega arith in
    parse_sni-At hello ciphers compression before domain rest max e' a h h'
      (subst (λ n. At hello n later) e₀ (At-append hello 0 front later (At-start hello)))
