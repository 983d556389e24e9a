-- ===== src/Tls/Mlkem/Offer.antt =====
-- `tls_client_hello_offers_mlkem` of src/net/net-tls-parse.c on a ClientHello built from its parts.
use mtbolt.Common.{
  ℕ, zero, suc, ◌+◌, ◌≤◌, ◌<◌, ◌≡◌, ◌≢◌, refl, subst, arith, Bool, false, ◌||◌, List, [], ◌∷◌, ◌++◌,
  append_assoc, Bytes, length, length-append, ◌==◌,
}
use mtbolt.Common.Parse.{ok, read, reject_if, reject_if-le}
use mtbolt.Common.Suffix.{At, At-start, At-append, At-read}
use mtbolt.Tls.Read.{u16, At-read_length}
use mtbolt.Tls.Mlkem.{
  scan_groups, scan_key_share, scan_hello, offers_mlkem, client_hello_offers_mlkem,
}

-- RFC 8446: a key share is a group and a key.
pub record KeyShare : Type 0 where
  pub group : ℕ
  pub key : Bytes

abbrev pub shares_bytes : List KeyShare → Bytes
shares_bytes [] = []
shares_bytes (s ∷ ss) = u16 s.group ++ (u16 (length s.key) ++ (s.key ++ shares_bytes ss))

abbrev pub offers : List KeyShare → Bool
offers [] = false
offers (s ∷ ss) = s.group == 0x11ec || offers ss

-- An extension other than key_share.
pub record Other : Type 0 where
  pub id : ℕ
  pub body : Bytes
  pub id_ne_key_share : id ≢ 0x33

abbrev pub others_bytes : List Other → Bytes → Bytes
others_bytes [] rest = rest
others_bytes (o ∷ os) rest = u16 o.id ++ (u16 (length o.body) ++ (o.body ++ others_bytes os rest))

abbrev pub key_share_bytes : List KeyShare → Bytes → Bytes
key_share_bytes shares rest =
    u16 0x33
    ++ (u16 (2 + length (shares_bytes shares))
        ++ (u16 (length (shares_bytes shares)) ++ (shares_bytes shares ++ rest)))

scan_groups-offers :
    (shares : List KeyShare) (fuel : ℕ) (xs : Bytes) (ks_end p : ℕ) (rest : Bytes)
    → ks_end ≡ p + length (shares_bytes shares)
    → ks_end < p + fuel
    → At xs p (shares_bytes shares ++ rest)
    → scan_groups fuel xs ks_end p ≡ ok (offers shares)
unfolding scan_groups reject_if
scan_groups-offers [] zero xs ks_end p rest e f at = absurd (omega arith)
scan_groups-offers (s ∷ ss) zero xs ks_end p rest e f at = absurd (omega arith)
scan_groups-offers [] (suc fuel) xs ks_end p rest e f at = ground arith
scan_groups-offers (s ∷ ss) (suc fuel) xs ks_end p rest e f at =
    let later = shares_bytes ss ++ rest in
    let size = length-append s.key (shares_bytes ss) in
    let (r₁, at₁) = At-read_length xs p s.group _ at in
    let at₁' : At xs (p + 2) (u16 (length s.key) ++ (s.key ++ later)) =
      subst (λ t. At xs (p + 2) (u16 (length s.key) ++ t))
        (append_assoc s.key (shares_bytes ss) rest) at₁ in
    let (r₂, at₂) = At-read_length xs (p + 2) (length s.key) _ at₁' in
    let at₃ = At-append xs (p + 2 + 2) s.key later at₂ in
    let next =
      scan_groups-offers ss fuel xs ks_end (p + 2 + 2 + length s.key) rest (omega arith)
        (omega arith) at₃ in
    ground (arith, r₁, r₂, next, size)

scan_key_share-offers :
    (shares : List KeyShare) (xs : Bytes) (pos : ℕ) (rest : Bytes)
    → At xs pos (u16 (length (shares_bytes shares)) ++ (shares_bytes shares ++ rest))
    → scan_key_share xs pos (2 + length (shares_bytes shares)) ≡ ok (offers shares)
unfolding scan_key_share
scan_key_share-offers shares xs pos rest at =
    let size = length (shares_bytes shares) in
    let (r, at') = At-read_length xs pos size _ at in
    rw (reject_if-le (pos + 2) (pos + (2 + size)) (omega arith)) (
      rw r (
        rw (reject_if-le (pos + 2 + size) (pos + (2 + size)) (omega arith)) (
          scan_groups-offers shares (size + 1) xs (pos + 2 + size) (pos + 2) rest refl (omega arith)
            at')))

scan_hello-offers :
    (before : List Other) (shares : List KeyShare) (fuel : ℕ) (xs : Bytes) (ext_end pos : ℕ)
    → (after rest : Bytes)
    → ext_end ≡ pos + length (others_bytes before (key_share_bytes shares after))
    → ext_end < pos + fuel
    → At xs pos (others_bytes before (key_share_bytes shares (after ++ rest)))
    → scan_hello fuel xs ext_end pos ≡ ok (offers shares)
unfolding scan_hello reject_if
scan_hello-offers [] shares zero xs ext_end pos after rest e f at = absurd (omega arith)
scan_hello-offers (o ∷ os) shares zero xs ext_end pos after rest e f at = absurd (omega arith)
scan_hello-offers [] shares (suc fuel) xs ext_end pos after rest e f at =
    let size = length (shares_bytes shares) in
    let (r₁, at₁) = At-read_length xs pos 0x33 _ at in
    let (r₂, at₂) = At-read_length xs (pos + 2) (2 + size) _ at₁ in
    let share = scan_key_share-offers shares xs (pos + 2 + 2) (after ++ rest) at₂ in
    ground (arith, r₁, r₂, share, length-append (shares_bytes shares) after)
scan_hello-offers (o ∷ os) shares (suc fuel) xs ext_end pos after rest e f at =
    let later = others_bytes os (key_share_bytes shares (after ++ rest)) in
    let (r₁, at₁) = At-read_length xs pos o.id _ at in
    let (r₂, at₂) = At-read_length xs (pos + 2) (length o.body) _ at₁ in
    let at₃ = At-append xs (pos + 2 + 2) o.body later at₂ in
    let size = length-append o.body (others_bytes os (key_share_bytes shares after)) in
    let next =
      scan_hello-offers os shares fuel xs ext_end (pos + 2 + 2 + length o.body) after rest
        (omega arith) (omega arith) at₃ in
    ground (arith, r₁, r₂, next, size, o.id_ne_key_share)

-- A ClientHello: 43 bytes up to the session, the session, the cipher suites, the compression
-- methods, and the extensions.
pub record Parts : Type 0 where
  pub front : Bytes
  pub session : Bytes
  pub ciphers : Bytes
  pub compression : Bytes
  pub before : List Other
  pub shares : List KeyShare
  pub after : Bytes

abbrev pub extensions : Parts → Bytes
extensions h = others_bytes h.before (key_share_bytes h.shares h.after)

abbrev pub hello_bytes : Parts → Bytes → Bytes
hello_bytes h rest =
    h.front
    ++ (length h.session
        ∷ (h.session
            ++ (u16 (length h.ciphers)
                ++ (h.ciphers
                    ++ (length h.compression
                        ∷ (h.compression
                            ++ (u16 (length (extensions h))
                                ++ others_bytes h.before
                                    (key_share_bytes h.shares (h.after ++ rest)))))))))

move : (xs : Bytes) {i j : ℕ} (rest : Bytes) → i ≡ j → At xs i rest → At xs j rest
move xs rest e = subst (λ n. At xs n rest) e

-- A field with its size in one byte: behind it, counted as the source counts.
At-field :
    (xs : Bytes) (i : ℕ) (field rest : Bytes)
    → At xs i (length field ∷ (field ++ rest))
    → (read xs i ≡ ok (length field)) × At xs (i + (1 + length field)) rest
At-field xs i field rest at =
    let (r, at') = At-read xs i (length field) at in
    (r, move xs rest (omega arith) (At-append xs (i + 1) field rest at'))

length-key_share_bytes :
    (shares : List KeyShare) (after rest : Bytes)
    → length (key_share_bytes shares (after ++ rest))
      ≡ length (key_share_bytes shares after) + length rest
length-key_share_bytes shares after rest = omega (
  arith,
  length-append (shares_bytes shares) (after ++ rest),
  length-append (shares_bytes shares) after,
  length-append after rest,
)

length-extensions :
    (before : List Other) (shares : List KeyShare) (after rest : Bytes)
    → length (others_bytes before (key_share_bytes shares (after ++ rest)))
      ≡ length (others_bytes before (key_share_bytes shares after)) + length rest
length-extensions [] shares after rest = length-key_share_bytes shares after rest
length-extensions (o ∷ os) shares after rest = omega (
  arith,
  length-append o.body (others_bytes os (key_share_bytes shares (after ++ rest))),
  length-append o.body (others_bytes os (key_share_bytes shares after)),
  length-extensions os shares after rest,
)

offers_mlkem-At :
    (h : Parts) (rest xs : Bytes)
    → At xs 0 (hello_bytes h rest)
    → length h.front ≡ 43
    → offers_mlkem xs (length xs) ≡ ok (offers h.shares)
unfolding offers_mlkem
offers_mlkem-At h rest xs at e =
    let at₀ = move xs _ (omega arith) (At-append xs 0 h.front _ at) in
    let (r₁, at₁) = At-field xs 43 h.session _ at₀ in
    let pos₁ : ℕ = 43 + (1 + length h.session) in
    let (r₂, at₂) = At-read_length xs pos₁ (length h.ciphers) _ at₁ in
    let at₂' = At-append xs (pos₁ + 2) h.ciphers _ at₂ in
    let pos₂ : ℕ = pos₁ + 2 + length h.ciphers in
    let (r₃, at₃) = At-field xs pos₂ h.compression _ at₂' in
    let pos₃ : ℕ = pos₂ + (1 + length h.compression) in
    let (r₄, at₄) = At-read_length xs pos₃ (length (extensions h)) _ at₃ in
    let total : pos₃ + 2 + length (extensions h) ≤ length xs =
      omega (arith, at₄.1, length-extensions h.before h.shares h.after rest) in
    let next =
      scan_hello-offers h.before h.shares (length (extensions h) + 1) xs
        (pos₃ + 2 + length (extensions h)) (pos₃ + 2) h.after rest refl (omega arith) at₄ in
    rw (reject_if-le 44 (length xs) (omega arith)) (
      rw r₁ (
        rw (reject_if-le (pos₁ + 2) (length xs) (omega arith)) (
          rw r₂ (
            rw (reject_if-le (pos₂ + 1) (length xs) (omega arith)) (
              rw r₃ (
                rw (reject_if-le (pos₃ + 2) (length xs) (omega arith)) (
                  rw r₄ (
                    rw (reject_if-le (pos₃ + 2 + length (extensions h)) (length xs) total)
                      next))))))))

-- For a ClientHello built from its parts, with a key_share extension behind any others, and any
-- bytes behind it, the answer is whether one of its key shares is for X25519MLKEM768.
pub client_hello_offers_mlkem-offers :
    (h : Parts) (rest : Bytes)
    → length h.front ≡ 43
    → let hello = hello_bytes h rest in
      client_hello_offers_mlkem hello (length hello) ≡ ok (offers h.shares)
unfolding client_hello_offers_mlkem
client_hello_offers_mlkem-offers h rest e =
    let hello = hello_bytes h rest in
    rw (offers_mlkem-At h rest hello (At-start hello) e, client_hello_offers_mlkem)
