-- ===== src/Tls/Tests.antt =====
-- The TLS parsers on concrete messages.
use mtbolt.Common.{◌≡◌, refl, arith, true, false, [], ◌∷◌, ◌++◌, Bytes, length, replicate, eq_bytes}
use mtbolt.Common.Parse.{ok, reject, read, fetch, reject_if, Ensures}
use mtbolt.Tls.Read.{read_length}
use mtbolt.Tls.Hello.{check_server_hello}
use mtbolt.Tls.Hello.Sound.{Accepted, check_server_hello-Accepted}
use mtbolt.Tls.Sni.{parse_sni}
use mtbolt.Tls.Sni.Sound.{Name, parse_sni-Name}
use mtbolt.Tls.Sni.RoundTrip.{Extension, client_hello_with, parse_sni-client_hello_with}
use mtbolt.Tls.Ciphers.{parse_client_hello_ciphers}
use mtbolt.Tls.Ciphers.Choice.{Choice, parse_client_hello_ciphers-Choice}
use mtbolt.Tls.Mlkem.{client_hello_offers_mlkem}
use mtbolt.Tls.Mlkem.Safe.{client_hello_offers_mlkem-Safe}
use mtbolt.Tls.Mlkem.Offer.{Other, Parts, hello_bytes, client_hello_offers_mlkem-offers}

abbrev session : Bytes
session = replicate 32 7

-- an x25519 answer, with a change_cipher_spec and one record of two bytes behind it
abbrev response : Bytes
response =
    0x16
    ∷ 3
    ∷ 3
    ∷ 0
    ∷ 122
    ∷ 2
    ∷ 0
    ∷ 0
    ∷ 118
    ∷ 3
    ∷ 3
    ∷ (replicate 32 1
        ++ (32
            ∷ (session
                ++ (0x13
                    ∷ 1
                    ∷ 0
                    ∷ 0
                    ∷ 46
                    ∷ 0
                    ∷ 0x33
                    ∷ 0
                    ∷ 36
                    ∷ (replicate 36 9
                        ++ (0 ∷ 0x2b ∷ 0 ∷ 2 ∷ 3 ∷ 4 ∷ 0x14 ∷ 3 ∷ 3 ∷ 0 ∷ 1 ∷ 1 ∷ 0x17 ∷ 3 ∷ 3 ∷ 0
                            ∷ 2 ∷ 5 ∷ 5 ∷ []))))))

accepts_response :
    check_server_hello response 140 session
    ≡ ok (record {
      is_reversed_extension_order = false;
      encrypted_record_sizes = 2 ∷ [];
      encrypted_record_count = 1;
    })
unfolding check_server_hello read_length read fetch reject_if eq_bytes
accepts_response = refl

refuses_short_response : check_server_hello response 138 session ≡ reject
unfolding check_server_hello read_length read fetch reject_if eq_bytes
refuses_short_response = refl

check_server_hello-Accepted_example :
    Ensures (Accepted response session 140) (check_server_hello response 140 session)
check_server_hello-Accepted_example = check_server_hello-Accepted response session 140 (omega arith)

-- "a.b" behind one extension of type 10
abbrev groups : Extension
groups = record { id = 10; body = 1 ∷ 2 ∷ []; id_ne_zero = omega arith }

abbrev domain : Bytes
domain = b'a' ∷ b'.' ∷ b'b' ∷ []

abbrev sni_hello : Bytes
sni_hello =
    client_hello_with (replicate 76 1) (0x13 ∷ 1 ∷ []) (replicate 4 0) (groups ∷ []) domain (9 ∷ [])

parse_sni-Name_example : Ensures (Name sni_hello 100 256) (parse_sni sni_hello 100 256)
parse_sni-Name_example = parse_sni-Name sni_hello 100 256 (omega arith)

parse_sni_no_room : parse_sni sni_hello (length sni_hello) 3 ≡ reject
unfolding parse_sni read_length read fetch reject_if
parse_sni_no_room = refl

parse_sni-client_hello_with_example : parse_sni sni_hello (length sni_hello) 256 ≡ ok domain
parse_sni-client_hello_with_example =
    parse_sni-client_hello_with (replicate 76 1) (0x13 ∷ 1 ∷ []) (replicate 4 0) (groups ∷ [])
      domain (9 ∷ []) 256 refl refl (omega arith) (omega arith) (omega arith)

-- two GREASE values, then 0x1302
abbrev grease_hello : Bytes
grease_hello = replicate 76 1 ++ (0 ∷ 6 ∷ 0x2a ∷ 0x2a ∷ 0xfa ∷ 0xfa ∷ 0x13 ∷ 2 ∷ [])

parses_grease : parse_client_hello_ciphers grease_hello 84 ≡ ok 2
unfolding parse_client_hello_ciphers read_length read reject_if
parses_grease = refl

parse_client_hello_ciphers-Choice_example :
    Ensures (Choice grease_hello) (parse_client_hello_ciphers grease_hello 84)
parse_client_hello_ciphers-Choice_example =
    parse_client_hello_ciphers-Choice grease_hello 84 (omega arith)

abbrev version : Other
version = record { id = 0x2b; body = 3 ∷ 4 ∷ []; id_ne_key_share = omega arith }

abbrev parts : Parts
parts = record {
  front = replicate 43 1;
  session = 5 ∷ 5 ∷ [];
  ciphers = 0x13 ∷ 1 ∷ [];
  compression = 0 ∷ [];
  before = version ∷ [];
  shares = record { group = 29; key = 1 ∷ [] } ∷ (record { group = 0x11ec; key = 2 ∷ 3 ∷ [] } ∷ []);
  after = [];
}

client_hello_offers_mlkem-Safe_example :
    Ensures (λ _. Unit {0}) (client_hello_offers_mlkem grease_hello 80)
client_hello_offers_mlkem-Safe_example =
    client_hello_offers_mlkem-Safe grease_hello 80 (omega arith)

client_hello_offers_mlkem-offers_example :
    client_hello_offers_mlkem (hello_bytes parts []) (length (hello_bytes parts [])) ≡ ok true
client_hello_offers_mlkem-offers_example = client_hello_offers_mlkem-offers parts [] refl
