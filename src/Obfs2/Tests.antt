-- ===== src/Obfs2/Tests.antt =====
-- The obfuscated2 transport on concrete frames and headers. The cipher is a byte-wise exchange of 0
-- and 1, and the hash keeps the first 32 bytes: what the theorems ask of them holds.
use mtbolt.Common.{
  ℕ, zero, suc, ◌≡◌, ◌⊎◌, refl, ap, arith, true, false, none, some, [], ◌∷◌, ◌++◌, map, Bytes,
  length, drop, take, replicate, All,
}
use mtbolt.Common.Int.{pos}
use mtbolt.Common.Parse.{ok, reject, reject_if, Ensures}
use mtbolt.Obfs2.Frame.{FrameResult, parse_frame_length, write_packet_compact, le32}
use mtbolt.Obfs2.Frame.Sound.{IsFrame, parse_frame_length-IsFrame}
use mtbolt.Obfs2.Frame.RoundTrip.{write_packet_compact-parse}
use mtbolt.Obfs2.Header.{HeaderResult, derive, rounds, parse_header}
use mtbolt.Obfs2.Header.Search.{opens, Matched, parse_header-first}
use mtbolt.Obfs2.Header.Handshake.{IsStreamCipher, client_header, parse_header-client_header}

abbrev medium : ℕ
medium = 0x20000000

abbrev compact : ℕ
compact = 0x40000000

frames :
    (parse_frame_length 0x80000010 medium 0
      ≡ ok (record { packet_len = 16; header_bytes = 4; quickack = true }))
    × (parse_frame_length 0xfffffe6c medium 0 ≡ reject)
    × (parse_frame_length 0xaabbcc82 compact 0
        ≡ ok (record { packet_len = 8; header_bytes = 1; quickack = true }))
    × (parse_frame_length 0x0000107f compact 0 ≡ reject)
unfolding parse_frame_length reject_if
frames = (refl, refl, refl, refl)

parse_frame_length-IsFrame_example : Ensures (IsFrame medium 100) (parse_frame_length 64 medium 100)
parse_frame_length-IsFrame_example = parse_frame_length-IsFrame 64 medium 100

abbrev packet : Bytes
packet = replicate 8 5

abbrev sent : Bytes
sent = 2 ∷ packet

write_packet : write_packet_compact (λ x. x) compact false [] packet ≡ some sent
unfolding write_packet_compact
write_packet = refl

write_packet_compact-parse_example :
    (r : FrameResult) × (parse_frame_length (le32 (sent ++ (9 ∷ []))) compact 100 ≡ ok r)
    × (r.packet_len ≡ 8)
    × (r.quickack ≡ false)
    × (drop r.header_bytes (sent ++ (9 ∷ [])) ≡ packet ++ (9 ∷ []))
write_packet_compact-parse_example =
    write_packet_compact-parse (λ x. x) compact 100 [] packet (9 ∷ []) (omega arith) refl
      (λ _. refl) (omega arith) (λ _. omega arith) write_packet

toggle : ℕ → ℕ
toggle zero = 1
toggle (suc zero) = 0
toggle (suc (suc n)) = suc (suc n)

abbrev crypt : Bytes → Bytes → Bytes → Bytes
crypt k iv x = map toggle x

abbrev sha256 : Bytes → Bytes
sha256 x = take 32 x

toggle_twice : (n : ℕ) → toggle (toggle n) ≡ n
unfolding toggle
toggle_twice zero = refl
toggle_twice (suc zero) = refl
toggle_twice (suc (suc n)) = refl

map-toggle_twice : (x : Bytes) → map toggle (map toggle x) ≡ x
map-toggle_twice [] = refl
map-toggle_twice (b ∷ x) = λ i. toggle_twice b i ∷ map-toggle_twice x i

length-map-toggle : (x : Bytes) → length (map toggle x) ≡ length x
length-map-toggle [] = refl
length-map-toggle (b ∷ x) = ap suc (length-map-toggle x)

drop-map-toggle :
    (a b rest : Bytes)
    → length a ≡ length b
    → drop (length a) (map toggle (a ++ rest)) ≡ drop (length b) (map toggle (b ++ rest))
drop-map-toggle [] [] rest e = refl
drop-map-toggle [] (y ∷ b) rest e = absurd (omega arith)
drop-map-toggle (x ∷ a) [] rest e = absurd (omega arith)
drop-map-toggle (x ∷ a) (y ∷ b) rest e = drop-map-toggle a b rest (omega arith)

cipher : IsStreamCipher crypt
cipher = record {
  involutive = λ k iv x. map-toggle_twice x;
  keeps_length = λ k iv x. length-map-toggle x;
  bytewise = λ k iv a b rest e. drop-map-toggle a b rest e;
}

abbrev front : Bytes
front = replicate 56 1

-- the tag of the padded transport, and data centre 2
abbrev tail : Bytes
tail = 0xdd ∷ 0xdd ∷ 0xdd ∷ 0xdd ∷ 2 ∷ 0 ∷ 7 ∷ 7 ∷ []

abbrev secret : Bytes
secret = replicate 16 3

parse_header-first_example :
    let (result, left) = parse_header sha256 crypt front (secret ∷ []) true in
    (All (λ s. opens sha256 crypt true front s ≡ false) (rounds (secret ∷ []))
      × (result ≡ none)
      × (left ≡ front))
    ⊎ ((r : HeaderResult) × (result ≡ some r)
        × Matched sha256 crypt true front (rounds (secret ∷ [])) r left)
parse_header-first_example = parse_header-first sha256 crypt true front (secret ∷ [])

parse_header-client_header_example :
    (parse_header sha256 crypt
      (client_header sha256 crypt cipher front refl (some secret) tail)
      (secret ∷ [])
      true).0
    ≡ some (record {
      tag = 0xdddddddd;
      dc = pos 2;
      secret_id = 0;
      keys = derive sha256 crypt front (some secret);
    })
parse_header-client_header_example =
    parse_header-client_header sha256 crypt cipher front refl [] secret [] tail true refl tt
