-- ===== src/Obfs2/Header/Handshake.antt =====
-- The header that a client builds for one of the secrets, and `obfs2_parse_header` of
-- src/net/net-obfs2-parse.c on it.
use mtbolt.Common.{
  ℕ, zero, suc, ◌+◌, ◌-◌, ◌*◌, ◌≤◌, ◌<◌, ◌≡◌, refl, sym, ◌∙◌, ap, arith, Bool, true, false, Option,
  some, List, [], ◌∷◌, ◌++◌, map, Bytes, length, length-append, get_or, take, drop,
  drop-append_length, take-append-drop, length-take, subst₂, All,
}
use mathlib.Core.List.{map-append}
use mtbolt.Common.Int.{signed16}
use mtbolt.Obfs2.Frame.{le32}
use mtbolt.Obfs2.Header.{
  HeaderResult, Keys, is_tag, copy_down, derive, try_secrets, rounds, parse_header,
}
use mtbolt.Obfs2.Header.Search.{decrypted, opens, search_first}

get_or-append : (xs ys : Bytes) (i : ℕ) → i < length xs → get_or (xs ++ ys) i 0 ≡ get_or xs i 0
get_or-append [] ys i h = absurd (omega arith)
get_or-append (x ∷ xs) ys zero h = refl
get_or-append (x ∷ xs) ys (suc i) h = get_or-append xs ys i (omega arith)

take-drop-append :
    (xs ys : Bytes) (i n : ℕ) → i + n ≤ length xs → take n (drop i (xs ++ ys)) ≡ take n (drop i xs)
take-drop-append xs ys zero zero h = refl
take-drop-append [] ys zero (suc n) h = absurd (omega arith)
take-drop-append (x ∷ xs) ys zero (suc n) h =
    ap (◌∷◌ x) (take-drop-append xs ys zero n (omega arith))
take-drop-append [] ys (suc i) n h = absurd (omega arith)
take-drop-append (x ∷ xs) ys (suc i) n h = take-drop-append xs ys i n (omega arith)

copy_down-append :
    (xs ys : Bytes) (from n : ℕ)
    → from < length xs
    → copy_down (xs ++ ys) from n ≡ copy_down xs from n
unfolding copy_down
copy_down-append xs ys from zero h = refl
copy_down-append xs ys from (suc n) h =
    rw (get_or-append xs ys from h, copy_down-append xs ys (from - 1) n (omega arith))

get_or-drop : (xs : Bytes) (i j k : ℕ) → k ≡ i + j → get_or xs k 0 ≡ get_or (drop i xs) j 0
get_or-drop xs zero j k e = ap (λ n. get_or xs n 0) (omega arith)
get_or-drop [] (suc i) j k e = refl
get_or-drop (x ∷ xs) (suc i) j zero e = absurd (omega arith)
get_or-drop (x ∷ xs) (suc i) j (suc k) e = get_or-drop xs i j k (omega arith)

rounds-split :
    (before : List Bytes) (s : Bytes) (after : List Bytes)
    → rounds (before ++ (s ∷ after)) ≡ map some before ++ (some s ∷ map some after)
rounds-split [] s after = refl
rounds-split (b ∷ bs) s after = map-append some (b ∷ bs) (s ∷ after)

length-map-some : (xs : List Bytes) → length (map some xs) ≡ length xs
length-map-some [] = refl
length-map-some (x ∷ xs) = ap suc (length-map-some xs)

-- What is used of AES-256 in counter mode: encryption adds a stream of the length of the text, so it
-- undoes itself, and each byte depends on the byte at its place alone.
pub record IsStreamCipher (crypt : Bytes → Bytes → Bytes → Bytes) : Type 0 where
  pub involutive : (k iv x : Bytes) → crypt k iv (crypt k iv x) ≡ x
  pub keeps_length : (k iv x : Bytes) → length (crypt k iv x) ≡ length x
  pub bytewise :
      (k iv a b rest : Bytes)
      → length a ≡ length b
      → drop (length a) (crypt k iv (a ++ rest)) ≡ drop (length b) (crypt k iv (b ++ rest))

module _ (sha256 : Bytes → Bytes) (crypt : Bytes → Bytes → Bytes → Bytes)
    (cipher : IsStreamCipher crypt) (front : Bytes) (size : length front ≡ 56) where
  -- The keys are made of the first 56 bytes.
  derive-front :
      (rest : Bytes) (secret : Option Bytes)
      → derive sha256 crypt (front ++ rest) secret ≡ derive sha256 crypt front secret
  unfolding derive
  derive-front rest secret = rw (
    take-drop-append front rest 8 32 (omega arith),
    take-drop-append front rest 40 16 (omega arith),
    copy_down-append front rest 55 32 (omega arith),
    copy_down-append front rest 23 16 (omega arith),
  )

  -- The client sends the first 56 bytes as they are, and the last eight encrypted.
  abbrev pub client_header : Option Bytes → Bytes → Bytes
  client_header secret tail =
      let keys = derive sha256 crypt front secret in
      front ++ drop 56 (crypt keys.read_key keys.read_iv (front ++ tail))

  stream_tail :
      (k iv tail : Bytes)
      → drop 56 (crypt k iv (front ++ drop 56 (crypt k iv (front ++ tail)))) ≡ tail
  stream_tail k iv tail =
      let sent = crypt k iv (front ++ tail) in
      let whole : length sent ≡ 56 + length tail =
        omega (arith, cipher.keeps_length k iv (front ++ tail), length-append front tail) in
      let head : length (take 56 sent) ≡ 56 = omega (arith, length-take 56 sent) in
      let same : drop 56 (crypt k iv (front ++ drop 56 sent))
          ≡ drop 56 (crypt k iv (take 56 sent ++ drop 56 sent)) =
        subst₂
          (λ n m.
            drop n (crypt k iv (front ++ drop 56 sent))
            ≡ drop m (crypt k iv (take 56 sent ++ drop 56 sent)))
          size head (cipher.bytewise k iv front (take 56 sent) (drop 56 sent) (size ∙ sym head)) in
      same
      ∙ ap (λ x. drop 56 (crypt k iv x)) (take-append-drop 56 sent)
      ∙ ap (drop 56) (cipher.involutive k iv (front ++ tail))
      ∙ drop-append_length front tail 56 size

  decrypted_tail :
      (secret : Option Bytes) (tail : Bytes)
      → drop 56 (decrypted sha256 crypt (client_header secret tail) secret) ≡ tail
  unfolding decrypted
  decrypted_tail secret tail =
      let keys = derive sha256 crypt front secret in
      let sent = drop 56 (crypt keys.read_key keys.read_iv (front ++ tail)) in
      ap (λ (k : Keys). drop 56 (crypt k.read_key k.read_iv (front ++ sent)))
        (derive-front sent secret)
      ∙ stream_tail keys.read_key keys.read_iv tail

  -- A client that builds its header for one of the secrets, with a tag that the proxy takes, is
  -- accepted with that secret, its tag, its data centre and its keys, unless an earlier secret opens
  -- the header by chance.
  pub parse_header-client_header :
      (before : List Bytes) (s : Bytes) (after : List Bytes) (tail : Bytes) (rp : Bool)
      → is_tag rp (le32 tail) ≡ true
      → All (λ b. opens sha256 crypt rp (client_header (some s) tail) b ≡ false) (map some before)
      → (parse_header sha256 crypt (client_header (some s) tail) (before ++ (s ∷ after)) rp).0
        ≡ some (record {
          tag = le32 tail;
          dc = signed16 (get_or tail 4 0 + 256 * get_or tail 5 0);
          secret_id = length before;
          keys = derive sha256 crypt front (some s);
        })
  unfolding parse_header
  parse_header-client_header before s after tail rp valid missed =
      let header = client_header (some s) tail in
      let left = decrypted sha256 crypt header (some s) in
      let end = decrypted_tail (some s) tail in
      let hit : opens sha256 crypt rp header (some s) ≡ true =
        ap (λ t. is_tag rp (le32 t)) end ∙ valid in
      let search =
        ap (try_secrets sha256 crypt rp header header 0) (rounds-split before s after)
        ∙ search_first sha256 crypt rp header (map some before) (some s) (map some after) 0 missed
            hit in
      let byte = λ (i k : ℕ) (e : k ≡ 56 + i).
        get_or-drop left 56 i k e ∙ ap (λ (t : Bytes). get_or t i 0) end in
      let low = byte 4 60 refl in
      let high = byte 5 61 refl in
      let id : 0 + length (map some before) ≡ length before =
        omega (arith, length-map-some before) in
      let keys =
        derive-front
          (drop 56 (
            crypt (derive sha256 crypt front (some s)).read_key
              (derive sha256 crypt front (some s)).read_iv (front ++ tail)))
          (some s) in
      ap (λ (p : Option HeaderResult × Bytes). p.0) search ∙ λ i. some (record {
        tag = le32 (end i);
        dc = signed16 (low i + 256 * high i);
        secret_id = id i;
        keys = keys i;
      })
