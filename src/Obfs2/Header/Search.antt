-- ===== src/Obfs2/Header/Search.antt =====
-- Which secret the header is matched with, and what the search leaves in the caller's buffer.
use mtbolt.Common.{
  ℕ, suc, ◌+◌, ◌≡◌, ◌⊎◌, inl, inr, refl, sym, ◌∙◌, ap, arith, Bool, true, false, Option, none, some,
  List, [], ◌∷◌, ◌++◌, Bytes, length, drop, All, Bool-cases,
}
use mtbolt.Obfs2.Frame.{le32}
use mtbolt.Obfs2.Header.{HeaderResult, is_tag, dc_at, derive, try_secrets, rounds, parse_header}

module _ (sha256 : Bytes → Bytes) (crypt : Bytes → Bytes → Bytes → Bytes) where
  -- the header as one secret decrypts it
  unfoldable pub decrypted : Bytes → Option Bytes → Bytes
  decrypted header secret =
      let keys = derive sha256 crypt header secret in crypt keys.read_key keys.read_iv header

  abbrev pub opens : Bool → Bytes → Option Bytes → Bool
  opens rand_pad_only header secret =
      is_tag rand_pad_only (le32 (drop 56 (decrypted header secret)))

  -- The first of the rounds that opens the header, and what it gives.
  pub record Matched (rand_pad_only : Bool) (header : Bytes) (secrets : List (Option Bytes))
      (r : HeaderResult) (left : Bytes) : Type 0 where
    pub before : List (Option Bytes)
    pub secret : Option Bytes
    pub after : List (Option Bytes)
    pub splits : secrets ≡ before ++ (secret ∷ after)
    pub missed : All (λ s. opens rand_pad_only header s ≡ false) before
    pub matches : opens rand_pad_only header secret ≡ true
    pub left_is : left ≡ decrypted header secret
    pub result_is : r ≡ record {
      tag = le32 (drop 56 left);
      dc = dc_at left;
      secret_id = length before;
      keys = derive sha256 crypt header secret;
    }

  -- The search over the rounds, in terms of one round.
  search_miss :
      (rp : Bool) (header : Bytes) (sid : ℕ) (s : Option Bytes) (ss : List (Option Bytes))
      → opens rp header s ≡ false
      → try_secrets sha256 crypt rp header header sid (s ∷ ss)
        ≡ try_secrets sha256 crypt rp header header (sid + 1) ss
  unfolding try_secrets decrypted
  search_miss rp header sid s ss e = rw e

  search_hit :
      (rp : Bool) (header : Bytes) (sid : ℕ) (s : Option Bytes) (ss : List (Option Bytes))
      → opens rp header s ≡ true
      → try_secrets sha256 crypt rp header header sid (s ∷ ss) ≡ (
        some (record {
          tag = le32 (drop 56 (decrypted header s));
          dc = dc_at (decrypted header s);
          secret_id = sid;
          keys = derive sha256 crypt header s;
        }),
        decrypted header s,
      )
  unfolding try_secrets decrypted
  search_hit rp header sid s ss e = rw e

  abbrev pub found : Bytes → ℕ → Option Bytes → HeaderResult
  found header sid s = record {
    tag = le32 (drop 56 (decrypted header s));
    dc = dc_at (decrypted header s);
    secret_id = sid;
    keys = derive sha256 crypt header s;
  }

  module _ (rp : Bool) (header : Bytes) where
    abbrev Missed : List (Option Bytes) → Type 0
    Missed = All (λ s. opens rp header s ≡ false)

    pub search_first :
        (before : List (Option Bytes)) (s : Option Bytes) (after : List (Option Bytes)) (sid : ℕ)
        → Missed before
        → opens rp header s ≡ true
        → try_secrets sha256 crypt rp header header sid (before ++ (s ∷ after))
          ≡ (some (found header (sid + length before) s), decrypted header s)
    search_first [] s after sid m h =
        let e : sid ≡ sid + 0 = omega arith in
        search_hit rp header sid s after h
        ∙ ap (λ n. (some (found header n s), decrypted header s)) e
    search_first (b ∷ bs) s after sid m h =
        let e : sid + 1 + length bs ≡ sid + suc (length bs) = omega arith in
        search_miss rp header sid b (bs ++ (s ∷ after)) m.0
        ∙ search_first bs s after (sid + 1) m.1 h
        ∙ ap (λ n. (some (found header n s), decrypted header s)) e

    search_none :
        (ss : List (Option Bytes)) (sid : ℕ)
        → Missed ss
        → try_secrets sha256 crypt rp header header sid ss ≡ (none, header)
    unfolding try_secrets
    search_none [] sid m = refl
    search_none (s ∷ ss) sid m = search_miss rp header sid s ss m.0 ∙ search_none ss (sid + 1) m.1

    -- Either no round opens the header, or there is a first that does.
    record First (ss : List (Option Bytes)) : Type 0 where
      before : List (Option Bytes)
      secret : Option Bytes
      after : List (Option Bytes)
      splits : ss ≡ before ++ (secret ∷ after)
      missed : Missed before
      matches : opens rp header secret ≡ true

    opening : (ss : List (Option Bytes)) → Missed ss ⊎ First ss
    opening [] = inl tt
    opening (s ∷ ss) = elim (Bool-cases (opens rp header s)) [
      | inl h ↦
          inr (record {
            before = [];
            secret = s;
            after = ss;
            splits = refl;
            missed = tt;
            matches = h;
          })
      | inr m ↦ elim (opening ss) [
        | inl none_opens ↦ inl (m, none_opens)
        | inr f ↦ inr (record {
          before = s ∷ f.before;
          secret = f.secret;
          after = f.after;
          splits = ap (◌∷◌ s) f.splits;
          missed = (m, f.missed);
          matches = f.matches;
        })
      ]
    ]

    at_left : Bytes → ℕ → Option Bytes → HeaderResult
    at_left l sid s = record {
      tag = le32 (drop 56 l);
      dc = dc_at l;
      secret_id = sid;
      keys = derive sha256 crypt header s;
    }

    -- Either no secret (or, with none configured, the bare key) opens the header, and the call
    -- fails and restores the header; or the call succeeds with the first that does: the number of
    -- the secret, the tag and the data centre as it decrypts them, its keys, and the header
    -- decrypted with it in the caller's buffer.
    pub parse_header-first :
        (secrets : List Bytes)
        → let (result, left) = parse_header sha256 crypt header secrets rp in
          (All (λ s. opens rp header s ≡ false) (rounds secrets)
            × (result ≡ none)
            × (left ≡ header))
          ⊎ ((r : HeaderResult) × (result ≡ some r) × Matched rp header (rounds secrets) r left)
    unfolding parse_header at_left
    parse_header-first secrets = elim (opening (rounds secrets)) [
      | inl missed ↦
          let e = search_none (rounds secrets) 0 missed in
          inl (missed, (λ i. (e i).0), (λ i. (e i).1))
      | inr f ↦
          let e =
            ap (try_secrets sha256 crypt rp header header 0) f.splits
            ∙ search_first f.before f.secret f.after 0 f.missed f.matches in
          let left_is : (parse_header sha256 crypt header secrets rp).1
              ≡ decrypted header f.secret =
            ap (λ (p : Option HeaderResult × Bytes). p.1) e in
          let count : 0 + length f.before ≡ length f.before = omega arith in
          inr (
            found header (0 + length f.before) f.secret,
            (λ i. (e i).0),
            record {
              before = f.before;
              secret = f.secret;
              after = f.after;
              splits = f.splits;
              missed = f.missed;
              matches = f.matches;
              left_is = left_is;
              result_is =
                  ap (λ n. found header n f.secret) count
                  ∙ ap (λ l. at_left l (length f.before) f.secret) (sym left_is);
            },
          )
    ]
