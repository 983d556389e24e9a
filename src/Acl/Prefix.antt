-- ===== src/Acl/Prefix.antt =====
-- The addresses that a CIDR rule matches (`ip_acl_parse_cidr`, `match_v4` and `match_v6` of
-- src/net/net-ip-acl.c).
use native.Mathlib.Nat.{div-add-mod, eq_of_mul-eq-mul_left, div-one, div-eq_of_lt}
use mtbolt.Common.{
  ℕ, zero, suc, ◌+◌, ◌-◌, ◌*◌, ◌/◌, ◌%◌, ◌^◌, ◌<◌, ◌≤◌, ◌≡◌, ◌≢◌, ◌↔◌, ◌++◌, refl, sym, ◌∙◌, ap,
  arith, Bool, true, false, Option, none, some, [], ◌∷◌, Bytes, ltb, leb, ◌==◌, All, ==_iff, ◌&&◌,
  Bool-cases, Option-cases, inl, inr, subst, if◌then◌else◌,
}
use mtbolt.Common.Int.{ℤ, pos, negsuc}
use mtbolt.Acl.{
  Rule, rule_v4, rule_v6, mask_v4, mask_byte, mask_v6, match_v4, match_bytes, match_v6, split_slash,
  is_garbage, prefix_of, int_of_long, prefix_within, rule_of, parse_cidr,
}

mask_eq : (a m : ℕ) → a - a % m ≡ m * (a / m)
mask_eq a m = omega (arith, div-add-mod a m)

mask_iff : (a b m : ℕ) → 0 < m → (a - a % m ≡ b - b % m) ↔ (a / m ≡ b / m)
mask_iff a b m h = (
  λ e. eq_of_mul-eq-mul_left m h (a / m) (b / m) (sym (mask_eq a m) ∙ e ∙ mask_eq b m),
  λ e. mask_eq a m ∙ ap (λ q. m * q) e ∙ sym (mask_eq b m),
)

two_pow_pos : (n : ℕ) → 0 < 2 ^ n
two_pow_pos zero = omega arith
two_pow_pos (suc n) = omega (arith, two_pow_pos n)

mask_v4_iff :
    (ip addr p : ℕ)
    → ip < 2 ^ 32
    → addr < 2 ^ 32
    → p ≤ 32
    → (mask_v4 ip p ≡ mask_v4 addr p) ↔ (ip / 2 ^ (32 - p) ≡ addr / 2 ^ (32 - p))
unfolding mask_v4
mask_v4_iff ip addr zero hi ha hp = (λ e. div-eq_of_lt hi ∙ sym (div-eq_of_lt ha), λ e. refl)
mask_v4_iff ip addr (suc p) hi ha hp =
    let nonzero : (suc p == 0) ≡ false = ground arith in
    elim (Bool-cases (leb 32 (suc p))) [
      | inl all ↦
          let whole : 32 - suc p ≡ 0 = ground (arith, all, hp) in
          rw (nonzero, all, whole)
            (λ e. div-one ip ∙ e ∙ sym (div-one addr), λ e. sym (div-one ip) ∙ e ∙ div-one addr)
      | inr some_bits ↦
          rw (nonzero, some_bits) (mask_iff ip addr (2 ^ (32 - suc p)) (two_pow_pos (32 - suc p)))
    ]

-- the same for a byte, of which `bits` bits are compared
mask_byte_iff :
    (bits x y : ℕ)
    → x < 256
    → y < 256
    → (mask_byte bits x ≡ mask_byte bits y) ↔ (x / 2 ^ (8 - bits) ≡ y / 2 ^ (8 - bits))
unfolding mask_byte
mask_byte_iff zero x y hx hy = (λ e. div-eq_of_lt hx ∙ sym (div-eq_of_lt hy), λ e. refl)
mask_byte_iff (suc bits) x y hx hy =
    let some_left : ltb 0 (suc bits) ≡ true = ground arith in
    elim (Bool-cases (leb 8 (suc bits))) [
      | inl all ↦
          let whole : 8 - suc bits ≡ 0 = ground (arith, all) in
          rw (all, whole)
            (λ e. div-one x ∙ e ∙ sym (div-one y), λ e. sym (div-one x) ∙ e ∙ div-one y)
      | inr some_bits ↦
          rw (some_bits, some_left) (mask_iff x y (2 ^ (8 - suc bits)) (two_pow_pos (8 - suc bits)))
    ]

-- The first `bits` bits of two sequences of bytes agree.
abbrev pub Agree : ℕ → Bytes → Bytes → Type 0
Agree bits (x ∷ xs) (y ∷ ys) = (x / 2 ^ (8 - bits) ≡ y / 2 ^ (8 - bits)) × Agree (bits - 8) xs ys
Agree bits _ _ = Unit

abbrev pub AreBytes : Bytes → Type 0
AreBytes = All (λ b. b < 256)

and_iff : (a b : Bool) → (a && b ≡ true) ↔ ((a ≡ true) × (b ≡ true))
and_iff true b = (λ e. (refl, e), λ e. e.1)
and_iff false b = (λ e. absurd (ground arith), λ e. e.0)

match_bytes_iff :
    (bits : ℕ) (xs ys : Bytes)
    → AreBytes xs
    → AreBytes ys
    → (match_bytes bits xs (mask_v6 bits ys) ≡ true) ↔ Agree bits xs ys
unfolding match_bytes mask_v6
match_bytes_iff bits [] [] hx hy = (λ e. tt, λ e. refl)
match_bytes_iff bits [] (y ∷ ys) hx hy = (λ e. tt, λ e. refl)
match_bytes_iff bits (x ∷ xs) [] hx hy = (λ e. tt, λ e. refl)
match_bytes_iff bits (x ∷ xs) (y ∷ ys) hx hy =
    let byte = mask_byte_iff bits x y hx.0 hy.0 in
    let rest = match_bytes_iff (bits - 8) xs ys hx.1 hy.1 in
    let same = ==_iff (mask_byte bits x) (mask_byte bits y) in
    let both =
      and_iff (mask_byte bits x == mask_byte bits y)
        (match_bytes (bits - 8) xs (mask_v6 (bits - 8) ys)) in
    (
      λ e. (byte.0 (same.0 (both.0 e).0), rest.0 (both.0 e).1),
      λ e. both.1 (same.1 (byte.1 e.0), rest.1 e.1),
    )

-- A string is cut at its first slash, if there is one.
abbrev pub IsSplit : Bytes → Bytes → Option Bytes → Type 0
IsSplit s host none = (s ≡ host) × All (λ c. c ≢ 47) host
IsSplit s host (some after) = (s ≡ host ++ (47 ∷ after)) × All (λ c. c ≢ 47) host

split_slash-IsSplit : (s : Bytes) → IsSplit s (split_slash s).0 (split_slash s).1
unfolding split_slash
split_slash-IsSplit [] = (refl, tt)
split_slash-IsSplit (c ∷ cs) = elim (Bool-cases (c == 47)) [
  | inl slash ↦ rw slash (ap (λ x. x ∷ cs) (ground (arith, slash)), tt)
  | inr other ↦
      let ne : c ≢ 47 = λ e. ground (arith, other, e) in
      rw other (longer (split_slash cs).0 (split_slash cs).1 ne (split_slash-IsSplit cs))
]
  where
    longer :
        (host : Bytes) (after : Option Bytes)
        → c ≢ 47
        → IsSplit cs host after
        → IsSplit (c ∷ cs) (c ∷ host) after
    longer host none ne h = (ap (λ x. c ∷ x) h.0, (ne, h.1))
    longer host (some after) ne h = (ap (λ x. c ∷ x) h.0, (ne, h.1))

-- A number is p modulo 2 ^ 32.
abbrev pub IsCongruent : ℤ → ℕ → Type 0
IsCongruent (pos n) p = n % 2 ^ 32 ≡ p
IsCongruent (negsuc n) p = n % 2 ^ 32 + 1 + p ≡ 2 ^ 32

-- The prefix length for a family of addresses with `bits` bits: all of them without a slash, and else the
-- number read, modulo 2 ^ 32, if that is one of 0 to `bits`.
abbrev pub IsPrefix : ℕ → Option ℤ → ℕ → Type 0
IsPrefix bits none p = p ≡ bits
IsPrefix bits (some n) p = (p ≤ bits) × IsCongruent n p

abbrev pub HasNoPrefix : ℕ → Option ℤ → Type 0
HasNoPrefix bits explicit = (p : ℕ) → ¬ IsPrefix bits explicit p

module _ (inet_pton4 : Bytes → Option ℕ) (inet_pton6 : Bytes → Option Bytes)
    (strtol : Bytes → ℤ × Bytes) (isspace : ℕ → Bool) where
  abbrev within : ℕ → Option ℤ → Option ℕ
  within = prefix_within inet_pton4 inet_pton6 strtol isspace

  abbrev cast : Option ℤ → Option ℤ
  cast none = none
  cast (some n) = some (int_of_long n)

  -- What a rule matches: the addresses of its family whose first `p` bits are those of the host, and
  -- no address of the other family.
  pub data Matches (host : Bytes) (explicit : Option ℤ) (r : Rule) : Type 0 where
    matches_v4 :
        (addr p : ℕ)
        → inet_pton4 host ≡ some addr
        → IsPrefix 32 explicit p
        → ((ip : ℕ)
            → ip < 2 ^ 32
            → (match_v4 r ip ≡ true) ↔ (ip / 2 ^ (32 - p) ≡ addr / 2 ^ (32 - p)))
        → ((ipv6 : Bytes) → match_v6 r ipv6 ≡ false)
        → Matches host explicit r
    matches_v6 :
        (addr : Bytes) (p : ℕ)
        → inet_pton4 host ≡ none
        → inet_pton6 host ≡ some addr
        → IsPrefix 128 explicit p
        → ((ipv6 : Bytes) → AreBytes ipv6 → (match_v6 r ipv6 ≡ true) ↔ Agree p ipv6 addr)
        → ((ip : ℕ) → match_v4 r ip ≡ false)
        → Matches host explicit r

  -- Why there is no rule: the host is no address, or no number in its family's range is read.
  pub data Refused (host : Bytes) (explicit : Option ℤ) : Type 0 where
    no_address : inet_pton4 host ≡ none → inet_pton6 host ≡ none → Refused host explicit
    long_v4 :
        (addr : ℕ) → inet_pton4 host ≡ some addr → HasNoPrefix 32 explicit → Refused host explicit
    long_v6 :
        (addr : Bytes)
        → inet_pton4 host ≡ none
        → inet_pton6 host ≡ some addr
        → HasNoPrefix 128 explicit
        → Refused host explicit

  -- strtol reads to the end or to a space.
  pub data Ends : Bytes → Type 0 where
    at_end : Ends []
    at_space : {c : ℕ} {cs : Bytes} → isspace c ≡ true → Ends (c ∷ cs)

  -- The number behind the slash.
  pub data Explicit : Option Bytes → Option ℤ → Type 0 where
    no_slash : Explicit none none
    given : {after : Bytes} → Ends (strtol after).1 → Explicit (some after) (some (strtol after).0)

  pub data Parsed (s : Bytes) : Option Rule → Type 0 where
    garbage :
        (host after cs : Bytes) (c : ℕ)
        → IsSplit s host (some after)
        → (strtol after).1 ≡ c ∷ cs
        → isspace c ≡ false
        → Parsed s none
    refused :
        (host : Bytes) (after : Option Bytes) (explicit : Option ℤ)
        → IsSplit s host after
        → Explicit after explicit
        → Refused host explicit
        → Parsed s none
    accepted :
        (host : Bytes) (after : Option Bytes) (explicit : Option ℤ) (r : Rule)
        → IsSplit s host after
        → Explicit after explicit
        → Matches host explicit r
        → Parsed s (some r)

  within-IsPrefix :
      (bits p : ℕ) (explicit : Option ℤ)
      → bits ≤ 128
      → within bits (cast explicit) ≡ some p
      → IsPrefix bits explicit p
  unfolding prefix_within int_of_long
  within-IsPrefix bits p none b h = ground (arith, h)
  within-IsPrefix bits p (some (pos n)) b h = ground (arith, h, b)
  within-IsPrefix bits p (some (negsuc n)) b h = ground (arith, h, b)

  within-HasNoPrefix :
      (bits : ℕ) (explicit : Option ℤ)
      → bits ≤ 128
      → within bits (cast explicit) ≡ none
      → HasNoPrefix bits explicit
  unfolding prefix_within int_of_long
  within-HasNoPrefix bits none b h p k = absurd (ground (arith, h))
  within-HasNoPrefix bits (some (pos n)) b h p k = ground (arith, h, b, k)
  within-HasNoPrefix bits (some (negsuc n)) b h p k = ground (arith, h, b, k)

  IsPrefix-le : (bits p : ℕ) (explicit : Option ℤ) → IsPrefix bits explicit p → p ≤ bits
  IsPrefix-le bits p none h = omega (arith, h)
  IsPrefix-le bits p (some n) h = h.0

  module _ (words : (s : Bytes) (a : ℕ) → inet_pton4 s ≡ some a → a < 2 ^ 32)
      (bytes : (s : Bytes) (a : Bytes) → inet_pton6 s ≡ some a → AreBytes a) where
    rule_of-Parsed :
        (s host : Bytes) (after : Option Bytes) (explicit : Option ℤ)
        → IsSplit s host after
        → Explicit after explicit
        → Parsed s (rule_of inet_pton4 inet_pton6 strtol isspace host (cast explicit))
    unfolding rule_of match_v4 match_v6
    rule_of-Parsed s host after explicit split ex = elim (Option-cases (inet_pton4 host)) [
      | inr (addr, is4) ↦ elim (Option-cases (within 32 (cast explicit))) [
        | inl bad ↦
            rw (is4, rule_of, bad)
              (refused host after explicit split ex
                (long_v4 addr is4 (within-HasNoPrefix 32 explicit (omega arith) bad)))
        | inr (p, good) ↦
            let prefix = within-IsPrefix 32 p explicit (omega arith) good in
            rw (is4, rule_of, good)
              (accepted host after explicit (rule_v4 p (mask_v4 addr p)) split ex (
                matches_v4 addr p is4 prefix
                  (λ ip h.
                    let same = ==_iff (mask_v4 ip p) (mask_v4 addr p) in
                    let masks =
                      mask_v4_iff ip addr p h (words host addr is4)
                        (IsPrefix-le 32 p explicit prefix) in
                    (λ e. masks.0 (same.0 e), λ e. same.1 (masks.1 e)))
                  (λ ipv6. refl)))
      ]
      | inl not4 ↦ elim (Option-cases (inet_pton6 host)) [
        | inl neither ↦
            rw (not4, rule_of, neither)
              (refused host after explicit split ex (no_address not4 neither))
        | inr (addr, is6) ↦ elim (Option-cases (within 128 (cast explicit))) [
          | inl bad ↦
              rw (not4, rule_of, is6, bad)
                (refused host after explicit split ex
                  (long_v6 addr not4 is6 (within-HasNoPrefix 128 explicit (omega arith) bad)))
          | inr (p, good) ↦
              rw (not4, rule_of, is6, good)
                (accepted host after explicit (rule_v6 p (mask_v6 p addr)) split ex (
                  matches_v6 addr p not4 is6 (within-IsPrefix 128 p explicit (omega arith) good)
                    (λ ipv6 h. match_bytes_iff p ipv6 addr h (bytes host addr is6)) (λ ip. refl)))
        ]
      ]
    ]

    after_slash-Parsed :
        (s host after : Bytes)
        → IsSplit s host (some after)
        → Parsed s (elim (prefix_of inet_pton4 inet_pton6 strtol isspace after) [
          | none ↦ none
          | some p ↦ rule_of inet_pton4 inet_pton6 strtol isspace host (some p)
        ])
    unfolding prefix_of is_garbage
    after_slash-Parsed s host after split = rest (strtol after).1 refl
      where
        rest :
            (r : Bytes)
            → (strtol after).1 ≡ r
            → Parsed s
                (elim (if is_garbage inet_pton4 inet_pton6 strtol isspace (strtol after).1
                  then none
                  else some (int_of_long (strtol after).0)) [
                    | none ↦ none
                    | some p ↦ rule_of inet_pton4 inet_pton6 strtol isspace host (some p)
                  ])
        rest [] e =
            rw (e, is_garbage)
              (rule_of-Parsed s host (some after) (some (strtol after).0) split
                (given (subst Ends (sym e) at_end)))
        rest (c ∷ cs) e = elim (Bool-cases (isspace c)) [
          | inl t ↦
              rw (e, is_garbage, t)
                (rule_of-Parsed s host (some after) (some (strtol after).0) split
                  (given (subst Ends (sym e) (at_space t))))
          | inr f ↦ rw (e, is_garbage, f) (garbage host after cs c split e f)
        ]

    parts-Parsed :
        (s host : Bytes) (after : Option Bytes)
        → IsSplit s host after
        → Parsed s (elim after [
          | none ↦ rule_of inet_pton4 inet_pton6 strtol isspace host none
          | some digits ↦ elim (prefix_of inet_pton4 inet_pton6 strtol isspace digits) [
            | none ↦ none
            | some p ↦ rule_of inet_pton4 inet_pton6 strtol isspace host (some p)
          ]
        ])
    parts-Parsed s host none split = rule_of-Parsed s host none none split no_slash
    parts-Parsed s host (some after) split = after_slash-Parsed s host after split

    -- A CIDR string is cut at its first slash. It has no rule exactly when strtol stops behind the slash in
    -- front of a byte that is no space, the host is no address, or strtol's number, modulo 2 ^ 32, is
    -- no prefix length of the host's family. Otherwise its rule matches the addresses of that family whose
    -- first bits are those of the host, as many as that number says (without a slash all), and no
    -- address of the other family. Where no number stands behind the slash, it is what strtol gives then.
    -- The numbers of inet_pton are below 2 ^ 32, and its bytes are bytes.
    pub parse_cidr-Parsed :
        (s : Bytes) → Parsed s (parse_cidr inet_pton4 inet_pton6 strtol isspace s)
    unfolding parse_cidr
    parse_cidr-Parsed s = parts-Parsed s (split_slash s).0 (split_slash s).1 (split_slash-IsSplit s)
