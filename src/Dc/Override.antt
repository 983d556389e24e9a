-- ===== src/Dc/Override.antt =====
-- What a lookup finds after an override (src/mtproto/mtproto-dc-table.c).
use mtbolt.Common.{
  ℕ, ◌<◌, ◌≡◌, ◌≢◌, refl, sym, ◌∙◌, ap, subst, arith, Bool, true, false, Option, none, some, List,
  [], ◌∷◌, ◌++◌, length, leb, if◌then◌else◌, Bytes, Bool-cases, Option-cases, inl, inr,
}
use mtbolt.Common.Int.{ℤ, pos, negsuc, abs_ℕ}
use mtbolt.Dc.{
  DcAddr, DcEntry, Tables, max_addrs, max_overrides, eq_int, find_dc, base_id, direct_dc_lookup,
  addr_of, add_addr, add_to, direct_dc_override,
}

eq_int-true : (a b : ℤ) → eq_int a b ≡ true → a ≡ b
unfolding eq_int
eq_int-true (pos a) (pos b) h = ap pos (ground arith)
eq_int-true (negsuc a) (negsuc b) h = ap negsuc (ground arith)
eq_int-true (pos a) (negsuc b) h = absurd (ground arith)
eq_int-true (negsuc a) (pos b) h = absurd (ground arith)

eq_int_refl : (a : ℤ) → eq_int a a ≡ true
unfolding eq_int
eq_int_refl (pos a) = ground arith
eq_int_refl (negsuc a) = ground arith

eq_int-false : (a b : ℤ) → a ≢ b → eq_int a b ≡ false
eq_int-false a b ne = elim (Bool-cases (eq_int a b)) [
  | inl same ↦ absurd (ne (eq_int-true a b same))
  | inr h ↦ h
]

-- The addresses that the overrides have for a data centre.
abbrev pub addrs_of : Option DcEntry → List DcAddr
addrs_of none = []
addrs_of (some e) = e.addrs

find_dc-append :
    (id : ℤ) (es fs : List DcEntry) → find_dc id es ≡ none → find_dc id (es ++ fs) ≡ find_dc id fs
unfolding find_dc
find_dc-append id [] fs h = refl
find_dc-append id (e ∷ es) fs h = elim (Bool-cases (eq_int e.dc_id id)) [
  | inl same ↦ absurd (ground (arith, same, h))
  | inr other ↦ rw other (find_dc-append id es fs (ground (arith, other, h)))
]

find_dc-append_ne :
    (id : ℤ) (es : List DcEntry) (e : DcEntry)
    → eq_int e.dc_id id ≡ false
    → find_dc id (es ++ (e ∷ [])) ≡ find_dc id es
unfolding find_dc
find_dc-append_ne id [] e h = rw h refl
find_dc-append_ne id (e' ∷ es) e h =
    ap (λ r. if eq_int e'.dc_id id then some e' else r) (find_dc-append_ne id es e h)

module _ (inet_pton : Bytes → Option Bytes) (inet_addr : Bytes → ℕ) where
  add_addr-dc_id :
      (host : Bytes) (port : ℤ) (e : DcEntry)
      → (add_addr inet_pton inet_addr host port e).1.dc_id ≡ e.dc_id
  unfolding add_addr
  add_addr-dc_id host port e = elim (Bool-cases (leb max_addrs (length e.addrs))) [
    | inl full ↦ rw full refl
    | inr room ↦ elim (Option-cases (addr_of inet_pton inet_addr host port)) [
      | inl bad ↦ rw (room, bad) refl
      | inr (a, good) ↦ rw (room, good) refl
    ]
  ]

  -- An address that is added stands behind the others.
  add_addr-addrs :
      (host : Bytes) (port : ℤ) (e : DcEntry) (a : DcAddr)
      → addr_of inet_pton inet_addr host port ≡ some a
      → (add_addr inet_pton inet_addr host port e).0 ≡ true
      → (add_addr inet_pton inet_addr host port e).1.addrs ≡ e.addrs ++ (a ∷ [])
  unfolding add_addr
  add_addr-addrs host port e a good h = elim (Bool-cases (leb max_addrs (length e.addrs))) [
    | inl full ↦ absurd (ground (arith, full, h))
    | inr room ↦ rw (room, good) refl
  ]

  -- What adding an address makes of the overrides, by their entry for the data centre.
  abbrev Added : ℤ → Bytes → ℤ → List DcEntry → Option (Bool × List DcEntry) → Type 0
  Added id host port es none = find_dc id es ≡ none
  Added id host port es (some r) =
      (e : DcEntry) × (find_dc id es ≡ some e)
      × (r.0 ≡ (add_addr inet_pton inet_addr host port e).0)
      × (find_dc id r.1 ≡ some (add_addr inet_pton inet_addr host port e).1)
      × ((id' : ℤ) → id ≢ id' → find_dc id' r.1 ≡ find_dc id' es)

  add_to-Added :
      (id : ℤ) (host : Bytes) (port : ℤ) (es : List DcEntry)
      → Added id host port es (add_to inet_pton inet_addr id host port es)
  unfolding add_to find_dc
  add_to-Added id host port [] = refl
  add_to-Added id host port (e ∷ es) = elim (Bool-cases (eq_int e.dc_id id)) [
    | inl same ↦ rw same (
      e,
      rw same refl,
      refl,
      rw (ap (λ i. eq_int i id) (add_addr-dc_id host port e) ∙ same) refl,
      λ id' ne. others id' ne (eq_int-true e.dc_id id same),
    )
    | inr other ↦
        rw other
          (later other (add_to inet_pton inet_addr id host port es) (add_to-Added id host port es))
  ]
    where
      others :
          (id' : ℤ)
          → id ≢ id'
          → e.dc_id ≡ id
          → find_dc id' ((add_addr inet_pton inet_addr host port e).1 ∷ es) ≡ find_dc id' (e ∷ es)
      others id' ne is =
          let differs : eq_int e.dc_id id' ≡ false =
            eq_int-false e.dc_id id' (λ h. ne (sym is ∙ h)) in
          rw (ap (λ i. eq_int i id') (add_addr-dc_id host port e) ∙ differs, differs) refl

      later :
          eq_int e.dc_id id ≡ false
          → (o : Option (Bool × List DcEntry)) → Added id host port es o
          → Added id host port (e ∷ es) (elim o [ none ↦ none | some r ↦ some (r.0, e ∷ r.1) ])
      later other none h = rw other h
      later other (some r) h = (
        h.0,
        rw other h.1,
        h.2,
        rw other h.3,
        λ id' ne. ap (λ x. if eq_int e.dc_id id' then some e else x) (h.4 id' ne),
      )

  find_dc-new :
      (id : ℤ) (es : List DcEntry) (e : DcEntry)
      → find_dc id es ≡ none
      → e.dc_id ≡ id
      → find_dc id (es ++ (e ∷ [])) ≡ some e
  unfolding find_dc
  find_dc-new id es e absent is =
      find_dc-append id es (e ∷ []) absent ∙ rw (ap (λ i. eq_int i id) is ∙ eq_int_refl id) refl

  -- The addresses after an override that succeeds, and the other data centres.
  override-find :
      (id : ℤ) (host : Bytes) (port : ℤ) (es : List DcEntry) (a : DcAddr)
      → addr_of inet_pton inet_addr host port ≡ some a
      → (direct_dc_override inet_pton inet_addr id host port es).0 ≡ true
      → ((e : DcEntry) × (find_dc id (direct_dc_override inet_pton inet_addr id host port es).1
            ≡ some e)
          × (e.addrs ≡ addrs_of (find_dc id es) ++ (a ∷ [])))
        × ((id' : ℤ)
            → id ≢ id'
            → find_dc id' (direct_dc_override inet_pton inet_addr id host port es).1
              ≡ find_dc id' es)
  unfolding direct_dc_override
  override-find id host port es a good h =
      branch (add_to inet_pton inet_addr id host port es) (add_to-Added id host port es) h
    where
      new : DcEntry
      new = record { dc_id = id; addrs = [] }

      outcome : Option (Bool × List DcEntry) → Bool × List DcEntry
      outcome (some r) = r
      outcome none = if leb max_overrides (length es) then (false, es) else (
        (add_addr inet_pton inet_addr host port new).0,
        es ++ ((add_addr inet_pton inet_addr host port new).1 ∷ []),
      )

      branch :
          (o : Option (Bool × List DcEntry))
          → Added id host port es o
          → (outcome o).0 ≡ true
          → ((e : DcEntry) × (find_dc id (outcome o).1 ≡ some e)
              × (e.addrs ≡ addrs_of (find_dc id es) ++ (a ∷ [])))
            × ((id' : ℤ) → id ≢ id' → find_dc id' (outcome o).1 ≡ find_dc id' es)
      branch (some r) added done = (
        (
          (add_addr inet_pton inet_addr host port added.0).1,
          added.3,
          add_addr-addrs host port added.0 a good (sym added.2 ∙ done)
              ∙ ap (λ o. addrs_of o ++ (a ∷ [])) (sym added.1),
        ),
        added.4,
      )
      branch none absent done = elim (Bool-cases (leb max_overrides (length es))) [
        | inl full ↦ absurd (ground (arith, full, done))
        | inr room ↦
            let e = (add_addr inet_pton inet_addr host port new).1 in
            let ok_add : (add_addr inet_pton inet_addr host port new).0 ≡ true =
              ground (arith, room, done) in
            rw room (
              (
                e,
                find_dc-new id es e absent (add_addr-dc_id host port new),
                add_addr-addrs host port new a good ok_add
                    ∙ ap (λ o. addrs_of o ++ (a ∷ [])) (sym absent),
              ),
              λ id' ne.
                  find_dc-append_ne id' es e (
                    ap (λ i. eq_int i id') (add_addr-dc_id host port new) ∙ eq_int-false id id' ne),
            )
      ]

  -- After an override of data centre `n` that succeeds, the lookup of every identifier that stands
  -- for `n` gives an entry with the addresses of the overrides of `n` so far, none of the built-in
  -- ones, and then the new address; every other lookup is as before.
  pub direct_dc_override-lookup :
      (tables : Tables) (n : ℕ) (host : Bytes) (port : ℤ) (overrides : List DcEntry) (a : DcAddr)
      → addr_of inet_pton inet_addr host port ≡ some a
      → (direct_dc_override inet_pton inet_addr (pos n) host port overrides).0 ≡ true
      → ((dc_id : ℤ)
          → base_id dc_id ≡ n
          → (e : DcEntry) × (direct_dc_lookup tables
                (direct_dc_override inet_pton inet_addr (pos n) host port overrides).1
                dc_id
              ≡ some e)
            × (e.addrs ≡ addrs_of (find_dc (pos n) overrides) ++ (a ∷ [])))
        × ((dc_id : ℤ)
            → base_id dc_id ≢ n
            → direct_dc_lookup tables
                (direct_dc_override inet_pton inet_addr (pos n) host port overrides).1
                dc_id
              ≡ direct_dc_lookup tables overrides dc_id)
  unfolding direct_dc_lookup
  direct_dc_override-lookup tables n host port overrides a good h =
      let found = override-find (pos n) host port overrides a good h in
      (
        λ dc_id is. (
          found.0.0,
          rw
              (
                ap
                      (λ i.
                        find_dc (pos i)
                          (direct_dc_override inet_pton inet_addr (pos n) host port overrides).1)
                      is
                    ∙ found.0.1,
                direct_dc_lookup,
              )
              refl,
          found.0.2,
        ),
        λ dc_id ne.
            rw (found.1 (pos (base_id dc_id)) (λ e. ne (sym (ap abs_ℕ e))), direct_dc_lookup) refl,
      )

  add_addr_bad :
      (host : Bytes) (port : ℤ) (e : DcEntry)
      → addr_of inet_pton inet_addr host port ≡ none
      → add_addr inet_pton inet_addr host port e ≡ (false, e)
  unfolding add_addr
  add_addr_bad host port e bad = elim (Bool-cases (leb max_addrs (length e.addrs))) [
    | inl full ↦ rw full refl
    | inr room ↦ rw (room, bad) refl
  ]

  -- An override whose host is no address fails; if the data centre has no override yet and the table
  -- has room, every lookup that stands for it then gives an entry without an address.
  pub direct_dc_override_bad :
      (tables : Tables) (n : ℕ) (host : Bytes) (port : ℤ) (overrides : List DcEntry) (dc_id : ℤ)
      → addr_of inet_pton inet_addr host port ≡ none
      → find_dc (pos n) overrides ≡ none
      → length overrides < max_overrides
      → base_id dc_id ≡ n
      → ((direct_dc_override inet_pton inet_addr (pos n) host port overrides).0 ≡ false)
        × (direct_dc_lookup tables
              (direct_dc_override inet_pton inet_addr (pos n) host port overrides).1
              dc_id
            ≡ some (record { dc_id = pos n; addrs = [] }))
  unfolding direct_dc_override direct_dc_lookup
  direct_dc_override_bad tables n host port overrides dc_id bad absent room is =
      let new : DcEntry = record { dc_id = pos n; addrs = [] } in
      let space : leb max_overrides (length overrides) ≡ false = ground (arith, room) in
      elim (Option-cases (add_to inet_pton inet_addr (pos n) host port overrides)) [
        | inr (r, there) ↦
            let added =
              subst (Added (pos n) host port overrides) there
                (add_to-Added (pos n) host port overrides) in
            absurd (ground (arith, sym absent ∙ added.1))
        | inl missing ↦
            rw
              (missing, direct_dc_override, direct_dc_lookup, space, add_addr_bad host port new bad)
              (
                refl,
                rw
                    (ap (λ i. find_dc (pos i) (overrides ++ (new ∷ []))) is
                      ∙ find_dc-new (pos n) overrides new absent refl)
                    refl,
              )
      ]
