-- ===== src/Domains/Lookup.antt =====
-- The lookup of a name after a domain is added (src/net/net-tcp-rpc-ext-server.c).
use mtbolt.Common.{
  ◌≡◌, ◌≢◌, refl, sym, ◌∙◌, ap, arith, true, false, none, some, List, ◌∷◌, Bytes, ◌==◌,
  if◌then◌else◌, eq_bytes, eq_bytes_iff, Bool-cases, Option-cases, inl, inr,
}
use mtbolt.Domains.{
  wildcard_match, bucket_of, Domains, find_exact, find_wildcard, get_domain_info, is_wildcard,
  insert,
}

module _ {Info : Type 0} (domain : Info → Bytes) where
  find_exact_self :
      (i : Info) (is : List Info) → find_exact Info domain (domain i) (i ∷ is) ≡ some i
  unfolding find_exact
  find_exact_self i is = rw ((eq_bytes_iff (domain i) (domain i)).1 refl) refl

  find_exact_ne :
      (i : Info) (is : List Info) (name : Bytes)
      → name ≢ domain i
      → find_exact Info domain name (i ∷ is) ≡ find_exact Info domain name is
  unfolding find_exact
  find_exact_ne i is name ne = elim (Bool-cases (eq_bytes (domain i) name)) [
    | inl same ↦ absurd (ne (sym ((eq_bytes_iff (domain i) name).0 same)))
    | inr other ↦ rw other refl
  ]

  find_wildcard_hit :
      (i : Info) (is : List Info) (name : Bytes)
      → wildcard_match (domain i) name ≡ true
      → find_wildcard Info domain name (i ∷ is) ≡ some i
  unfolding find_wildcard
  find_wildcard_hit i is name m = rw m refl

  find_wildcard_miss :
      (i : Info) (is : List Info) (name : Bytes)
      → wildcard_match (domain i) name ≡ false
      → find_wildcard Info domain name (i ∷ is) ≡ find_wildcard Info domain name is
  unfolding find_wildcard
  find_wildcard_miss i is name m = rw m refl

  insert_plain :
      (i : Info) (d : Domains Info domain)
      → is_wildcard Info domain i ≡ false
      → insert Info domain i d ≡ record d {
        buckets = λ b. if b == bucket_of (domain i) then i ∷ d.buckets b else d.buckets b;
      }
  unfolding insert
  insert_plain i d h = rw h refl

  insert_wild :
      (i : Info) (d : Domains Info domain)
      → is_wildcard Info domain i ≡ true
      → insert Info domain i d ≡ record d { wildcards = i ∷ d.wildcards }
  unfolding insert
  insert_wild i d h = rw h refl

  -- A domain without a wildcard is what its own name finds after it is added, and every other name
  -- finds what it found before.
  pub insert-get_exact :
      (i : Info) (d : Domains Info domain)
      → is_wildcard Info domain i ≡ false
      → (get_domain_info Info domain (insert Info domain i d) (domain i) ≡ some i)
        × ((name : Bytes)
            → name ≢ domain i
            → get_domain_info Info domain (insert Info domain i d) name
              ≡ get_domain_info Info domain d name)
  unfolding get_domain_info
  insert-get_exact i d h =
      let here : (bucket_of (domain i) == bucket_of (domain i)) ≡ true = ground arith in
      (
        rw
            (
              insert_plain i d h,
              get_domain_info,
              here,
              find_exact_self i (d.buckets (bucket_of (domain i))),
            )
            refl,
        λ name ne. elim (Bool-cases (bucket_of name == bucket_of (domain i))) [
          | inl same ↦
              ap (λ e. get_domain_info Info domain e name) (insert_plain i d h)
              ∙ rw (same, get_domain_info, find_exact_ne i (d.buckets (bucket_of name)) name ne)
                  refl
          | inr other ↦
              ap (λ e. get_domain_info Info domain e name) (insert_plain i d h)
              ∙ rw (other, get_domain_info) refl
        ],
      )

  -- After a wildcard is added, a name with a domain of its own finds that domain; of the others, those
  -- that the wildcard matches find it, and the rest find what they found before.
  pub insert-get_wildcard :
      (i : Info) (d : Domains Info domain) (name : Bytes)
      → is_wildcard Info domain i ≡ true
      → ((j : Info)
          → find_exact Info domain name (d.buckets (bucket_of name)) ≡ some j
          → get_domain_info Info domain (insert Info domain i d) name ≡ some j)
        × (find_exact Info domain name (d.buckets (bucket_of name)) ≡ none
            → wildcard_match (domain i) name ≡ true
            → get_domain_info Info domain (insert Info domain i d) name ≡ some i)
        × (wildcard_match (domain i) name ≡ false
            → get_domain_info Info domain (insert Info domain i d) name
              ≡ get_domain_info Info domain d name)
  unfolding get_domain_info
  insert-get_wildcard i d name h =
      let added = ap (λ e. get_domain_info Info domain e name) (insert_wild i d h) in
      (
        λ j e. added ∙ rw (e, get_domain_info) refl,
        λ e m. added ∙ rw (e, get_domain_info) (find_wildcard_hit i d.wildcards name m),
        λ m.
            added ∙ elim (Option-cases (find_exact Info domain name (d.buckets (bucket_of name)))) [
              | inl e ↦ rw (e, get_domain_info) (find_wildcard_miss i d.wildcards name m)
              | inr (j, e) ↦ rw (e, get_domain_info) refl
            ],
      )
