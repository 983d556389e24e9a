-- ===== src/Domains/Tests.antt =====
-- The domain tables with names as their own data: `c.d` and the wildcard `*.b`.
use mtbolt.Common.{◌≡◌, ◌≢◌, ◌↔◌, refl, true, false, none, some, [], ◌∷◌, Bytes}
use mtbolt.Domains.{wildcard_match, Domains, find_exact, get_domain_info, is_wildcard, insert}
use mtbolt.Domains.Wildcard.{IsLabelled, wildcard_match_iff}
use mtbolt.Domains.Lookup.{insert-get_exact, insert-get_wildcard}

abbrev wild : Bytes
wild = 42 ∷ 46 ∷ 98 ∷ []

abbrev plain : Bytes
plain = 99 ∷ 46 ∷ 100 ∷ []

abbrev under : Bytes
under = 97 ∷ 46 ∷ 98 ∷ []

abbrev named : Bytes → Bytes
named name = name

abbrev empty : Domains Bytes named
empty = record { buckets = λ b. []; wildcards = [] }

wildcard_match_iff_example : (wildcard_match wild under ≡ true) ↔ IsLabelled (46 ∷ 98 ∷ []) under
wildcard_match_iff_example = wildcard_match_iff wild under

plain_exact : is_wildcard Bytes named plain ≡ false
unfolding is_wildcard
plain_exact = refl

wild_starred : is_wildcard Bytes named wild ≡ true
unfolding is_wildcard
wild_starred = refl

insert-get_exact_example :
    (get_domain_info Bytes named (insert Bytes named plain empty) plain ≡ some plain)
    × ((name : Bytes)
        → name ≢ plain
        → get_domain_info Bytes named (insert Bytes named plain empty) name
          ≡ get_domain_info Bytes named empty name)
insert-get_exact_example = insert-get_exact named plain empty plain_exact

insert-get_wildcard_example :
    ((j : Bytes)
      → find_exact Bytes named under [] ≡ some j
      → get_domain_info Bytes named (insert Bytes named wild empty) under ≡ some j)
    × (find_exact Bytes named under [] ≡ none
        → wildcard_match wild under ≡ true
        → get_domain_info Bytes named (insert Bytes named wild empty) under ≡ some wild)
    × (wildcard_match wild under ≡ false
        → get_domain_info Bytes named (insert Bytes named wild empty) under
          ≡ get_domain_info Bytes named empty under)
insert-get_wildcard_example = insert-get_wildcard named wild empty under wild_starred
