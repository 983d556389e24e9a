-- ===== src/Domains/Wildcard.antt =====
-- The names that a wildcard pattern matches (`wildcard_match` of src/net/net-tcp-rpc-ext-domain.c).
use mtbolt.Common.{
  ◌-◌, ◌<◌, ◌≡◌, ◌↔◌, refl, sym, ◌∙◌, ap, subst, arith, true, false, ◌++◌, length, leb, Bytes,
  eq_bytes_iff, take, drop, take-append-drop, take-append_length, drop-append_length, length-append,
  length-take, Bool-cases, inl, inr,
}
use mtbolt.Domains.{has_byte, wildcard_match}

-- A name that is one nonempty label, without `.` and `*`, in front of the wilds suffix.
pub record IsLabelled (suffix sni : Bytes) : Type 0 where
  pub label : Bytes
  pub nonempty : 0 < length label
  pub no_dot : has_byte 46 label ≡ false
  pub no_star : has_byte 42 label ≡ false
  pub splits : sni ≡ label ++ suffix

matched : (wild sni : Bytes) → wildcard_match wild sni ≡ true → IsLabelled (drop 1 wild) sni
unfolding wildcard_match
matched wild sni h =
    let suffix = drop 1 wild in
    let n = length sni - length suffix in
    elim (Bool-cases (leb (length sni) (length suffix))) [
      | inl short ↦ absurd (ground (arith, short, h))
      | inr longer ↦ record {
        label = take n sni;
        nonempty = ground (arith, longer, length-take n sni);
        no_dot = ground (arith, longer, h);
        no_star = ground (arith, longer, h);
        splits =
            sym (take-append-drop n sni)
            ∙ ap (λ t. take n sni ++ t)
                ((eq_bytes_iff (drop n sni) suffix).0 (ground (arith, longer, h)));
      }
    ]

labelled :
    (wild label : Bytes)
    → 0 < length label
    → has_byte 46 label ≡ false
    → has_byte 42 label ≡ false
    → wildcard_match wild (label ++ drop 1 wild) ≡ true
unfolding wildcard_match
labelled wild label nonempty no_dot no_star =
    let suffix = drop 1 wild in
    let total = length-append label suffix in
    let size : length (label ++ suffix) - length suffix ≡ length label = omega (arith, total) in
    let longer : leb (length (label ++ suffix)) (length suffix) ≡ false =
      ground (arith, total, nonempty) in
    rw
      (
        longer,
        size,
        take-append_length label suffix (length label) refl,
        drop-append_length label suffix (length label) refl,
        no_dot,
        no_star,
      )
      ((eq_bytes_iff suffix suffix).1 refl)

-- A pattern matches exactly the names that are one nonempty label, without dots and stars, in front
-- of what follows the wilds first character.
pub wildcard_match_iff :
    (wild sni : Bytes) → (wildcard_match wild sni ≡ true) ↔ IsLabelled (drop 1 wild) sni
wildcard_match_iff wild sni = (
  matched wild sni,
  λ l.
      subst (λ name. wildcard_match wild name ≡ true) (sym l.splits)
        (labelled wild l.label l.nonempty l.no_dot l.no_star),
)
