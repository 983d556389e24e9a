-- ===== src/Http/Sound/Space.antt =====
-- The cases of src/net/net-http-parse.c that skip spaces, and read names and numbers.
use mtbolt.Common.{
  ℕ, suc, ◌+◌, ◌≤◌, ◌<◌, ◌≡◌, inl, inr, sym, subst, ◌∙◌, ap, arith, true, false, ◌&&◌, ◌||◌, Option,
  none, some, [], ◌∷◌, length, ltb, leb, ◌==◌, Bytes, Bool-cases,
}
use mtbolt.Http.Query.{skip_spc, skip_spc_to_eoln, Query, Cursor, count, max_header}
use mtbolt.Http.Words.{skip_spaces, next_word, after_spaces, case_skip_spc, is_spc_to_eoln}
use mtbolt.Http.Sound.Base.{IsSound, Lowers, LowersSome, measure, Small-some}

-- A loop that only counts the bytes that it passes.
pub record Counts (q : Query) (bs : Bytes) (r : Cursor) : Type 0 where
  pub passed : ℕ
  pub query_is : r.0 ≡ record q { header_size = q.header_size + passed }
  pub left : passed + length r.1 ≡ length bs

pub Counts-none : (q : Query) (bs : Bytes) → Counts q bs (q, bs)
Counts-none q bs = record {
  passed = 0;
  query_is = ap (λ k. record q { header_size = k }) (omega arith);
  left = omega arith;
}

pub Counts-count :
    (c : ℕ) (q : Query) (cs : Bytes) (r : Cursor) → Counts (count q) cs r → Counts q (c ∷ cs) r
Counts-count c q cs r h = record {
  passed = suc h.passed;
  query_is = h.query_is ∙ ap (λ k. record q { header_size = k }) (omega arith);
  left = omega (arith, h.left);
}

skip_spaces-Counts : (q : Query) (bs : Bytes) → Counts q bs (skip_spaces q bs)
unfolding skip_spaces
skip_spaces-Counts q [] = Counts-none q []
skip_spaces-Counts q (c ∷ cs) =
    elim (Bool-cases
      (ltb q.header_size max_header && (c == 32 || (c == 9 && leb 8 q.query_words)))) [
        | inl more ↦
            rw more
              (Counts-count c q cs (skip_spaces (count q) cs) (skip_spaces-Counts (count q) cs))
        | inr last ↦ rw last (Counts-none q (c ∷ cs))
      ]

abbrev Continues : ℕ → ℕ → ℕ → Option Query → Type 0
Continues n bound left none = ⊥
Continues n bound left (some q) = Lowers n bound q left

next_word-Continues :
    (n left : ℕ) (q : Query)
    → IsSound n skip_spc q left
    → Continues n (measure skip_spc q.query_words left) left (next_word q)
unfolding next_word
next_word-Continues n left q h = ground (arith, Small-some 0)

after_spaces-Lowers :
    (n left : ℕ) (q : Query) (rest : Bytes)
    → q.state ≡ skip_spc
    → IsSound n skip_spc q (length rest)
    → length rest ≤ left
    → 0 < left
    → LowersSome n (measure skip_spc q.query_words left) (after_spaces q rest)
unfolding after_spaces
after_spaces-Lowers n left q [] st h le pos_left = ground arith
after_spaces-Lowers n left q (c ∷ cs) st h le pos_left =
    let not_eoln : is_spc_to_eoln q.state ≡ false = ap is_spc_to_eoln st in
    elim (Bool-cases (leb max_header q.header_size)) [
      | inl long ↦ rw long (ground arith)
      | inr short ↦
          rw (short, not_eoln) (next (next_word q) (next_word-Continues n (length (c ∷ cs)) q h))
    ]
  where
    next :
        (o : Option Query)
        → Continues n (measure skip_spc q.query_words (length (c ∷ cs))) (length (c ∷ cs)) o
        → LowersSome n
            (measure skip_spc q.query_words left)
            (elim o [ none ↦ none | some q' ↦ some (q', c ∷ cs) ])
    next none e = e
    next (some q') e = record { sound = e.sound; lower = omega (arith, e.lower) }

pub case_skip_spc-Lowers :
    (n : ℕ) (q : Query) (bs : Bytes)
    → q.state ≡ skip_spc
    → IsSound n skip_spc q (length bs)
    → 0 < length bs
    → LowersSome n (measure skip_spc q.query_words (length bs)) (case_skip_spc q bs)
unfolding case_skip_spc
case_skip_spc-Lowers n q bs st h long =
    let r = skip_spaces q bs in
    let loop = skip_spaces-Counts q bs in
    let q' = record q { header_size = q.header_size + loop.passed } in
    let sound : IsSound n skip_spc q' (length r.1) = ground (arith, loop.left) in
    subst (λ x. LowersSome n (measure skip_spc q.query_words (length bs)) (after_spaces x r.1))
      (sym loop.query_is)
      (after_spaces-Lowers n (length bs) q' r.1 st sound (omega (arith, loop.left)) long)

after_spaces-Lowers_eoln :
    (n left : ℕ) (q : Query) (rest : Bytes)
    → q.state ≡ skip_spc_to_eoln
    → IsSound n skip_spc_to_eoln q (length rest)
    → length rest ≤ left
    → 0 < left
    → LowersSome n (measure skip_spc_to_eoln q.query_words left) (after_spaces q rest)
unfolding after_spaces
after_spaces-Lowers_eoln n left q [] st h le pos_left = ground arith
after_spaces-Lowers_eoln n left q (c ∷ cs) st h le pos_left =
    let is_eoln : is_spc_to_eoln q.state ≡ true = ap is_spc_to_eoln st in rw is_eoln (ground arith)

pub case_skip_spc-Lowers_eoln :
    (n : ℕ) (q : Query) (bs : Bytes)
    → q.state ≡ skip_spc_to_eoln
    → IsSound n skip_spc_to_eoln q (length bs)
    → 0 < length bs
    → LowersSome n (measure skip_spc_to_eoln q.query_words (length bs)) (case_skip_spc q bs)
unfolding case_skip_spc
case_skip_spc-Lowers_eoln n q bs st h long =
    let r = skip_spaces q bs in
    let loop = skip_spaces-Counts q bs in
    let q' = record q { header_size = q.header_size + loop.passed } in
    let sound : IsSound n skip_spc_to_eoln q' (length r.1) = ground (arith, loop.left) in
    subst
      (λ x. LowersSome n (measure skip_spc_to_eoln q.query_words (length bs)) (after_spaces x r.1))
      (sym loop.query_is)
      (after_spaces-Lowers_eoln n (length bs) q' r.1 st sound (omega (arith, loop.left)) long)
