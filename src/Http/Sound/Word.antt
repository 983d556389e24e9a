-- ===== src/Http/Sound/Word.antt =====
-- The cases of src/net/net-http-parse.c that read words.
use mtbolt.Common.{
  ℕ, suc, ◌+◌, ◌≤◌, ◌<◌, ◌≡◌, inl, inr, refl, sym, subst, ◌∙◌, ap, arith, Option, none, some, [],
  ◌∷◌, length, length-set, ltb, Bytes, Bool-cases,
}
use mtbolt.Http.Query.{read_to_space, Query, Cursor, push}
use mtbolt.Http.Words.{read_word, end_word, after_word, case_read_to_space, add_word}
use mtbolt.Http.Sound.Base.{IsSound, Lowers, LowersSome, measure}

-- A loop over the bytes of a word changes the word and its length only.
pub record Reads (q : Query) (bs : Bytes) (r : Cursor) : Type 0 where
  pub read : ℕ
  pub new_word : Bytes
  pub query_is : r.0 ≡ record q { word = new_word; wlen = q.wlen + read }
  pub size : length new_word ≡ length q.word
  pub left : read + length r.1 ≡ length bs

push-length : (c : ℕ) (q : Query) → length (push c q).word ≡ length q.word
push-length c q = ground (arith, length-set q.word q.wlen c)

pub Reads-none : (q : Query) (bs : Bytes) → Reads q bs (q, bs)
Reads-none q bs = record {
  read = 0;
  new_word = q.word;
  query_is = ap (λ k. record q { wlen = k }) (omega arith);
  size = refl;
  left = omega arith;
}

pub Reads-push :
    (c : ℕ) (q : Query) (cs : Bytes) (r : Cursor) → Reads (push c q) cs r → Reads q (c ∷ cs) r
Reads-push c q cs r h = record {
  read = suc h.read;
  new_word = h.new_word;
  query_is = h.query_is ∙ ap (λ k. record q { word = h.new_word; wlen = k }) (omega arith);
  size = omega (arith, h.size, push-length c q);
  left = omega (arith, h.left);
}

read_word-Reads : (q : Query) (bs : Bytes) → Reads q bs (read_word q bs)
unfolding read_word
read_word-Reads q [] = Reads-none q []
read_word-Reads q (c ∷ cs) = elim (Bool-cases (ltb 32 c)) [
  | inl more ↦ rw more (Reads-push c q cs (read_word (push c q) cs) (read_word-Reads (push c q) cs))
  | inr last ↦ rw last (Reads-none q (c ∷ cs))
]

-- What end_word leaves, with its word counted.
abbrev Ends : ℕ → ℕ → ℕ → Option Query → Type 0
Ends n bound left none = ⊥
Ends n bound left (some q) = Lowers n bound (add_word q) left

end_word-Ends :
    (n left : ℕ) (q : Query)
    → IsSound n read_to_space q left
    → Ends n (measure read_to_space q.query_words left) left (end_word q)
unfolding end_word
end_word-Ends n left q h = ground arith

after_word-Lowers :
    (n left : ℕ) (q : Query) (rest : Bytes)
    → q.state ≡ read_to_space
    → IsSound n read_to_space q (length rest)
    → length rest ≤ left
    → 0 < left
    → LowersSome n (measure read_to_space q.query_words left) (after_word q rest)
unfolding after_word
after_word-Lowers n left q [] st h le pos_left = ground arith
after_word-Lowers n left q (c ∷ cs) st h le pos_left = elim (Bool-cases (ltb 4096 q.wlen)) [
  | inl long ↦ rw long (ground arith)
  | inr short ↦ rw short (ended (end_word q) (end_word-Ends n (length (c ∷ cs)) q h))
]
  where
    ended :
        (o : Option Query)
        → Ends n (measure read_to_space q.query_words (length (c ∷ cs))) (length (c ∷ cs)) o
        → LowersSome n
            (measure read_to_space q.query_words left)
            (elim o [ none ↦ none | some q' ↦ some (add_word q', c ∷ cs) ])
    ended none e = e
    ended (some q') e = record { sound = e.sound; lower = omega (arith, e.lower) }

pub case_read_to_space-Lowers :
    (n : ℕ) (q : Query) (bs : Bytes)
    → q.state ≡ read_to_space
    → IsSound n read_to_space q (length bs)
    → 0 < length bs
    → LowersSome n (measure read_to_space q.query_words (length bs)) (case_read_to_space q bs)
unfolding case_read_to_space
case_read_to_space-Lowers n q bs st h long =
    let r = read_word q bs in
    let loop = read_word-Reads q bs in
    let q' = record q { word = loop.new_word; wlen = q.wlen + loop.read } in
    let sound : IsSound n read_to_space q' (length r.1) = ground (arith, loop.left, loop.size) in
    subst (λ x. LowersSome n (measure read_to_space q.query_words (length bs)) (after_word x r.1))
      (sym loop.query_is)
      (after_word-Lowers n (length bs) q' r.1 st sound (omega (arith, loop.left)) long)
