-- ===== src/Http/Sound/Name.antt =====
-- The cases of src/net/net-http-parse.c that read the name of a header and a number.
use mtbolt.Common.{
  ℕ, ◌+◌, ◌-◌, ◌*◌, ◌/◌, ◌≤◌, ◌<◌, ◌≡◌, ◌⊎◌, inl, inr, refl, sym, subst, arith, false, not, ◌&&◌,
  some, [], ◌∷◌, length, ltb, leb, ◌==◌, Bytes, Bool-cases,
}
use mtbolt.Http.Query.{read_to_colon, read_int, skip_to_eoln, Query, Cursor, push, count}
use mtbolt.Http.Words.{
  read_name, after_name, case_read_to_colon, read_digits, after_digits, case_read_int,
}
use mtbolt.Http.Sound.Base.{
  IsSound, Lowers, LowersSome, measure, rank, Small, Small-some, Small-elim,
}
use mtbolt.Http.Sound.Word.{Reads, Reads-none, Reads-push}

read_name-Reads : (q : Query) (bs : Bytes) → Reads q bs (read_name q bs)
unfolding read_name
read_name-Reads q [] = Reads-none q []
read_name-Reads q (c ∷ cs) = elim (Bool-cases (not (c == 58) && (ltb 32 c && ltb c 128))) [
  | inl more ↦ rw more (Reads-push c q cs (read_name (push c q) cs) (read_name-Reads (push c q) cs))
  | inr last ↦ rw last (Reads-none q (c ∷ cs))
]

after_name-Lowers :
    (n left : ℕ) (q : Query) (rest : Bytes)
    → q.state ≡ read_to_colon
    → IsSound n read_to_colon q (length rest)
    → length rest ≤ left
    → 0 < left
    → Lowers n
        (measure read_to_colon q.query_words left)
        (after_name q rest).0
        (length (after_name q rest).1)
unfolding after_name
after_name-Lowers n left q [] st h le pos_left = ground arith
after_name-Lowers n left q (c ∷ cs) st h le pos_left = ground arith

pub case_read_to_colon-Lowers :
    (n : ℕ) (q : Query) (bs : Bytes)
    → q.state ≡ read_to_colon
    → IsSound n read_to_colon q (length bs)
    → 0 < length bs
    → Lowers n
        (measure read_to_colon q.query_words (length bs))
        (case_read_to_colon q bs).0
        (length (case_read_to_colon q bs).1)
unfolding case_read_to_colon
case_read_to_colon-Lowers n q bs st h long =
    let r = read_name q bs in
    let loop = read_name-Reads q bs in
    let q' = record q { word = loop.new_word; wlen = q.wlen + loop.read } in
    let sound : IsSound n read_to_colon q' (length r.1) = ground (arith, loop.left, loop.size) in
    subst
      (λ x.
        Lowers n (measure read_to_colon q.query_words (length bs)) (after_name x r.1).0
          (length (after_name x r.1).1))
      (sym loop.query_is)
      (after_name-Lowers n (length bs) q' r.1 st sound (omega (arith, loop.left)) long)

-- What the loop over digits leaves: the state it came with, or a refusal in front of a digit.
pub record Digits (n left : ℕ) (r : Cursor) : Type 0 where
  pub fits : length r.1 ≤ left
  pub sound : IsSound n read_int r.0 (length r.1)
  pub outcome : (r.0.state ≡ read_int) ⊎ ((r.0.state ≡ skip_to_eoln) × (0 < length r.1))

-- The number that the loop ends with.
with_size :
    (n tt' : ℕ) (q : Query) (left : ℕ)
    → tt' < 2147483648
    → IsSound n read_int q left
    → IsSound n read_int (record q { data_size = some tt' }) left
with_size n tt' q left small h = ground (arith, Small-some tt')

read_digits-Digits :
    (n tt' : ℕ) (q : Query) (bs : Bytes)
    → tt' < 2147483648
    → q.state ≡ read_int
    → IsSound n read_int q (length bs)
    → Digits n (length bs) (read_digits tt' q bs)
unfolding read_digits
read_digits-Digits n tt' q [] small st h = record {
  fits = omega arith;
  sound = with_size n tt' q 0 small h;
  outcome = inl st;
}
read_digits-Digits n tt' q (c ∷ cs) small st h = elim (Bool-cases (leb 48 c && leb c 57)) [
  | inr other ↦ rw other (record {
    fits = omega arith;
    sound = with_size n tt' q (length (c ∷ cs)) small h;
    outcome = inl st;
  })
  | inl digit ↦ elim (Bool-cases (leb (0x7fffffff / 10) tt')) [
    | inl large ↦
        let s = with_size n tt' q (length (c ∷ cs)) small h in
        rw (digit, large)
          (record {
            fits = omega arith;
            sound = ground (arith, s);
            outcome = inr (refl, omega arith);
          })
    | inr room ↦
        let next : tt' * 10 + (c - 48) < 2147483648 = ground (arith, digit, room) in
        let q' = record (count q) { has_size = false } in
        let rest = read_digits-Digits n (tt' * 10 + (c - 48)) q' cs next st (ground arith) in
        rw (digit, room)
          (record { fits = omega (arith, rest.fits); sound = rest.sound; outcome = rest.outcome })
  ]
]

after_digits-Lowers :
    (n left words : ℕ) (q : Query) (rest : Bytes)
    → Digits n left (q, rest)
    → 0 < left
    → Lowers n
        (rank read_int words + 12 * left)
        (after_digits q rest).0
        (length (after_digits q rest).1)
unfolding after_digits
after_digits-Lowers n left words q [] d pos_left = elim d.outcome [
  | inl st ↦ record {
    sound = subst (λ s. IsSound n s q 0) (sym st) d.sound;
    lower = rw st (omega (arith, pos_left));
  }
  | inr refused ↦ absurd (omega (arith, refused.1))
]
after_digits-Lowers n left words q (c ∷ cs) d pos_left =
    let h = d.sound in
    let f = d.fits in
    elim (Bool-cases q.has_size) [
      | inl bad ↦ rw bad (ground arith)
      | inr good ↦ rw good (ground arith)
    ]

pub case_read_int-Lowers :
    (n : ℕ) (q : Query) (bs : Bytes)
    → q.state ≡ read_int
    → IsSound n read_int q (length bs)
    → 0 < length bs
    → LowersSome n (measure read_int q.query_words (length bs)) (case_read_int q bs)
unfolding case_read_int
case_read_int-Lowers n q bs st h long =
    let tt' = h.ready.0 in
    let small : tt' < 2147483648 = Small-elim tt' (subst Small h.ready.1 h.number) in
    let r = read_digits tt' q bs in
    rw (h.ready.1, case_read_int)
      (after_digits-Lowers n (length bs) q.query_words r.0 r.1
        (read_digits-Digits n tt' q bs small st h) long)
