-- ===== src/Http/Sound/Line.antt =====
-- The cases of src/net/net-http-parse.c that end and skip lines.
use mtbolt.Common.{
  ℕ, ◌+◌, ◌*◌, ◌≤◌, ◌<◌, ◌≡◌, inl, inr, refl, sym, subst, arith, Bool, true, false, not, ◌&&◌, ◌||◌,
  [], ◌∷◌, length, ltb, leb, ◌==◌, if◌then◌else◌, Bytes, Bool-cases,
}
use mtbolt.Http.Query.{
  skip_to_eoln, eoln, want_lf, want_last_lf, line_start, fatal, Query, Cursor, goto, count,
  max_header, http_v09,
}
use mtbolt.Http.Lines.{
  case_line_start, line_feed, case_want_lf, case_eoln, skip_line, after_line, case_skip_to_eoln,
  case_want_last_lf,
}
use mtbolt.Http.Sound.Base.{IsSound, Lowers, measure}
use mtbolt.Http.Sound.Space.{Counts, Counts-none, Counts-count}

-- The bound on a case, and the query and the bytes that it returns.
abbrev pub LowersTo : ℕ → ℕ → Cursor → Type 0
LowersTo n bound r = Lowers n bound r.0 (length r.1)

LowersTo-if :
    (n bound : ℕ) (b : Bool) (r r' : Cursor)
    → LowersTo n bound r
    → LowersTo n bound r'
    → LowersTo n bound (if b then r else r')
LowersTo-if n bound true r r' h h' = h
LowersTo-if n bound false r r' h h' = h'

pub case_line_start-Lowers :
    (n bound : ℕ) (q : Query) (bs : Bytes)
    → q.state ≡ line_start
    → IsSound n line_start q (length bs)
    → 5 + 12 * length bs ≤ bound
    → LowersTo n (bound + 1) (case_line_start q bs)
unfolding case_line_start
case_line_start-Lowers n bound q [] st h le = ground arith
case_line_start-Lowers n bound q (c ∷ cs) st h le = ground arith

pub case_line_start-Lowers_cons :
    (n c : ℕ) (q : Query) (cs : Bytes)
    → IsSound n line_start q (length (c ∷ cs))
    → LowersTo n (measure line_start q.query_words (length (c ∷ cs))) (case_line_start q (c ∷ cs))
unfolding case_line_start
case_line_start-Lowers_cons n c q cs h = ground arith

-- `h` holds in any state in which the line is counted, such as the end of a line.
line_feed-Lowers :
    (n c : ℕ) (q : Query) (cs : Bytes)
    → 8 ≤ q.query_words
    → IsSound n want_lf q (length (c ∷ cs))
    → LowersTo n (measure want_lf q.query_words (length (c ∷ cs))) (line_feed c q cs)
unfolding line_feed
line_feed-Lowers n c q cs words h = elim (Bool-cases (leb q.http_ver http_v09)) [
  | inl old ↦ rw old (ground arith)
  | inr new ↦ elim (Bool-cases (not (c == 10))) [
    | inl other ↦ rw (new, other) (ground arith)
    | inr lf ↦
        let q' = goto line_start (count q) in
        let sound : IsSound n line_start q' (length cs) = ground arith in
        let next = case_line_start-Lowers n (5 + 12 * length cs) q' cs refl sound (omega arith) in
        rw (new, lf) (record { sound = next.sound; lower = omega (arith, next.lower) })
  ]
]

-- A newline never leads to the rest of the same line.
line_feed-Lowers_lf :
    (n : ℕ) (q : Query) (cs : Bytes)
    → 8 ≤ q.query_words
    → IsSound n want_lf q (length (10 ∷ cs))
    → LowersTo n (3 + 12 * length (10 ∷ cs)) (line_feed 10 q cs)
unfolding line_feed
line_feed-Lowers_lf n q cs words h = elim (Bool-cases (leb q.http_ver http_v09)) [
  | inl old ↦ rw old (ground arith)
  | inr new ↦
      let q' = goto line_start (count q) in
      let sound : IsSound n line_start q' (length cs) = ground arith in
      let next = case_line_start-Lowers n (5 + 12 * length cs) q' cs refl sound (omega arith) in
      rw new (record { sound = next.sound; lower = omega (arith, next.lower) })
]

-- `case_want_lf` keeps a bound that `line_feed` keeps.
case_want_lf-Lowers_bound :
    (n bound c : ℕ) (q : Query) (cs : Bytes)
    → IsSound n want_lf q (length (c ∷ cs))
    → 1 + 12 * length (c ∷ cs) < bound
    → ((w : ℕ)
        → 8 ≤ w
        → IsSound n want_lf (record q { query_words = w }) (length (c ∷ cs))
        → LowersTo n bound (line_feed c (record q { query_words = w }) cs))
    → LowersTo n bound (case_want_lf q (c ∷ cs))
unfolding case_want_lf
case_want_lf-Lowers_bound n bound c q cs h le next = elim (Bool-cases (ltb (q.query_words + 1) 8)) [
  | inl first ↦ rw first (
      LowersTo-if n bound q.is_error (record q { query_words = 8; state = fatal }, c ∷ cs)
        (line_feed c (record q { query_words = 8 }) cs) (ground arith)
        (next 8 (omega arith) (ground arith)))
  | inr later ↦ rw later (next (q.query_words + 1) (ground (arith, later)) (ground arith))
]

pub case_want_lf-Lowers :
    (n c : ℕ) (q : Query) (cs : Bytes)
    → IsSound n want_lf q (length (c ∷ cs))
    → LowersTo n (measure want_lf q.query_words (length (c ∷ cs))) (case_want_lf q (c ∷ cs))
case_want_lf-Lowers n c q cs h =
    case_want_lf-Lowers_bound n (4 + 12 * length (c ∷ cs)) c q cs h (omega arith)
      (λ w le s. line_feed-Lowers n c (record q { query_words = w }) cs le s)

-- what follows a carriage return
behind_return :
    (n : ℕ) (q : Query) (rest : Bytes)
    → IsSound n want_lf (count q) (length rest)
    → LowersTo n (5 + 12 * length rest) (case_want_lf (goto want_lf (count q)) rest)
unfolding case_want_lf
behind_return n q [] s = ground (arith, s)
behind_return n q (d ∷ ds) s =
    let next = case_want_lf-Lowers n d (goto want_lf (count q)) ds (ground (arith, s)) in
    record { sound = next.sound; lower = omega (arith, next.lower) }

pub case_eoln-Lowers :
    (n c : ℕ) (q : Query) (cs : Bytes)
    → IsSound n eoln q (length (c ∷ cs))
    → LowersTo n (measure eoln q.query_words (length (c ∷ cs))) (case_eoln q (c ∷ cs))
unfolding case_eoln
case_eoln-Lowers n c q cs h = elim (Bool-cases (c == 13)) [
  | inr other ↦ rw other (case_want_lf-Lowers n c (goto want_lf q) cs (ground arith))
  | inl cr ↦
      let next = behind_return n q cs (ground arith) in
      rw cr (record { sound = next.sound; lower = omega (arith, next.lower) })
]

-- the end of a line, where `skip_line` stops
case_eoln-Lowers_end :
    (n c : ℕ) (q : Query) (cs : Bytes)
    → (c == 13 || c == 10) ≡ true
    → IsSound n eoln q (length (c ∷ cs))
    → LowersTo n (3 + 12 * length (c ∷ cs)) (case_eoln q (c ∷ cs))
unfolding case_eoln
case_eoln-Lowers_end n c q cs end h = elim (Bool-cases (c == 13)) [
  | inr other ↦
      let lf : c ≡ 10 = ground (arith, other) in
      rw other (
        subst (λ d. LowersTo n (3 + 12 * length (c ∷ cs)) (case_want_lf (goto want_lf q) (d ∷ cs)))
          (sym lf)
          (case_want_lf-Lowers_bound n (3 + 12 * length (c ∷ cs)) 10 (goto want_lf q) cs
            (ground arith) (omega arith)
            (λ w le s.
              line_feed-Lowers_lf n (record q { query_words = w; state = want_lf }) cs le s)))
  | inl cr ↦
      let next = behind_return n q cs (ground arith) in
      rw cr (record { sound = next.sound; lower = omega (arith, next.lower) })
]

skip_line-Counts : (q : Query) (bs : Bytes) → Counts q bs (skip_line q bs)
unfolding skip_line
skip_line-Counts q [] = Counts-none q []
skip_line-Counts q (c ∷ cs) =
    elim (Bool-cases (ltb q.header_size max_header && not (c == 13 || c == 10))) [
      | inl more ↦
          rw more (Counts-count c q cs (skip_line (count q) cs) (skip_line-Counts (count q) cs))
      | inr last ↦ rw last (Counts-none q (c ∷ cs))
    ]

-- No byte is left, the header is too long, or the line ends.
abbrev AtEnd : Cursor → Type 0
AtEnd (q, []) = Unit
AtEnd (q, c ∷ cs) = (ltb q.header_size max_header && not (c == 13 || c == 10)) ≡ false

skip_line-AtEnd : (q : Query) (bs : Bytes) → AtEnd (skip_line q bs)
unfolding skip_line
skip_line-AtEnd q [] = tt
skip_line-AtEnd q (c ∷ cs) =
    elim (Bool-cases (ltb q.header_size max_header && not (c == 13 || c == 10))) [
      | inl more ↦ rw more (skip_line-AtEnd (count q) cs)
      | inr last ↦ rw last last
    ]

after_line-Lowers :
    (n left : ℕ) (q : Query) (rest : Bytes)
    → q.state ≡ skip_to_eoln
    → AtEnd (q, rest)
    → IsSound n skip_to_eoln q (length rest)
    → length rest ≤ left
    → 0 < left
    → LowersTo n (measure skip_to_eoln q.query_words left) (after_line q rest)
unfolding after_line
after_line-Lowers n left q [] st at h le pos_left = ground arith
after_line-Lowers n left q (c ∷ cs) st at h le pos_left =
    elim (Bool-cases (leb max_header q.header_size)) [
      | inl long ↦ rw long (ground arith)
      | inr short ↦
          let end : (c == 13 || c == 10) ≡ true = ground (arith, at, short) in
          let next = case_eoln-Lowers_end n c (goto eoln q) cs end (ground arith) in
          rw short (record { sound = next.sound; lower = omega (arith, next.lower) })
    ]

pub case_skip_to_eoln-Lowers :
    (n : ℕ) (q : Query) (bs : Bytes)
    → q.state ≡ skip_to_eoln
    → IsSound n skip_to_eoln q (length bs)
    → 0 < length bs
    → LowersTo n (measure skip_to_eoln q.query_words (length bs)) (case_skip_to_eoln q bs)
unfolding case_skip_to_eoln
case_skip_to_eoln-Lowers n q bs st h long =
    let r = skip_line q bs in
    let loop = skip_line-Counts q bs in
    let q' = record q { header_size = q.header_size + loop.passed } in
    let sound : IsSound n skip_to_eoln q' (length r.1) = ground (arith, loop.left) in
    let at : AtEnd (q', r.1) = subst (λ x. AtEnd (x, r.1)) loop.query_is (skip_line-AtEnd q bs) in
    subst (λ x. LowersTo n (measure skip_to_eoln q.query_words (length bs)) (after_line x r.1))
      (sym loop.query_is)
      (after_line-Lowers n (length bs) q' r.1 st at sound (omega (arith, loop.left)) long)

pub case_want_last_lf-Lowers :
    (n c : ℕ) (q : Query) (cs : Bytes)
    → IsSound n want_last_lf q (length (c ∷ cs))
    → LowersTo n
        (measure want_last_lf q.query_words (length (c ∷ cs)))
        (case_want_last_lf q (c ∷ cs))
unfolding case_want_last_lf
case_want_last_lf-Lowers n c q cs h = ground arith
