-- ===== src/Http/Total.antt =====
-- The parser of src/net/net-http-parse.c stops, with a sound query.
use mtbolt.Common.{
  ℕ, zero, suc, ◌+◌, ◌*◌, ◌<◌, ◌≡◌, ◌⊎◌, inl, inr, refl, arith, true, false, Option, none, some, [],
  ◌∷◌, length, Bytes,
}
use mtbolt.Http.Query.{
  ParseState, start, read_to_space, read_to_colon, read_int, skip_spc, skip_to_eoln,
  skip_spc_to_eoln, eoln, want_lf, want_last_lf, line_start, fatal, done, Query, Cursor, new_query,
}
use mtbolt.Common.{Bool-cases}
use mtbolt.Http.Words.{case_read_to_space}
use mtbolt.Http.Parser.{switch, Run, out_of_fuel, abort, stopped, is_done, run, http_parse_data}
use mtbolt.Http.Sound.Base.{IsSound, LowersSome, measure, Small-none}
use mtbolt.Http.Sound.Word.{case_read_to_space-Lowers}
use mtbolt.Http.Sound.Space.{case_skip_spc-Lowers, case_skip_spc-Lowers_eoln}
use mtbolt.Http.Sound.Name.{case_read_to_colon-Lowers, case_read_int-Lowers}
use mtbolt.Http.Sound.Line.{
  case_line_start-Lowers_cons, case_want_lf-Lowers, case_eoln-Lowers, case_skip_to_eoln-Lowers,
  case_want_last_lf-Lowers,
}

-- The parser stops at the end of the data or of the request; no assertion fails and the fuel suffices.
abbrev pub Stops : ℕ → Run → Type 0
Stops n out_of_fuel = ⊥
Stops n abort = ⊥
Stops n (stopped q rest) = IsSound n q.state q (length rest) × ((rest ≡ []) ⊎ (q.state ≡ done))

new_query-IsSound :
    (n left : ℕ) (q : Query) → IsSound n start q left → IsSound n read_to_space (new_query q) left
new_query-IsSound n left q h = record {
  ready = inl (omega arith);
  counted = omega (arith, h.counted);
  number = Small-none;
  word_size = refl;
  uri = omega arith;
  host = omega arith;
  first_line = omega arith;
}

done-only : (s : ParseState) → is_done s ≡ true → s ≡ done
unfolding is_done
done-only s h =
    elim s as (λ k. is_done k ≡ true → k ≡ done) [ done ↦ λ e. refl | _ ↦ λ e. ground (arith, e) ] h

rank-le : (s : ParseState) (words left : ℕ) → measure s words left < 12 * left + 12
rank-le start words left = ground arith
rank-le read_to_space words left = ground arith
rank-le read_to_colon words left = ground arith
rank-le read_int words left = ground arith
rank-le skip_spc words left = ground arith
rank-le skip_to_eoln words left = ground arith
rank-le skip_spc_to_eoln words left = ground arith
rank-le eoln words left = ground arith
rank-le want_lf words left = ground arith
rank-le want_last_lf words left = ground arith
rank-le line_start words left = ground arith
rank-le fatal words left = ground arith
rank-le done words left = ground arith

raise :
    (n left : ℕ) (o : Option Cursor)
    → LowersSome n (measure read_to_space 0 left) o
    → LowersSome n (measure start 0 left) o
raise n left none h = h
raise n left (some (q, rest)) h = record { sound = h.sound; lower = omega (arith, h.lower) }

switch-Lowers :
    (n c : ℕ) (s : ParseState) (q : Query) (cs : Bytes)
    → is_done s ≡ false
    → q.state ≡ s
    → IsSound n s q (length (c ∷ cs))
    → LowersSome n (measure s q.query_words (length (c ∷ cs))) (switch s q (c ∷ cs))
unfolding switch is_done
switch-Lowers n c start q cs going st h =
    let next =
      case_read_to_space-Lowers n (new_query q) (c ∷ cs) refl
        (new_query-IsSound n (length (c ∷ cs)) q h) (omega arith) in
    raise n (length (c ∷ cs)) (case_read_to_space (new_query q) (c ∷ cs)) next
switch-Lowers n c read_to_space q cs going st h =
    case_read_to_space-Lowers n q (c ∷ cs) st h (omega arith)
switch-Lowers n c skip_spc q cs going st h = case_skip_spc-Lowers n q (c ∷ cs) st h (omega arith)
switch-Lowers n c skip_spc_to_eoln q cs going st h =
    case_skip_spc-Lowers_eoln n q (c ∷ cs) st h (omega arith)
switch-Lowers n c read_to_colon q cs going st h =
    case_read_to_colon-Lowers n q (c ∷ cs) st h (omega arith)
switch-Lowers n c read_int q cs going st h = case_read_int-Lowers n q (c ∷ cs) st h (omega arith)
switch-Lowers n c skip_to_eoln q cs going st h =
    case_skip_to_eoln-Lowers n q (c ∷ cs) st h (omega arith)
switch-Lowers n c eoln q cs going st h = case_eoln-Lowers n c q cs h
switch-Lowers n c want_lf q cs going st h = case_want_lf-Lowers n c q cs h
switch-Lowers n c line_start q cs going st h = case_line_start-Lowers_cons n c q cs h
switch-Lowers n c want_last_lf q cs going st h = case_want_last_lf-Lowers n c q cs h
switch-Lowers n c fatal q cs going st h = ground arith
switch-Lowers n c done q cs going st h = ground (arith, going)

run-Stops :
    (n fuel : ℕ) (q : Query) (bs : Bytes)
    → IsSound n q.state q (length bs)
    → measure q.state q.query_words (length bs) < fuel
    → Stops n (run fuel q bs)
unfolding run is_done
run-Stops n fuel q [] h le = (h, inl refl)
run-Stops n zero q (c ∷ cs) h le = omega (arith, le)
run-Stops n (suc fuel) q (c ∷ cs) h le = elim (Bool-cases (is_done q.state)) [
  | inl end ↦ rw end (h, inr (done-only q.state end))
  | inr going ↦ rw going (
      next (λ q' rest s l. run-Stops n fuel q' rest s (omega (arith, le, l)))
        (switch q.state q (c ∷ cs)) (switch-Lowers n c q.state q cs going refl h))
]
  where
    next :
        ((q' : Query) (rest : Bytes)
          → IsSound n q'.state q' (length rest)
          → measure q'.state q'.query_words (length rest)
            < measure q.state q.query_words (length (c ∷ cs))
          → Stops n (run fuel q' rest))
        → (o : Option Cursor) → LowersSome n (measure q.state q.query_words (length (c ∷ cs))) o
        → Stops n (elim o [ none ↦ abort | some (q', rest) ↦ run fuel q' rest ])
    next again none e = e
    next again (some (q', rest)) e = again q' rest e.sound e.lower

-- From a sound query, such as a new one or one that an earlier call left, the parser stops, with no
-- failed assertion, at the end of the data or of a request, and leaves a sound query: its offsets
-- lie within the header, the bytes that it counted are those it consumed unless the request failed,
-- and the content length fits an int.
pub http_parse_data-Stops :
    (n : ℕ) (q : Query) (bs : Bytes)
    → IsSound n q.state q (length bs)
    → Stops n (http_parse_data q bs)
unfolding http_parse_data
http_parse_data-Stops n q bs h =
    run-Stops n (12 * length bs + 12) q bs h (rank-le q.state q.query_words (length bs))
