-- ===== src/Http/Lines.antt =====
-- The lines of a request: cases of the switch of `http_parse_data` of src/net/net-http-parse.c. A case takes
-- the query and the bytes left, and returns both; `none` is a failed assertion. `char` is signed.
use mtbolt.Common.{ℕ, ◌+◌, not, ◌&&◌, ◌||◌, [], ◌∷◌, Bytes, ltb, leb, ◌==◌, if◌then◌else◌}
use mtbolt.Http.Query.{
  read_to_colon, skip_to_eoln, eoln, want_lf, want_last_lf, line_start, fatal, done, Query,
  max_header, http_v09, goto, refuse, count, Cursor,
}

unfoldable pub case_line_start : Query → Bytes → Cursor
case_line_start q [] = (q, [])
case_line_start q (c ∷ cs) =
    let q' = record q {
      first_line_size = if q.first_line_size == 0 then q.header_size else q.first_line_size;
    } in
    if c == 13
    then (goto want_last_lf (count q'), cs)
    else (if c == 10
        then (goto want_last_lf q', c ∷ cs)
        else (if q.is_error
            then (goto skip_to_eoln q', c ∷ cs)
            else (record q' { wlen = 0; state = read_to_colon }, c ∷ cs)))

-- the case `htqp_wantlf` behind the test of the first line
unfoldable pub line_feed : ℕ → Query → Bytes → Cursor
unfolding case_line_start
line_feed c q cs =
    if leb q.http_ver http_v09
    then (goto want_last_lf q, c ∷ cs)
    else (if not (c == 10)
        then (refuse skip_to_eoln q, c ∷ cs)
        else case_line_start (goto line_start (count q)) cs)

unfoldable pub case_want_lf : Query → Bytes → Cursor
unfolding line_feed
case_want_lf q [] = (q, [])
case_want_lf q (c ∷ cs) =
    if ltb (q.query_words + 1) 8
    then (if q.is_error
        then (record q { query_words = 8; state = fatal }, c ∷ cs)
        else line_feed c (record q { query_words = 8 }) cs)
    else line_feed c (record q { query_words = q.query_words + 1 }) cs

unfoldable pub case_eoln : Query → Bytes → Cursor
unfolding case_want_lf
case_eoln q [] = (q, [])
case_eoln q (c ∷ cs) =
    if c == 13
    then case_want_lf (goto want_lf (count q)) cs
    else case_want_lf (goto want_lf q) (c ∷ cs)

-- `while (… && *ptr != '\r' && *ptr != '\n')`
unfoldable pub skip_line : Query → Bytes → Cursor
skip_line q [] = (q, [])
skip_line q (c ∷ cs) =
    let rest = skip_line (count q) cs in
    if ltb q.header_size max_header && not (c == 13 || c == 10) then rest else (q, c ∷ cs)

unfoldable pub after_line : Query → Bytes → Cursor
unfolding case_eoln
after_line q rest =
    if leb max_header q.header_size
    then (goto fatal q, rest)
    else elim rest [ [] ↦ (q, []) | ◌∷◌ c cs ↦ case_eoln (goto eoln q) (c ∷ cs) ]

unfoldable pub case_skip_to_eoln : Query → Bytes → Cursor
unfolding skip_line after_line
case_skip_to_eoln q bs = let r = skip_line q bs in after_line r.0 r.1

unfoldable pub case_want_last_lf : Query → Bytes → Cursor
case_want_last_lf q [] = (q, [])
case_want_last_lf q (c ∷ cs) =
    if not (c == 10)
    then (goto fatal q, c ∷ cs)
    else (let size = q.header_size + 1 in
        (
          record q {
            header_size = size;
            first_line_size = if q.first_line_size == 0 then size else q.first_line_size;
            state = done;
          },
          cs,
        ))
