-- ===== src/Http/Parser.antt =====
-- The switch and the loop of `http_parse_data` of src/net/net-http-parse.c.
use mtbolt.Common.{
  ℕ, zero, suc, ◌+◌, ◌*◌, Bool, true, false, Option, none, some, [], ◌∷◌, Bytes, length,
  if◌then◌else◌,
}
use mtbolt.Http.Query.{
  ParseState, start, read_to_space, read_to_colon, read_int, skip_spc, skip_to_eoln,
  skip_spc_to_eoln, eoln, want_lf, want_last_lf, line_start, fatal, done, Query, new_query, refuse,
  Cursor,
}
use mtbolt.Http.Words.{case_read_to_space, case_skip_spc, case_read_to_colon, case_read_int}
use mtbolt.Http.Lines.{
  case_skip_to_eoln, case_eoln, case_want_lf, case_line_start, case_want_last_lf,
}

-- the switch
unfoldable pub switch : ParseState → Query → Bytes → Option Cursor
unfolding case_read_to_space case_skip_spc case_read_to_colon case_read_int case_skip_to_eoln
    case_eoln case_want_lf case_line_start case_want_last_lf
switch start q bs = case_read_to_space (new_query q) bs
switch read_to_space q bs = case_read_to_space q bs
switch skip_spc q bs = case_skip_spc q bs
switch skip_spc_to_eoln q bs = case_skip_spc q bs
switch read_to_colon q bs = some (case_read_to_colon q bs)
switch read_int q bs = case_read_int q bs
switch skip_to_eoln q bs = some (case_skip_to_eoln q bs)
switch eoln q bs = some (case_eoln q bs)
switch want_lf q bs = some (case_want_lf q bs)
switch line_start q bs = some (case_line_start q bs)
switch want_last_lf q bs = some (case_want_last_lf q bs)
switch fatal q bs = some (refuse done q, bs)
switch done q bs = some (q, bs)

pub data Run : Type 0 where
  out_of_fuel : Run
  abort : Run
  stopped : Query → Bytes → Run

unfoldable pub is_done : ParseState → Bool
is_done done = true
is_done _ = false

-- `while (ptr < ptr_e && D->parse_state != htqp_done)`
unfoldable pub run : ℕ → Query → Bytes → Run
unfolding is_done
run fuel q [] = stopped q []
run zero q (c ∷ cs) = out_of_fuel
run (suc fuel) q (c ∷ cs) =
    if is_done q.state
    then stopped q (c ∷ cs)
    else elim (switch q.state q (c ∷ cs)) [ none ↦ abort | some (q', rest) ↦ run fuel q' rest ]

-- What is consumed is what stands before the bytes that are left.
unfoldable pub http_parse_data : Query → Bytes → Run
unfolding run
http_parse_data q bs = run (12 * length bs + 12) q bs
