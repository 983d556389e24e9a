-- ===== src/Http/Tests.antt =====
-- Requests that are parsed as src/net/net-http-parse.c parses them.
use mtbolt.Common.{
  ℕ, ◌≡◌, refl, arith, Bool, false, Option, none, some, [], ◌∷◌, Bytes, replicate, eq_bytes, ◌++◌,
}
use mtbolt.Common.Text.{codes}
use mtbolt.Http.Query.{Query, start, no_query, get, QueryType}
use mtbolt.Http.Parser.{Run, stopped, switch, http_parse_data}
use mtbolt.Http.Sound.Base.{Small-none}
use mtbolt.Http.Total.{Stops, http_parse_data-Stops}

abbrev fresh : Query
fresh = record {
  query_type = no_query;
  is_error = false;
  has_host = false;
  has_size = false;
  has_connection = false;
  keep_alive = false;
  query_words = 0;
  header_size = 0;
  first_line_size = 0;
  data_size = none;
  host_offset = 0;
  host_size = 0;
  uri_offset = 0;
  uri_size = 0;
  http_ver = 0;
  wlen = 0;
  word = replicate 16 0;
  state = start;
  query_seqno = 0;
}

abbrev line_end : Bytes
line_end = 13 ∷ 10 ∷ []

abbrev request : Bytes
request =
    codes "GET /stats HTTP/1.1"
    ++ (line_end ++ (codes "Host: a.b" ++ (line_end ++ (line_end ++ codes "X"))))

abbrev Summary : Type 0
Summary = QueryType × Bool × ℕ × ℕ × ℕ × ℕ × Bytes

abbrev summary : Run → Option Summary
summary (stopped q rest) =
    some (q.query_type, q.is_error, q.header_size, q.uri_offset, q.uri_size, q.host_size, rest)
summary _ = none

request-parsed : summary (http_parse_data fresh request) ≡ some (get, false, 34, 4, 6, 3, codes "X")
unfolding http_parse_data switch eq_bytes
request-parsed = refl

http_parse_data-Stops_example : Stops 35 (http_parse_data fresh request)
http_parse_data-Stops_example = http_parse_data-Stops 35 fresh request (record {
  ready = tt;
  counted = refl;
  number = Small-none;
  word_size = refl;
  uri = omega arith;
  host = omega arith;
  first_line = omega arith;
})
