-- ===== src/Http/Words.antt =====
-- The words, names and numbers of a request: cases of the switch of `http_parse_data` of src/net/net-http-parse.c. A case takes
-- the query and the bytes left, and returns both; `none` is a failed assertion. `char` is signed.
use mtbolt.Common.{
  ℕ, ◌+◌, ◌-◌, ◌*◌, ◌/◌, Bool, true, false, not, ◌&&◌, ◌||◌, Option, none, some, [], ◌∷◌, map,
  Bytes, length, take, ltb, leb, ◌==◌, if◌then◌else◌, eq_bytes,
}
use mtbolt.Common.Text.{codes}
use mtbolt.Http.Query.{
  QueryType, head, get, post, options, bad_query, ParseState, read_to_space, read_int, skip_spc,
  skip_to_eoln, skip_spc_to_eoln, eoln, fatal, Query, max_header, http_v09, http_v10, http_v11,
  goto, refuse, push, count, Cursor,
}

-- `while (ptr < ptr_e && (unsigned char) *ptr > ' ')`
unfoldable pub read_word : Query → Bytes → Cursor
read_word q [] = (q, [])
read_word q (c ∷ cs) = let rest = read_word (push c q) cs in if ltb 32 c then rest else (q, c ∷ cs)

-- the method, by the first word
unfoldable pub method : ℕ → Bytes → QueryType
method wlen word =
    if wlen == 3 && eq_bytes (take 3 word) (codes "GET")
    then get
    else (if wlen == 4 && eq_bytes (take 4 word) (codes "HEAD")
        then head
        else (if wlen == 4 && eq_bytes (take 4 word) (codes "POST")
            then post
            else (if wlen == 7 && eq_bytes (take 7 word) (codes "OPTIONS")
                then options
                else bad_query)))

unfoldable pub is_bad : QueryType → Bool
is_bad bad_query = true
is_bad _ = false

unfoldable pub end_method : Query → Query
unfolding method is_bad
end_method q =
    let t = method q.wlen q.word in
    if is_bad t
    then refuse skip_to_eoln (record q { query_type = t })
    else record q { query_type = t; state = skip_spc }

unfoldable pub end_uri : Query → Query
end_uri q =
    let q' = record q { uri_offset = q.header_size; uri_size = q.wlen; state = skip_spc } in
    if q.wlen == 0 then refuse skip_to_eoln q' else q'

unfoldable pub end_version : Query → Query
end_version q =
    if q.wlen == 0
    then record q { http_ver = http_v09; state = skip_spc_to_eoln }
    else (if not (q.wlen == 8)
        then refuse skip_to_eoln q
        else (if eq_bytes (take 8 q.word) (codes "HTTP/1.0")
            then record q { http_ver = http_v10; state = skip_spc_to_eoln }
            else (if eq_bytes (take 8 q.word) (codes "HTTP/1.1")
                then record q { http_ver = http_v11; state = skip_spc_to_eoln }
                else refuse skip_to_eoln q)))

abbrev pub lower : ℕ → ℕ
lower c = if leb 65 c && leb c 90 then c + 32 else c

-- `D->wlen == n && !strncasecmp (D->word, name, n)`
unfoldable pub word_is : Bytes → Query → Bool
word_is name q = q.wlen == length name && eq_bytes (map lower (take (length name) q.word)) name

-- the value of the header Host or Connection
unfoldable pub end_value : Query → Query
unfolding word_is
end_value q =
    let q' =
      if q.wlen == 0
      then q
      else (if q.has_host
          then record q { host_offset = q.header_size; host_size = q.wlen }
          else (if word_is (codes "keep-alive") q then record q { keep_alive = true } else q)) in
    record q' { has_host = false; has_connection = false; state = skip_spc_to_eoln }

-- The end of a word; `none` where the assertion on the flags fails.
unfoldable pub end_word : Query → Option Query
unfolding end_method end_uri end_version end_value
end_word q =
    let q' = record q { query_words = q.query_words + 1 } in
    if q'.query_words == 1
    then some (end_method q')
    else (if q'.query_words == 2
        then some (end_uri q')
        else (if q'.query_words == 3
            then some (end_version q')
            else (if q.has_host || q.has_connection then some (end_value q') else none)))

-- `D->header_size += D->wlen`
abbrev pub add_word : Query → Query
add_word q = record q { header_size = q.header_size + q.wlen }

-- the case `htqp_readtospace` behind its loop
unfoldable pub after_word : Query → Bytes → Option Cursor
unfolding end_word
after_word q rest = if ltb 4096 q.wlen then some (goto fatal q, rest) else elim rest [
  | [] ↦ some (q, [])
  | ◌∷◌ c cs ↦ elim (end_word q) [ none ↦ none | some q' ↦ some (add_word q', c ∷ cs) ]
]

unfoldable pub case_read_to_space : Query → Bytes → Option Cursor
unfolding read_word after_word
case_read_to_space q bs = let r = read_word q bs in after_word r.0 r.1

-- the loop of `htqp_skipspc` and `htqp_skipspctoeoln`
unfoldable pub skip_spaces : Query → Bytes → Cursor
skip_spaces q [] = (q, [])
skip_spaces q (c ∷ cs) =
    let rest = skip_spaces (count q) cs in
    if ltb q.header_size max_header && (c == 32 || (c == 9 && leb 8 q.query_words))
    then rest
    else (q, c ∷ cs)

-- what comes behind the spaces; `none` where the assertion on the words fails
unfoldable pub next_word : Query → Option Query
next_word q =
    if ltb q.query_words 3
    then some (record q { wlen = 0; state = read_to_space })
    else (if ltb q.query_words 4
        then none
        else (if q.has_size
            then elim q.data_size [
              | some n ↦ some (refuse skip_to_eoln q)
              | none ↦ some (record q { state = read_int; data_size = some 0 })
            ]
            else (if q.has_host || q.has_connection
                then some (record q { wlen = 0; state = read_to_space })
                else some (goto skip_to_eoln q))))

unfoldable pub is_spc_to_eoln : ParseState → Bool
is_spc_to_eoln skip_spc_to_eoln = true
is_spc_to_eoln _ = false

unfoldable pub after_spaces : Query → Bytes → Option Cursor
unfolding next_word is_spc_to_eoln
after_spaces q rest =
    if leb max_header q.header_size then some (goto fatal q, rest) else elim rest [
      | [] ↦ some (q, [])
      | ◌∷◌ c cs ↦
          if is_spc_to_eoln q.state
          then some (goto eoln q, c ∷ cs)
          else elim (next_word q) [ none ↦ none | some q' ↦ some (q', c ∷ cs) ]
    ]

unfoldable pub case_skip_spc : Query → Bytes → Option Cursor
unfolding skip_spaces after_spaces
case_skip_spc q bs = let r = skip_spaces q bs in after_spaces r.0 r.1

-- `while (ptr < ptr_e && *ptr != ':' && *ptr > ' ')`
unfoldable pub read_name : Query → Bytes → Cursor
read_name q [] = (q, [])
read_name q (c ∷ cs) =
    let rest = read_name (push c q) cs in
    if not (c == 58) && (ltb 32 c && ltb c 128) then rest else (q, c ∷ cs)

unfoldable pub end_name : Query → Query
unfolding word_is
end_name q =
    if word_is (codes "host") q
    then record q { has_host = true }
    else (if word_is (codes "connection") q
        then record q { has_connection = true }
        else (if word_is (codes "content-length") q
            then record q { has_size = true }
            else record q { has_host = false; has_size = false; has_connection = false }))

unfoldable pub after_name : Query → Bytes → Cursor
unfolding end_name
after_name q rest = if ltb 4096 q.wlen then (goto fatal q, rest) else elim rest [
  | [] ↦ (q, [])
  | ◌∷◌ c cs ↦ if not (c == 58) then (refuse skip_to_eoln (add_word q), c ∷ cs) else (
    record (end_name q) { header_size = q.header_size + (q.wlen + 1); state = skip_spc },
    cs,
  )
]

unfoldable pub case_read_to_colon : Query → Bytes → Cursor
unfolding read_name after_name
case_read_to_colon q bs = let r = read_name q bs in after_name r.0 r.1

-- the loop of `htqp_readint`; `tt` is the number so far
unfoldable pub read_digits : ℕ → Query → Bytes → Cursor
read_digits tt q [] = (record q { data_size = some tt }, [])
read_digits tt q (c ∷ cs) =
    let rest = read_digits (tt * 10 + (c - 48)) (record (count q) { has_size = false }) cs in
    if leb 48 c && leb c 57
    then (if leb (0x7fffffff / 10) tt
        then (refuse skip_to_eoln (record q { data_size = some tt }), c ∷ cs)
        else rest)
    else (record q { data_size = some tt }, c ∷ cs)

unfoldable pub after_digits : Query → Bytes → Cursor
after_digits q rest = elim rest [
  | [] ↦ (q, [])
  | ◌∷◌ c cs ↦ (if q.has_size then refuse skip_to_eoln q else goto skip_spc_to_eoln q, c ∷ cs)
]

-- `data_size` is not -1 here; where it is, `none`.
unfoldable pub case_read_int : Query → Bytes → Option Cursor
unfolding read_digits after_digits
case_read_int q bs = elim q.data_size [
  | none ↦ none
  | some tt ↦ let r = read_digits tt q bs in some (after_digits r.0 r.1)
]
