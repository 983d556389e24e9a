-- ===== src/Http/Query.antt =====
-- `struct hts_data` of src/net/net-http-server.h, as far as src/net/net-http-parse.c uses it. The bits
-- of `query_flags` are Booleans; `data_size` is `none` for -1; the fields `extra` are left out.
use mtbolt.Common.{
  ℕ, ◌+◌, Bool, true, false, Option, none, Bytes, replicate, set, ltb, if◌then◌else◌,
}

-- `enum hts_query_type`
pub data QueryType : Type 0 where
  no_query : QueryType
  head : QueryType
  get : QueryType
  post : QueryType
  options : QueryType
  bad_query : QueryType
  empty_query : QueryType

-- `enum http_query_parse_state`
pub data ParseState : Type 0 where
  start : ParseState
  read_to_space : ParseState
  read_to_colon : ParseState
  read_int : ParseState
  skip_spc : ParseState
  skip_to_eoln : ParseState
  skip_spc_to_eoln : ParseState
  eoln : ParseState
  want_lf : ParseState
  want_last_lf : ParseState
  line_start : ParseState
  fatal : ParseState
  done : ParseState

pub record Query : Type 0 where
  pub query_type : QueryType
  pub is_error : Bool
  pub has_host : Bool
  pub has_size : Bool
  pub has_connection : Bool
  pub keep_alive : Bool
  pub query_words : ℕ
  pub header_size : ℕ
  pub first_line_size : ℕ
  pub data_size : Option ℕ
  pub host_offset : ℕ
  pub host_size : ℕ
  pub uri_offset : ℕ
  pub uri_size : ℕ
  pub http_ver : ℕ
  pub wlen : ℕ
  pub word : Bytes
  pub state : ParseState
  pub query_seqno : ℕ

abbrev pub max_header : ℕ
max_header = 16384

abbrev pub http_v09 : ℕ
http_v09 = 9

abbrev pub http_v10 : ℕ
http_v10 = 0x100

abbrev pub http_v11 : ℕ
http_v11 = 0x101

-- the case `htqp_start`, in front of the fallthrough
abbrev pub new_query : Query → Query
new_query q = record {
  query_type = no_query;
  is_error = false;
  has_host = false;
  has_size = false;
  has_connection = false;
  keep_alive = false;
  query_words = 0;
  header_size = 0;
  first_line_size = 0;
  data_size = none;
  host_offset = 0;
  host_size = 0;
  uri_offset = 0;
  uri_size = 0;
  http_ver = 0;
  wlen = 0;
  word = replicate 16 0;
  state = read_to_space;
  query_seqno = q.query_seqno + 1;
}

abbrev pub goto : ParseState → Query → Query
goto s q = record q { state = s }

-- `D->query_flags |= QF_ERROR`, with the next state
abbrev pub refuse : ParseState → Query → Query
refuse s q = record q { state = s; is_error = true }

-- `if (D->wlen < 15) { D->word[D->wlen] = *ptr; } D->wlen++;`
abbrev pub push : ℕ → Query → Query
push c q = record q {
  word = if ltb q.wlen 15 then set q.word q.wlen c else q.word;
  wlen = q.wlen + 1;
}

-- `D->header_size++`
abbrev pub count : Query → Query
count q = record q { header_size = q.header_size + 1 }

-- The query and the bytes that are left.
abbrev pub Cursor : Type 0
Cursor = Query × Bytes
