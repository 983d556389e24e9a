-- ===== src/Http/Sound/Base.antt =====
-- What holds of a query between two cases of the switch, and the measure that every case lowers.
use mtbolt.Common.{
  ℕ, ◌+◌, ◌-◌, ◌*◌, ◌≤◌, ◌<◌, ◌≡◌, ◌⊎◌, Bool, true, ◌||◌, Option, none, some, length, ltb,
  if◌then◌else◌,
}
use mtbolt.Http.Query.{
  ParseState, start, read_to_space, read_to_colon, read_int, skip_spc, skip_to_eoln,
  skip_spc_to_eoln, eoln, want_lf, want_last_lf, line_start, fatal, done, Query, Cursor,
}

-- The words that were read, the flags of a header and the number, by the state.
abbrev pub Ready : ParseState → ℕ → Bool → Option ℕ → Type 0
Ready read_to_space words flag size = (words < 3) ⊎ ((8 ≤ words) × (flag ≡ true))
Ready skip_spc words flag size = ((0 < words) × (words < 3)) ⊎ (8 ≤ words)
Ready read_to_colon words flag size = 8 ≤ words
Ready line_start words flag size = 8 ≤ words
Ready read_int words flag size = (tt' : ℕ) × (size ≡ some tt')
Ready _ words flag size = Unit

-- The bytes of the request so far and those that are left are `n` together, unless it failed; a word
-- that is not at its end is not yet counted.
abbrev pub Counted : ParseState → ℕ → ℕ → Bool → ℕ → ℕ → Type 0
Counted start size wlen err left n = left ≡ n
Counted read_to_space size wlen err left n = size + wlen + left ≡ n
Counted read_to_colon size wlen err left n = size + wlen + left ≡ n
Counted fatal size wlen err left n = Unit
Counted done size wlen err left n = (err ≡ true) ⊎ (size + left ≡ n)
Counted _ size wlen err left n = size + left ≡ n

-- A number that fits an `int`.
unfoldable pub Small : Option ℕ → Type 0
Small none = Unit
Small (some tt') = tt' < 2147483648

pub record IsSound (n : ℕ) (s : ParseState) (q : Query) (left : ℕ) : Type 0 where
  pub ready : Ready s q.query_words (q.has_host || q.has_connection) q.data_size
  pub counted : Counted s q.header_size q.wlen q.is_error left n
  pub number : Small q.data_size
  pub word_size : length q.word ≡ 16
  pub uri : q.uri_offset + q.uri_size ≤ q.header_size
  pub host : q.host_offset + q.host_size ≤ q.header_size
  pub first_line : q.first_line_size ≤ q.header_size

-- How many cases may follow one another with no byte consumed.
abbrev pub rank : ParseState → ℕ → ℕ
rank start words = 11
rank read_to_space words = if ltb words 3 then 10 - 2 * words else 6
rank skip_spc words = if ltb words 3 then 11 - 2 * words else 7
rank read_int words = 6
rank skip_spc_to_eoln words = 5
rank line_start words = 5
rank eoln words = 4
rank want_lf words = 4
rank read_to_colon words = 4
rank skip_to_eoln words = 3
rank want_last_lf words = 2
rank fatal words = 1
rank done words = 0

abbrev pub measure : ParseState → ℕ → ℕ → ℕ
measure s words left = rank s words + 12 * left

-- A sound query with a measure below a bound.
pub record Lowers (n bound : ℕ) (q : Query) (left : ℕ) : Type 0 where
  pub sound : IsSound n q.state q left
  pub lower : measure q.state q.query_words left < bound

abbrev pub LowersSome : ℕ → ℕ → Option Cursor → Type 0
LowersSome n bound none = ⊥
LowersSome n bound (some (q, rest)) = Lowers n bound q (length rest)

pub Small-some : (t : ℕ) → t < 2147483648 → Small (some t)
unfolding Small
Small-some t h = h

pub Small-elim : (t : ℕ) → Small (some t) → t < 2147483648
unfolding Small
Small-elim t h = h

pub Small-none : Small none
unfolding Small
Small-none = tt
