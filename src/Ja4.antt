-- ===== src/Ja4.antt =====
-- The JA4 fingerprint of a ClientHello: ja4_parse of src/net/net-ja4.c. `Ja4.Fingerprint` is
-- ja4_compute, `Ja4.Table` counts the fingerprints.
pub mod Fingerprint
pub mod Safe
pub mod Print
pub mod Sorting
pub mod Table
pub mod Counts
pub mod Merge
pub mod Insertion
mod Tests
use Prim.Native.Nat.{bit_and}
use mtbolt.Common.{
  ℕ, zero, suc, ◌+◌, ◌-◌, ◌*◌, ◌/◌, ◌%◌, Bool, true, false, not, ◌&&◌, ◌||◌, List, [], ◌∷◌, ◌++◌,
  map, Bytes, length, get_or, take, ltb, leb, ◌==◌, if◌then◌else◌,
}
use mtbolt.Common.Text.{codes}
use mtbolt.Common.Parse.{Parse, ok, fault, out_of_fuel, ◌>>=◌, ◌>>◌, reject_if, read}

-- 0x0A0A, 0x1A1A and so on
abbrev pub is_grease_u16 : ℕ → Bool
is_grease_u16 v = (bit_and v 0x0F0F == 0x0A0A) && (bit_and (v / 256) 0xFF == bit_and v 0xFF)

unfoldable pub u16_be : Bytes → ℕ → Parse ℕ
u16_be ch i = do hi ← read ch i; lo ← read ch (i + 1); ok (hi * 256 + lo)

abbrev pub hex_digit : ℕ → ℕ
hex_digit d = if ltb d 10 then 48 + d else 87 + d

-- `%04x`
abbrev pub hex4 : ℕ → Bytes
hex4 v =
    hex_digit (v / 4096 % 16)
    ∷ hex_digit (v / 256 % 16)
    ∷ hex_digit (v / 16 % 16)
    ∷ hex_digit (v % 16)
    ∷ []

-- MAX_CIPHERS, MAX_EXTS and MAX_SIGALGS
abbrev pub max_entries : ℕ
max_entries = 64

-- snprintf (array[n], 5, "%04x", v), where the cells of the array are written in order
unfoldable pub write_entry : ℕ → ℕ → List Bytes → Parse (List Bytes)
write_entry n v array = if ltb n max_entries then ok (array ++ (hex4 v ∷ [])) else fault

-- Only what there is room for is written.
unfoldable pub put_entry : ℕ → ℕ → List Bytes → Parse (List Bytes)
unfolding write_entry
put_entry n v array = if ltb n max_entries then write_entry n v array else ok array

-- a loop that writes its values; `n` counts all of them
unfoldable pub put_all : List ℕ → List Bytes → ℕ → Parse (List Bytes × ℕ)
unfolding put_entry
put_all [] array n = ok (array, n)
put_all (v ∷ vs) array n = do array' ← put_entry n v array; put_all vs array' (n + 1)

-- if (n > max) { n = max; }
abbrev pub cap_entries : ℕ → ℕ
cap_entries n = if ltb max_entries n then max_entries else n

-- The caller reads n cells, which were written.
unfoldable pub first_entries : ℕ → List Bytes → Parse (List Bytes)
first_entries n array = if leb n (length array) then ok (take n array) else fault

-- What ja4_parse returns through its pointers. `exts` and `sigalgs` are the cells that were written.
pub record Inputs : Type 0 where
  pub tls_ver : ℕ × ℕ
  pub has_sni : Bool
  pub ciphers : List Bytes
  pub exts : List Bytes
  pub ext_n : ℕ
  pub ext_count_total : ℕ
  pub sigalgs : List Bytes
  pub sigalgs_n : ℕ
  pub alpn0_first : ℕ
  pub alpn0_last : ℕ

-- the values of n slots of two bytes
unfoldable pub u16_list : ℕ → Bytes → ℕ → Parse (List ℕ)
unfolding u16_be
u16_list zero ch pos = ok []
u16_list (suc n) ch pos = do v ← u16_be ch pos; vs ← u16_list n ch (pos + 2); ok (v ∷ vs)

abbrev pub without_grease : List ℕ → List ℕ
without_grease [] = []
without_grease (v ∷ vs) = let rest = without_grease vs in if is_grease_u16 v then rest else v ∷ rest

-- the digits of a version 0x0301 to 0x0304
abbrev pub version_digits : ℕ → ℕ × ℕ
version_digits minor = (49, 48 + (minor - 1))

-- from legacy_version
abbrev pub legacy_digits : ℕ → ℕ → ℕ × ℕ
legacy_digits major minor =
    if (major == 0x03) && (leb 1 minor && leb minor 4) then version_digits minor else (48, 48)

abbrev pub is_version : ℕ → Bool
is_version v = not (is_grease_u16 v) && ((v / 256 == 0x03) && (leb 1 (v % 256) && leb (v % 256) 4))

-- the greatest minor version of a list, and 0 where the code has -1
abbrev pub best_minor : ℕ → List ℕ → ℕ
best_minor best [] = best
best_minor best (v ∷ vs) =
    best_minor (if is_version v && ltb best (v % 256) then v % 256 else best) vs

abbrev pub is_even : ℕ → Bool
is_even n = n % 2 == 0

unfoldable pub supported_versions : Bytes → ℕ → ℕ → Inputs → Parse Inputs
unfolding u16_list
supported_versions ch pos ext_len s = do
  sv_list_len ← read ch pos
  elim (ltb 0 sv_list_len && (leb (sv_list_len + 1) ext_len && is_even sv_list_len)) [
    | true ↦ do
      vs ← u16_list (sv_list_len / 2) ch (pos + 1)
      let best = best_minor 0 vs
      ok (if leb 1 best then record s { tls_ver = version_digits best } else s)
    | false ↦ ok s
  ]

unfoldable pub signature_algorithms : Bytes → ℕ → ℕ → Inputs → Parse Inputs
unfolding u16_be u16_list put_all
signature_algorithms ch pos ext_len s = do
  sa_list_len ← u16_be ch pos
  elim (ltb 0 sa_list_len && (leb (sa_list_len + 2) ext_len && is_even sa_list_len)) [
    | true ↦ do
      vs ← u16_list (sa_list_len / 2) ch (pos + 2)
      (array, n) ← put_all vs s.sigalgs s.sigalgs_n
      ok (record s { sigalgs = array; sigalgs_n = n })
    | false ↦ ok s
  ]

unfoldable pub alpn : Bytes → ℕ → ℕ → ℕ → Inputs → Parse Inputs
unfolding u16_be
alpn ch pos ext_len ext_end s = do
  alpn_list_len ← u16_be ch pos
  elim (ltb 0 alpn_list_len && leb (alpn_list_len + 2) ext_len) [
    | true ↦ do
      first_len ← read ch (pos + 2)
      elim (ltb 0 first_len && leb (pos + 3 + first_len) ext_end) [
        | true ↦ do
          first ← read ch (pos + 3)
          last ← read ch (pos + 3 + first_len - 1)
          ok (record s { alpn0_first = first; alpn0_last = last })
        | false ↦ ok s
      ]
    | false ↦ ok s
  ]

-- the parts that depend on the extension's type
unfoldable pub extension_body : Bytes → ℕ → ℕ → ℕ → ℕ → Inputs → Parse Inputs
unfolding supported_versions signature_algorithms alpn
extension_body ch pos ext_type ext_len ext_end s = elim (ext_type == 0x0000) [
  | true ↦ ok (record s { has_sni = true })
  | false ↦ elim ((ext_type == 0x002b) && leb 1 ext_len) [
    | true ↦ supported_versions ch pos ext_len s
    | false ↦ elim ((ext_type == 0x000d) && leb 2 ext_len) [
      | true ↦ signature_algorithms ch pos ext_len s
      | false ↦ elim ((ext_type == 0x0010) && leb 3 ext_len) [
        | true ↦ alpn ch pos ext_len ext_end s
        | false ↦ ok s
      ]
    ]
  ]
]

-- SNI and ALPN are not among the entries
unfoldable pub add_ext : ℕ → Inputs → Parse Inputs
unfolding put_entry
add_ext ext_type s = elim ((ext_type == 0x0000) || (ext_type == 0x0010)) [
  | true ↦ ok s
  | false ↦ do
    array ← put_entry s.ext_n ext_type s.exts
    ok (record s { exts = array; ext_n = s.ext_n + 1 })
]

unfoldable pub extension : Bytes → ℕ → ℕ → ℕ → ℕ → Inputs → Parse Inputs
unfolding extension_body add_ext
extension ch pos ext_type ext_len ext_end s = elim (is_grease_u16 ext_type) [
  | true ↦ ok s
  | false ↦ do
    t ←
        extension_body ch pos ext_type ext_len ext_end
          (record s { ext_count_total = s.ext_count_total + 1 })
    add_ext ext_type t
]

-- the loop over the extensions
unfoldable pub ja4_extensions : ℕ → Bytes → ℕ → ℕ → Inputs → Parse Inputs
unfolding u16_be extension
ja4_extensions zero ch pos ext_end s = out_of_fuel
ja4_extensions (suc fuel) ch pos ext_end s = elim (leb (pos + 4) ext_end) [
  | false ↦ ok s
  | true ↦ do
    ext_type ← u16_be ch pos
    ext_len ← u16_be ch (pos + 2)
    reject_if (ltb ext_end (pos + 4 + ext_len))
    t ← extension ch (pos + 4) ext_type ext_len ext_end s
    ja4_extensions fuel ch (pos + 4 + ext_len) ext_end t
]

-- the caps behind the loops
unfoldable pub capped : Inputs → Parse Inputs
unfolding first_entries
capped s = do
  exts ← first_entries (cap_entries s.ext_n) s.exts
  sigalgs ← first_entries (cap_entries s.sigalgs_n) s.sigalgs
  ok (record s {
    exts = exts;
    ext_n = cap_entries s.ext_n;
    sigalgs = sigalgs;
    sigalgs_n = cap_entries s.sigalgs_n;
  })

unfoldable pub parse_extensions : Bytes → ℕ → ℕ → Inputs → Parse Inputs
unfolding u16_be ja4_extensions capped
parse_extensions ch len pos s = elim (ltb len (pos + 2)) [
  | true ↦ ok s
  | false ↦ do
    ext_total_len ← u16_be ch pos
    reject_if (ltb len (pos + 2 + ext_total_len))
    t ← ja4_extensions (len + 1) ch (pos + 2) (pos + 2 + ext_total_len) s
    capped t
]

unfoldable pub parse : Bytes → ℕ → Parse Inputs
unfolding u16_be u16_list put_all first_entries parse_extensions
parse ch len = do
  reject_if (ltb len 44)
  sid_len ← read ch 43
  reject_if (ltb len (44 + sid_len))
  let pos = 44 + sid_len
  major ← read ch 9
  minor ← read ch 10
  reject_if (ltb len (pos + 2))
  cs_len ← u16_be ch pos
  reject_if (not (is_even cs_len) || ltb len (pos + 2 + cs_len))
  vs ← u16_list (cs_len / 2) ch (pos + 2)
  (array, cipher_n) ← put_all (without_grease vs) [] 0
  ciphers ← first_entries (cap_entries cipher_n) array
  let pos' = pos + 2 + cs_len
  reject_if (ltb len (pos' + 1))
  comp_len ← read ch pos'
  reject_if (ltb len (pos' + 1 + comp_len))
  parse_extensions ch len (pos' + 1 + comp_len) (record {
    tls_ver = legacy_digits major minor;
    has_sni = false;
    ciphers = ciphers;
    exts = [];
    ext_n = 0;
    ext_count_total = 0;
    sigalgs = [];
    sigalgs_n = 0;
    alpn0_first = 0;
    alpn0_last = 0;
  })
