-- ===== src/Tls/Read.antt =====
-- `tls_read_length`: a two-byte big-endian length, with the position behind it.
use mtbolt.Common.{ℕ, ◌+◌, ◌*◌, ◌/◌, ◌%◌, ◌≤◌, ◌≡◌, ap, arith, [], ◌∷◌, ◌++◌, Bytes, length, get_or}
use mtbolt.Common.Parse.{Parse, ok, ◌>>=◌, read, read-ok}
use mtbolt.Common.Suffix.{At, At-read, At-append}

unfoldable pub read_length : Bytes → ℕ → Parse (ℕ × ℕ)
read_length data' pos = do
  hi ← read data' pos
  lo ← read data' (pos + 1)
  ok (hi * 256 + lo, pos + 2)

-- the length at a position inside the buffer
abbrev pub length_at : Bytes → ℕ → ℕ
length_at data' pos = get_or data' pos 0 * 256 + get_or data' (pos + 1) 0

pub read_length-ok :
    (xs : Bytes) (pos : ℕ)
    → pos + 2 ≤ length xs
    → read_length xs pos ≡ ok (length_at xs pos, pos + 2)
unfolding read_length
read_length-ok xs pos h =
    rw (read-ok xs pos (omega arith)) (rw (read-ok xs (pos + 1) (omega arith)))

-- The two bytes of a length.
abbrev pub u16 : ℕ → Bytes
u16 n = n / 256 ∷ n % 256 ∷ []

pub At-read_length :
    (xs : Bytes) (pos n : ℕ) (rest : Bytes)
    → At xs pos (u16 n ++ rest)
    → (read_length xs pos ≡ ok (n, pos + 2)) × At xs (pos + 2) rest
unfolding read_length
At-read_length xs pos n rest h =
    let hi = At-read xs pos (n / 256) h in
    let lo = At-read xs (pos + 1) (n % 256) hi.1 in
    (rw (hi.0, lo.0) (ap (λ k. ok (k, pos + 2)) (omega arith)), At-append xs pos (u16 n) rest h)
