-- ===== src/Common/Text.antt =====
-- String literals of C as lists of bytes, and the library's string functions on strings that are
-- their bytes in front of the terminating zero.
use Prim.Native.Char.{code}
use Prim.Native.String.{String}
use Prim.Native.Nat.{ℕ}
use mathlib.Core.Bool.{Bool}
use mathlib.Core.Option.{Option, none, some}
use mathlib.Core.List.{[], ◌∷◌}
use mtbolt.Common.Tests.{◌==◌, if◌then◌else◌}
use mtbolt.Common.Lists.{Bytes, eq_bytes, length, take}

-- `String` has its own `[]` and `∷`.
abbrev pub codes : String → Bytes
codes String.[] = []
codes (String.◌∷◌ c s) = code c ∷ codes s

-- The string that a buffer holds: what stands before its first zero.
unfoldable pub c_string : Bytes → Bytes
c_string [] = []
c_string (b ∷ bs) = if b == 0 then [] else b ∷ c_string bs

-- `strncmp (s, t, n) == 0`, where `t` has `n` bytes
abbrev pub starts_with : Bytes → Bytes → Bool
starts_with s t = eq_bytes (take (length t) s) t

-- `strchr`: what stands in front of the character, and behind it
unfoldable pub split_at : ℕ → Bytes → Option (Bytes × Bytes)
split_at c [] = none
split_at c (b ∷ bs) =
    let rest = split_at c bs in
    if b == c then some ([], bs) else elim rest [ none ↦ none | some r ↦ some (b ∷ r.0, r.1) ]
