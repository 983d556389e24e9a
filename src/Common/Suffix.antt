-- ===== src/Common/Suffix.antt =====
-- What stands in a buffer from a position on. A parser that walks a buffer built from pieces is
-- followed piece by piece: each lemma reads one and moves behind it.
use Prim.Native.Nat.{ℕ, zero, suc, ◌+◌}
use mathlib.Core.Path.{◌≡◌, refl, sym, ◌∙◌, ap}
use mathlib.Core.List.{[], ◌∷◌, ◌++◌}
use native.Mathlib.Omega.{arith}
use mtbolt.Common.Lists.{
  Bytes, length, take, drop, get_or, length-append, take-append_length, drop-append_length,
}
use mtbolt.Common.Parse.{ok, read, fetch, read-ok, fetch-ok}

abbrev pub At : Bytes → ℕ → Bytes → Type 0
At xs i rest = (drop i xs ≡ rest) × (i + length rest ≡ length xs)

pub At-start : (xs : Bytes) → At xs 0 xs
At-start xs = (refl, omega arith)

drop-nil : (n : ℕ) → drop {A = ℕ} n [] ≡ []
drop-nil zero = refl
drop-nil (suc n) = refl

drop-add : (xs : Bytes) (i j : ℕ) → drop (i + j) xs ≡ drop j (drop i xs)
drop-add xs zero j = let e : 0 + j ≡ j = omega arith in ap (λ k. drop k xs) e
drop-add [] (suc i) j = drop-nil (suc i + j) ∙ sym (drop-nil j)
drop-add (x ∷ xs) (suc i) j =
    let e : suc i + j ≡ suc (i + j) = omega arith in ap (λ k. drop k (x ∷ xs)) e ∙ drop-add xs i j

pub At-append :
    (xs : Bytes) (i : ℕ) (a rest : Bytes) → At xs i (a ++ rest) → At xs (i + length a) rest
At-append xs i a rest h = (
  drop-add xs i (length a) ∙ ap (drop (length a)) h.0 ∙ drop-append_length a rest (length a) refl,
  omega (arith, length-append a rest, h.1),
)

get_or-drop : (xs : Bytes) (i b : ℕ) (rest : Bytes) → drop i xs ≡ b ∷ rest → get_or xs i 0 ≡ b
get_or-drop [] zero b rest e = cc
get_or-drop [] (suc i) b rest e = cc
get_or-drop (x ∷ xs) zero b rest e = cc
get_or-drop (x ∷ xs) (suc i) b rest e = get_or-drop xs i b rest e

pub At-read :
    (xs : Bytes) (i b : ℕ) {rest : Bytes}
    → At xs i (b ∷ rest)
    → (read xs i ≡ ok b) × At xs (i + 1) rest
At-read xs i b {rest} h = (
  read-ok xs i (omega arith) ∙ ap ok (get_or-drop xs i b rest h.0),
  At-append xs i (b ∷ []) rest h,
)

pub At-fetch :
    (xs : Bytes) (i : ℕ) (a rest : Bytes) → At xs i (a ++ rest) → fetch xs i (length a) ≡ ok a
At-fetch xs i a rest h =
    fetch-ok xs i (length a) (omega (arith, length-append a rest, h.1))
    ∙ ap ok (ap (take (length a)) h.0 ∙ take-append_length a rest (length a) refl)
