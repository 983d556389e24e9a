-- ===== src/Common/Parse.antt =====
-- A run of a parser over a buffer: it reads outside the buffer, is out of fuel, refuses the input,
-- or returns a value. `Ensures P r` leaves the first two out, so it states that the run is safe and
-- ends, and that what it returns satisfies `P`.
use Prim.Native.Nat.{ℕ, ◌+◌, ◌≤◌, ◌<◌}
use mathlib.Core.Bool.{Bool, true, false}
use mathlib.Core.Path.{◌≡◌, refl, subst}
use mathlib.Core.Option.{none, some}
use native.Mathlib.Omega.{arith}
use mtbolt.Common.Tests.{ltb, leb, le→leb, if◌then◌else◌}
use mtbolt.Common.Lists.{Bytes, length, get_elem?, get_or, get_elem?-eq-get_or, take, drop}

pub data Parse {ℓ} (A : Type ℓ) : Type ℓ where
  ok : A → Parse A
  reject : Parse A
  fault : Parse A
  out_of_fuel : Parse A

infixl 5 ◌>>=◌ ◌>>◌
abbrev pub ◌>>=◌ {ℓ κ} : {A : Type ℓ} {B : Type κ} → Parse A → (A → Parse B) → Parse B
ok a >>= f = f a
reject >>= f = reject
fault >>= f = fault
out_of_fuel >>= f = out_of_fuel

abbrev pub ◌>>◌ {ℓ} : {B : Type ℓ} → Parse (Unit {0}) → Parse B → Parse B
m >> k = m >>= λ _. k

unfoldable pub reject_if : Bool → Parse (Unit {0})
reject_if true = reject
reject_if false = ok tt

-- `data[i]`
unfoldable pub read : Bytes → ℕ → Parse ℕ
read data' i = elim (get_elem? data' i) [ none ↦ fault | some b ↦ ok b ]

-- the `n` bytes from `data + i` on, for `memcmp` and `memcpy`
unfoldable pub fetch : Bytes → ℕ → ℕ → Parse Bytes
fetch data' i n = if leb (i + n) (length data') then ok (take n (drop i data')) else fault

pub data Ensures {ℓ κ} {A : Type ℓ} (P : A → Type κ) : Parse A → Type (ℓ ⊔ κ) where
  returns : {a : A} → P a → Ensures P (ok a)
  rejects : Ensures P reject

module _ {ℓ κ μ} {A : Type ℓ} {B : Type κ} {P : A → Type μ} where
  pub Ensures-bind {ν} :
      {Q : B → Type ν} {m : Parse A} {f : A → Parse B}
      → Ensures P m
      → ((a : A) → P a → Ensures Q (f a))
      → Ensures Q (m >>= f)
  Ensures-bind (returns {a} p) k = k a p
  Ensures-bind rejects k = rejects

-- A run that ensures `P` is neither a fault nor out of fuel, and its value satisfies `P`.
pub Ensures-ok {ℓ κ} :
    {A : Type ℓ} {P : A → Type κ} {r : Parse A} {a : A} → Ensures P r → r ≡ ok a → P a
Ensures-ok {P} (returns p) e = subst P (cc) p
Ensures-ok rejects e = cc

pub Ensures-mono {ℓ κ μ} :
    {A : Type ℓ} {P : A → Type κ} {Q : A → Type μ} {r : Parse A}
    → Ensures P r
    → ((a : A) → P a → Q a)
    → Ensures Q r
Ensures-mono (returns {a} p) k = returns (k a p)
Ensures-mono rejects k = rejects

-- After a guard the rest may rely on the test having failed.
pub Ensures-reject_if {ℓ κ} :
    {B : Type ℓ} {Q : B → Type κ} (b : Bool) {k : Parse B}
    → (b ≡ false → Ensures Q k)
    → Ensures Q (reject_if b >> k)
unfolding reject_if
Ensures-reject_if true h = rejects
Ensures-reject_if false h = h refl

pub read-ok : (xs : Bytes) (i : ℕ) → i < length xs → read xs i ≡ ok (get_or xs i 0)
unfolding read
read-ok xs i h = rw (get_elem?-eq-get_or xs i 0 h, read)

pub fetch-ok : (xs : Bytes) (i n : ℕ) → i + n ≤ length xs → fetch xs i n ≡ ok (take n (drop i xs))
unfolding fetch
fetch-ok xs i n h = rw (le→leb _ _ h)

-- A read inside the buffer is safe.
pub Ensures-read :
    (xs : Bytes) (i : ℕ) → i < length xs → Ensures (λ b. b ≡ get_or xs i 0) (read xs i)
Ensures-read xs i h = rw (read-ok xs i h) (returns refl)

pub Ensures-fetch :
    (xs : Bytes) (i n : ℕ)
    → i + n ≤ length xs
    → Ensures (λ b. b ≡ take n (drop i xs)) (fetch xs i n)
Ensures-fetch xs i n h = rw (fetch-ok xs i n h) (returns refl)

-- A guard that stands alone.
pub Ensures-guard : (b : Bool) → Ensures (λ _. b ≡ false) (reject_if b)
unfolding reject_if
Ensures-guard true = rejects
Ensures-guard false = returns refl

pub Ensures-if {ℓ κ} :
    {B : Type ℓ} {Q : B → Type κ} (b : Bool) {x y : Parse B}
    → (b ≡ true → Ensures Q x)
    → (b ≡ false → Ensures Q y)
    → Ensures Q (if b then x else y)
Ensures-if true p q = p refl
Ensures-if false p q = q refl

-- `CHECK_LENGTH` at a position that is inside.
pub reject_if-le : (a b : ℕ) → a ≤ b → reject_if (ltb b a) ≡ ok tt
unfolding reject_if
reject_if-le a b h = ground arith

-- A branch whose other side must not run.
pub Ensures-elim {ℓ κ} :
    {B : Type ℓ} {Q : B → Type κ} (b : Bool) {x y : Parse B}
    → (b ≡ true → Ensures Q x)
    → (b ≡ false → Ensures Q y)
    → Ensures Q (elim b [ true ↦ x | false ↦ y ])
Ensures-elim true p q = p refl
Ensures-elim false p q = q refl
