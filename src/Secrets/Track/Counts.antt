-- ===== src/Secrets/Track/Counts.antt =====
-- The connections of an address in the table of src/net/net-tcp-rpc-ext-server.c, and how a change of
-- one entry changes their number.
use mtbolt.Common.{
  ℕ, ◌+◌, ◌≡◌, inl, inr, refl, arith, Bool, true, not, ◌&&◌, List, [], ◌∷◌, Bytes, ltb, ◌==◌,
  if◌then◌else◌, eq_bytes, eq_bytes_iff, Bool-cases, and_true, length,
}
use mtbolt.Secrets.Slot.{TrackedIp, zero_ipv6}
use mtbolt.Secrets.Track.{same, tracks}

abbrev pub indicator : Bool → ℕ
indicator b = if b then 1 else 0

-- The connections counted for an address.
unfoldable pub connections_from : ℕ → Bytes → List TrackedIp → ℕ
connections_from a b [] = 0
connections_from a b (e ∷ es) =
    (if tracks a b e then e.connections else 0) + connections_from a b es

-- The entries of an address.
unfoldable pub entries_of : ℕ → Bytes → List TrackedIp → ℕ
entries_of a b [] = 0
entries_of a b (e ∷ es) = indicator (tracks a b e) + entries_of a b es

-- The entries in use.
unfoldable pub live : List TrackedIp → ℕ
live [] = 0
live (e ∷ es) = indicator (ltb 0 e.connections) + live es

eq_of_test : (n : ℕ) → (n == 0) ≡ true → n ≡ 0
eq_of_test n h = ground arith

v6_parts :
    (x : ℕ) (y ipv6 : Bytes)
    → (x == 0 && (not (eq_bytes y zero_ipv6) && eq_bytes y ipv6)) ≡ true
    → (x ≡ 0) × (y ≡ ipv6)
v6_parts x y ipv6 h = elim (Bool-cases (x == 0)) [
  | inr nz ↦ absurd (ground (arith, h, nz))
  | inl z ↦ elim (Bool-cases (eq_bytes y ipv6)) [
    | inl e ↦ (eq_of_test x z, (eq_bytes_iff y ipv6).0 e)
    | inr ne ↦ absurd (ground (arith, h, ne, z))
  ]
]

-- An entry with a client's address has the address of the same clients.
pub same_trans :
    (ip : ℕ) (ipv6 : Bytes) (x : ℕ) (y : Bytes) (a : ℕ) (b : Bytes)
    → same ip ipv6 x y ≡ true
    → same a b x y ≡ same a b ip ipv6
unfolding same
same_trans ip ipv6 x y a b h = elim (Bool-cases (ip == 0)) [
  | inr v4 ↦
      let e : x ≡ ip = ground (arith, h, v4) in
      elim (Bool-cases (a == 0)) [ inl z ↦ rw (e, z, v4) refl | inr nz ↦ rw (e, nz) refl ]
  | inl v6 ↦
      let fields = v6_parts x y ipv6 (ground (arith, h, v6)) in
      rw (fields.0, fields.1, eq_of_test ip v6) refl
]

pub same_common :
    (ip : ℕ) (ipv6 : Bytes) (x : ℕ) (y : Bytes) (a : ℕ) (b : Bytes)
    → same a b ip ipv6 ≡ true
    → same a b x y ≡ true
    → same ip ipv6 x y ≡ true
unfolding same
same_common ip ipv6 x y a b h k = elim (Bool-cases (a == 0)) [
  | inr v4 ↦
      let e : ip ≡ a = ground (arith, h, v4) in
      let e' : x ≡ a = ground (arith, k, v4) in rw (e, e', v4) (ground arith)
  | inl v6 ↦
      let fields = v6_parts ip ipv6 b (ground (arith, h, v6)) in
      let k' : (x == 0 && (not (eq_bytes y zero_ipv6) && eq_bytes y b)) ≡ true =
        ground (arith, k, v6) in
      rw (fields.0, fields.1) k'
]

pub tracks_trans :
    (ip : ℕ) (ipv6 : Bytes) (a : ℕ) (b : Bytes) (e : TrackedIp)
    → same a b ip ipv6 ≡ true
    → tracks a b e ≡ true
    → tracks ip ipv6 e ≡ true
unfolding tracks
tracks_trans ip ipv6 a b e s h =
    let parts = and_true (ltb 0 e.connections) (same a b e.ip e.ipv6) h in
    rw (parts.0, same_common ip ipv6 e.ip e.ipv6 a b s parts.1) refl

-- the change of an entry's connections by `n` for the address of a client
pub record Moved (ip : ℕ) (ipv6 : Bytes) (es es' : List TrackedIp) (more fewer began ended : ℕ)
    : Type 0 where
  pub from :
      (a : ℕ) (b : Bytes)
      → connections_from a b es' + (if same a b ip ipv6 then fewer else 0)
        ≡ connections_from a b es + (if same a b ip ipv6 then more else 0)
  pub entries :
      (a : ℕ) (b : Bytes)
      → entries_of a b es' + (if same a b ip ipv6 then ended else 0)
        ≡ entries_of a b es + (if same a b ip ipv6 then began else 0)
  pub used : live es' + ended ≡ live es + began
  pub size : length es' ≡ length es

pub Moved-cons :
    (ip : ℕ) (ipv6 : Bytes) (e : TrackedIp) (es es' : List TrackedIp) (more fewer began ended : ℕ)
    → Moved ip ipv6 es es' more fewer began ended
    → Moved ip ipv6 (e ∷ es) (e ∷ es') more fewer began ended
unfolding connections_from entries_of live
Moved-cons ip ipv6 e es es' more fewer began ended h = record {
  from = λ a b. omega (arith, h.from a b);
  entries = λ a b. omega (arith, h.entries a b);
  used = omega (arith, h.used);
  size = omega (arith, h.size);
}
