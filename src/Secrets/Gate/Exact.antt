-- ===== src/Secrets/Gate/Exact.antt =====
-- The table of addresses of src/net/net-tcp-rpc-ext-server.c counts the open connections of each address.
use mtbolt.Common.{
  ℕ, zero, suc, ◌+◌, ◌≤◌, ◌≡◌, ◌⊎◌, inl, inr, refl, ◌∙◌, arith, Bool, true, false, List, [], ◌∷◌,
  ◌++◌, Bytes, if◌then◌else◌, Bool-cases, length, replicate, length-replicate,
}
use mtbolt.Secrets.Slot.{TrackedIp, Tracking, Slot, cleared, no_ip}
use mtbolt.Secrets.Track.{same, tracks, is_tracked, release_entry, ip_track_disconnect}
use mtbolt.Secrets.Track.Counts.{indicator, connections_from, entries_of, live, same_common}
use mtbolt.Secrets.Track.Loops.{release_entry-Moved}
use mtbolt.Secrets.Track.Connect.{entries-untracked, connections-tracked, Connected}

-- the address of an open connection
abbrev pub Client : Type 0
Client = ℕ × Bytes

-- The open connections of an address.
unfoldable pub opened : ℕ → Bytes → List Client → ℕ
opened a b [] = 0
opened a b (o ∷ os) = indicator (same a b o.0 o.1) + opened a b os

-- The tracking counts the open connections, address by address.
pub record IsExact (t : Tracking) (open_now : List Client) : Type 0 where
  pub unique : t.unique_ip_count ≡ live t.tracked_ips
  pub one : (a : ℕ) (b : Bytes) → entries_of a b t.tracked_ips ≤ 1
  pub from : (a : ℕ) (b : Bytes) → connections_from a b t.tracked_ips ≡ opened a b open_now
  pub size : length t.tracked_ips ≡ 256

zero_under : (k : Bool) → (if k then 0 else 0) ≡ zero
zero_under true = refl
zero_under false = refl

pub Connected-IsExact :
    (ip : ℕ) (ipv6 : Bytes) (t t' : Tracking) (os : List Client)
    → Connected ip ipv6 t t'
    → IsExact t os
    → IsExact t' ((ip, ipv6) ∷ os)
unfolding opened
Connected-IsExact ip ipv6 t t' os c h = record {
  unique = omega (arith, c.unique, c.moved.used, h.unique);
  one = λ a b. one-after a b (Bool-cases (same a b ip ipv6));
  from = λ a b. omega (arith, c.moved.from a b, h.from a b, zero_under (same a b ip ipv6));
  size = c.moved.size ∙ h.size;
}
  where
    one-after :
        (a : ℕ) (b : Bytes)
        → (same a b ip ipv6 ≡ true) ⊎ (same a b ip ipv6 ≡ false)
        → entries_of a b t'.tracked_ips ≤ 1
    one-after a b (inr other) =
        let e = c.moved.entries a b in omega (arith, h.one a b, (rw other at e))
    one-after a b (inl s) =
        let e = c.moved.entries a b in
        elim c.is_new [
          | inl old ↦ omega (arith, h.one a b, (rw s at e), old)
          | inr fresh ↦
              omega
                (arith, (rw s at e), fresh.0, entries-untracked ip ipv6 a b t.tracked_ips s fresh.1)
        ]

opened-append :
    (a : ℕ) (b : Bytes) (o : Client) (xs ys : List Client)
    → opened a b (xs ++ (o ∷ ys)) ≡ opened a b (xs ++ ys) + indicator (same a b o.0 o.1)
unfolding opened
opened-append a b o [] ys = omega arith
opened-append a b o (x ∷ xs) ys = omega (arith, opened-append a b o xs ys)

release_entry-untracked :
    (ip : ℕ) (ipv6 : Bytes) (es : List TrackedIp)
    → is_tracked ip ipv6 es ≡ false
    → release_entry ip ipv6 es ≡ (es, false)
unfolding is_tracked release_entry
release_entry-untracked ip ipv6 [] h = refl
release_entry-untracked ip ipv6 (e ∷ es) h = elim (Bool-cases (tracks ip ipv6 e)) [
  | inl t ↦ absurd (ground (arith, h, t))
  | inr f ↦ rw (f, release_entry-untracked ip ipv6 es (ground (arith, h, f))) refl
]

-- A client that is open and not in the table has no address, so it has none in common with any client.
untracked_alone :
    (ip : ℕ) (ipv6 : Bytes) (t : Tracking) (xs ys : List Client) (a : ℕ) (b : Bytes)
    → IsExact t (xs ++ ((ip, ipv6) ∷ ys))
    → is_tracked ip ipv6 t.tracked_ips ≡ false
    → same a b ip ipv6 ≡ false
untracked_alone ip ipv6 t xs ys a b h untracked = elim (Bool-cases (same a b ip ipv6)) [
  | inr f ↦ f
  | inl s ↦
      let own = same_common ip ipv6 ip ipv6 a b s s in
      let e = opened-append ip ipv6 (ip, ipv6) xs ys in
      let e' = (rw own at e) in
      absurd (
        ground (
          arith,
          untracked,
          connections-tracked ip ipv6 t.tracked_ips (omega (arith, h.from ip ipv6, e')),
        ))
]

pub release_entry-IsExact :
    (ip : ℕ) (ipv6 : Bytes) (s : Slot) (xs ys : List Client)
    → IsExact s.tracking (xs ++ ((ip, ipv6) ∷ ys))
    → IsExact (ip_track_disconnect ip ipv6 s).tracking (xs ++ ys)
unfolding ip_track_disconnect
release_entry-IsExact ip ipv6 s xs ys h =
    elim (Bool-cases (is_tracked ip ipv6 s.tracking.tracked_ips)) [
      | inl tracked ↦
          let m = release_entry-Moved ip ipv6 s.tracking.tracked_ips tracked in
          record {
            unique = omega (arith, m.used, h.unique);
            one = λ a b. omega (arith, m.entries a b, h.one a b, zero_under (same a b ip ipv6));
            from = λ a b. omega (
              arith,
              m.from a b,
              h.from a b,
              opened-append a b (ip, ipv6) xs ys,
              zero_under (same a b ip ipv6),
            );
            size = m.size ∙ h.size;
          }
      | inr untracked ↦
          rw (release_entry-untracked ip ipv6 s.tracking.tracked_ips untracked) (record {
            unique = omega (arith, h.unique);
            one = h.one;
            from = λ a b.
                let e = opened-append a b (ip, ipv6) xs ys in
                omega (
                  arith,
                  h.from a b,
                  (rw (untracked_alone ip ipv6 s.tracking xs ys a b h untracked) at e),
                );
            size = h.size;
          })
    ]

pub live-free : (n : ℕ) → live (replicate n no_ip) ≡ 0
unfolding live
live-free zero = refl
live-free (suc n) = omega (arith, live-free n)

entries-free : (n a : ℕ) (b : Bytes) → entries_of a b (replicate n no_ip) ≡ 0
unfolding entries_of tracks
entries-free zero a b = refl
entries-free (suc n) a b = omega (arith, entries-free n a b)

connections-free : (n a : ℕ) (b : Bytes) → connections_from a b (replicate n no_ip) ≡ 0
unfolding connections_from tracks
connections-free zero a b = refl
connections-free (suc n) a b = omega (arith, connections-free n a b)

pub cleared-IsExact : IsExact cleared []
unfolding opened
cleared-IsExact = record {
  unique = omega (arith, live-free 256);
  one = λ a b. omega (arith, entries-free 256 a b);
  from = λ a b. connections-free 256 a b;
  size = length-replicate 256 no_ip;
}
