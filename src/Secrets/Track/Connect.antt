-- ===== src/Secrets/Track/Connect.antt =====
-- What `ip_track_connect` and `ip_track_disconnect_impl` of src/net/net-tcp-rpc-ext-server.c do to the
-- tracking of a secret.
use mtbolt.Common.{
  ℕ, zero, suc, ◌+◌, ◌<◌, ◌≡◌, ◌⊎◌, inl, inr, refl, arith, true, false, Option, none, some, List,
  [], ◌∷◌, Bytes, Bool-cases, length,
}
use mtbolt.Common.Int.{ℤ, pos, negsuc}
use mtbolt.Secrets.Slot.{TrackedIp, Tracking}
use mtbolt.Secrets.Track.{same, tracks, is_tracked, bump, place, new_entry, connect_entry}
use mtbolt.Secrets.Track.Counts.{tracks_trans, connections_from, entries_of, live, Moved}
use mtbolt.Secrets.Track.Loops.{IsBumped, bump-IsBumped, IsPlaced, place-IsPlaced}

new_entry_lem :
    (workers now ip : ℕ) (rate : ℤ) (ipv6 : Bytes) (e : TrackedIp)
    → ((new_entry workers now rate ip ipv6 e).ip ≡ ip)
      × ((new_entry workers now rate ip ipv6 e).ipv6 ≡ ipv6)
      × ((new_entry workers now rate ip ipv6 e).connections ≡ 1)
unfolding new_entry
new_entry_lem workers now ip (pos (suc n)) ipv6 e = (refl, refl, refl)
new_entry_lem workers now ip (pos zero) ipv6 e = (refl, refl, refl)
new_entry_lem workers now ip (negsuc n) ipv6 e = (refl, refl, refl)

pub entries-untracked :
    (ip : ℕ) (ipv6 : Bytes) (a : ℕ) (b : Bytes) (es : List TrackedIp)
    → same a b ip ipv6 ≡ true
    → is_tracked ip ipv6 es ≡ false
    → entries_of a b es ≡ 0
unfolding is_tracked entries_of
entries-untracked ip ipv6 a b [] s h = refl
entries-untracked ip ipv6 a b (e ∷ es) s h = elim (Bool-cases (tracks ip ipv6 e)) [
  | inl t ↦ absurd (ground (arith, h, t))
  | inr f ↦ elim (Bool-cases (tracks a b e)) [
    | inl t ↦ absurd (ground (arith, f, tracks_trans ip ipv6 a b e s t))
    | inr g ↦ rw g (omega (arith, entries-untracked ip ipv6 a b es s (ground (arith, h, f))))
  ]
]

pub connections-tracked :
    (ip : ℕ) (ipv6 : Bytes) (es : List TrackedIp)
    → 0 < connections_from ip ipv6 es
    → is_tracked ip ipv6 es ≡ true
unfolding is_tracked connections_from
connections-tracked ip ipv6 [] h = absurd (omega (arith, h))
connections-tracked ip ipv6 (e ∷ es) h = elim (Bool-cases (tracks ip ipv6 e)) [
  | inl t ↦ rw t refl
  | inr f ↦ rw f (connections-tracked ip ipv6 es (ground (arith, h, f)))
]

-- One more connection, in an entry that there is or in a new one.
pub record Connected (ip : ℕ) (ipv6 : Bytes) (t t' : Tracking) : Type 0 where
  pub began : ℕ
  pub moved : Moved ip ipv6 t.tracked_ips t'.tracked_ips 1 0 began 0
  pub unique : t'.unique_ip_count ≡ t.unique_ip_count + began
  pub is_new : (began ≡ 0) ⊎ ((began ≡ 1) × (is_tracked ip ipv6 t.tracked_ips ≡ false))

pub connect_entry-Connected :
    (workers now ip : ℕ) (rate : ℤ) (ipv6 : Bytes) (t : Tracking)
    → (is_tracked ip ipv6 t.tracked_ips ≡ false → live t.tracked_ips < length t.tracked_ips)
    → Connected ip ipv6 t (connect_entry (new_entry workers now rate ip ipv6) ip ipv6 t)
unfolding connect_entry
connect_entry-Connected workers now ip rate ipv6 t room =
    let new = new_entry workers now rate ip ipv6 in
    bumped (bump ip ipv6 t.tracked_ips) (bump-IsBumped ip ipv6 t.tracked_ips)
      (place new t.tracked_ips)
      (place-IsPlaced ip ipv6 new t.tracked_ips (new_entry_lem workers now ip rate ipv6))
  where
    bumped :
        (o : Option (List TrackedIp))
        → IsBumped ip ipv6 t.tracked_ips o
        → (p : Option (List TrackedIp)) → IsPlaced ip ipv6 t.tracked_ips p
        → Connected ip ipv6 t (elim o [
          | some es ↦ record t { tracked_ips = es }
          | none ↦ elim p [
            | some es ↦ record t { tracked_ips = es; unique_ip_count = t.unique_ip_count + 1 }
            | none ↦ t
          ]
        ])
    bumped (some es) h p k = record {
      began = 0;
      moved = h;
      unique = omega arith;
      is_new = inl refl;
    }
    bumped none h (some es) k = record {
      began = 1;
      moved = k;
      unique = refl;
      is_new = inr (refl, h);
    }
    bumped none h none k = absurd (omega (arith, room h, k))
