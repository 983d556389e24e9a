-- ===== src/Secrets/Gate/Limits.antt =====
-- The limits of a secret hold while connections arrive and leave.
use mtbolt.Common.{
  ℕ, zero, suc, ◌+◌, ◌-◌, ◌≤◌, ◌<◌, ◌≡◌, inl, inr, refl, sym, ◌∙◌, subst, arith, false, List, [],
  ◌∷◌, ◌++◌, Bytes, if◌then◌else◌, Bool-cases, length, length-append, lt→ltb,
}
use mtbolt.Common.Int.{ℤ, pos, negsuc}
use mtbolt.Secrets.Slot.{Tracking, Counters, Slot, cleared, is_draining}
use mtbolt.Secrets.Track.{
  share, positive, is_tracked, new_entry, connect_entry, ip_track_connect, ip_track_disconnect,
}
use mtbolt.Secrets.Bloom.{test_and_set}
use mtbolt.Secrets.Track.Counts.{live}
use mtbolt.Secrets.Track.Connect.{Connected, connect_entry-Connected}
use mtbolt.Secrets.Gate.{
  reaches, secret_over_limit, secret_expired, secret_over_quota, ip_over_limit, admit, accept,
  leave, with_counters,
}
use mtbolt.Secrets.Gate.Exact.{
  Client, IsExact, Connected-IsExact, release_entry-IsExact, live-free, cleared-IsExact,
}

-- A number is within a limit, where one is set.
abbrev pub IsWithin : ℕ → ℤ → ℕ → Type 0
IsWithin workers (pos (suc n)) used = used ≤ share workers (suc n)
IsWithin workers _ used = Unit

-- the slot of a secret and its open connections
pub record State : Type 0 where
  pub slot : Slot
  pub open_now : List Client

-- A connection without TLS arrives; one ends; bytes are relayed.
pub data Step (workers : ℕ) (w w' : State) : Type 0 where
  arrive :
      (now clock ip : ℕ) (ipv6 : Bytes)
      → (let r = accept workers now clock ip ipv6 w.slot in
          w'
          ≡ record { slot = r.1; open_now = if r.0 then (ip, ipv6) ∷ w.open_now else w.open_now })
      → Step workers w w'
  depart :
      (ip : ℕ) (ipv6 : Bytes) (xs ys : List Client)
      → w.open_now ≡ xs ++ ((ip, ipv6) ∷ ys)
      → w' ≡ record { slot = leave ip ipv6 w.slot; open_now = xs ++ ys }
      → Step workers w w'
  relay :
      (received sent : ℕ)
      → w' ≡ record w {
        slot =
            with_counters w.slot
              (record w.slot.counters { bytes_received = received; bytes_sent = sent });
      }
      → Step workers w w'

pub data Reach (workers : ℕ) (w : State) : State → Type 0 where
  here : Reach workers w w
  next : {v u : State} → Reach workers w v → Step workers v u → Reach workers w u

-- What holds of a secret with a limit of addresses.
pub record Holds (workers m : ℕ) (s : Slot) (os : List Client) : Type 0 where
  pub max_ips : s.policy.max_ips ≡ pos (suc m)
  pub exact : IsExact s.tracking os
  pub total : s.counters.connections ≡ length os
  pub ips : live s.tracking.tracked_ips ≤ share workers (suc m)
  pub connections : IsWithin workers s.policy.limit s.counters.connections

-- a change of the counters that the limits do not read
with_counters-Holds :
    (workers m : ℕ) (s : Slot) (k : Counters) (os : List Client)
    → k.connections ≡ s.counters.connections
    → Holds workers m s os
    → Holds workers m (with_counters s k) os
with_counters-Holds workers m s k os e h = record {
  max_ips = h.max_ips;
  exact = h.exact;
  total = e ∙ h.total;
  ips = h.ips;
  connections = subst (λ n. IsWithin workers s.policy.limit n) (sym e) h.connections;
}

reaches-IsWithin :
    (workers : ℕ) (limit : ℤ) (used : ℕ)
    → reaches workers limit used ≡ false
    → IsWithin workers limit (used + 1)
unfolding reaches
reaches-IsWithin workers (pos (suc n)) used h = ground (arith, h)
reaches-IsWithin workers (pos zero) used h = tt
reaches-IsWithin workers (negsuc n) used h = tt

IsWithin-less :
    (workers : ℕ) (limit : ℤ) (used : ℕ)
    → IsWithin workers limit used
    → IsWithin workers limit (used - 1)
IsWithin-less workers (pos (suc n)) used h = omega (arith, h)
IsWithin-less workers (pos zero) used h = tt
IsWithin-less workers (negsuc n) used h = tt

-- the tracking of an address that is not put aside
noted : Slot → ℕ → Bytes → Tracking
noted s ip ipv6 = record s.tracking { bloom = (test_and_set ip ipv6 s.tracking.bloom).1 }

admit-connect_entry :
    (workers clock ip m : ℕ) (ipv6 : Bytes) (s : Slot)
    → s.policy.max_ips ≡ pos (suc m)
    → (admit workers clock ip ipv6 s).tracking
      ≡ connect_entry
          (new_entry workers clock s.policy.rate_limit ip ipv6)
          ip
          ipv6
          (noted s ip ipv6)
unfolding admit ip_track_connect positive noted
admit-connect_entry workers clock ip m ipv6 s h = rw (h, lt→ltb 0 (suc m) (omega arith)) refl

below :
    (workers m ip : ℕ) (ipv6 : Bytes) (s : Slot)
    → s.policy.max_ips ≡ pos (suc m)
    → ip_over_limit workers ip ipv6 s ≡ false
    → is_tracked ip ipv6 s.tracking.tracked_ips ≡ false
    → s.tracking.unique_ip_count < share workers (suc m)
unfolding ip_over_limit reaches
below workers m ip ipv6 s mx h untracked = let e = (rw (untracked, mx) at h) in ground (arith, e)

IsWithin-zero : (workers : ℕ) (limit : ℤ) → IsWithin workers limit 0
IsWithin-zero workers (pos (suc n)) = omega arith
IsWithin-zero workers (pos zero) = tt
IsWithin-zero workers (negsuc n) = tt

module _ (workers m : ℕ) (fits : share workers (suc m) ≤ 256) where
  admit-Holds :
      (clock ip : ℕ) (ipv6 : Bytes) (s : Slot) (os : List Client)
      → secret_over_limit workers s ≡ false
      → ip_over_limit workers ip ipv6 s ≡ false
      → Holds workers m s os
      → Holds workers m (admit workers clock ip ipv6 s) ((ip, ipv6) ∷ os)
  unfolding admit ip_track_connect secret_over_limit noted
  admit-Holds clock ip ipv6 s os conns over h =
      let free = below workers m ip ipv6 s h.max_ips over in
      let t = noted s ip ipv6 in
      let e = admit-connect_entry workers clock ip m ipv6 s h.max_ips in
      let c : Connected ip ipv6 t (admit workers clock ip ipv6 s).tracking =
        subst (λ x. Connected ip ipv6 t x) (sym e)
          (connect_entry-Connected workers clock ip s.policy.rate_limit ipv6 t
            (λ untracked. omega (arith, free untracked, fits, h.exact.unique, h.exact.size))) in
      let exact : IsExact t os = record {
        unique = h.exact.unique;
        one = h.exact.one;
        from = h.exact.from;
        size = h.exact.size;
      } in
      record {
        max_ips = h.max_ips;
        exact = Connected-IsExact ip ipv6 t (admit workers clock ip ipv6 s).tracking os c exact;
        total = omega (arith, h.total);
        ips = elim c.is_new [
          | inl old ↦ omega (arith, c.moved.used, old, h.ips)
          | inr new ↦ omega (arith, c.moved.used, new.0, free new.1, h.exact.unique)
        ];
        connections = reaches-IsWithin workers s.policy.limit s.counters.connections conns;
      }

  leave-Holds :
      (ip : ℕ) (ipv6 : Bytes) (s : Slot) (xs ys : List Client)
      → Holds workers m s (xs ++ ((ip, ipv6) ∷ ys))
      → Holds workers m (leave ip ipv6 s) (xs ++ ys)
  unfolding leave ip_track_disconnect
  leave-Holds ip ipv6 s xs ys h =
      let s' = with_counters s (record s.counters { connections = s.counters.connections - 1 }) in
      let exact = release_entry-IsExact ip ipv6 s' xs ys (record {
        unique = h.exact.unique;
        one = h.exact.one;
        from = h.exact.from;
        size = h.exact.size;
      }) in
      record {
        max_ips = h.max_ips;
        exact = exact;
        total = omega (arith, h.total, length-append xs ((ip, ipv6) ∷ ys), length-append xs ys);
        ips = omega (arith, exact.unique, h.exact.unique, h.ips);
        connections = IsWithin-less workers s.policy.limit s.counters.connections h.connections;
      }

  accept-Holds :
      (now clock ip : ℕ) (ipv6 : Bytes) (s : Slot) (os : List Client)
      → Holds workers m s os
      → (let r = accept workers now clock ip ipv6 s in
          Holds workers m r.1 (if r.0 then (ip, ipv6) ∷ os else os))
  unfolding accept
  accept-Holds now clock ip ipv6 s os h = elim (Bool-cases (is_draining s)) [
    | inl t ↦ rw t (with_counters-Holds workers m s _ os refl h)
    | inr f₁ ↦ elim (Bool-cases (secret_expired now s)) [
      | inl t ↦ rw (f₁, t) (with_counters-Holds workers m s _ os refl h)
      | inr f₂ ↦ elim (Bool-cases (secret_over_limit workers s)) [
        | inl t ↦ rw (f₁, f₂, t) (with_counters-Holds workers m s _ os refl h)
        | inr f₃ ↦ elim (Bool-cases (secret_over_quota workers s)) [
          | inl t ↦ rw (f₁, f₂, f₃, t) (with_counters-Holds workers m s _ os refl h)
          | inr f₄ ↦ elim (Bool-cases (ip_over_limit workers ip ipv6 s)) [
            | inl t ↦ rw (f₁, f₂, f₃, f₄, t) (with_counters-Holds workers m s _ os refl h)
            | inr f₅ ↦ rw (f₁, f₂, f₃, f₄, f₅) (admit-Holds clock ip ipv6 s os f₃ f₅ h)
          ]
        ]
      ]
    ]
  ]

  Step-Holds :
      (w w' : State)
      → Step workers w w'
      → Holds workers m w.slot w.open_now
      → Holds workers m w'.slot w'.open_now
  Step-Holds w w' (arrive now clock ip ipv6 e) h =
      subst (λ x. Holds workers m x.slot x.open_now) (sym e)
        (accept-Holds now clock ip ipv6 w.slot w.open_now h)
  Step-Holds w w' (depart ip ipv6 xs ys e e') h =
      subst (λ x. Holds workers m x.slot x.open_now) (sym e')
        (leave-Holds ip ipv6 w.slot xs ys (subst (λ x. Holds workers m w.slot x) e h))
  Step-Holds w w' (relay received sent e) h =
      subst (λ x. Holds workers m x.slot x.open_now) (sym e)
        (with_counters-Holds workers m w.slot _ w.open_now refl h)

  Reach-Holds_from :
      {w w' : State}
      → Reach workers w w'
      → Holds workers m w.slot w.open_now
      → Holds workers m w'.slot w'.open_now
  Reach-Holds_from here h = h
  Reach-Holds_from (next {v} {u} r st) h = Step-Holds v u st (Reach-Holds_from r h)

  cleared-Holds :
      (s : Slot)
      → s.policy.max_ips ≡ pos (suc m)
      → s.tracking ≡ cleared
      → s.counters.connections ≡ 0
      → Holds workers m s []
  cleared-Holds s mx t c = record {
    max_ips = mx;
    exact = subst (λ x. IsExact x []) (sym t) cleared-IsExact;
    total = c;
    ips =
        subst (λ x. live x.tracked_ips ≤ share workers (suc m)) (sym t)
          (omega (arith, live-free 256));
    connections =
        subst (λ n. IsWithin workers s.policy.limit n) (sym c)
          (IsWithin-zero workers s.policy.limit);
  }

  -- From a secret without connections, whose limit of addresses leaves a worker a share of at most 256,
  -- however connections without TLS arrive and end and bytes are relayed: the count of connections is
  -- that of the open ones and within the limit of connections, the addresses in use are at most the
  -- share, and the table holds each address at most once, with as many connections as it has open.
  pub Reach-Holds :
      (s : Slot) (w : State)
      → s.policy.max_ips ≡ pos (suc m)
      → s.tracking ≡ cleared
      → s.counters.connections ≡ 0
      → Reach workers (record { slot = s; open_now = [] }) w
      → Holds workers m w.slot w.open_now
  Reach-Holds s w mx t c r = Reach-Holds_from r (cleared-Holds s mx t c)
