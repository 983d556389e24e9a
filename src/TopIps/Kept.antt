-- ===== src/TopIps/Kept.antt =====
-- A new address in the table of src/net/net-tcp-rpc-ext-top-ips.c takes a place that no address in use has.
use mtbolt.Common.{
  ℕ, zero, suc, ◌+◌, ◌≡◌, ◌≢◌, ◌⊎◌, inl, inr, refl, sym, ◌∙◌, ap, subst, arith, Bool, true, false,
  Option, none, some, List, [], ◌∷◌, Bytes, length, get_elem?, get_elem?-set_ne, get_elem?-set_self,
  length-set, set, ltb, if◌then◌else◌, ◌==◌, All, Bool-cases,
}
use mtbolt.TopIps.{
  VolumeEntry, no_volume, zero_addr, total, is_unused, is_for, find_from, ip_volume_lookup,
  is_fresh, find_victim, ip_volume_acquire_slot, ip_volume_get_or_create,
}

-- The entry at a place passes a test.
abbrev pub Passes : (VolumeEntry → Bool) → List VolumeEntry → ℕ → Type 0
Passes p [] k = ⊥
Passes p (e ∷ es) zero = p e ≡ true
Passes p (e ∷ es) (suc k) = Passes p es k

abbrev IsFound : (VolumeEntry → Bool) → ℕ → List VolumeEntry → Option ℕ → Type 0
IsFound p i es none = All (λ e. p e ≡ false) es
IsFound p i es (some j) = (k : ℕ) × (j ≡ i + k) × Passes p es k

find_from-IsFound :
    (p : VolumeEntry → Bool) (i : ℕ) (es : List VolumeEntry) → IsFound p i es (find_from p i es)
unfolding find_from
find_from-IsFound p i [] = tt
find_from-IsFound p i (e ∷ es) = elim (Bool-cases (p e)) [
  | inl t ↦ rw t (0, omega arith, t)
  | inr f ↦ rw f (next (find_from p (i + 1) es) f (find_from-IsFound p (i + 1) es))
]
  where
    next : (o : Option ℕ) → p e ≡ false → IsFound p (i + 1) es o → IsFound p i (e ∷ es) o
    next none f h = (f, h)
    next (some j) f (k, e', q) = (suc k, omega (arith, e'), q)

module _ (second now : ℕ) where
  abbrev pub is_stale : VolumeEntry → Bool
  is_stale e = if is_fresh second now e then false else true

  abbrev IsVictim : ℕ → List VolumeEntry → Option (ℕ × ℕ) → Option (ℕ × ℕ) → Type 0
  IsVictim i es victim none = (victim ≡ none) × All (λ e. is_fresh second now e ≡ true) es
  IsVictim i es victim (some (j, b)) =
      ((b' : ℕ) × (victim ≡ some (j, b'))) ⊎ ((k : ℕ) × (j ≡ i + k) × Passes is_stale es k)

  not_none : (p : ℕ × ℕ) → ¬ (some p ≡ none)
  not_none p e = ground (arith, e)

  -- A fresh entry is passed over.
  passed :
      (i : ℕ) (e : VolumeEntry) (es : List VolumeEntry) (victim o : Option (ℕ × ℕ))
      → is_fresh second now e ≡ true
      → IsVictim (i + 1) es victim o
      → IsVictim i (e ∷ es) victim o
  passed i e es victim none f h = (h.0, (f, h.1))
  passed i e es victim (some (j, b)) f (inl h) = inl h
  passed i e es victim (some (j, b)) f (inr (k, e', q)) = inr (suc k, omega (arith, e'), q)

  abbrev weaker : ℕ → VolumeEntry → Option (ℕ × ℕ) → Option (ℕ × ℕ)
  weaker i e victim = elim victim [
    | none ↦ some (i, total e)
    | some (j, bytes) ↦ if ltb (total e) bytes then some (i, total e) else some (j, bytes)
  ]

  first : ℕ × ℕ → Option (ℕ × ℕ) → ℕ
  first d none = d.0
  first d (some p) = p.0

  -- A stale one may be the victim.
  here-or_later :
      (i : ℕ) (e : VolumeEntry) (es : List VolumeEntry) (victim o : Option (ℕ × ℕ))
      → is_fresh second now e ≡ false
      → IsVictim (i + 1) es (some (i, total e)) o
      → IsVictim i (e ∷ es) victim o
  unfolding first
  here-or_later i e es victim none f h = absurd (not_none (i, total e) h.0)
  here-or_later i e es victim (some (j, b)) f (inl (b', h)) =
      inr (0, omega (arith, ap (first (i, b)) h), rw f refl)
  here-or_later i e es victim (some (j, b)) f (inr (k, e', q)) = inr (suc k, omega (arith, e'), q)

  same_victim :
      (i j' b' : ℕ) (e : VolumeEntry) (es : List VolumeEntry) (o : Option (ℕ × ℕ))
      → IsVictim (i + 1) es (some (j', b')) o
      → IsVictim i (e ∷ es) (some (j', b')) o
  same_victim i j' b' e es none h = absurd (not_none (j', b') h.0)
  same_victim i j' b' e es (some (j, b)) (inl h) = inl h
  same_victim i j' b' e es (some (j, b)) (inr (k, e', q)) = inr (suc k, omega (arith, e'), q)

  maybe_victim :
      (i : ℕ) (e : VolumeEntry) (es : List VolumeEntry) (victim o : Option (ℕ × ℕ))
      → is_fresh second now e ≡ false
      → IsVictim (i + 1) es (weaker i e victim) o
      → IsVictim i (e ∷ es) victim o
  maybe_victim i e es none o f h = here-or_later i e es none o f h
  maybe_victim i e es (some (j, b)) o f h = elim (Bool-cases (ltb (total e) b)) [
    | inl t ↦ here-or_later i e es (some (j, b)) o f (rw t at h)
    | inr g ↦ same_victim i j b e es o (rw g at h)
  ]

  find_victim-IsVictim :
      (i : ℕ) (es : List VolumeEntry) (victim : Option (ℕ × ℕ))
      → IsVictim i es victim (find_victim second now i es victim)
  unfolding find_victim
  find_victim-IsVictim i [] none = (refl, tt)
  find_victim-IsVictim i [] (some (j, b)) = inl (b, refl)
  find_victim-IsVictim i (e ∷ es) victim = elim (Bool-cases (is_fresh second now e)) [
    | inl f ↦ rw f (
        passed i e es victim (find_victim second now (i + 1) es victim) f
          (find_victim-IsVictim (i + 1) es victim))
    | inr f ↦ rw f (
        maybe_victim i e es victim (find_victim second now (i + 1) es (weaker i e victim)) f
          (find_victim-IsVictim (i + 1) es (weaker i e victim)))
  ]

  -- The places but one keep their entries.
  abbrev Others : List VolumeEntry → List VolumeEntry → ℕ → Type 0
  Others es es' i = (length es' ≡ length es) × ((j : ℕ) → i ≢ j → get_elem? es' j ≡ get_elem? es j)

  abbrev IsAcquired : List VolumeEntry → Option (ℕ × List VolumeEntry) → Type 0
  IsAcquired es none =
      All (λ e. is_unused e ≡ false) es × All (λ e. is_fresh second now e ≡ true) es
  IsAcquired es (some (i, es')) = Others es es' i × (Passes is_unused es i ⊎ Passes is_stale es i)

  emptied :
      (es : List VolumeEntry) (v : Option (ℕ × ℕ))
      → All (λ e. is_unused e ≡ false) es
      → IsVictim 0 es none v
      → IsAcquired es (elim v [ none ↦ none | some (i, bytes) ↦ some (i, set es i no_volume) ])
  emptied es none a h = (a, h.1)
  emptied es (some (i, b)) a (inl (b', e)) = absurd (not_none (i, b') (sym e))
  emptied es (some (i, b)) a (inr (k, e, q)) = (
    (length-set es i no_volume, λ j d. get_elem?-set_ne es i j no_volume d),
    inr (subst (Passes is_stale es) (omega (arith, e)) q),
  )

  acquired :
      (es : List VolumeEntry) (o : Option ℕ) (v : Option (ℕ × ℕ))
      → IsFound is_unused 0 es o
      → IsVictim 0 es none v
      → IsAcquired es (elim o [
        | some i ↦ some (i, es)
        | none ↦ elim v [ none ↦ none | some (i, bytes) ↦ some (i, set es i no_volume) ]
      ])
  acquired es (some i) v (k, e, q) h =
      ((refl, λ j d. refl), inl (subst (Passes is_unused es) (omega (arith, e)) q))
  acquired es none v a h = emptied es v a h

  ip_volume_acquire_slot-IsAcquired :
      (es : List VolumeEntry) → IsAcquired es (ip_volume_acquire_slot second now es)
  unfolding ip_volume_acquire_slot
  ip_volume_acquire_slot-IsAcquired es =
      acquired es (find_from is_unused 0 es) (find_victim second now 0 es none)
        (find_from-IsFound is_unused 0 es) (find_victim-IsVictim 0 es none)

  -- The entry of a new address, seen now: an IPv4 address has no IPv6 address beside it.
  abbrev pub entered_entry : ℕ → Bytes → VolumeEntry
  entered_entry zero ipv6 = record {
    ip = 0;
    ipv6 = ipv6;
    connections = 0;
    bytes_in = 0;
    bytes_out = 0;
    last_seen = now;
  }
  entered_entry (suc n) ipv6 = record {
    ip = suc n;
    ipv6 = zero_addr;
    connections = 0;
    bytes_in = 0;
    bytes_out = 0;
    last_seen = now;
  }

  entry_eq :
      (ip : ℕ) (ipv6 : Bytes)
      → record no_volume { ip = ip; ipv6 = if ip == 0 then ipv6 else zero_addr; last_seen = now }
        ≡ entered_entry ip ipv6
  entry_eq zero ipv6 = refl
  entry_eq (suc n) ipv6 = let f : (suc n == 0) ≡ false = ground arith in rw f refl

  -- A place that is given is in the table.
  Passes-get_elem? :
      (p : VolumeEntry → Bool) (es es' : List VolumeEntry) (i : ℕ)
      → length es' ≡ length es
      → Passes p es i
      → (e : VolumeEntry) × (get_elem? es' i ≡ some e)
  Passes-get_elem? p [] es' i len h = absurd h
  Passes-get_elem? p (e ∷ es) [] i len h = absurd (omega (arith, len))
  Passes-get_elem? p (e ∷ es) (e' ∷ es') zero len h = (e', refl)
  Passes-get_elem? p (e ∷ es) (e' ∷ es') (suc i) len h =
      Passes-get_elem? p es es' i (omega (arith, len)) h

  acquired-get_elem? :
      (es es' : List VolumeEntry) (i : ℕ)
      → length es' ≡ length es
      → Passes is_unused es i ⊎ Passes is_stale es i
      → (e : VolumeEntry) × (get_elem? es' i ≡ some e)
  acquired-get_elem? es es' i len (inl h) = Passes-get_elem? is_unused es es' i len h
  acquired-get_elem? es es' i len (inr h) = Passes-get_elem? is_stale es es' i len h

  -- An address that is there keeps the table; a new one changes one place, which was empty or stale, or
  -- is dropped, when every place has a fresh entry.
  abbrev pub IsGiven : ℕ → Bytes → List VolumeEntry → Option (ℕ × List VolumeEntry) → Type 0
  IsGiven ip ipv6 es none =
      All (λ e. is_for ip ipv6 e ≡ false) es
      × All (λ e. is_unused e ≡ false) es
      × All (λ e. is_fresh second now e ≡ true) es
  IsGiven ip ipv6 es (some (i, es')) =
      ((es' ≡ es) × Passes (is_for ip ipv6) es i)
      ⊎ (All (λ e. is_for ip ipv6 e ≡ false) es
          × (length es' ≡ length es)
          × ((j : ℕ) → i ≢ j → get_elem? es' j ≡ get_elem? es j)
          × (get_elem? es' i ≡ some (entered_entry ip ipv6))
          × (Passes is_unused es i ⊎ Passes is_stale es i))

  entered :
      (ip : ℕ) (ipv6 : Bytes) (es : List VolumeEntry) (a : Option (ℕ × List VolumeEntry))
      (new : VolumeEntry)
      → new ≡ entered_entry ip ipv6
      → All (λ e. is_for ip ipv6 e ≡ false) es
      → IsAcquired es a
      → IsGiven ip ipv6 es (elim a [ none ↦ none | some (i, es') ↦ some (i, set es' i new) ])
  entered ip ipv6 es none new n u h = (u, h.0, h.1)
  entered ip ipv6 es (some (i, es')) new n u ((len, same), place) =
      let there = acquired-get_elem? es es' i len place in
      inr (
        u,
        length-set es' i new ∙ len,
        λ j d. get_elem?-set_ne es' i j new d ∙ same j d,
        get_elem?-set_self es' i there.0 new there.1 ∙ ap some n,
        place,
      )

  given :
      (ip : ℕ) (ipv6 : Bytes) (es : List VolumeEntry) (o : Option ℕ)
      (a : Option (ℕ × List VolumeEntry)) (new : VolumeEntry)
      → new ≡ entered_entry ip ipv6
      → IsFound (is_for ip ipv6) 0 es o
      → IsAcquired es a
      → IsGiven ip ipv6 es (elim o [
        | some i ↦ some (i, es)
        | none ↦ elim a [ none ↦ none | some (i, es') ↦ some (i, set es' i new) ]
      ])
  given ip ipv6 es (some i) a new n (k, e, q) h =
      inl (refl, subst (Passes (is_for ip ipv6) es) (omega (arith, e)) q)
  given ip ipv6 es none a new n u h = entered ip ipv6 es a new n u h

  -- The entry of an address that is there is found in an unchanged table. A new address gets a place
  -- that was empty, or had no connections and was not seen for more than five seconds: there stands
  -- then an entry with the address, seen now, that counts no connections and no bytes, and every other
  -- place keeps its entry. It gets none only if every place has an entry that is not so.
  pub ip_volume_get_or_create-IsGiven :
      (ip : ℕ) (ipv6 : Bytes) (es : List VolumeEntry)
      → IsGiven ip ipv6 es (ip_volume_get_or_create second now ip ipv6 es)
  unfolding ip_volume_get_or_create ip_volume_lookup
  ip_volume_get_or_create-IsGiven ip ipv6 es =
      given ip ipv6 es (find_from (is_for ip ipv6) 0 es) (ip_volume_acquire_slot second now es)
        (record no_volume { ip = ip; ipv6 = if ip == 0 then ipv6 else zero_addr; last_seen = now })
        (entry_eq ip ipv6) (find_from-IsFound (is_for ip ipv6) 0 es)
        (ip_volume_acquire_slot-IsAcquired es)
