-- ===== src/Secrets/Track/Loops.antt =====
-- What the loops over the tracked addresses of src/net/net-tcp-rpc-ext-server.c do to the number of
-- connections of an address, and to the number of entries.
use mtbolt.Common.{
  ℕ, ◌+◌, ◌-◌, ◌<◌, ◌≡◌, inl, inr, refl, sym, arith, Bool, true, false, Option, none, some, List,
  [], ◌∷◌, Bytes, ltb, leb, if◌then◌else◌, Bool-cases, and_true, subst, ltb→lt, length,
}
use mtbolt.Secrets.Slot.{TrackedIp, zero_ipv6}
use mtbolt.Secrets.Track.{same, tracks, is_tracked, bump, place, drop_connection, release_entry}
use mtbolt.Secrets.Track.Counts.{
  indicator, connections_from, entries_of, live, same_trans, Moved, Moved-cons,
}

abbrev pub IsBumped : ℕ → Bytes → List TrackedIp → Option (List TrackedIp) → Type 0
IsBumped ip ipv6 es none = is_tracked ip ipv6 es ≡ false
IsBumped ip ipv6 es (some es') = Moved ip ipv6 es es' 1 0 0 0

-- An entry is the client's, unless it is not in use.
abbrev IsOwn : ℕ → Bytes → TrackedIp → Type 0
IsOwn ip ipv6 e = ltb 0 e.connections ≡ true → same ip ipv6 e.ip e.ipv6 ≡ true

IsOwn-from :
    (ip : ℕ) (ipv6 : Bytes) (e : TrackedIp) (a : ℕ) (b : Bytes)
    → IsOwn ip ipv6 e
    → (if tracks a b e then e.connections else 0) ≡ (if same a b ip ipv6 then e.connections else 0)
unfolding tracks
IsOwn-from ip ipv6 e a b h = elim (Bool-cases (ltb 0 e.connections)) [
  | inl used ↦ rw (used, same_trans ip ipv6 e.ip e.ipv6 a b (h used)) refl
  | inr free ↦ ground (arith, free)
]

IsOwn-entries :
    (ip : ℕ) (ipv6 : Bytes) (e : TrackedIp) (a : ℕ) (b : Bytes)
    → IsOwn ip ipv6 e
    → indicator (tracks a b e) ≡ (if same a b ip ipv6 then indicator (ltb 0 e.connections) else 0)
unfolding tracks
IsOwn-entries ip ipv6 e a b h = elim (Bool-cases (ltb 0 e.connections)) [
  | inl used ↦ rw (used, same_trans ip ipv6 e.ip e.ipv6 a b (h used)) refl
  | inr free ↦ rw free (ground arith)
]

add_under :
    (k : Bool) (x y m n : ℕ)
    → x + m ≡ y + n
    → (if k then x else 0) + (if k then m else 0) ≡ (if k then y else 0) + (if k then n else 0)
add_under true x y m n h = h
add_under false x y m n h = refl

-- the change of the client's entry, the first one
Moved-head :
    (ip : ℕ) (ipv6 : Bytes) (e e' : TrackedIp) (es : List TrackedIp) (more fewer began ended : ℕ)
    → IsOwn ip ipv6 e
    → IsOwn ip ipv6 e'
    → e'.connections + fewer ≡ e.connections + more
    → indicator (ltb 0 e'.connections) + ended ≡ indicator (ltb 0 e.connections) + began
    → Moved ip ipv6 (e ∷ es) (e' ∷ es) more fewer began ended
unfolding connections_from entries_of live
Moved-head ip ipv6 e e' es more fewer began ended own own' total used = record {
  from = λ a b.
      rw (IsOwn-from ip ipv6 e a b own, IsOwn-from ip ipv6 e' a b own')
        (omega (arith, add_under (same a b ip ipv6) e'.connections e.connections fewer more total));
  entries = λ a b.
      rw (IsOwn-entries ip ipv6 e a b own, IsOwn-entries ip ipv6 e' a b own')
        (omega (
          arith,
          add_under (same a b ip ipv6) (indicator (ltb 0 e'.connections))
              (indicator (ltb 0 e.connections)) ended began used,
        ));
  used = omega (arith, used);
  size = refl;
}

tracks_parts :
    (ip : ℕ) (ipv6 : Bytes) (e : TrackedIp)
    → tracks ip ipv6 e ≡ true
    → (0 < e.connections) × (same ip ipv6 e.ip e.ipv6 ≡ true)
unfolding tracks
tracks_parts ip ipv6 e h =
    let parts = and_true (ltb 0 e.connections) (same ip ipv6 e.ip e.ipv6) h in
    (ltb→lt 0 e.connections parts.0, parts.1)

bump-IsBumped_head :
    (ip : ℕ) (ipv6 : Bytes) (e : TrackedIp) (es : List TrackedIp)
    → tracks ip ipv6 e ≡ true
    → Moved ip ipv6 (e ∷ es) (record e { connections = e.connections + 1 } ∷ es) 1 0 0 0
bump-IsBumped_head ip ipv6 e es h =
    let (used, own) = tracks_parts ip ipv6 e h in
    Moved-head ip ipv6 e (record e { connections = e.connections + 1 }) es 1 0 0 0 (λ l. own)
      (λ l. own) (omega arith) (ground (arith, used))

bump-IsBumped_cons :
    (ip : ℕ) (ipv6 : Bytes) (e : TrackedIp) (es : List TrackedIp) (o : Option (List TrackedIp))
    → tracks ip ipv6 e ≡ false
    → IsBumped ip ipv6 es o
    → IsBumped ip ipv6 (e ∷ es) (elim o [ none ↦ none | some es' ↦ some (e ∷ es') ])
unfolding is_tracked
bump-IsBumped_cons ip ipv6 e es none other h = rw other h
bump-IsBumped_cons ip ipv6 e es (some es') other h = Moved-cons ip ipv6 e es es' 1 0 0 0 h

pub bump-IsBumped :
    (ip : ℕ) (ipv6 : Bytes) (es : List TrackedIp) → IsBumped ip ipv6 es (bump ip ipv6 es)
unfolding bump is_tracked
bump-IsBumped ip ipv6 [] = refl
bump-IsBumped ip ipv6 (e ∷ es) = elim (Bool-cases (tracks ip ipv6 e)) [
  | inl found ↦ rw found (bump-IsBumped_head ip ipv6 e es found)
  | inr other ↦
      subst
        (λ k. IsBumped ip ipv6 (e ∷ es) (
          if k
          then some (record e { connections = e.connections + 1 } ∷ es)
          else elim (bump ip ipv6 es) [ none ↦ none | some es' ↦ some (e ∷ es') ]))
        (sym other)
        (bump-IsBumped_cons ip ipv6 e es (bump ip ipv6 es) other (bump-IsBumped ip ipv6 es))
]

abbrev pub IsPlaced : ℕ → Bytes → List TrackedIp → Option (List TrackedIp) → Type 0
IsPlaced ip ipv6 es none = live es ≡ length es
IsPlaced ip ipv6 es (some es') = Moved ip ipv6 es es' 1 0 1 0

tracks-fresh :
    (ip : ℕ) (ipv6 : Bytes) (e : TrackedIp) (a : ℕ) (b : Bytes)
    → (e.ip ≡ ip) × (e.ipv6 ≡ ipv6) × (e.connections ≡ 1)
    → tracks a b e ≡ same a b ip ipv6
unfolding tracks
tracks-fresh ip ipv6 e a b h = rw (h.0, h.1, h.2) refl

tracks-free :
    (e : TrackedIp) (a : ℕ) (b : Bytes) → ltb 0 e.connections ≡ false → tracks a b e ≡ false
unfolding tracks
tracks-free e a b h = rw h refl

one_under : (k : Bool) → (if k then 1 else 0) + (if k then 0 else 0) ≡ (if k then 1 else 0)
one_under true = refl
one_under false = refl

-- A new entry in front, for a client that may have no address.
place-IsPlaced_head :
    (ip : ℕ) (ipv6 : Bytes) (e e' : TrackedIp) (es : List TrackedIp)
    → ltb 0 e.connections ≡ false
    → (e'.ip ≡ ip) × (e'.ipv6 ≡ ipv6) × (e'.connections ≡ 1)
    → Moved ip ipv6 (e ∷ es) (e' ∷ es) 1 0 1 0
unfolding connections_from entries_of live
place-IsPlaced_head ip ipv6 e e' es free h = record {
  from = λ a b.
      rw (tracks-fresh ip ipv6 e' a b h, tracks-free e a b free, h.2)
        (omega (arith, one_under (same a b ip ipv6)));
  entries = λ a b.
      rw (tracks-fresh ip ipv6 e' a b h, tracks-free e a b free)
        (omega (arith, one_under (same a b ip ipv6)));
  used = rw (h.2, free) (omega arith);
  size = refl;
}

place-IsPlaced_cons :
    (ip : ℕ) (ipv6 : Bytes) (e : TrackedIp) (es : List TrackedIp) (o : Option (List TrackedIp))
    → ltb 0 e.connections ≡ true
    → IsPlaced ip ipv6 es o
    → IsPlaced ip ipv6 (e ∷ es) (elim o [ none ↦ none | some es' ↦ some (e ∷ es') ])
unfolding live
place-IsPlaced_cons ip ipv6 e es none taken h = rw taken (omega (arith, h))
place-IsPlaced_cons ip ipv6 e es (some es') taken h = Moved-cons ip ipv6 e es es' 1 0 1 0 h

pub place-IsPlaced :
    (ip : ℕ) (ipv6 : Bytes) (new : TrackedIp → TrackedIp) (es : List TrackedIp)
    → ((e : TrackedIp) → ((new e).ip ≡ ip) × ((new e).ipv6 ≡ ipv6) × ((new e).connections ≡ 1))
    → IsPlaced ip ipv6 es (place new es)
unfolding place live
place-IsPlaced ip ipv6 new [] h = refl
place-IsPlaced ip ipv6 new (e ∷ es) h = elim (Bool-cases (ltb 0 e.connections)) [
  | inr free ↦ rw free (place-IsPlaced_head ip ipv6 e (new e) es free (h e))
  | inl taken ↦
      rw taken
        (place-IsPlaced_cons ip ipv6 e es (place new es) taken (place-IsPlaced ip ipv6 new es h))
]

release_entry-Moved_head :
    (ip : ℕ) (ipv6 : Bytes) (e : TrackedIp) (es : List TrackedIp)
    → tracks ip ipv6 e ≡ true
    → Moved ip ipv6 (e ∷ es) ((drop_connection e).0 ∷ es) 0 1 0 (indicator (drop_connection e).1)
unfolding drop_connection
release_entry-Moved_head ip ipv6 e es h =
    let (used, own) = tracks_parts ip ipv6 e h in
    elim (Bool-cases (leb e.connections 1)) [
      | inl last ↦ rw last (
          Moved-head ip ipv6 e (record e { ip = 0; ipv6 = zero_ipv6; connections = 0 }) es 0 1 0 1
            (λ l. own) (λ l. absurd (ground (arith, l))) (ground (arith, last, used))
            (ground (arith, used)))
      | inr more ↦ rw more (
          Moved-head ip ipv6 e (record e { connections = e.connections - 1 }) es 0 1 0 0 (λ l. own)
            (λ l. own) (ground (arith, more)) (ground (arith, more, used)))
    ]

pub release_entry-Moved :
    (ip : ℕ) (ipv6 : Bytes) (es : List TrackedIp)
    → is_tracked ip ipv6 es ≡ true
    → Moved ip ipv6 es (release_entry ip ipv6 es).0 0 1 0 (indicator (release_entry ip ipv6 es).1)
unfolding release_entry is_tracked
release_entry-Moved ip ipv6 [] h = ground (arith, h)
release_entry-Moved ip ipv6 (e ∷ es) h = elim (Bool-cases (tracks ip ipv6 e)) [
  | inl found ↦ rw found (release_entry-Moved_head ip ipv6 e es found)
  | inr other ↦
      let rest : is_tracked ip ipv6 es ≡ true = ground (arith, h, other) in
      rw other (
        Moved-cons ip ipv6 e es (release_entry ip ipv6 es).0 0 1 0
          (indicator (release_entry ip ipv6 es).1) (release_entry-Moved ip ipv6 es rest))
]
