-- ===== src/Secrets/Drain/Closed.antt =====
-- What a sweep makes of the connections (`tcp_rpcs_drain_force_close_for_slot` of
-- src/net/net-tcp-rpc-ext-drain.c, called by `drain_sweep_gw` of src/mtproto/mtproto-proxy.c).
use mtbolt.Common.{
  ℕ, zero, suc, ◌+◌, ◌-◌, ◌≡◌, refl, ◌∙◌, ap, subst, arith, Bool, true, false, not, ◌&&◌, ◌⊎◌,
  Option, none, some, List, [], ◌∷◌, length, get_elem?, ltb, leb, ◌==◌, if◌then◌else◌, Bool-cases,
  Option-cases, inl, inr,
}
use mtbolt.Secrets.Slot.{Slot, is_draining}
use mtbolt.Secrets.Drain.{release, Conn, is_target, close_all, World, force_close, sweep_slot}

-- how many connections have a number
abbrev pub count_targets : ℕ → List (Option Conn) → ℕ
count_targets target [] = 0
count_targets target (none ∷ cs) = count_targets target cs
count_targets target (some c ∷ cs) = (if is_target target c then 1 else 0) + count_targets target cs

abbrev closed_if : Bool → Conn → Conn
closed_if b c = if b then record c { failed = true } else c

pub close_all-count :
    (target : ℕ) (cs : List (Option Conn)) → (close_all target cs).1 ≡ count_targets target cs
unfolding close_all
close_all-count target [] = refl
close_all-count target (none ∷ cs) = close_all-count target cs
close_all-count target (some c ∷ cs) = elim (Bool-cases (is_target target c)) [
  | inl t ↦ rw t (omega (arith, close_all-count target cs))
  | inr f ↦ rw f (omega (arith, close_all-count target cs))
]

count_targets-close_all :
    (u target : ℕ) (cs : List (Option Conn))
    → count_targets u (close_all target cs).0 ≡ count_targets u cs
unfolding close_all
count_targets-close_all u target [] = refl
count_targets-close_all u target (none ∷ cs) = count_targets-close_all u target cs
count_targets-close_all u target (some c ∷ cs) = elim (Bool-cases (is_target target c)) [
  | inl t ↦
      rw t (ap (λ n. (if is_target u c then 1 else 0) + n) (count_targets-close_all u target cs))
  | inr f ↦
      rw f (ap (λ n. (if is_target u c then 1 else 0) + n) (count_targets-close_all u target cs))
]

pub close_all-none :
    (target i : ℕ) (cs : List (Option Conn))
    → get_elem? cs i ≡ some none
    → get_elem? (close_all target cs).0 i ≡ some none
unfolding close_all
close_all-none target i [] h = absurd (ground (arith, h))
close_all-none target zero (none ∷ cs) h = refl
close_all-none target zero (some c ∷ cs) h = absurd (ground (arith, h))
close_all-none target (suc i) (none ∷ cs) h = close_all-none target i cs h
close_all-none target (suc i) (some c ∷ cs) h = elim (Bool-cases (is_target target c)) [
  | inl t ↦ rw t (close_all-none target i cs h)
  | inr f ↦ rw f (close_all-none target i cs h)
]

first_or : Conn → Option (Option Conn) → Conn
first_or d (some (some c)) = c
first_or d _ = d

close_all-head :
    (target : ℕ) (d : Conn) (cs : List (Option Conn))
    → get_elem? (close_all target (some d ∷ cs)).0 0
      ≡ some (some (closed_if (is_target target d) d))
unfolding close_all
close_all-head target d cs = elim (Bool-cases (is_target target d)) [
  | inl t ↦ rw t refl
  | inr f ↦ rw f refl
]

pub close_all-some :
    (target i : ℕ) (cs : List (Option Conn)) (c : Conn)
    → get_elem? cs i ≡ some (some c)
    → get_elem? (close_all target cs).0 i ≡ some (some (closed_if (is_target target c) c))
unfolding close_all first_or
close_all-some target i [] c h = absurd (ground (arith, h))
close_all-some target zero (none ∷ cs) c h = absurd (ground (arith, h))
close_all-some target zero (some d ∷ cs) c h =
    close_all-head target d cs
    ∙ ap (λ o. some (some (closed_if (is_target target (first_or d o)) (first_or d o)))) h
close_all-some target (suc i) (none ∷ cs) c h = close_all-some target i cs c h
close_all-some target (suc i) (some d ∷ cs) c h = elim (Bool-cases (is_target target d)) [
  | inl t ↦ rw t (close_all-some target i cs c h)
  | inr f ↦ rw f (close_all-some target i cs c h)
]

abbrev pub is_expired : ℕ → ℕ → Slot → Bool
is_expired now timeout s = ltb 0 timeout && leb timeout (now - s.drain_started)

-- A slot that drains for too long, with connections.
abbrev pub is_late : ℕ → ℕ → Slot → Bool
is_late now timeout s =
    is_draining s && (not (s.counters.connections == 0) && is_expired now timeout s)

release_pinned : (j : ℕ) (w : World) → (release j w.0).pinned ≡ w.0.pinned
unfolding release
release_pinned j w = elim (Option-cases (get_elem? w.0.slots j)) [
  | inl absent ↦ rw (absent, release) refl
  | inr (s, at) ↦ rw (at, release) (ground arith)
]

force_close_pinned : (j : ℕ) (w : World) → (force_close j w).0.pinned ≡ w.0.pinned
unfolding force_close
force_close_pinned j w = elim (Option-cases (get_elem? w.0.slots j)) [
  | inl absent ↦ rw (absent, force_close) refl
  | inr (s, at) ↦ rw (at, force_close) refl
]

force_close-conns :
    (j : ℕ) (w : World) (s : Slot)
    → get_elem? w.0.slots j ≡ some s
    → (force_close j w).1 ≡ (close_all (length w.0.pinned + j + 1) w.1).0
unfolding force_close
force_close-conns j w s at = rw (at, force_close) refl

pub sweep_slot_pinned :
    (now timeout j : ℕ) (w : World) → (sweep_slot now timeout j w).0.pinned ≡ w.0.pinned
unfolding sweep_slot
sweep_slot_pinned now timeout j w = elim (Option-cases (get_elem? w.0.slots j)) [
  | inl absent ↦ rw (absent, sweep_slot) refl
  | inr (s, at) ↦ rw (at, sweep_slot) (ground (arith, release_pinned j w, force_close_pinned j w))
]

-- A round closes the connections of a late slot, and no others.
pub late-conns :
    (now timeout j : ℕ) (w : World) (s : Slot)
    → get_elem? w.0.slots j ≡ some s
    → is_late now timeout s ≡ true
    → (sweep_slot now timeout j w).1 ≡ (close_all (length w.0.pinned + j + 1) w.1).0
unfolding sweep_slot
late-conns now timeout j w s at late =
    let draining : is_draining s ≡ true = ground (arith, late) in
    let used : (s.counters.connections == 0) ≡ false = ground (arith, late) in
    let expired : is_expired now timeout s ≡ true = ground (arith, late) in
    rw (at, sweep_slot) (rw (draining, used, expired) (force_close-conns j w s at))

pub idle-conns :
    (now timeout j : ℕ) (w : World)
    → ((s : Slot) → get_elem? w.0.slots j ≡ some s → is_late now timeout s ≡ false)
    → (sweep_slot now timeout j w).1 ≡ w.1
unfolding sweep_slot
idle-conns now timeout j w idle = elim (Option-cases (get_elem? w.0.slots j)) [
  | inl absent ↦ rw (absent, sweep_slot) refl
  | inr (s, at) ↦ rw (at, sweep_slot) (ground (arith, idle s at))
]

-- The round of a slot is one that closes, or one that does not.
pub round_cases :
    (now timeout j : ℕ) (w : World)
    → ((s : Slot) × (get_elem? w.0.slots j ≡ some s) × (is_late now timeout s ≡ true))
      ⊎ ((s : Slot) → get_elem? w.0.slots j ≡ some s → is_late now timeout s ≡ false)
round_cases now timeout j w = elim (Option-cases (get_elem? w.0.slots j)) [
  | inl absent ↦ inr (λ s at. absurd (ground (arith, absent, at)))
  | inr (s, at) ↦ elim (Bool-cases (is_late now timeout s)) [
    | inl late ↦ inl (s, at, late)
    | inr not_late ↦
        inr
          (λ s' at'. subst (λ x. is_late now timeout x ≡ false) (ground (arith, at, at')) not_late)
  ]
]

pub sweep_slot-count :
    (now timeout j u : ℕ) (w : World)
    → count_targets u (sweep_slot now timeout j w).1 ≡ count_targets u w.1
sweep_slot-count now timeout j u w = elim (round_cases now timeout j w) [
  | inl (s, at, late) ↦
      ap (count_targets u) (late-conns now timeout j w s at late)
      ∙ count_targets-close_all u (length w.0.pinned + j + 1) w.1
  | inr idle ↦ ap (count_targets u) (idle-conns now timeout j w idle)
]
