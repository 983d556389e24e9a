-- ===== src/Secrets/Drain.antt =====
-- The end of a draining slot: `tcp_rpcs_drain_release_slot_if_empty` and
-- `tcp_rpcs_drain_force_close_for_slot` of src/net/net-tcp-rpc-ext-drain.c, and `drain_sweep_gw` of
-- src/mtproto/mtproto-proxy.c, which runs them once a second.
-- Slots are numbered behind the pinned ones: `j` here is the slot `length pinned + j` there, and a
-- smaller or a larger number changes nothing there either.
mod Closed
pub mod Fate
pub mod Sweep
use mtbolt.Common.{
  ℕ, zero, suc, ◌+◌, ◌-◌, Bool, true, false, not, ◌&&◌, ◌||◌, Option, none, some, List, [], ◌∷◌,
  length, get_elem?, set, ltb, leb, ◌==◌, if◌then◌else◌, replicate,
}
use mtbolt.Secrets.Slot.{
  SlotState, slot_free, Slot, Table, no_policy, no_counters, cleared, is_draining, high_water,
}

abbrev pub released : Slot
released = record {
  key = replicate 16 0;
  label = [];
  policy = no_policy;
  state = slot_free;
  drain_started = 0;
  counters = no_counters;
  tracking = cleared;
}

unfoldable pub is_empty : Slot → Bool
is_empty s = is_draining s && s.counters.connections == 0

-- `tcp_rpcs_drain_release_slot_if_empty`
unfoldable pub release : ℕ → Table → Table
release j t =
    let fixed = length t.pinned in
    elim (get_elem? t.slots j) [
      | none ↦ t
      | some s ↦
          if is_empty s
          then record t {
            slots = set t.slots j released;
            cnt = high_water (set t.slots j released) fixed fixed;
          }
          else t
    ]

-- An open connection of the process: whether it is a listening one, whether its type carries a
-- secret (`conn_carries_secret_id`), `extra_int2`, and whether it was failed.
pub record Conn : Type 0 where
  pub listening : Bool
  pub carries_secret : Bool
  pub extra : ℕ
  pub failed : Bool

abbrev pub is_target : ℕ → Conn → Bool
is_target target c = not c.listening && (c.carries_secret && c.extra == target)

-- the loop over the file descriptors; `none` is a descriptor without a connection
unfoldable pub close_all : ℕ → List (Option Conn) → List (Option Conn) × ℕ
close_all target [] = ([], 0)
close_all target (none ∷ cs) = let rest = close_all target cs in (none ∷ rest.0, rest.1)
close_all target (some c ∷ cs) =
    let rest = close_all target cs in
    if is_target target c
    then (some (record c { failed = true }) ∷ rest.0, suc rest.1)
    else (some c ∷ rest.0, rest.1)

-- The table and the connections.
abbrev pub World : Type 0
World = Table × List (Option Conn)

abbrev pub add_forced : ℕ → Slot → Slot
add_forced n s = record s {
  counters = record s.counters { drain_forced = s.counters.drain_forced + n };
}

-- `tcp_rpcs_drain_force_close_for_slot`
unfoldable pub force_close : ℕ → World → World
unfolding close_all
force_close j w = elim (get_elem? w.0.slots j) [
  | none ↦ w
  | some s ↦
      let closed = close_all (length w.0.pinned + j + 1) w.1 in
      (record w.0 { slots = set w.0.slots j (add_forced closed.1 s) }, closed.0)
]

-- one round of the loop of `drain_sweep_gw`; `timeout` is 0 for none
unfoldable pub sweep_slot : ℕ → ℕ → ℕ → World → World
unfolding release force_close
sweep_slot now timeout j w = elim (get_elem? w.0.slots j) [
  | none ↦ w
  | some s ↦
      if is_draining s
      then (if s.counters.connections == 0
          then (release j w.0, w.1)
          else (if ltb 0 timeout && leb timeout (now - s.drain_started)
              then force_close j w
              else w))
      else w
]

-- `drain_sweep_gw`: the rounds from slot `j` on, `n` of them; `cnt` is read once at the start.
unfoldable pub sweep_from : ℕ → ℕ → ℕ → ℕ → World → World
sweep_from now timeout j zero w = w
sweep_from now timeout j (suc n) w = sweep_from now timeout (suc j) n (sweep_slot now timeout j w)

unfoldable pub sweep : ℕ → ℕ → World → World
unfolding sweep_from
sweep now timeout w = sweep_from now timeout 0 (w.0.cnt - length w.0.pinned) w
