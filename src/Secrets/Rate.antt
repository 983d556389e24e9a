-- ===== src/Secrets/Rate.antt =====
-- The token bucket of an address in src/net/net-tcp-rpc-ext-server.c: rate_bucket_refill,
-- rate_limit_after_relay and rate_limit_resume, for any number of connections that share it: clients of the
-- address, and the connections to data centers that answer them. The clock counts microseconds. The length
-- of a pause is left out: the timer of a connection has other uses too, so its alarm may fire at any time.
pub mod Account
pub mod Bound
mod Tests
use mtbolt.Common.{
  ℕ, zero, suc, ◌+◌, ◌-◌, ◌*◌, ◌/◌, Bool, true, false, List, [], ◌∷◌, ltb, leb, ◌==◌, if◌then◌else◌,
}
use mtbolt.Common.Int.{ℤ, pos, negsuc}
use mtbolt.Secrets.Slot.{TrackedIp}
use mtbolt.Secrets.Track.{share}

abbrev pub ticks_per_second : ℕ
ticks_per_second = 1_000_000

-- z + n and z - n
abbrev pub add_nat : ℤ → ℕ → ℤ
add_nat (pos a) n = pos (a + n)
add_nat (negsuc a) n = if ltb a n then pos (n - a - 1) else negsuc (a - n)

abbrev pub sub_nat : ℤ → ℕ → ℤ
sub_nat (pos a) n = if leb n a then pos (a - n) else negsuc (n - a - 1)
sub_nat (negsuc a) n = negsuc (a + n)

-- at most a burst of one second
abbrev pub cap : ℕ → ℤ → ℤ
cap eff_rate (pos a) = if ltb eff_rate a then pos eff_rate else pos a
cap eff_rate (negsuc a) = negsuc a

unfoldable pub rate_bucket_refill : ℕ → ℕ → TrackedIp → TrackedIp
rate_bucket_refill now eff_rate tip =
    let refill = (now - tip.last_refill_time) * eff_rate / ticks_per_second in
    if ltb tip.last_refill_time now
    then record tip { tokens = cap eff_rate (add_nat tip.tokens refill); last_refill_time = now }
    else tip

-- how far a bucket is below zero
abbrev pub debt : ℤ → ℕ
debt (pos a) = 0
debt (negsuc a) = a + 1

-- The bucket of an address, which of the connections that share it have C_STOPREAD, the time, and the
-- bytes that all of them relayed so far.
pub record Flow : Type 0 where
  pub tip : TrackedIp
  pub stopped : ℕ → Bool
  pub clock : ℕ
  pub relayed : ℕ

abbrev pub set_stopped : (ℕ → Bool) → ℕ → Bool → ℕ → Bool
set_stopped f i b j = if j == i then b else f j

-- Bytes are taken out of the refilled bucket; below zero, the connection's reading stops.
abbrev pub consume : ℕ → ℕ → ℕ → Flow → TrackedIp → Flow
consume i now bytes f tip =
    let tokens = sub_nat tip.tokens bytes in
    record {
      tip = record tip { tokens = tokens };
      stopped = if ltb 0 (debt tokens) then set_stopped f.stopped i true else f.stopped;
      clock = now;
      relayed = f.relayed + bytes;
    }

-- Without a limit nothing is counted. The address has an entry; without one the code counts nothing.
unfoldable pub rate_limit_after_relay : ℕ → ℤ → ℕ → ℕ → ℕ → Flow → Flow
unfolding rate_bucket_refill share
rate_limit_after_relay workers (pos (suc n)) i now bytes f =
    consume i now bytes f (rate_bucket_refill now (share workers (suc n)) f.tip)
rate_limit_after_relay workers _ i now bytes f = record f {
  clock = now;
  relayed = f.relayed + bytes;
}

-- With C_STOPREAD, reading goes on, and the answer is 1.
unfoldable pub rate_limit_resume : ℕ → Flow → Flow × ℕ
rate_limit_resume i f =
    if f.stopped i then (record f { stopped = set_stopped f.stopped i false }, 1) else (f, 0)

-- After some ticks, a connection has bytes to relay, or its alarm fires.
pub data Traffic : Type 0 where
  relay : (after i bytes : ℕ) → Traffic
  alarm : (after i : ℕ) → Traffic

-- The reader relays nothing for a connection with C_STOPREAD.
unfoldable pub traffic_step : ℕ → ℤ → Traffic → Flow → Flow
unfolding rate_limit_after_relay rate_limit_resume
traffic_step workers limit (relay after i bytes) f =
    if f.stopped i
    then record f { clock = f.clock + after }
    else rate_limit_after_relay workers limit i (f.clock + after) bytes f
traffic_step workers limit (alarm after i) f =
    (rate_limit_resume i (record f { clock = f.clock + after })).0

-- the traffic, the last first
unfoldable pub run_traffic : ℕ → ℤ → List Traffic → Flow → Flow
unfolding traffic_step
run_traffic workers limit [] f = f
run_traffic workers limit (t ∷ ts) f = traffic_step workers limit t (run_traffic workers limit ts f)
