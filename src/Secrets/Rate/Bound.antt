-- ===== src/Secrets/Rate/Bound.antt =====
-- What the token bucket of src/net/net-tcp-rpc-ext-server.c lets through.
use mtbolt.Common.{
  ℕ, suc, ◌+◌, ◌-◌, ◌*◌, ◌≤◌, ◌<◌, ◌≡◌, ◌≢◌, ◌∙◌, ap, refl, arith, Bool, true, false, List, [], ◌∷◌,
  Bytes, ltb, ◌==◌, if◌then◌else◌,
}
use mtbolt.Common.Int.{pos}
use mtbolt.Secrets.Slot.{TrackedIp}
use mtbolt.Secrets.Track.{share, new_entry}
use mtbolt.Secrets.Rate.{
  ticks_per_second, rate_bucket_refill, debt, consume, set_stopped, Flow, rate_limit_after_relay,
  rate_limit_resume, Traffic, relay, alarm, traffic_step, run_traffic,
}
use mtbolt.Secrets.Rate.Account.{credit, mul-split, Balanced, refill-Balanced, consume-Balanced}

-- The connection had bytes last, and its alarm did not fire since.
abbrev pub IsLast : ℕ → List Traffic → Type 0
IsLast i [] = ⊥
IsLast i (relay after j bytes ∷ ts) = i ≡ j
IsLast i (alarm after j ∷ ts) = (i ≢ j) × IsLast i ts

-- The account of an address since the time `from`.
pub record Limited (eff from : ℕ) (ts : List Traffic) (f : Flow) : Type 0 where
  pub past : f.tip.last_refill_time ≤ f.clock
  pub bucket : Balanced eff from f.relayed f.tip
  pub pauses : (i : ℕ) → IsLast i ts → 0 < debt f.tip.tokens → f.stopped i ≡ true

set_stopped_self : (f : ℕ → Bool) (i : ℕ) (b : Bool) → set_stopped f i b i ≡ b
set_stopped_self f i b = let same : (i == i) ≡ true = ground arith in rw same refl

set_stopped_other : (f : ℕ → Bool) (i j : ℕ) (b : Bool) → j ≢ i → set_stopped f i b j ≡ f j
set_stopped_other f i j b n = let other : (j == i) ≡ false = ground (arith, n) in rw other refl

consume-stopped :
    (i now bytes : ℕ) (f : Flow) (tip : TrackedIp)
    → 0 < debt (consume i now bytes f tip).tip.tokens
    → (consume i now bytes f tip).stopped i ≡ true
consume-stopped i now bytes f tip h =
    let owes : ltb 0 (debt (consume i now bytes f tip).tip.tokens) ≡ true = ground (arith, h) in
    rw owes (set_stopped_self f.stopped i true)

refill-past :
    (now eff : ℕ) (tip : TrackedIp)
    → tip.last_refill_time ≤ now
    → (rate_bucket_refill now eff tip).last_refill_time ≤ now
unfolding rate_bucket_refill
refill-past now eff tip h = ground arith

relay-Limited :
    (eff from after i bytes : ℕ) (ts : List Traffic) (f : Flow) (b : Bool)
    → f.stopped i ≡ b
    → Limited eff from ts f
    → Limited eff from (relay after i bytes ∷ ts) (
        if b
        then record f { clock = f.clock + after }
        else consume i (f.clock + after) bytes f (rate_bucket_refill (f.clock + after) eff f.tip))
relay-Limited eff from after i bytes ts f true t k = record {
  past = omega (arith, k.past);
  bucket = k.bucket;
  pauses = λ j e h. ap f.stopped e ∙ t;
}
relay-Limited eff from after i bytes ts f false t k =
    let now = f.clock + after in
    let tip = rate_bucket_refill now eff f.tip in
    record {
      past = refill-past now eff f.tip (omega (arith, k.past));
      bucket =
          consume-Balanced eff from i now bytes f tip
            (refill-Balanced eff from f.relayed now f.tip k.bucket);
      pauses = λ j e. rw e (consume-stopped i now bytes f tip);
    }

alarm-Limited :
    (eff from after i : ℕ) (ts : List Traffic) (f : Flow) (b : Bool)
    → Limited eff from ts f
    → let g = record f { clock = f.clock + after } in
      let r : Flow × ℕ =
        if b then (record g { stopped = set_stopped g.stopped i false }, 1) else (g, 0) in
      Limited eff from (alarm after i ∷ ts) r.0
alarm-Limited eff from after i ts f true k = record {
  past = omega (arith, k.past);
  bucket = k.bucket;
  pauses = λ j l h. set_stopped_other f.stopped i j false l.0 ∙ k.pauses j l.1 h;
}
alarm-Limited eff from after i ts f false k = record {
  past = omega (arith, k.past);
  bucket = k.bucket;
  pauses = λ j l h. k.pauses j l.1 h;
}

traffic_step-Limited :
    (workers n from : ℕ) (t : Traffic) (ts : List Traffic) (f : Flow)
    → Limited (share workers (suc n)) from ts f
    → Limited (share workers (suc n)) from (t ∷ ts) (traffic_step workers (pos (suc n)) t f)
unfolding traffic_step rate_limit_after_relay rate_limit_resume
traffic_step-Limited workers n from (relay after i bytes) ts f k =
    relay-Limited (share workers (suc n)) from after i bytes ts f (f.stopped i) refl k
traffic_step-Limited workers n from (alarm after i) ts f k =
    alarm-Limited (share workers (suc n)) from after i ts f (f.stopped i) k

-- An address that was just entered.
abbrev pub fresh : ℕ → ℕ → ℕ → ℕ → Bytes → TrackedIp → Flow
fresh workers now n ip ipv6 e = record {
  tip = new_entry workers now (pos (suc n)) ip ipv6 e;
  stopped = λ i. false;
  clock = now;
  relayed = 0;
}

run_traffic-Limited :
    (workers from n ip : ℕ) (ipv6 : Bytes) (e : TrackedIp) (ts : List Traffic)
    → Limited
        (share workers (suc n))
        from
        ts
        (run_traffic workers (pos (suc n)) ts (fresh workers from n ip ipv6 e))
unfolding run_traffic new_entry
run_traffic-Limited workers from n ip ipv6 e [] = record {
  past = omega arith;
  bucket = record { started = omega arith; balance = omega arith; burst = omega arith };
  pauses = λ i l. absurd l;
}
run_traffic-Limited workers from n ip ipv6 e (t ∷ ts) =
    traffic_step-Limited workers n from t ts
      (run_traffic workers (pos (suc n)) ts (fresh workers from n ip ipv6 e))
      (run_traffic-Limited workers from n ip ipv6 e ts)

-- What an address was allowed since the time `from`.
pub record Allowance (eff from : ℕ) (ts : List Traffic) (f : Flow) : Type 0 where
  pub allowed :
      ticks_per_second * (f.relayed + credit f.tip.tokens)
      ≤ ticks_per_second * (eff + debt f.tip.tokens) + (f.clock - from) * eff
  pub burst : credit f.tip.tokens ≤ eff
  pub pauses : (i : ℕ) → IsLast i ts → 0 < debt f.tip.tokens → f.stopped i ≡ true

-- With a limit of n + 1 bytes a second, whatever relays and alarms of however many connections of a new
-- address come in which order: all bytes relayed, with those that its bucket still holds, are at most one
-- second's worth, the rate times the time since its start, and what the bucket owes; the bucket holds one
-- second's worth at most; and while it owes some, the connection that had bytes last is stopped, unless
-- its alarm fired since.
pub run_traffic-Allowance :
    (workers from n ip : ℕ) (ipv6 : Bytes) (e : TrackedIp) (ts : List Traffic)
    → Allowance
        (share workers (suc n))
        from
        ts
        (run_traffic workers (pos (suc n)) ts (fresh workers from n ip ipv6 e))
run_traffic-Allowance workers from n ip ipv6 e ts =
    let eff = share workers (suc n) in
    let f = run_traffic workers (pos (suc n)) ts (fresh workers from n ip ipv6 e) in
    let k = run_traffic-Limited workers from n ip ipv6 e ts in
    let split = mul-split eff from f.tip.last_refill_time f.clock k.bucket.started k.past in
    record {
      allowed = omega (arith, k.bucket.balance, split);
      burst = k.bucket.burst;
      pauses = k.pauses;
    }
