-- ===== src/Secrets/Rate/Account.antt =====
-- What a refill, a relay and an alarm do to the account of an address, in
-- src/net/net-tcp-rpc-ext-server.c.
use mtbolt.Common.{
  ℕ, ◌+◌, ◌-◌, ◌*◌, ◌/◌, ◌≤◌, ◌<◌, ◌≡◌, inl, inr, refl, ◌∙◌, ap, arith, ltb, Bool-cases,
}
use mtbolt.Common.Int.{ℤ, pos, negsuc}
use mtbolt.Secrets.Slot.{TrackedIp}
use mtbolt.Secrets.Rate.{
  ticks_per_second, add_nat, sub_nat, cap, rate_bucket_refill, debt, consume, Flow,
}

-- what a bucket holds
abbrev pub credit : ℤ → ℕ
credit (pos a) = a
credit (negsuc a) = 0

add_nat-balance :
    (z : ℤ) (n : ℕ) → credit (add_nat z n) + debt z ≡ credit z + n + debt (add_nat z n)
add_nat-balance (pos a) n = omega arith
add_nat-balance (negsuc a) n = ground arith

sub_nat-balance :
    (z : ℤ) (n : ℕ) → credit z + debt (sub_nat z n) ≡ credit (sub_nat z n) + n + debt z
sub_nat-balance (pos a) n = ground arith
sub_nat-balance (negsuc a) n = omega arith

cap-le :
    (eff : ℕ) (z : ℤ)
    → (credit (cap eff z) ≤ credit z) × (credit (cap eff z) ≤ eff) × (debt (cap eff z) ≡ debt z)
cap-le eff (pos a) = ground arith
cap-le eff (negsuc a) = (omega arith, omega arith, refl)

credit-sub_nat : (z : ℤ) (n : ℕ) → credit (sub_nat z n) ≤ credit z
credit-sub_nat (pos a) n = ground arith
credit-sub_nat (negsuc a) n = omega arith

add_mul : (a b c : ℕ) → (a + b) * c ≡ a * c + b * c
add_mul a b c = omega arith

pub mul-split : (eff a b c : ℕ) → a ≤ b → b ≤ c → (c - a) * eff ≡ (c - b) * eff + (b - a) * eff
mul-split eff a b c p q =
    let e : c - a ≡ (c - b) + (b - a) = omega (arith, p, q) in
    ap (λ z. z * eff) e ∙ add_mul (c - b) (b - a) eff

module _ (eff from : ℕ) where
  -- A bucket after bytes were relayed since the time `from`.
  pub record Balanced (relayed : ℕ) (tip : TrackedIp) : Type 0 where
    pub started : from ≤ tip.last_refill_time
    pub balance :
        ticks_per_second * (relayed + credit tip.tokens)
        ≤ ticks_per_second * (eff + debt tip.tokens) + (tip.last_refill_time - from) * eff
    pub burst : credit tip.tokens ≤ eff

  pub refill-Balanced :
      (relayed now : ℕ) (tip : TrackedIp)
      → Balanced relayed tip
      → Balanced relayed (rate_bucket_refill now eff tip)
  unfolding rate_bucket_refill
  refill-Balanced relayed now tip k = elim (Bool-cases (ltb tip.last_refill_time now)) [
    | inr b ↦ rw b k
    | inl t ↦
        let less : tip.last_refill_time < now = ground (arith, t) in
        let r = (now - tip.last_refill_time) * eff / ticks_per_second in
        let sum = add_nat-balance tip.tokens r in
        let top = cap-le eff (add_nat tip.tokens r) in
        let split = mul-split eff from tip.last_refill_time now k.started (omega (arith, less)) in
        rw t (record {
          started = omega (arith, k.started, less);
          balance = omega (arith, k.balance, sum, top.0, top.2, split);
          burst = top.1;
        })
  ]

  pub consume-Balanced :
      (i now bytes : ℕ) (f : Flow) (tip : TrackedIp)
      → Balanced f.relayed tip
      → Balanced (f.relayed + bytes) (consume i now bytes f tip).tip
  consume-Balanced i now bytes f tip k = record {
    started = k.started;
    balance = omega (arith, k.balance, sub_nat-balance tip.tokens bytes);
    burst = omega (arith, credit-sub_nat tip.tokens bytes, k.burst);
  }
