-- ===== src/Drs/Pump.antt =====
-- The alarms of src/net/net-tcp-rpc-ext-server.c bring the output of src/net/net-tcp-drs.c to its end.
use mtbolt.Common.{
  ℕ, zero, suc, ◌+◌, ◌<◌, ◌≡◌, inl, inr, refl, ap, arith, Bool, true, false, ◌&&◌, ◌||◌, [], Bytes,
  length, if◌then◌else◌,
}
use mtbolt.Drs.{
  Writer, Written, out_of_fuel, finished, paused, failed, Flags, is_write, drs_alarm, Pumped,
  no_fuel, ended, stalled, broken, encrypt_output_drs, pump,
}
use mtbolt.Drs.Records.{Writes, cipher, encrypt_output_drs-Writes}

-- The writer has nothing left.
abbrev pub IsEmptied : Pumped → Type 0
IsEmptied no_fuel = ⊥
IsEmptied (stalled w) = ⊥
IsEmptied (broken w) = ⊥
IsEmptied (ended w) = w.out ≡ []

-- No flag is set that takes an alarm away from the writer.
abbrev pub IsClear : Flags → Type 0
IsClear f = (f.stop_read || (f.retries || (f.proxy_protocol || f.pre_handshake))) ≡ false

and_off : (b : Bool) → (b && false) ≡ false
and_off true = refl
and_off false = refl

-- In a pause an alarm calls the writer, with the same output and without the pause.
drs_alarm_lem :
    (f : Flags) (w : Writer)
    → IsClear f
    → (w.is_tls && w.drs.delay_pending) ≡ true
    → (is_write (drs_alarm f w).0 ≡ true)
      × ((drs_alarm f w).1.out ≡ w.out)
      × (((drs_alarm f w).1.is_tls && (drs_alarm f w).1.drs.delay_pending) ≡ false)
unfolding drs_alarm
drs_alarm_lem f w c p =
    let read : f.stop_read ≡ false = ground (arith, c) in
    let again : f.retries ≡ false = ground (arith, c) in
    let proxy : f.proxy_protocol ≡ false = ground (arith, c) in
    let early : f.pre_handshake ≡ false = ground (arith, c) in
    rw (read, again, proxy, early, p, drs_alarm) (refl, refl, and_off w.is_tls)

module _ (second : ℕ) (random : ℕ → ℕ) (E : ℕ → Bytes → Bytes) (delays : Bool) (clock : ℕ → ℕ)
    (flags : ℕ → Flags) (clear : (n : ℕ) → IsClear (flags n)) where
  pump-IsEmptied_fuel :
      (fuel : ℕ) (w : Writer)
      → (w.is_tls && w.drs.delay_pending) ≡ false
      → length w.out < fuel
      → IsEmptied (pump second random (cipher E) delays clock flags fuel w)
  unfolding pump
  pump-IsEmptied_fuel zero w free le = absurd (omega (arith, le))
  pump-IsEmptied_fuel (suc fuel) w free le =
      next (λ v free' less. pump-IsEmptied_fuel fuel v free' (omega (arith, le, less)))
        (encrypt_output_drs second random (cipher E) delays (clock fuel) w)
        (encrypt_output_drs-Writes second random E delays (clock fuel) w)
    where
      next :
          ((v : Writer)
            → (v.is_tls && v.drs.delay_pending) ≡ false
            → length v.out < length w.out
            → IsEmptied (pump second random (cipher E) delays clock flags fuel v))
          → (r : Written) → Writes E w r
          → IsEmptied (elim r [
            | paused w' ↦
                let alarm = drs_alarm (flags fuel) w' in
                let rest = pump second random (cipher E) delays clock flags fuel alarm.1 in
                if is_write alarm.0 then rest else stalled alarm.1
            | finished w' ↦ ended w'
            | failed w' ↦ broken w'
            | out_of_fuel ↦ no_fuel
          ])
      next again (paused v) h =
          let a = drs_alarm_lem (flags fuel) v (clear fuel) h.1 in
          rw a.0 (again (drs_alarm (flags fuel) v).1 a.2 (omega (arith, h.3, ap length a.1)))
      next again (finished v) (s, inl e) = e
      next again (finished v) (s, inr p) = absurd (ground (arith, free, p.0))
      next again out_of_fuel h = h
      next again (failed v) h = h

  -- If the cipher never fails, no pause is pending, and no alarm finds C_STOPREAD or C_PROXY_PROTOCOL, a
  -- direct client without its data center or a connection in front of its handshake, then with an alarm at
  -- the end of every pause, whatever the clock shows and whichever numbers are drawn, the output is sent to
  -- its end.
  pub pump-IsEmptied :
      (w : Writer)
      → (w.is_tls && w.drs.delay_pending) ≡ false
      → IsEmptied (pump second random (cipher E) delays clock flags (length w.out + 1) w)
  pump-IsEmptied w free = pump-IsEmptied_fuel (length w.out + 1) w free (omega arith)
