-- ===== src/Drs/Tests.antt =====
-- The writer on three bytes, with a cipher that adds the position.
use mtbolt.Common.{
  ℕ, ◌+◌, ◌≡◌, refl, true, false, [], ◌∷◌, Bytes, map, length, replicate, Option, none, some,
}
use mtbolt.Drs.{Writer, Written, finished, Flags, Pumped, ended, stalled, encrypt_output_drs, pump}
use mtbolt.Drs.Pump.{IsEmptied, pump-IsEmptied}
use mtbolt.Drs.Records.{Writes, cipher, encrypt_output_drs-Writes}

abbrev shift : ℕ → Bytes → Bytes
shift position = map (λ b. b + position)

abbrev writer : Writer
writer = record {
  is_tls = true;
  drs = record { record_index = 0; total_records = 0; last_record_time = 0; delay_pending = false };
  out = 1 ∷ 2 ∷ 3 ∷ [];
  out_p = [];
  position = 10;
  draws = 0;
  delays_applied = 0;
  delays_skipped = 0;
}

abbrev left : Pumped → Option ℕ
left (ended w) = some (length w.out)
left (stalled w) = some (length w.out)
left _ = none

abbrev sent_bytes : Written → Option Bytes
sent_bytes (finished w) = some w.out_p
sent_bytes _ = none

sent_record :
    sent_bytes (encrypt_output_drs 1000 (λ n. 100) (cipher shift) true 7 writer)
    ≡ some (0x17 ∷ 3 ∷ 3 ∷ 0 ∷ 3 ∷ 11 ∷ 12 ∷ 13 ∷ [])
unfolding encrypt_output_drs
sent_record = refl

encrypt_output_drs-Writes_example :
    Writes shift writer (encrypt_output_drs 1000 (λ n. 100) (cipher shift) true 7 writer)
encrypt_output_drs-Writes_example = encrypt_output_drs-Writes 1000 (λ n. 100) shift true 7 writer

-- A connection behind its handshake, which reads.
abbrev clear : Flags
clear = record { stop_read = false; retries = false; proxy_protocol = false; pre_handshake = false }

-- Two records and the pause between them.
abbrev long_writer : Writer
long_writer = record writer { out = replicate 1500 7 }

pause_ended :
    left (pump 1000 (λ n. 100) (cipher shift) true (λ n. 7) (λ n. clear) 3 long_writer) ≡ some 0
unfolding pump
pause_ended = refl

-- The alarm of a connection with C_STOPREAD does not call the writer again.
pause_kept :
    left (
      pump 1000
        (λ n. 100)
        (cipher shift)
        true
        (λ n. 7)
        (λ n. record clear { stop_read = true })
        3
        long_writer)
    ≡ some 50
unfolding pump
pause_kept = refl

pump-IsEmptied_example :
    IsEmptied (pump 1000 (λ n. 100) (cipher shift) true (λ n. 7) (λ n. clear) 1501 long_writer)
pump-IsEmptied_example =
    pump-IsEmptied 1000 (λ n. 100) shift true (λ n. 7) (λ n. clear) (λ n. refl) long_writer refl
