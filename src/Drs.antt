-- ===== src/Drs.antt =====
-- The writer of TLS records of src/net/net-tcp-drs.c: sizes that grow, and pauses between records.
-- A clock reading is a number of ticks, of which `second` make a second. The random numbers are a
-- function of how many were drawn. `encrypt` is the stream cipher at a position of its stream, which
-- rwm_encrypt_decrypt_to applies to the first bytes of the output; `none` where it handles fewer. The
-- length of a pause, an assertion on left_tls_packet_length and the log are left out.
pub mod Records
pub mod Pump
mod Tests
use mtbolt.Common.{
  ℕ, zero, suc, ◌+◌, ◌-◌, ◌*◌, ◌/◌, ◌%◌, ◌^◌, Bool, true, false, not, ◌&&◌, ◌||◌, Option, none,
  some, List, [], ◌∷◌, ◌++◌, Bytes, length, take, drop, ltb, leb, ◌==◌, if◌then◌else◌,
}

-- `struct drs_state`
pub record DrsState : Type 0 where
  pub record_index : ℕ
  pub total_records : ℕ
  pub last_record_time : ℕ
  pub delay_pending : Bool

-- A connection as the writer sees it: whether it has TLS, what is to be sent and what is ready, how far
-- the cipher's stream is, how many random numbers were drawn, and the two counters of pauses.
pub record Writer : Type 0 where
  pub is_tls : Bool
  pub drs : DrsState
  pub out : Bytes
  pub out_p : Bytes
  pub position : ℕ
  pub draws : ℕ
  pub delays_applied : ℕ
  pub delays_skipped : ℕ

abbrev pub phase1_end : ℕ
phase1_end = 40

abbrev pub phase2_end : ℕ
phase2_end = 60

abbrev pub size_max : ℕ
size_max = 16144

-- `drs_record_size`, with the random number that it draws
unfoldable pub record_size : ℕ → ℕ → ℕ
record_size record_index random =
    let base =
      if ltb record_index phase1_end
      then 1450
      else (if ltb record_index phase2_end then 4096 else size_max) in
    let size = base + random % 201 - 100 in if ltb size 64 then 64 else size

-- the header of a record with `len` bytes
abbrev pub record_header : ℕ → Bytes
record_header len = 0x17 ∷ 0x03 ∷ 0x03 ∷ len / 2 ^ 8 % 256 ∷ len % 256 ∷ []

-- the resets after inactivity
unfoldable pub reset_idle : ℕ → ℕ → DrsState → DrsState
reset_idle second now d =
    let d' =
      if ltb (d.last_record_time + second) now
      then record d { record_index = 0; delay_pending = false }
      else d in
    if ltb (d.last_record_time + 30 * second) now then record d' { total_records = 0 } else d'

-- What the writer returns: 0 with nothing left, 0 with a timer set, or -1.
pub data Written : Type 0 where
  out_of_fuel : Written
  finished : Writer → Written
  paused : Writer → Written
  failed : Writer → Written

-- What else an alarm looks at: C_STOPREAD, whether the connection to a data center of a direct client is
-- to be tried again, C_PROXY_PROTOCOL, and whether `in_packet_num` is -3, in front of the handshake.
pub record Flags : Type 0 where
  pub stop_read : Bool
  pub retries : Bool
  pub proxy_protocol : Bool
  pub pre_handshake : Bool

-- What an alarm does: it goes on reading, tries the data center again, fails the connection, ends its
-- handshake, calls the writer, or nothing.
pub data Action : Type 0 where
  resume_read retry_dc fail_proxy end_handshake write nothing : Action

abbrev pub is_write : Action → Bool
is_write write = true
is_write _ = false

-- `tcp_rpcs_ext_drs_alarm`
unfoldable pub drs_alarm : Flags → Writer → Action × Writer
drs_alarm f w =
    if f.stop_read
    then (resume_read, w)
    else (if f.retries
        then (retry_dc, w)
        else (if f.proxy_protocol
            then (fail_proxy, w)
            else (if f.pre_handshake
                then (end_handshake, w)
                else (if w.is_tls && w.drs.delay_pending
                    then (write, record w { drs = record w.drs { delay_pending = false } })
                    else (nothing, w)))))

-- What becomes of the output: the writer returns without a timer set, or the alarm at the end of a pause
-- does not call it again.
pub data Pumped : Type 0 where
  no_fuel : Pumped
  ended : Writer → Pumped
  stalled : Writer → Pumped
  broken : Writer → Pumped

-- the ciphertext of a record, appended
abbrev pub append_record : ℕ → Bytes → Writer → Writer
append_record len ct w = record w {
  out = drop len w.out;
  out_p = w.out_p ++ ct;
  position = w.position + len;
}

module _ (second : ℕ) (random : ℕ → ℕ) (encrypt : ℕ → Bytes → Option Bytes)
    (delays_enabled : Bool) where
  -- the next record's length, and its header in front of the output
  unfoldable pub start_record : ℕ → Writer → ℕ × Writer
  unfolding record_size reset_idle
  start_record now w =
      let len = length w.out in
      if not w.is_tls
      then (len, w)
      else (let d = reset_idle second now w.drs in
          let max_len = record_size d.record_index (random w.draws) in
          let len' = if ltb max_len len then max_len else len in
          (
            len',
            record w {
              out_p = w.out_p ++ record_header len';
              draws = w.draws + 1;
              drs = record d {
                record_index = d.record_index + 1;
                total_records = d.total_records + 1;
                last_record_time = now;
              };
            },
          ))

  -- `total_bytes > DRS_BURST_THRESHOLD || total_records >= DRS_PHASE2_END || record_index > DRS_DELAY_RECORDS`
  unfoldable pub skips_delay : Writer → Bool
  skips_delay w =
      ltb size_max (length w.out)
      || (leb phase2_end w.drs.total_records || ltb 1 w.drs.record_index)

  -- what follows a record: the counters of pauses, and whether there is a pause
  unfoldable pub after_record : Writer → Writer × Bool
  unfolding skips_delay
  after_record w =
      if delays_enabled && (w.is_tls && ltb 0 (length w.out))
      then (if skips_delay w then (record w { delays_skipped = w.delays_skipped + 1 }, false) else (
        record w {
          drs = record w.drs { delay_pending = true };
          delays_applied = w.delays_applied + 1;
        },
        true,
      ))
      else (w, false)

  -- the loop
  unfoldable pub write_records : ℕ → ℕ → Writer → Written
  unfolding start_record after_record
  write_records now zero w = if length w.out == 0 then finished w else out_of_fuel
  write_records now (suc fuel) w =
      if length w.out == 0
      then finished w
      else (let started = start_record now w in
          elim (encrypt w.position (take started.0 w.out)) [
            | none ↦ failed started.1
            | some ct ↦
                let after = after_record (append_record started.0 ct started.1) in
                elim after.1 [ true ↦ paused after.0 | false ↦ write_records now fuel after.0 ]
          ])

  -- A round sends at least one byte.
  unfoldable pub encrypt_output_drs : ℕ → Writer → Written
  unfolding write_records
  encrypt_output_drs now w =
      if w.is_tls && w.drs.delay_pending then finished w else write_records now (length w.out) w

  -- the writer called again at each alarm, at the time and with the flags that there are then
  unfoldable pub pump : (ℕ → ℕ) → (ℕ → Flags) → ℕ → Writer → Pumped
  unfolding encrypt_output_drs drs_alarm
  pump clock flags zero w = no_fuel
  pump clock flags (suc fuel) w = elim (encrypt_output_drs (clock fuel) w) [
    | paused w' ↦
        let alarm = drs_alarm (flags fuel) w' in
        let rest = pump clock flags fuel alarm.1 in
        if is_write alarm.0 then rest else stalled alarm.1
    | finished w' ↦ ended w'
    | failed w' ↦ broken w'
    | out_of_fuel ↦ no_fuel
  ]
