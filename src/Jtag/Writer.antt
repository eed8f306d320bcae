-- ===== src/Jtag/Writer.antt =====
-- src/jtag_gpio.c: the bitstream writer (`jtag_program_writer_*`) and the loop that feeds it.
use Prim.Native.Nat.{bit_and}
use mega65_expansion_board_i.Base.{
  ℕ, zero, suc, ◌+◌, ◌-◌, ◌%◌, ◌^◌, Bool, true, false, not, ◌&&◌, ◌||◌, Option, none, some, List,
  [], ◌∷◌, ◌++◌, ◌==◌, ltb, if◌then◌else◌, length,
}
use mega65_expansion_board_i.Base.Bits.{test_bit}
use mega65_expansion_board_i.Jtag.Ir
use mega65_expansion_board_i.Jtag.Shift.{
  tap_reset, shift_ir, shift_dr_read32, enter_shift_dr, leave_exit1_dr,
}
use mega65_expansion_board_i.Jtag.Config.{
  no_error, zero_length_payload, invalid_writer, payload_too_long, short_payload, short_read,
  idcode_mismatch, Port, jtag_read_xilinx_status,
}
use mega65_expansion_board_i.Jtag.Pins.{
  Chain, Bus, tick_payload_bit, idle_clocks, jtag_hijack_claim, jtag_hijack_release,
}

-- `jtag_program_options_t`; `wants_progress` tells whether `progress_cb` is set
pub record Options : Type 0 where
  pub check_idcode : Bool
  pub use_hijack : Bool
  pub release_after : Bool
  pub wants_progress : Bool

-- `jtag_stream_writer_t`
pub record Writer : Type 0 where
  pub payload_length : ℕ
  pub expected_idcode : ℕ
  pub done : ℕ
  pub active : Bool
  pub release_after : Bool
  pub wants_progress : Bool

-- `memset(wr, 0, sizeof *wr)`
abbrev pub zero_writer : Writer
zero_writer = record {
  payload_length = 0;
  expected_idcode = 0;
  done = 0;
  active = false;
  release_after = false;
  wants_progress = false;
}

abbrev pub opt_or : (Options → Bool) → Option Options → Bool → Bool
opt_or field none d = d
opt_or field (some o) d = field o

unfoldable pub idcode_match : ℕ → ℕ → Bool
idcode_match seen expected =
    if expected == 0 then true else bit_and seen 0x0fff_ffff == bit_and expected 0x0fff_ffff

-- `if (flag) jtag_hijack_release()`
abbrev pub release_if : {D : Type 0} → Bool → Bus D → Bus D
release_if flag b = if flag then jtag_hijack_release b else b

-- `jtag_stream_read_cb_t`: what a read of `len` bytes reports, the bytes that it got, and the
-- reader's next state. The count `got` is the number of bytes.
abbrev pub Reader : Type 0 → Type 0
Reader R = ℕ → R → Bool × List ℕ × R

module _ (c : Chain) where
  -- JPROGRAM, ISC_NOOP and CFG_IN, up to Shift-DR, where the writer stays until the last bit
  unfoldable pub start_config : Bus c.Device → Bus c.Device
  start_config b =
      let b1 = idle_clocks c 64 (shift_ir c Ir.jprogram Ir.len b) in
      let b2 = idle_clocks c 64 (shift_ir c Ir.isc_noop Ir.len b1) in
      enter_shift_dr c (shift_ir c Ir.cfg_in Ir.len b2)

  -- `jtag_program_writer_begin` from the check of the IDCODE on
  unfoldable pub begin_with_id :
      ℕ → ℕ → Option Options → ℕ → Bus c.Device → Port c.Device → Bool × Writer × Port c.Device
  begin_with_id payload_length expected opts id b port =
      let release_after = opt_or (λ o. o.release_after) opts true in
      let check_idcode = opt_or (λ o. o.check_idcode) opts true in
      if check_idcode && (not (expected == 0) && not (idcode_match id expected))
      then (
        false,
        zero_writer,
        record port { bus = release_if release_after b; last_err = idcode_mismatch id expected },
      )
      else (
        true,
        record {
          payload_length = payload_length;
          expected_idcode = expected;
          done = 0;
          active = true;
          release_after = release_after;
          wants_progress = opt_or (λ o. o.wants_progress) opts false;
        },
        record port { bus = start_config b },
      )

  unfoldable pub jtag_program_writer_begin :
      ℕ → ℕ → Option Options → Port c.Device → Bool × Writer × Port c.Device
  jtag_program_writer_begin payload_length expected opts port =
      let cleared = record port { last_err = no_error; last_status_valid = false } in
      let use_hijack = opt_or (λ o. o.use_hijack) opts true in
      let b1 = if use_hijack then jtag_hijack_claim port.bus else port.bus in
      let (id, b2) = shift_dr_read32 c (shift_ir c Ir.idcode Ir.len (tap_reset c b1)) in
      if payload_length == 0
      then (false, zero_writer, record cleared { last_err = zero_length_payload })
      else begin_with_id payload_length expected opts id b2 cleared

  -- the eight `tick_payload_bit` calls for one byte
  unfoldable pub payload_byte : ℕ → Bool → Bus c.Device → Bus c.Device
  payload_byte byte final_byte b =
      let b7 = tick_payload_bit c (test_bit byte 7) false b in
      let b6 = tick_payload_bit c (test_bit byte 6) false b7 in
      let b5 = tick_payload_bit c (test_bit byte 5) false b6 in
      let b4 = tick_payload_bit c (test_bit byte 4) false b5 in
      let b3 = tick_payload_bit c (test_bit byte 3) false b4 in
      let b2 = tick_payload_bit c (test_bit byte 2) false b3 in
      let b1 = tick_payload_bit c (test_bit byte 1) false b2 in
      tick_payload_bit c (test_bit byte 0) final_byte b1

  -- one round of the loop over `buf`
  unfoldable pub write_byte : ℕ → Writer × Port c.Device → Writer × Port c.Device
  write_byte byte (wr, port) =
      let done = (wr.done + 1) % 2 ^ 32 in
      let tell = wr.wants_progress && (done % 0x1_0000 == 0 || done == wr.payload_length) in
      (
        record wr { done = done },
        record port {
          bus = payload_byte byte (done == wr.payload_length) port.bus;
          progress =
              (if tell then port.progress ++ ((done, wr.payload_length) ∷ []) else port.progress);
        },
      )

  unfoldable pub write_bytes : List ℕ → Writer × Port c.Device → Writer × Port c.Device
  write_bytes [] s = s
  write_bytes (byte ∷ buf) s = write_bytes buf (write_byte byte s)

  -- `size_t` is 32 bits wide here, so `done + len` wraps.
  unfoldable pub jtag_program_writer_write :
      List ℕ → Writer → Port c.Device → Bool × Writer × Port c.Device
  jtag_program_writer_write buf wr port =
      let (wr', port') = write_bytes buf (wr, port) in
      if not wr.active
      then (false, wr, record port { last_err = invalid_writer })
      else if ltb wr.payload_length ((wr.done + length buf) % 2 ^ 32)
      then (false, wr, record port { last_err = payload_too_long })
      else (true, wr', port')

  unfoldable pub jtag_finish_closeout : Port c.Device → Port c.Device
  jtag_finish_closeout port =
      let b1 = leave_exit1_dr c port.bus in
      let b2 = idle_clocks c 100_000 (shift_ir c Ir.jstart Ir.len b1) in
      let b3 = idle_clocks c 4096 (shift_ir c Ir.isc_noop Ir.len b2) in
      let b4 = idle_clocks c 1024 (shift_ir c Ir.bypass Ir.len b3) in
      let (st, read) =
        jtag_read_xilinx_status c (record port { bus = idle_clocks c 1024 (tap_reset c b4) }) in
      record read { last_status = some st; last_status_valid = st.bootsts_valid && st.stat_valid }

  unfoldable pub jtag_program_writer_abort : Writer → Port c.Device → Writer × Port c.Device
  jtag_program_writer_abort wr port =
      if wr.active
      then (
        record wr { active = false },
        record port { bus = release_if wr.release_after (tap_reset c port.bus) },
      )
      else (wr, port)

  unfoldable pub jtag_program_writer_finish : Writer → Port c.Device → Bool × Writer × Port c.Device
  jtag_program_writer_finish wr port =
      let (wr', port') = jtag_program_writer_abort wr (record port { last_err = short_payload }) in
      let closed = jtag_finish_closeout port in
      if not wr.active
      then (false, wr, record port { last_err = invalid_writer })
      else if not (wr.done == wr.payload_length)
      then (false, wr', port')
      else (
        true,
        record wr { active = false },
        record closed { bus = release_if wr.release_after closed.bus },
      )

  module _ {R : Type 0} (read_cb : Reader R) where
    -- `while (remaining)`; one round takes one byte at least, so `remaining + 1` rounds are enough.
    unfoldable pub stream_loop :
        ℕ → ℕ → R → Writer → Port c.Device → Option (Bool × R × Writer × Port c.Device)
    stream_loop zero remaining r wr port = none
    stream_loop (suc fuel) remaining r wr port =
        let want = if ltb 4096 remaining then 4096 else remaining in
        let (ok, buf, r') = read_cb want r in
        let (wr_short, port_short) =
          jtag_program_writer_abort wr (record port { last_err = short_read }) in
        let (written, wr', port') = jtag_program_writer_write buf wr port in
        let (wr_failed, port_failed) = jtag_program_writer_abort wr' port' in
        let rest = stream_loop fuel (remaining - want) r' wr' port' in
        let (finished, wr_end, port_end) = jtag_program_writer_finish wr port in
        if remaining == 0
        then some (finished, r, wr_end, port_end)
        else if not (ok && length buf == want)
        then some (false, r', wr_short, port_short)
        else if not written
        then some (false, r', wr_failed, port_failed)
        else rest

    unfoldable pub jtag_program_stream :
        ℕ → ℕ → Option Options → R → Port c.Device → Option (Bool × R × Port c.Device)
    jtag_program_stream payload_length expected opts r port =
        let (begun, wr, port') = jtag_program_writer_begin payload_length expected opts port in
        let looped = stream_loop (payload_length + 1) payload_length r wr port' in
        if begun
        then elim looped [ none ↦ none | some (ok, r', wr', port_end) ↦ some (ok, r', port_end) ]
        else some (false, r, port')
