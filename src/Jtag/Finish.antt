-- ===== src/Jtag/Finish.antt =====
-- src/jtag_gpio.c: how `jtag_program_writer_finish` and `jtag_program_writer_abort` end a configuration.
use mega65_expansion_board_i.Base.{
  ◌≡◌, ◌≢◌, refl, ap, ◌∙◌, Bool, true, false, some, List, [], ◌∷◌, ◌++◌, ◌==◌, ◌<◌, arith,
}
use mega65_expansion_board_i.Jtag.Tap.{run_test_idle, Update, dr}
use mega65_expansion_board_i.Jtag.Pins.{Chain, Conforms, Bus, jtag_hijack_release}
use mega65_expansion_board_i.Jtag.Shift
use mega65_expansion_board_i.Jtag.Words.{tap_reset-at}
use mega65_expansion_board_i.Jtag.Config.{
  Status, Port, no_error, short_payload, jtag_read_xilinx_status,
}
use mega65_expansion_board_i.Jtag.Writer.{
  Writer, jtag_finish_closeout, jtag_program_writer_finish, jtag_program_writer_abort, release_if,
}
use mega65_expansion_board_i.Jtag.Begin.{Quiet}
use mega65_expansion_board_i.Jtag.Payload.{Fed}
use mega65_expansion_board_i.Jtag.Closeout.{closeout_updates, closeout-Idle}

module _ {D : Type 0} where
  pub chip-release_if : (flag : Bool) (b : Bus D) → (release_if flag b).chip ≡ b.chip
  unfolding jtag_hijack_release
  chip-release_if flag b = ground arith

  -- the port after `jtag_hijack_release`
  pub release_if_lets_go :
      (flag : Bool) (b : Bus D)
      → flag ≡ true
      → Quiet (release_if flag b).pins × ((release_if flag b).pins.hijack ≡ false)
  unfolding jtag_hijack_release
  release_if_lets_go flag b h = ground arith

module _ (c : Chain) where
  closeout-status :
      (port : Port c.Device)
      → let closed = jtag_finish_closeout c port in
        (closed.last_err ≡ no_error)
        × (closed.last_status_valid ≡ true)
        × ((st : Status) × (closed.last_status ≡ some st)
            × (st.bootsts_valid ≡ true)
            × (st.stat_valid ≡ true)
            × (st.bypass_valid ≡ true))
  unfolding jtag_finish_closeout jtag_read_xilinx_status
  closeout-status port = (refl, refl, (_, refl, refl, refl, refl))

  finish-eq :
      (wr : Writer) (port : Port c.Device)
      → wr.active ≡ true
      → wr.done ≡ wr.payload_length
      → let closed = jtag_finish_closeout c port in
        jtag_program_writer_finish c wr port ≡ (
          true,
          record wr { active = false },
          record closed { bus = release_if wr.release_after closed.bus },
        )
  unfolding jtag_program_writer_finish
  finish-eq wr port act full = ground arith

  pub abort-eq :
      (wr : Writer) (port : Port c.Device)
      → wr.active ≡ true
      → jtag_program_writer_abort c wr port ≡ (
        record wr { active = false },
        record port { bus = release_if wr.release_after (Shift.tap_reset c port.bus) },
      )
  unfolding jtag_program_writer_abort
  abort-eq wr port act = ground arith

  finish_short-eq :
      (wr : Writer) (port : Port c.Device)
      → wr.active ≡ true
      → wr.done ≢ wr.payload_length
      → jtag_program_writer_finish c wr port ≡ (
        false,
        record wr { active = false },
        record port {
          last_err = short_payload;
          bus = release_if wr.release_after (Shift.tap_reset c port.bus);
        },
      )
  unfolding jtag_program_writer_finish jtag_program_writer_abort
  finish_short-eq wr port act short = ground arith

module _ {c : Chain} (conf : Conforms c) where
  -- Of a writer that is active, stands in the scan of its payload and has written every byte, finish
  -- succeeds: the chip takes the payload over as one scan of CFG_IN, goes through JSTART, ISC_NOOP,
  -- BYPASS and the status reads, and is left in Run-Test/Idle; the writer is inactive, the error is
  -- cleared, and a status is kept that is marked as valid, with all its registers.
  pub finish_completes :
      (wr : Writer) (port : Port c.Device) {s : List Bool} {u : List Update}
      → Fed conf wr port.bus s u
      → wr.active ≡ true
      → wr.done ≡ wr.payload_length
      → let (ok, wr', port') = jtag_program_writer_finish c wr port in
        (ok ≡ true)
        × (wr'.active ≡ false)
        × (port'.last_err ≡ no_error)
        × (port'.last_status_valid ≡ true)
        × ((st : Status) × (port'.last_status ≡ some st)
            × (st.bootsts_valid ≡ true)
            × (st.stat_valid ≡ true)
            × (st.bypass_valid ≡ true))
        × ((conf.view port'.bus.chip).tap ≡ run_test_idle)
        × ((conf.view port'.bus.chip).updates ≡ u ++ (dr s ∷ closeout_updates))
  finish_completes wr port {s} {u} fed act full =
      let over : (wr.done == wr.payload_length) ≡ true = ground arith in
      let (t, h) = closeout-Idle conf port (rw over at fed.sees) in
      let closed = (jtag_finish_closeout c port).bus in
      let chip = ap conf.view (chip-release_if wr.release_after closed) ∙ h.state in
      let (err, valid, st) = closeout-status c port in
      rw (finish-eq c wr port act full)
        (refl, refl, err, valid, st, ap (λ v. v.tap) chip, ap (λ v. v.updates) chip)

  -- A short payload is refused: the chip is taken through a TAP reset to Run-Test/Idle and never
  -- sees JSTART, and the writer is inactive.
  pub finish_short :
      (wr : Writer) (port : Port c.Device) {s : List Bool} {u : List Update}
      → Fed conf wr port.bus s u
      → wr.active ≡ true
      → wr.done < wr.payload_length
      → let (ok, wr', port') = jtag_program_writer_finish c wr port in
        (ok ≡ false)
        × (wr'.active ≡ false)
        × (port'.last_err ≡ short_payload)
        × ((conf.view port'.bus.chip).tap ≡ run_test_idle)
        × ((conf.view port'.bus.chip).updates ≡ u ++ (dr (s ++ (false ∷ [])) ∷ []))
  finish_short wr port {s} {u} fed act short =
      let open_ : (wr.done == wr.payload_length) ≡ false = ground arith in
      let h = tap_reset-at conf (rw open_ at fed.sees) in
      let chip =
        ap conf.view (chip-release_if wr.release_after (Shift.tap_reset c port.bus)) ∙ h.state in
      rw (finish_short-eq c wr port act (omega arith))
        (refl, refl, refl, ap (λ v. v.tap) chip, ap (λ v. v.updates) chip)
