-- ===== src/Jtag/Begin.antt =====
-- src/jtag_gpio.c: the hijack switch, and how `jtag_program_writer_begin` starts a configuration.
use mega65_expansion_board_i.Base.{
  ℕ, zero, suc, ◌≡◌, ◌≢◌, refl, ap, ◌∙◌, Bool, true, false, Option, List, [], ◌∷◌, ◌++◌,
  append_assoc, ◌==◌, arith, replicate,
}
use mega65_expansion_board_i.Base.Bits.{bits_lsb}
use mega65_expansion_board_i.Jtag.Ir
use mega65_expansion_board_i.Jtag.Tap.{run_test_idle, shift_dr, Update, ir, dr, View}
use mega65_expansion_board_i.Jtag.Pins.{
  Pins, GpioOp, gpio, claim_ops, release_ops, put_hijack, Chain, Conforms, Bus, jtag_hijack_claim,
  jtag_hijack_release,
}
use mega65_expansion_board_i.Jtag.Shift
use mega65_expansion_board_i.Jtag.Edges.{
  at, Sees, idle_clocks-Sees, shift_ir-Sees, enter_shift_dr-Sees,
}
use mega65_expansion_board_i.Jtag.Scans.{shift_dr_read32-Sees}
use mega65_expansion_board_i.Jtag.Words.{held, tap_reset-at}
use mega65_expansion_board_i.Jtag.Config.{Port, idcode_mismatch, no_error}
use mega65_expansion_board_i.Jtag.Writer.{
  Options, Writer, start_config, begin_with_id, jtag_program_writer_begin, release_if, idcode_match,
  opt_or,
}

-- The port drives none of TCK, TMS and TDI.
abbrev pub Quiet : Pins → Type 0
Quiet p = (p.tck_out ≡ false) × (p.tms_out ≡ false) × (p.tdi_out ≡ false)

-- Whenever the hijack line is written in this row of calls, the port drives no JTAG signal.
abbrev pub SwitchesQuietly : List GpioOp → Pins → Type 0
SwitchesQuietly [] p = Unit
SwitchesQuietly (put_hijack b ∷ os) p = Quiet p × SwitchesQuietly os (gpio (put_hijack b) p)
SwitchesQuietly (o ∷ os) p = SwitchesQuietly os (gpio o p)

-- `jtag_hijack_claim` and `jtag_hijack_release` turn the external switch only while TCK, TMS and
-- TDI are inputs, whatever state the pins were in.
pub claim_release-SwitchesQuietly :
    (p : Pins) → SwitchesQuietly claim_ops p × SwitchesQuietly release_ops p
unfolding gpio
claim_release-SwitchesQuietly p = ground arith

module _ {c : Chain} (conf : Conforms c) where
  claim-Sees :
      (b : Bus c.Device) {v : View} → conf.view b.chip ≡ v → Sees conf (jtag_hijack_claim b) v
  unfolding jtag_hijack_claim
  claim-Sees b h = record { live = refl; state = h }

  -- the updates by which a configuration is started, behind the reads of the IDCODE
  abbrev pub id_updates : List Update
  id_updates = ir (bits_lsb Ir.len Ir.idcode) ∷ dr (replicate 32 false) ∷ []

  start_config-Sees :
      {b : Bus c.Device} {s : List Bool} {u : List Update}
      → Sees conf b (at run_test_idle s u)
      → Sees conf (start_config c b) (
          at shift_dr [] (
            u
            ++ (ir (bits_lsb Ir.len Ir.jprogram)
                ∷ ir (bits_lsb Ir.len Ir.isc_noop)
                ∷ ir (bits_lsb Ir.len Ir.cfg_in)
                ∷ [])))
        × ((start_config c b).pins.tms ≡ false)
  unfolding start_config
  start_config-Sees {u = u} h =
      let h1 = idle_clocks-Sees conf 64 (shift_ir-Sees conf Ir.jprogram Ir.len (omega arith) h) in
      let h2 = idle_clocks-Sees conf 64 (shift_ir-Sees conf Ir.isc_noop Ir.len (omega arith) h1) in
      let (h3, low) =
        enter_shift_dr-Sees conf (shift_ir-Sees conf Ir.cfg_in Ir.len (omega arith) h2) in
      (simp append_assoc at h3, low)

  -- the chip after the claim, a TAP reset and the read of its IDCODE
  read_id-Sees :
      (b : Bus c.Device) {v : View}
      → conf.view b.chip ≡ v
      → Sees conf
          (Shift.shift_dr_read32 c
            (Shift.shift_ir c Ir.idcode Ir.len (Shift.tap_reset c (jtag_hijack_claim b)))).1
          (at run_test_idle (replicate 32 false) ((held 8 v).updates ++ id_updates))
  read_id-Sees b h = simp append_assoc at (
      shift_dr_read32-Sees conf
        (shift_ir-Sees conf Ir.idcode Ir.len (omega arith) (tap_reset-at conf (claim-Sees b h))))

  begin_with_id-true :
      (n expected : ℕ) (opts : Option Options) (id : ℕ) (b : Bus c.Device) (port : Port c.Device)
      {wr : Writer} {port' : Port c.Device}
      → begin_with_id c n expected opts id b port ≡ (true, wr, port')
      → (port'.bus ≡ start_config c b)
        × (wr.payload_length ≡ n)
        × (wr.done ≡ 0)
        × (wr.active ≡ true)
        × (wr.release_after ≡ opt_or (λ o. o.release_after) opts true)
  unfolding begin_with_id
  begin_with_id-true n expected opts id b port e = ground arith

  begin_with_id-false :
      (n expected : ℕ) (opts : Option Options) (id : ℕ) (b : Bus c.Device) (port : Port c.Device)
      {wr : Writer} {port' : Port c.Device}
      → begin_with_id c n expected opts id b port ≡ (false, wr, port')
      → (port'.bus ≡ release_if (opt_or (λ o. o.release_after) opts true) b)
        × (port'.last_err ≡ idcode_mismatch id expected)
        × (idcode_match id expected ≡ false)
        × (expected ≢ 0)
  unfolding begin_with_id
  begin_with_id-false n expected opts id b port e = ground arith

  -- the row of registers that a successful begin loads
  abbrev pub start_updates : List Update
  start_updates =
      ir (bits_lsb Ir.len Ir.idcode)
      ∷ dr (replicate 32 false)
      ∷ ir (bits_lsb Ir.len Ir.jprogram)
      ∷ ir (bits_lsb Ir.len Ir.isc_noop)
      ∷ ir (bits_lsb Ir.len Ir.cfg_in)
      ∷ []

  begin-eq :
      (n expected : ℕ) (opts : Option Options) (port : Port c.Device)
      → n ≢ 0
      → opt_or (λ o. o.use_hijack) opts true ≡ true
      → let (id, b) =
          Shift.shift_dr_read32 c
            (Shift.shift_ir c Ir.idcode Ir.len (Shift.tap_reset c (jtag_hijack_claim port.bus))) in
        jtag_program_writer_begin c n expected opts port
        ≡ begin_with_id c n expected opts id b
            (record port { last_err = no_error; last_status_valid = false })
  unfolding jtag_program_writer_begin
  begin-eq zero expected opts port nz hijack = absurd (nz refl)
  begin-eq (suc n) expected opts port nz hijack =
      let e : (suc n == 0) ≡ false = ground arith in rw (e, hijack)

  -- When the port may claim the bus and begin succeeds, the chip has been reset, has given its
  -- IDCODE, has taken JPROGRAM, ISC_NOOP and CFG_IN, in this order and nothing else, and waits in
  -- Shift-DR with no bit shifted in, whatever state it was in before. The writer stands at byte 0.
  pub begin_starts :
      (n expected : ℕ) (opts : Option Options) (port : Port c.Device) {v : View} {wr : Writer}
      {port' : Port c.Device}
      → conf.view port.bus.chip ≡ v
      → n ≢ 0
      → opt_or (λ o. o.use_hijack) opts true ≡ true
      → jtag_program_writer_begin c n expected opts port ≡ (true, wr, port')
      → Sees conf port'.bus (at shift_dr [] ((held 8 v).updates ++ start_updates))
        × (port'.bus.pins.tms ≡ false)
        × (wr.payload_length ≡ n)
        × (wr.done ≡ 0)
        × (wr.active ≡ true)
  begin_starts n expected opts port {v} h nz hijack e =
      let (id, b) =
        Shift.shift_dr_read32 c
          (Shift.shift_ir c Ir.idcode Ir.len (Shift.tap_reset c (jtag_hijack_claim port.bus))) in
      let (bus, len, done, active, _) =
        begin_with_id-true n expected opts id b _
          (rw (begin-eq n expected opts port nz hijack) at e) in
      let (seen, low) = start_config-Sees (read_id-Sees port.bus h) in
      (rw bus (simp append_assoc at seen), rw bus low, len, done, active)

  -- When the options let the port claim the bus and ask for a release, and begin fails on a payload
  -- that is not empty, the IDCODE did not match: the chip has been reset and has given its IDCODE,
  -- and has taken no other instruction, and the port drives no JTAG signal and has the hijack line
  -- inactive.
  pub begin_refuses :
      (n expected : ℕ) (opts : Option Options) (port : Port c.Device) {v : View} {wr : Writer}
      {port' : Port c.Device}
      → conf.view port.bus.chip ≡ v
      → n ≢ 0
      → opt_or (λ o. o.use_hijack) opts true ≡ true
      → opt_or (λ o. o.release_after) opts true ≡ true
      → jtag_program_writer_begin c n expected opts port ≡ (false, wr, port')
      → ((conf.view port'.bus.chip).updates ≡ (held 8 v).updates ++ id_updates)
        × ((id : ℕ) × (port'.last_err ≡ idcode_mismatch id expected)
            × (idcode_match id expected ≡ false))
        × Quiet port'.bus.pins
        × (port'.bus.pins.hijack ≡ false)
  unfolding jtag_hijack_release
  begin_refuses n expected opts port {port'} h nz hijack releases e =
      let (id, b) =
        Shift.shift_dr_read32 c
          (Shift.shift_ir c Ir.idcode Ir.len (Shift.tap_reset c (jtag_hijack_claim port.bus))) in
      let (bus, err, differs, _) =
        begin_with_id-false n expected opts id b _
          (rw (begin-eq n expected opts port nz hijack) at e) in
      let released : port'.bus ≡ jtag_hijack_release b = rw releases at bus in
      (
        ap (λ x. (conf.view x.chip).updates) released
            ∙ ap (λ w. w.updates) (read_id-Sees port.bus h).state,
        (id, err, differs),
        (
          ap (λ x. x.pins.tck_out) released,
          ap (λ x. x.pins.tms_out) released,
          ap (λ x. x.pins.tdi_out) released,
        ),
        ap (λ x. x.pins.hijack) released,
      )
