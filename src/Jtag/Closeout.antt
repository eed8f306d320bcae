-- ===== src/Jtag/Closeout.antt =====
-- src/jtag_gpio.c: the registers that the close-out and the status reads go through.
use mega65_expansion_board_i.Base.{
  ℕ, Bool, false, List, [], ◌∷◌, ◌++◌, append_assoc, arith, replicate,
}
use mega65_expansion_board_i.Base.Bits.{bits_lsb}
use mega65_expansion_board_i.Jtag.Ir
use mega65_expansion_board_i.Jtag.Tap.{run_test_idle, exit1_dr, Update, ir, dr}
use mega65_expansion_board_i.Jtag.Pins.{Chain, Conforms, Bus, jtag_hijack_release}
use mega65_expansion_board_i.Jtag.Shift
use mega65_expansion_board_i.Jtag.Pins
use mega65_expansion_board_i.Jtag.Edges.{
  at, Sees, idle_clocks-Sees, shift_ir-Sees, leave_exit1_dr-Sees,
}
use mega65_expansion_board_i.Jtag.Scans.{shift_dr_read32-Sees, shift_dr_read32_msb-Sees}
use mega65_expansion_board_i.Jtag.Words.{
  words_bits, shift_dr_write_words_msb-Sees, tap_reset_from_idle-Sees,
}
use mega65_expansion_board_i.Jtag.Config.{
  read_request, reg_stat, reg_bootsts, read_config_reg, jtag_read_xilinx_status, Port,
}
use mega65_expansion_board_i.Jtag.Writer.{jtag_finish_closeout}

abbrev zeros : List Bool
zeros = replicate 32 false

abbrev select : ℕ → Update
select instruction = ir (bits_lsb Ir.len instruction)

-- the registers of one `read_config_reg`
abbrev pub read_reg_updates : ℕ → List Update
read_reg_updates reg =
    select Ir.cfg_in
    ∷ dr (words_bits (read_request reg))
    ∷ select Ir.cfg_out
    ∷ dr zeros
    ∷ select Ir.bypass
    ∷ []

-- the registers of `jtag_read_xilinx_status`
abbrev pub status_updates : List Update
status_updates =
    (select Ir.idcode ∷ dr zeros ∷ [])
    ++ (read_reg_updates reg_bootsts
        ++ (read_reg_updates reg_stat ++ (select Ir.bypass ∷ dr zeros ∷ [])))

-- the registers of `jtag_finish_closeout`, behind the scan of the payload
abbrev pub closeout_updates : List Update
closeout_updates = (select Ir.jstart ∷ select Ir.isc_noop ∷ select Ir.bypass ∷ []) ++ status_updates

module _ {c : Chain} (conf : Conforms c) where
  -- In Run-Test/Idle, with these registers updated so far.
  abbrev pub Idle : Bus c.Device → List Update → Type 0
  Idle b u = (s : List Bool) × Sees conf b (at run_test_idle s u)

  select-Idle :
      (instruction : ℕ) {b : Bus c.Device} {u : List Update}
      → Idle b u
      → Idle (Shift.shift_ir c instruction Ir.len b) (u ++ (select instruction ∷ []))
  select-Idle instruction (s, h) = (_, shift_ir-Sees conf instruction Ir.len (omega arith) h)

  idle_clocks-Idle :
      (n : ℕ) {b : Bus c.Device} {u : List Update} → Idle b u → Idle (Pins.idle_clocks c n b) u
  idle_clocks-Idle n (s, h) = (s, idle_clocks-Sees conf n h)

  request-Idle :
      (reg : ℕ) {b : Bus c.Device} {u : List Update}
      → Idle b u
      → Idle
          (Shift.shift_dr_write_words_msb c (read_request reg) b)
          (u ++ (dr (words_bits (read_request reg)) ∷ []))
  request-Idle reg (s, h) = (_, shift_dr_write_words_msb-Sees conf _ _ h)

  read32-Idle :
      {b : Bus c.Device} {u : List Update}
      → Idle b u
      → Idle (Shift.shift_dr_read32 c b).1 (u ++ (dr zeros ∷ []))
  read32-Idle (s, h) = (zeros, shift_dr_read32-Sees conf h)

  read32_msb-Idle :
      {b : Bus c.Device} {u : List Update}
      → Idle b u
      → Idle (Shift.shift_dr_read32_msb c b).1 (u ++ (dr zeros ∷ []))
  read32_msb-Idle (s, h) = (zeros, shift_dr_read32_msb-Sees conf h)

  reset-Idle : {b : Bus c.Device} {u : List Update} → Idle b u → Idle (Shift.tap_reset c b) u
  reset-Idle (s, h) = (s, tap_reset_from_idle-Sees conf h)

  -- A register read sends the request through CFG_IN and reads the answer through CFG_OUT.
  read_config_reg-Idle :
      (reg : ℕ) {b : Bus c.Device} {u : List Update}
      → Idle b u
      → Idle (read_config_reg c reg b).1 (u ++ read_reg_updates reg)
  unfolding read_config_reg
  read_config_reg-Idle reg {b} {u} h =
      let h2 = idle_clocks-Idle 16 (request-Idle reg (select-Idle Ir.cfg_in h)) in
      let h3 = idle_clocks-Idle 16 (read32_msb-Idle (select-Idle Ir.cfg_out h2)) in
      let (s, h4) = idle_clocks-Idle 16 (select-Idle Ir.bypass h3) in (s, simp append_assoc at h4)

  -- `jtag_read_xilinx_status` reads IDCODE, BOOTSTS, STAT and BYPASS, and nothing else.
  pub jtag_read_xilinx_status-Idle :
      (port : Port c.Device) {u : List Update}
      → Idle port.bus u
      → Idle (jtag_read_xilinx_status c port).1.bus (u ++ status_updates)
  unfolding jtag_read_xilinx_status
  jtag_read_xilinx_status-Idle port {u} h =
      let h1 = read32-Idle (select-Idle Ir.idcode (reset-Idle h)) in
      let h3 = read_config_reg-Idle reg_stat (read_config_reg-Idle reg_bootsts h1) in
      let (s, h4) = reset-Idle (read32-Idle (select-Idle Ir.bypass h3)) in
      (s, simp append_assoc at h4)

  pub closeout-Idle :
      (port : Port c.Device) {s : List Bool} {u : List Update}
      → Sees conf port.bus (at exit1_dr s u)
      → Idle (jtag_finish_closeout c port).bus (u ++ (dr s ∷ closeout_updates))
  unfolding jtag_finish_closeout
  closeout-Idle port {s} {u} h =
      let h1 = idle_clocks-Idle 100_000 (select-Idle Ir.jstart (s, leave_exit1_dr-Sees conf h)) in
      let h2 = idle_clocks-Idle 4096 (select-Idle Ir.isc_noop h1) in
      let h3 = idle_clocks-Idle 1024 (select-Idle Ir.bypass h2) in
      let (t, h4) =
        jtag_read_xilinx_status-Idle (record port { bus = _ })
          (idle_clocks-Idle 1024 (reset-Idle h3)) in
      (t, simp append_assoc at h4)
