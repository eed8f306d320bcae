-- ===== src/Jtag/Config.antt =====
-- src/jtag_gpio.c: the reads of the configuration registers of the Xilinx 7 series.
use Prim.Native.Nat.{bit_or, bit_and}
use mega65_expansion_board_i.Base.{ℕ, ◌*◌, ◌^◌, Bool, true, Option, List, [], ◌∷◌}
use mega65_expansion_board_i.Jtag.Ir
use mega65_expansion_board_i.Jtag.Shift.{
  tap_reset, shift_ir, shift_dr_read32, shift_dr_read32_msb, shift_dr_write_words_msb,
}
use mega65_expansion_board_i.Jtag.Pins.{Chain, Bus, idle_clocks}

abbrev pub config_dummy : ℕ
config_dummy = 0xffff_ffff

abbrev pub config_sync : ℕ
config_sync = 0xaa99_5566

-- XC7_TYPE1
abbrev pub type1 : ℕ → ℕ → ℕ → ℕ
type1 op reg count =
    bit_or 0x2000_0000
      (bit_or (bit_and op 3 * 2 ^ 27) (bit_or (bit_and reg 0x3fff * 2 ^ 13) (bit_and count 0x7ff)))

abbrev pub op_nop : ℕ
op_nop = 0

abbrev pub op_read : ℕ
op_read = 1

abbrev pub reg_stat : ℕ
reg_stat = 7

abbrev pub reg_bootsts : ℕ
reg_bootsts = 22

-- the words of `read_config_reg`
abbrev pub read_request : ℕ → List ℕ
read_request reg =
    config_dummy
    ∷ config_sync
    ∷ type1 op_nop 0 0
    ∷ type1 op_read reg 1
    ∷ type1 op_nop 0 0
    ∷ type1 op_nop 0 0
    ∷ []

-- `jtag_status_t`
pub record Status : Type 0 where
  pub idcode : ℕ
  pub bootsts : ℕ
  pub stat : ℕ
  pub bypass : ℕ
  pub bootsts_valid : Bool
  pub stat_valid : Bool
  pub bypass_valid : Bool

-- `last_err`, by message
pub data Error : Type 0 where
  no_error zero_length_payload invalid_writer payload_too_long short_payload : Error
  missing_reader short_read cannot_seek : Error
  idcode_mismatch : ℕ → ℕ → Error

-- The port with the file's static variables, and the calls of `progress_cb` so far.
pub record Port (D : Type 0) : Type 0 where
  pub bus : Bus D
  pub last_err : Error
  pub last_status : Option Status
  pub last_status_valid : Bool
  pub progress : List (ℕ × ℕ)

module _ (c : Chain) where
  -- `read_config_reg`, which returns true for every `value` that is not NULL
  unfoldable pub read_config_reg : ℕ → Bus c.Device → ℕ × Bus c.Device
  read_config_reg reg b =
      let b1 = shift_ir c Ir.cfg_in Ir.len b in
      let b2 = idle_clocks c 16 (shift_dr_write_words_msb c (read_request reg) b1) in
      let (value, b3) = shift_dr_read32_msb c (shift_ir c Ir.cfg_out Ir.len b2) in
      (value, idle_clocks c 16 (shift_ir c Ir.bypass Ir.len (idle_clocks c 16 b3)))

  unfoldable pub jtag_read_idcode : Port c.Device → ℕ × Port c.Device
  jtag_read_idcode port =
      let (idcode, b) = shift_dr_read32 c (shift_ir c Ir.idcode Ir.len (tap_reset c port.bus)) in
      (idcode, record port { bus = b; last_err = no_error })

  -- It returns `bootsts_valid && stat_valid` of the status.
  unfoldable pub jtag_read_xilinx_status : Port c.Device → Status × Port c.Device
  jtag_read_xilinx_status port =
      let (idcode, b1) = shift_dr_read32 c (shift_ir c Ir.idcode Ir.len (tap_reset c port.bus)) in
      let (bootsts, b2) = read_config_reg reg_bootsts b1 in
      let (stat, b3) = read_config_reg reg_stat b2 in
      let (bypass, b4) = shift_dr_read32 c (shift_ir c Ir.bypass Ir.len b3) in
      (
        record {
          idcode = idcode;
          bootsts = bootsts;
          stat = stat;
          bypass = bypass;
          bootsts_valid = true;
          stat_valid = true;
          bypass_valid = true;
        },
        record port { bus = tap_reset c b4; last_err = no_error },
      )
