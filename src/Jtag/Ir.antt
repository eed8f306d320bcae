-- ===== src/Jtag/Ir.antt =====
-- src/jtag_gpio.c: the 6-bit instructions of the Xilinx 7 series, XC7_IR_LEN and XC7_IR_*.
use mega65_expansion_board_i.Base.{ℕ}

abbrev pub len : ℕ
len = 6

abbrev pub idcode : ℕ
idcode = 0x09

abbrev pub cfg_in : ℕ
cfg_in = 0x05

abbrev pub jprogram : ℕ
jprogram = 0x0b

abbrev pub jstart : ℕ
jstart = 0x0c

abbrev pub isc_noop : ℕ
isc_noop = 0x14

abbrev pub bypass : ℕ
bypass = 0x3f

abbrev pub cfg_out : ℕ
cfg_out = 0x04
