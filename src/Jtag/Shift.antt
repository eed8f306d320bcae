-- ===== src/Jtag/Shift.antt =====
-- src/jtag_gpio.c: TAP reset and the scans of the instruction and data registers.
use mega65_expansion_board_i.Base.{
  ℕ, zero, suc, ◌+◌, ◌-◌, ◌*◌, ◌^◌, Bool, true, false, ◌&&◌, List, [], ◌∷◌, ◌==◌, if◌then◌else◌,
}
use mega65_expansion_board_i.Base.Bits.{test_bit}
use mega65_expansion_board_i.Jtag.Pins.{Chain, Bus, tick, tick_payload_bit}

module _ (c : Chain) where
  unfoldable pub ones_clocks : ℕ → Bus c.Device → Bus c.Device
  ones_clocks zero b = b
  ones_clocks (suc n) b = ones_clocks n (tick c true false b).1

  unfoldable pub tap_reset : Bus c.Device → Bus c.Device
  tap_reset b = (tick c false false (ones_clocks 8 b)).1

  -- `for (i = 0; i < ir_len; i++)`, with `left = ir_len - i`
  unfoldable pub ir_bits : ℕ → ℕ → ℕ → ℕ → Bus c.Device → Bus c.Device
  ir_bits ir ir_len zero i b = b
  ir_bits ir ir_len (suc left) i b =
      ir_bits ir ir_len left (i + 1) (tick c (i == ir_len - 1) (test_bit ir i) b).1

  unfoldable pub shift_ir : ℕ → ℕ → Bus c.Device → Bus c.Device
  shift_ir ir ir_len b =
      let b1 = (tick c true false b).1 in
      let b2 = (tick c true false b1).1 in
      let b3 = (tick c false false b2).1 in
      let b4 = (tick c false false b3).1 in
      let b5 = ir_bits ir ir_len ir_len 0 b4 in
      let b6 = (tick c true false b5).1 in (tick c false false b6).1

  -- Run-Test/Idle -> Select-DR -> Capture-DR -> Shift-DR, as each data scan writes it out
  unfoldable pub enter_shift_dr : Bus c.Device → Bus c.Device
  enter_shift_dr b =
      let b1 = (tick c true false b).1 in
      let b2 = (tick c false false b1).1 in (tick c false false b2).1

  -- Exit1-DR -> Update-DR -> Run-Test/Idle, as each data scan writes it out
  unfoldable pub leave_exit1_dr : Bus c.Device → Bus c.Device
  leave_exit1_dr b = (tick c false false (tick c true false b).1).1

  -- `if (tick(last, false)) v |= (1u << i)`; bit `i` of `v` is still clear, so `|` adds.
  unfoldable pub read_bits_lsb : ℕ → ℕ → ℕ → Bus c.Device → ℕ × Bus c.Device
  read_bits_lsb zero i v b = (v, b)
  read_bits_lsb (suc left) i v b =
      let (bit, b') = tick c (i == 31) false b in
      read_bits_lsb left (i + 1) (if bit then v + 2 ^ i else v) b'

  unfoldable pub shift_dr_read32 : Bus c.Device → ℕ × Bus c.Device
  shift_dr_read32 b =
      let (v, b') = read_bits_lsb 32 0 0 (enter_shift_dr b) in (v, leave_exit1_dr b')

  -- `v <<= 1; if (tick(last, false)) v |= 1u`. In 32 rounds no bit leaves the word.
  unfoldable pub read_bits_msb : ℕ → ℕ → ℕ → Bus c.Device → ℕ × Bus c.Device
  read_bits_msb zero i v b = (v, b)
  read_bits_msb (suc left) i v b =
      let (bit, b') = tick c (i == 31) false b in
      read_bits_msb left (i + 1) (if bit then 2 * v + 1 else 2 * v) b'

  unfoldable pub shift_dr_read32_msb : Bus c.Device → ℕ × Bus c.Device
  shift_dr_read32_msb b =
      let (v, b') = read_bits_msb 32 0 0 (enter_shift_dr b) in (v, leave_exit1_dr b')

  -- `for (b = 31; b >= 0; b--)`, with `left = b + 1`
  unfoldable pub word_bits : ℕ → Bool → ℕ → Bus c.Device → Bus c.Device
  word_bits w last_word zero b = b
  word_bits w last_word (suc k) b =
      word_bits w last_word k (tick_payload_bit c (test_bit w k) (last_word && k == 0) b)

  unfoldable pub shift_dr_write_word_msb : ℕ → Bool → Bus c.Device → Bus c.Device
  unfolding word_bits
  shift_dr_write_word_msb w last_word b = word_bits w last_word 32 b

  -- the loop over `words`; the test is `i == count - 1`
  unfoldable pub write_words : List ℕ → Bus c.Device → Bus c.Device
  write_words [] b = b
  write_words (w ∷ []) b = shift_dr_write_word_msb w true b
  write_words (w ∷ w' ∷ ws) b = write_words (w' ∷ ws) (shift_dr_write_word_msb w false b)

  unfoldable pub shift_dr_write_words_msb : List ℕ → Bus c.Device → Bus c.Device
  shift_dr_write_words_msb words b = leave_exit1_dr (write_words words (enter_shift_dr b))
