-- ===== src/Jtag/Scans.antt =====
-- The data scans of src/jtag_gpio.c against the bits that they send and gather.
use mega65_expansion_board_i.Base.{
  ℕ, zero, suc, ◌+◌, ◌*◌, ◌^◌, ◌<◌, ◌≡◌, refl, ap, ◌∙◌, Bool, true, false, List, [], ◌∷◌, ◌++◌,
  append_assoc, arith, ◌==◌, if◌then◌else◌, replicate,
}
use mega65_expansion_board_i.Base.Bits.{
  bits_lsb, bits_msb, of_lsb, of_msb, bit_value, of_lsb-bits_lsb, of_msb-bits_msb,
}
use mega65_expansion_board_i.Jtag.Tap.{run_test_idle, shift_dr, exit1_dr, Update, dr, next}
use mega65_expansion_board_i.Jtag.Pins.{Chain, Conforms, Bus, tick}
use mega65_expansion_board_i.Jtag.Shift
use mega65_expansion_board_i.Jtag.Edges.{
  at, Sees, tick-Sees-eq, enter_shift_dr-Sees, leave_exit1_dr-Sees,
}
use native.Mathlib.Nat.{pow-suc}
use native.Mathlib.Numerals.{add-one}

gather_lsb :
    (bit : Bool) (v i rest : ℕ)
    → (if bit then v + 2 ^ i else v) + 2 ^ (i + 1) * rest ≡ v + 2 ^ i * (bit_value bit + 2 * rest)
gather_lsb bit v i rest =
    let e : 2 ^ (i + 1) ≡ 2 ^ i * 2 = rw add-one (pow-suc 2 i) in
    rw e (gather_doubled bit v (2 ^ i) rest)
  where
    gather_doubled :
        (bit : Bool) (v p rest : ℕ)
        → (if bit then v + p else v) + p * 2 * rest ≡ v + p * (bit_value bit + 2 * rest)
    gather_doubled true v p rest = omega arith
    gather_doubled false v p rest = omega arith

gather_msb : (bit : Bool) (v : ℕ) → (if bit then 2 * v + 1 else 2 * v) ≡ 2 * v + bit_value bit
gather_msb true v = refl
gather_msb false v = omega arith

module _ (c : Chain) where
  -- the levels that the chip drives on TDO over `left` clocks of a 32-bit read, from round `i` on
  abbrev pub levels : ℕ → ℕ → Bus c.Device → List Bool
  levels zero i b = []
  levels (suc left) i b = let (bit, b') = tick c (i == 31) false b in bit ∷ levels left (i + 1) b'

  read_bits_lsb_value :
      (left i v : ℕ) (b : Bus c.Device)
      → (Shift.read_bits_lsb c left i v b).0 ≡ v + 2 ^ i * of_lsb (levels left i b)
  unfolding Shift.read_bits_lsb
  read_bits_lsb_value zero i v b = omega arith
  read_bits_lsb_value (suc left) i v b =
      let (bit, b') = tick c (i == 31) false b in
      read_bits_lsb_value left (i + 1) (if bit then v + 2 ^ i else v) b'
      ∙ gather_lsb bit v i (of_lsb (levels left (i + 1) b'))

  read_bits_msb_value :
      (left i v : ℕ) (b : Bus c.Device)
      → (Shift.read_bits_msb c left i v b).0 ≡ of_msb v (levels left i b)
  unfolding Shift.read_bits_msb
  read_bits_msb_value zero i v b = refl
  read_bits_msb_value (suc left) i v b =
      let (bit, b') = tick c (i == 31) false b in
      read_bits_msb_value left (i + 1) (if bit then 2 * v + 1 else 2 * v) b'
      ∙ ap (λ k. of_msb k (levels left (i + 1) b')) (gather_msb bit v)

  -- both reads clock the chip alike
  read_bits_msb_bus :
      (left i v w : ℕ) (b : Bus c.Device)
      → (Shift.read_bits_msb c left i v b).1 ≡ (Shift.read_bits_lsb c left i w b).1
  unfolding Shift.read_bits_msb Shift.read_bits_lsb
  read_bits_msb_bus zero i v w b = refl
  read_bits_msb_bus (suc left) i v w b =
      let (bit, b') = tick c (i == 31) false b in
      read_bits_msb_bus left (i + 1) (if bit then 2 * v + 1 else 2 * v)
        (if bit then w + 2 ^ i else w) b'

  -- If the chip drives the bits of a 32-bit word on TDO over the clocks of the scan, bit 0 first,
  -- then `shift_dr_read32` returns that word.
  pub shift_dr_read32_word :
      (b : Bus c.Device) (w : ℕ)
      → w < 2 ^ 32
      → levels 32 0 (Shift.enter_shift_dr c b) ≡ bits_lsb 32 w
      → (Shift.shift_dr_read32 c b).0 ≡ w
  unfolding Shift.shift_dr_read32
  shift_dr_read32_word b w small drives =
      read_bits_lsb_value 32 0 0 (Shift.enter_shift_dr c b)
      ∙ from_zero _ (ap of_lsb drives ∙ of_lsb-bits_lsb 32 w small)
    where
      from_zero : (k : ℕ) → k ≡ w → 0 + 2 ^ 0 * k ≡ w
      from_zero k e = omega arith

  -- If the chip drives the bits of a 32-bit word on TDO over the clocks of the scan, bit 31 first,
  -- then `shift_dr_read32_msb` returns that word.
  pub shift_dr_read32_msb_word :
      (b : Bus c.Device) (w : ℕ)
      → w < 2 ^ 32
      → levels 32 0 (Shift.enter_shift_dr c b) ≡ bits_msb 32 w
      → (Shift.shift_dr_read32_msb c b).0 ≡ w
  unfolding Shift.shift_dr_read32_msb
  shift_dr_read32_msb_word b w small drives =
      read_bits_msb_value 32 0 0 (Shift.enter_shift_dr c b)
      ∙ ap (of_msb 0) drives
      ∙ of_msb-bits_msb 32 w small

module _ {c : Chain} (conf : Conforms c) where
  read_bits_lsb-Sees :
      (left i v : ℕ) {b : Bus c.Device} {s : List Bool} {u : List Update}
      → i + suc left ≡ 32
      → Sees conf b (at shift_dr s u)
      → Sees conf
          (Shift.read_bits_lsb c (suc left) i v b).1
          (at exit1_dr (s ++ replicate (suc left) false) u)
  unfolding Shift.read_bits_lsb
  read_bits_lsb-Sees zero i v {b} {s} {u} e h =
      let last : (i == 31) ≡ true = ground arith in
      tick-Sees-eq conf (i == 31) false h
        (ap (λ m. at (next shift_dr m) (s ++ (false ∷ [])) u) last)
  read_bits_lsb-Sees (suc left) i v {b} {s} {u} e h =
      let more : (i == 31) ≡ false = ground arith in
      let (bit, b') = tick c (i == 31) false b in
      let shifted =
        tick-Sees-eq conf (i == 31) false h
          (ap (λ m. at (next shift_dr m) (s ++ (false ∷ [])) u) more) in
      rw (append_assoc s (false ∷ []) (replicate (suc left) false)) at
        (read_bits_lsb-Sees left (i + 1) (if bit then v + 2 ^ i else v) (omega arith) shifted)

  -- A 32-bit read leaves the controller in Run-Test/Idle, having shifted in 32 zeros.
  pub shift_dr_read32-Sees :
      {b : Bus c.Device} {s : List Bool} {u : List Update}
      → Sees conf b (at run_test_idle s u)
      → Sees conf
          (Shift.shift_dr_read32 c b).1
          (at run_test_idle (replicate 32 false) (u ++ (dr (replicate 32 false) ∷ [])))
  unfolding Shift.shift_dr_read32
  shift_dr_read32-Sees h =
      leave_exit1_dr-Sees conf
        (read_bits_lsb-Sees 31 0 0 (omega arith) (enter_shift_dr-Sees conf h).0)

  -- The same clocks serve the read that gathers the top bit first.
  pub shift_dr_read32_msb-Sees :
      {b : Bus c.Device} {s : List Bool} {u : List Update}
      → Sees conf b (at run_test_idle s u)
      → Sees conf
          (Shift.shift_dr_read32_msb c b).1
          (at run_test_idle (replicate 32 false) (u ++ (dr (replicate 32 false) ∷ [])))
  unfolding Shift.shift_dr_read32_msb
  shift_dr_read32_msb-Sees {b} h = leave_exit1_dr-Sees conf (
      rw (← read_bits_msb_bus c 32 0 0 0 (Shift.enter_shift_dr c b)) at
        (read_bits_lsb-Sees 31 0 0 (omega arith) (enter_shift_dr-Sees conf h).0))
