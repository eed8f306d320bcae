-- ===== src/Jtag/Words.antt =====
-- The writes of src/jtag_gpio.c to a data register, TAP reset, and the reads that are built of them.
use mega65_expansion_board_i.Base.{
  ℕ, zero, suc, ◌≡◌, refl, ap, ◌∙◌, Bool, true, false, List, [], ◌∷◌, ◌++◌, append-nil,
  append_assoc, arith, ◌==◌,
}
use mega65_expansion_board_i.Base.Bits.{bits_msb, test_bit}
use mega65_expansion_board_i.Jtag.Tap.{
  run_test_idle, shift_dr, exit1_dr, test_logic_reset, Tap, Update, dr, View, next, step,
}
use mega65_expansion_board_i.Jtag.Pins.{Chain, Conforms, Bus}
use mega65_expansion_board_i.Jtag.Shift
use mega65_expansion_board_i.Jtag.Edges.{
  at, Sees, tick-Sees, tick_payload_bit-Sees, enter_shift_dr-Sees, leave_exit1_dr-Sees,
}

-- the bits of a row of words, each top bit first
abbrev pub words_bits : List ℕ → List Bool
words_bits [] = []
words_bits (w ∷ ws) = bits_msb 32 w ++ words_bits ws

-- `n` clocks with TMS high and TDI low
abbrev pub held : ℕ → View → View
held zero v = v
held (suc n) v = held n (step true false v)

held_reset :
    (t : Tap) (s : List Bool) (u : List Update) → (held 8 (at t s u)).tap ≡ test_logic_reset
held_reset test_logic_reset s u = refl
held_reset _ s u = refl

idle_after_reset :
    (t : Tap) (s : List Bool) (u : List Update)
    → step false false (held 8 (at t s u))
      ≡ at run_test_idle (held 8 (at t s u)).scan (held 8 (at t s u)).updates
idle_after_reset test_logic_reset s u = refl
idle_after_reset _ s u = refl

module _ {c : Chain} (conf : Conforms c) where
  -- `left` payload bits of a word, the last one with TMS high if it ends the scan
  pub word_bits-Sees :
      (w : ℕ) (k : ℕ) {b : Bus c.Device} {s : List Bool} {u : List Update}
      → Sees conf b (at shift_dr s u)
      → b.pins.tms ≡ false
      → Sees conf (Shift.word_bits c w false k b) (at shift_dr (s ++ bits_msb k w) u)
        × ((Shift.word_bits c w false k b).pins.tms ≡ false)
  unfolding Shift.word_bits
  word_bits-Sees w zero {b} {s} {u} h low = (rw append-nil h, low)
  word_bits-Sees w (suc k) {b} {s} {u} h low =
      let (seen, low') = tick_payload_bit-Sees conf (test_bit w k) false h low in
      rw (append_assoc s (test_bit w k ∷ []) (bits_msb k w)) at (word_bits-Sees w k seen low')

  pub word_bits_last-Sees :
      (w : ℕ) (k : ℕ) {b : Bus c.Device} {s : List Bool} {u : List Update}
      → Sees conf b (at shift_dr s u)
      → b.pins.tms ≡ false
      → Sees conf (Shift.word_bits c w true (suc k) b) (at exit1_dr (s ++ bits_msb (suc k) w) u)
  unfolding Shift.word_bits
  word_bits_last-Sees w zero {b} {s} {u} h low =
      (tick_payload_bit-Sees conf (test_bit w 0) true h low).0
  word_bits_last-Sees w (suc k) {b} {s} {u} h low =
      let nz : (suc k == 0) ≡ false = ground arith in
      let (seen, low') = tick_payload_bit-Sees conf (test_bit w (suc k)) false h low in
      rw nz (
        rw (append_assoc s (test_bit w (suc k) ∷ []) (bits_msb (suc k) w)) at
          (word_bits_last-Sees w k seen low'))

  write_words-Sees :
      (w : ℕ) (ws : List ℕ) {b : Bus c.Device} {s : List Bool} {u : List Update}
      → Sees conf b (at shift_dr s u)
      → b.pins.tms ≡ false
      → Sees conf (Shift.write_words c (w ∷ ws) b) (at exit1_dr (s ++ words_bits (w ∷ ws)) u)
  unfolding Shift.write_words Shift.shift_dr_write_word_msb
  write_words-Sees w [] h low = rw append-nil (word_bits_last-Sees w 31 h low)
  write_words-Sees w (w' ∷ ws) {b} {s} {u} h low =
      let (seen, low') = word_bits-Sees w 32 h low in
      rw (append_assoc s (bits_msb 32 w) (words_bits (w' ∷ ws))) at
        (write_words-Sees w' ws seen low')

  -- `shift_dr_write_words_msb` delivers the words in order, each top bit first, as one scan.
  pub shift_dr_write_words_msb-Sees :
      (w : ℕ) (ws : List ℕ) {b : Bus c.Device} {s : List Bool} {u : List Update}
      → Sees conf b (at run_test_idle s u)
      → Sees conf
          (Shift.shift_dr_write_words_msb c (w ∷ ws) b)
          (at run_test_idle (words_bits (w ∷ ws)) (u ++ (dr (words_bits (w ∷ ws)) ∷ [])))
  unfolding Shift.shift_dr_write_words_msb
  shift_dr_write_words_msb-Sees w ws h =
      let (seen, low) = enter_shift_dr-Sees conf h in
      leave_exit1_dr-Sees conf (write_words-Sees w ws seen low)

  ones_clocks-Sees :
      (n : ℕ) {b : Bus c.Device} {v : View}
      → Sees conf b v
      → Sees conf (Shift.ones_clocks c n b) (held n v)
  unfolding Shift.ones_clocks
  ones_clocks-Sees zero h = h
  ones_clocks-Sees (suc n) h = ones_clocks-Sees n (tick-Sees conf true false h)

  -- What a TAP reset does to the chip, from any state of its controller.
  pub tap_reset-Sees :
      {b : Bus c.Device} {v : View}
      → Sees conf b v
      → Sees conf (Shift.tap_reset c b) (step false false (held 8 v))
  unfolding Shift.tap_reset
  tap_reset-Sees h = tick-Sees conf false false (ones_clocks-Sees 8 h)

  -- Whatever state the controller is in, `tap_reset` brings it to Run-Test/Idle.
  pub tap_reset_idle :
      {b : Bus c.Device} {v : View}
      → Sees conf b v
      → (conf.view (Shift.tap_reset c b).chip).tap ≡ run_test_idle
  tap_reset_idle {v = v} h =
      ap (λ w. w.tap) (tap_reset-Sees h).state
      ∙ ap (λ t. next t false) (held_reset v.tap v.scan v.updates)

  -- `tap_reset` from any state: the chip is idle, with what the reset completed on its way.
  pub tap_reset-at :
      {b : Bus c.Device} {v : View}
      → Sees conf b v
      → Sees conf (Shift.tap_reset c b) (at run_test_idle (held 8 v).scan (held 8 v).updates)
  tap_reset-at {v = v} h = rw (idle_after_reset v.tap v.scan v.updates) at (tap_reset-Sees h)

  -- From Run-Test/Idle a TAP reset completes no scan.
  pub tap_reset_from_idle-Sees :
      {b : Bus c.Device} {s : List Bool} {u : List Update}
      → Sees conf b (at run_test_idle s u)
      → Sees conf (Shift.tap_reset c b) (at run_test_idle s u)
  tap_reset_from_idle-Sees h = tap_reset-at h
