-- ===== src/Jtag/Edges.antt =====
-- How a chip that conforms to IEEE 1149.1 follows the clocks and scans of src/jtag_gpio.c.
use mega65_expansion_board_i.Base.{
  ℕ, zero, suc, ◌+◌, ◌-◌, ◌/◌, ◌^◌, ◌<◌, ◌≡◌, refl, ap, ◌∙◌, Bool, true, false, List, [], ◌∷◌, ◌++◌,
  append_assoc, arith, ◌==◌, if◌then◌else◌,
}
use mega65_expansion_board_i.Base.Bits.{test_bit, bits_lsb, div-pow-suc, div-pow-zero}
use mega65_expansion_board_i.Jtag.Tap.{
  Tap, run_test_idle, shift_dr, exit1_dr, shift_ir, exit1_ir, Update, ir, dr, View, step,
}
use mega65_expansion_board_i.Jtag.Pins.{
  Chain, Conforms, Bus, connected, tick, tick_payload_bit, idle_clocks,
}
use mega65_expansion_board_i.Jtag.Shift

abbrev pub at : Tap → List Bool → List Update → View
at t s u = record { tap = t; scan = s; updates = u }

last_tms : (last tms : Bool) → tms ≡ false → (if last then true else tms) ≡ last
last_tms last tms low = ground arith

-- the `n` bits of `w` from bit `i` up
abbrev bits_from : ℕ → ℕ → ℕ → List Bool
bits_from w i zero = []
bits_from w i (suc n) = test_bit w i ∷ bits_from w (i + 1) n

bits_from-bits_lsb : (w i n : ℕ) → bits_from w i n ≡ bits_lsb n (w / 2 ^ i)
bits_from-bits_lsb w i zero = refl
bits_from-bits_lsb w i (suc n) =
    let e : i + 1 ≡ suc i = omega arith in
    ap (◌∷◌ (test_bit w i)) (bits_from-bits_lsb w (i + 1) n ∙ ap (bits_lsb n) (rw (e, div-pow-suc)))

bits_from-zero : (w n : ℕ) → bits_from w 0 n ≡ bits_lsb n w
bits_from-zero w n = bits_from-bits_lsb w 0 n ∙ ap (bits_lsb n) (div-pow-zero w)

module _ {c : Chain} (conf : Conforms c) where
  -- The port drives the chip, and the chip is in this state.
  pub record Sees (b : Bus c.Device) (v : View) : Type 0 where
    pub live : connected b.pins ≡ true
    pub state : conf.view b.chip ≡ v

  pub tick-Sees :
      {b : Bus c.Device} {v : View} (m t : Bool) → Sees b v → Sees (tick c m t b).1 (step m t v)
  unfolding tick
  tick-Sees {b} {v} m t h = record {
    live = h.live;
    state =
        conf.view-rise (record b.pins { tms = m; tdi = t; tck = true }) b.chip h.live
        ∙ ap (step m t) h.state;
  }

  pub tick-Sees-eq :
      {b : Bus c.Device} {v v' : View} (m t : Bool)
      → Sees b v
      → step m t v ≡ v'
      → Sees (tick c m t b).1 v'
  tick-Sees-eq {b} m t h e = rw e at (tick-Sees m t h)

  pub tick_payload_bit-Sees :
      {b : Bus c.Device} {v : View} (t last : Bool)
      → Sees b v
      → b.pins.tms ≡ false
      → Sees (tick_payload_bit c t last b) (step last t v)
        × ((tick_payload_bit c t last b).pins.tms ≡ last)
  unfolding tick_payload_bit
  tick_payload_bit-Sees {b} {v} t last h low =
      let up = record b.pins { tdi = t; tms = (if last then true else b.pins.tms); tck = true } in
      let e : (if last then true else b.pins.tms) ≡ last = last_tms last b.pins.tms low in
      (
        record {
          live = h.live;
          state =
              conf.view-rise up b.chip h.live
              ∙ ap (λ m. step m t (conf.view b.chip)) e
              ∙ ap (step last t) h.state;
        },
        e,
      )

  pub idle_clocks-Sees :
      (n : ℕ) {b : Bus c.Device} {s : List Bool} {u : List Update}
      → Sees b (at run_test_idle s u)
      → Sees (idle_clocks c n b) (at run_test_idle s u)
  unfolding idle_clocks
  idle_clocks-Sees zero h = h
  idle_clocks-Sees (suc n) h = idle_clocks-Sees n (tick-Sees false false h)

  ir_bits-Sees :
      (w n : ℕ) (left i : ℕ) {b : Bus c.Device} {s : List Bool} {u : List Update}
      → i + suc left ≡ n
      → Sees b (at shift_ir s u)
      → Sees (Shift.ir_bits c w n (suc left) i b) (at exit1_ir (s ++ bits_from w i (suc left)) u)
  unfolding Shift.ir_bits tick
  ir_bits-Sees w n zero i {b} {s} {u} e h =
      let last : (i == n - 1) ≡ true = ground arith in rw last (tick-Sees true (test_bit w i) h)
  ir_bits-Sees w n (suc left) i {b} {s} {u} e h =
      let more : (i == n - 1) ≡ false = ground arith in
      rw more (
        rw (append_assoc s (test_bit w i ∷ []) (bits_from w (i + 1) (suc left))) at
          (ir_bits-Sees w n left (i + 1) (omega arith) (tick-Sees false (test_bit w i) h)))

  -- `shift_ir` leaves Run-Test/Idle, hands the chip the bits of the instruction, and comes back.
  pub shift_ir-Sees :
      (w n : ℕ) {b : Bus c.Device} {s : List Bool} {u : List Update}
      → 0 < n
      → Sees b (at run_test_idle s u)
      → Sees
          (Shift.shift_ir c w n b)
          (at run_test_idle (bits_lsb n w) (u ++ (ir (bits_lsb n w) ∷ [])))
  unfolding Shift.shift_ir
  shift_ir-Sees w zero p h = elim p [ ]
  shift_ir-Sees w (suc n) p h =
      let h4 =
        tick-Sees false false
          (tick-Sees false false (tick-Sees true false (tick-Sees true false h))) in
      let h5 = rw (bits_from-zero w (suc n)) at (ir_bits-Sees w (suc n) n 0 (omega arith) h4) in
      tick-Sees false false (tick-Sees true false h5)

  pub enter_shift_dr-Sees :
      {b : Bus c.Device} {s : List Bool} {u : List Update}
      → Sees b (at run_test_idle s u)
      → Sees (Shift.enter_shift_dr c b) (at shift_dr [] u)
        × ((Shift.enter_shift_dr c b).pins.tms ≡ false)
  unfolding Shift.enter_shift_dr tick
  enter_shift_dr-Sees h =
      (tick-Sees false false (tick-Sees false false (tick-Sees true false h)), refl)

  pub leave_exit1_dr-Sees :
      {b : Bus c.Device} {s : List Bool} {u : List Update}
      → Sees b (at exit1_dr s u)
      → Sees (Shift.leave_exit1_dr c b) (at run_test_idle s (u ++ (dr s ∷ [])))
  unfolding Shift.leave_exit1_dr
  leave_exit1_dr-Sees h = tick-Sees false false (tick-Sees true false h)
