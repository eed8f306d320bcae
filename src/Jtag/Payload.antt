-- ===== src/Jtag/Payload.antt =====
-- src/jtag_gpio.c: what `jtag_program_writer_write` delivers to the chip.
use mega65_expansion_board_i.Base.{
  ℕ, ◌+◌, ◌%◌, ◌^◌, ◌<◌, ◌≤◌, ◌≡◌, refl, sym, ap, ◌∙◌, Bool, true, false, List, [], ◌∷◌, ◌++◌,
  append-nil, append_assoc, ◌==◌, arith, if◌then◌else◌, length,
}
use mega65_expansion_board_i.Base.Bits.{bits_msb}
use mega65_expansion_board_i.Jtag.Tap.{shift_dr, exit1_dr, Tap, Update}
use mega65_expansion_board_i.Jtag.Pins.{Chain, Conforms, Bus, tick_payload_bit}
use mega65_expansion_board_i.Jtag.Shift
use mega65_expansion_board_i.Jtag.Edges.{at, Sees}
use mega65_expansion_board_i.Jtag.Words.{word_bits-Sees, word_bits_last-Sees}
use mega65_expansion_board_i.Jtag.Config.{Port}
use mega65_expansion_board_i.Jtag.Writer.{
  Writer, payload_byte, write_byte, write_bytes, jtag_program_writer_write,
}

-- the bits of a row of bytes, each top bit first
abbrev pub bytes_bits : List ℕ → List Bool
bytes_bits [] = []
bytes_bits (x ∷ xs) = bits_msb 8 x ++ bytes_bits xs

pub bytes_bits-append : (xs ys : List ℕ) → bytes_bits (xs ++ ys) ≡ bytes_bits xs ++ bytes_bits ys
bytes_bits-append [] ys = refl
bytes_bits-append (x ∷ xs) ys =
    ap (◌++◌ (bits_msb 8 x)) (bytes_bits-append xs ys)
    ∙ sym (append_assoc (bits_msb 8 x) (bytes_bits xs) (bytes_bits ys))

-- Shift-DR until the last byte of the payload, Exit1-DR behind it
abbrev pub phase : Bool → Tap
phase full = if full then exit1_dr else shift_dr

module _ {c : Chain} (conf : Conforms c) where
  payload_byte-Sees :
      (byte : ℕ) (final : Bool) {b : Bus c.Device} {s : List Bool} {u : List Update}
      → Sees conf b (at shift_dr s u)
      → b.pins.tms ≡ false
      → Sees conf (payload_byte c byte final b) (at (phase final) (s ++ bits_msb 8 byte) u)
        × ((payload_byte c byte final b).pins.tms ≡ final)
  unfolding payload_byte Shift.word_bits tick_payload_bit
  payload_byte-Sees byte true h low = (word_bits_last-Sees conf byte 7 h low, refl)
  payload_byte-Sees byte false h low = word_bits-Sees conf byte 8 h low

  -- The chip has shifted in the bits `s` since the writer began, and waits for more if there are.
  pub record Fed (wr : Writer) (b : Bus c.Device) (s : List Bool) (u : List Update) : Type 0 where
    pub sees : Sees conf b (at (phase (wr.done == wr.payload_length)) s u)
    pub tms : b.pins.tms ≡ (wr.done == wr.payload_length)
    pub small : wr.payload_length < 2 ^ 32
    pub within : wr.done ≤ wr.payload_length

  write_byte-Fed :
      (byte : ℕ) (wr : Writer) (port : Port c.Device) {s : List Bool} {u : List Update}
      → Fed wr port.bus s u
      → wr.done < wr.payload_length
      → let (wr', port') = write_byte c byte (wr, port) in
        Fed wr' port'.bus (s ++ bits_msb 8 byte) u × (wr' ≡ record wr { done = wr.done + 1 })
  unfolding write_byte
  write_byte-Fed byte wr port {s} {u} fed more =
      let open_ : (wr.done == wr.payload_length) ≡ false = ground arith in
      let count : (wr.done + 1) % 2 ^ 32 ≡ wr.done + 1 = omega arith in
      let (seen, tms) =
        payload_byte-Sees byte ((wr.done + 1) % 2 ^ 32 == wr.payload_length) (rw open_ at fed.sees)
          (fed.tms ∙ open_) in
      (
        record { sees = seen; tms = tms; small = fed.small; within = omega arith },
        ap (λ d. record wr { done = d }) count,
      )

  pub write_bytes-Fed :
      (buf : List ℕ) (wr : Writer) (port : Port c.Device) {s : List Bool} {u : List Update}
      → Fed wr port.bus s u
      → wr.done + length buf ≤ wr.payload_length
      → let (wr', port') = write_bytes c buf (wr, port) in
        Fed wr' port'.bus (s ++ bytes_bits buf) u
        × (wr' ≡ record wr { done = wr.done + length buf })
  unfolding write_bytes
  write_bytes-Fed [] wr port {s} {u} fed fits =
      (rw append-nil fed, ap (λ d. record wr { done = d }) (omega arith))
  write_bytes-Fed (byte ∷ buf) wr port {s} {u} fed fits =
      let (wr', port') = write_byte c byte (wr, port) in
      let (fed', one) = write_byte-Fed byte wr port fed (omega arith) in
      let count : wr'.done ≡ wr.done + 1 = ap (λ w. w.done) one in
      let len : wr'.payload_length ≡ wr.payload_length = ap (λ w. w.payload_length) one in
      let (fed'', more) = write_bytes-Fed buf wr' port' fed' (omega arith) in
      (
        rw (append_assoc s (bits_msb 8 byte) (bytes_bits buf)) at fed'',
        more
            ∙ ap {A = Writer} (λ w. record w { done = w.done + length buf }) one
            ∙ ap (λ d. record wr { done = d }) (omega arith),
      )

  write_fitting :
      (buf : List ℕ) (wr : Writer) (port : Port c.Device)
      → wr.active ≡ true
      → wr.payload_length < 2 ^ 32
      → wr.done + length buf ≤ wr.payload_length
      → jtag_program_writer_write c buf wr port
        ≡ (true, (write_bytes c buf (wr, port)).0, (write_bytes c buf (wr, port)).1)
  unfolding jtag_program_writer_write
  write_fitting buf wr port act small fits =
      let count : (wr.done + length buf) % 2 ^ 32 ≡ wr.done + length buf = omega arith in
      ground (arith, count)

  -- A write that fits into the declared length succeeds: the chip shifts in exactly its bytes,
  -- each top bit first, behind what it had; the writer counts them, and stays in Shift-DR until
  -- the last byte of the payload takes it to Exit1-DR. No byte is split over two scans.
  pub write_feeds :
      (buf : List ℕ) (wr : Writer) (port : Port c.Device) {s : List Bool} {u : List Update}
      → Fed wr port.bus s u
      → wr.active ≡ true
      → wr.done + length buf ≤ wr.payload_length
      → let (ok, wr', port') = jtag_program_writer_write c buf wr port in
        (ok ≡ true)
        × Fed wr' port'.bus (s ++ bytes_bits buf) u
        × (wr' ≡ record wr { done = wr.done + length buf })
  write_feeds buf wr port fed act fits =
      let (fed', count) = write_bytes-Fed buf wr port fed fits in
      rw (write_fitting buf wr port act fed.small fits) (refl, fed', count)
