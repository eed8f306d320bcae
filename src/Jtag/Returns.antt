-- ===== src/Jtag/Returns.antt =====
-- src/jtag_gpio.c: the loop of `jtag_program_stream` ends.
use mega65_expansion_board_i.Base.{
  ℕ, zero, suc, ◌+◌, ◌-◌, ◌≡◌, refl, Bool, false, ◌&&◌, ◌==◌, ◌<◌, arith, Option, some, length,
  Bool-cases, inl, inr,
}
use mega65_expansion_board_i.Jtag.Pins.{Chain}
use mega65_expansion_board_i.Jtag.Config.{Port}
use mega65_expansion_board_i.Jtag.Writer.{
  Writer, Options, Reader, stream_loop, jtag_program_stream, jtag_program_writer_begin,
  jtag_program_writer_write,
}
use mega65_expansion_board_i.Jtag.Stream.{chunk, chunk_bounds, jtag_program_stream-loop}

module _ (c : Chain) {R : Type 0} (read_cb : Reader R) where
  stream_loop_returns :
      (fuel remaining : ℕ) (r : R) (wr : Writer) (port : Port c.Device)
      → remaining < fuel
      → (ok : Bool) × (r' : R) × (wr' : Writer) × (port' : Port c.Device) × (stream_loop c read_cb
            fuel remaining r wr port
          ≡ some (ok, r', wr', port'))
  unfolding stream_loop
  stream_loop_returns zero remaining r wr port enough = absurd (omega arith)
  stream_loop_returns (suc fuel) remaining r wr port enough =
      let want : ℕ = chunk remaining in
      let (ok, buf, r') = read_cb want r in
      let (_, wr', port') = jtag_program_writer_write c buf wr port in
      elim (Bool-cases (remaining == 0)) [
        | inl none_left ↦ rw none_left (_, _, _, _, refl)
        | inr more ↦ rw more (elim (Bool-cases (ok && length buf == want)) [
          | inr short ↦ rw short (_, _, _, _, refl)
          | inl full ↦ rw full (elim (Bool-cases (jtag_program_writer_write c buf wr port).0) [
            | inr failed ↦ rw failed (_, _, _, _, refl)
            | inl written ↦ rw written (
                stream_loop_returns fuel (remaining - want) r' wr' port'
                  (let small = chunk_bounds remaining (ground arith) in omega arith))
          ])
        ])
      ]

  pub jtag_program_stream-unbegun :
      (n expected : ℕ) (opts : Option Options) (r : R) (port : Port c.Device)
      → (jtag_program_writer_begin c n expected opts port).0 ≡ false
      → jtag_program_stream c read_cb n expected opts r port
        ≡ some (false, r, (jtag_program_writer_begin c n expected opts port).2)
  unfolding jtag_program_stream
  jtag_program_stream-unbegun n expected opts r port refused = rw refused

  -- `jtag_program_stream` returns, whatever the length of the payload, the options, the reader and
  -- the chip are: no read and no answer of the chip keeps it in its loop.
  pub jtag_program_stream_returns :
      (n expected : ℕ) (opts : Option Options) (r : R) (port : Port c.Device)
      → (ok : Bool) × (r' : R) × (port' : Port c.Device) × (jtag_program_stream c read_cb n expected
            opts r port
          ≡ some (ok, r', port'))
  jtag_program_stream_returns n expected opts r port =
      let (_, wr, port0) = jtag_program_writer_begin c n expected opts port in
      elim (Bool-cases (jtag_program_writer_begin c n expected opts port).0) [
        | inr refused ↦
            (false, r, port0, jtag_program_stream-unbegun n expected opts r port refused)
        | inl begun ↦
            let (ok, r', wr', port', run) =
              stream_loop_returns (n + 1) n r wr port0 (omega arith) in
            (ok, r', port', jtag_program_stream-loop c read_cb n expected opts r port begun run)
      ]
