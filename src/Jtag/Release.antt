-- ===== src/Jtag/Release.antt =====
-- src/jtag_gpio.c: every way out of a started configuration ends, and lets go of the bus.
use mega65_expansion_board_i.Base.{
  ℕ, zero, suc, ◌+◌, ◌-◌, ◌≡◌, ◌≢◌, refl, Bool, true, false, not, ◌&&◌, List, [], ◌∷◌, ◌==◌, ◌<◌,
  arith, Option, some, length, Bool-cases, ◌⊎◌, inl, inr,
}
use mega65_expansion_board_i.Jtag.Pins.{Chain, Bus}
use mega65_expansion_board_i.Jtag.Shift.{tap_reset}
use mega65_expansion_board_i.Jtag.Config.{Port, short_payload, short_read}
use mega65_expansion_board_i.Jtag.Writer.{
  Writer, Options, Reader, stream_loop, jtag_program_stream, jtag_program_writer_begin,
  jtag_program_writer_finish, jtag_program_writer_write, jtag_program_writer_abort, write_byte,
  write_bytes, begin_with_id, idcode_match, opt_or, jtag_finish_closeout,
}
use mega65_expansion_board_i.Jtag.Begin.{Quiet}
use mega65_expansion_board_i.Jtag.Finish.{release_if_lets_go, abort-eq}
use mega65_expansion_board_i.Jtag.Returns.{jtag_program_stream-unbegun}
use mega65_expansion_board_i.Jtag.Stream.{chunk, chunk_bounds, jtag_program_stream-loop}

-- The port drives no JTAG signal and does not claim the bus.
abbrev pub Released : {D : Type 0} → Bus D → Type 0
Released b = Quiet b.pins × (b.pins.hijack ≡ false)

-- A started writer whose options ask for a release.
abbrev Releasing : Writer → Type 0
Releasing wr = (wr.active ≡ true) × (wr.release_after ≡ true)

module _ (c : Chain) where
  abort-Released :
      (wr : Writer) (port : Port c.Device)
      → Releasing wr
      → Released (jtag_program_writer_abort c wr port).1.bus
  abort-Released wr port h =
      rw (abort-eq c wr port h.0) (release_if_lets_go wr.release_after (tap_reset c port.bus) h.1)

  finish-Released :
      (wr : Writer) (port : Port c.Device)
      → Releasing wr
      → Released (jtag_program_writer_finish c wr port).2.bus
  unfolding jtag_program_writer_finish
  finish-Released wr port h =
      let active : wr.active ≡ true = h.0 in
      elim (Bool-cases (wr.done == wr.payload_length)) [
        | inl full ↦
            simp (active, full)
              (release_if_lets_go wr.release_after (jtag_finish_closeout c port).bus h.1)
        | inr short ↦
            simp (active, short) (abort-Released wr (record port { last_err = short_payload }) h)
      ]

  write_bytes-Releasing :
      (buf : List ℕ) (wr : Writer) (port : Port c.Device)
      → Releasing wr
      → Releasing (write_bytes c buf (wr, port)).0
  unfolding write_bytes write_byte
  write_bytes-Releasing [] wr port h = h
  write_bytes-Releasing (x ∷ buf) wr port h = write_bytes-Releasing buf _ _ h

  write-Releasing :
      (buf : List ℕ) (wr : Writer) (port : Port c.Device)
      → Releasing wr
      → Releasing (jtag_program_writer_write c buf wr port).1
  unfolding jtag_program_writer_write
  write-Releasing buf wr port h = ground (arith, write_bytes-Releasing buf wr port h)

  module _ {R : Type 0} (read_cb : Reader R) where
    -- The loop returns, and the bus is released.
    abbrev Ends : Option (Bool × R × Writer × Port c.Device) → Type 0
    Ends o =
        (ok : Bool) × (r' : R) × (wr' : Writer) × (port' : Port c.Device) × (o
          ≡ some (ok, r', wr', port'))
        × Released port'.bus

    stream_loop-Ends :
        (fuel remaining : ℕ) (r : R) (wr : Writer) (port : Port c.Device)
        → remaining < fuel
        → Releasing wr
        → Ends (stream_loop c read_cb fuel remaining r wr port)
    unfolding stream_loop
    stream_loop-Ends zero remaining r wr port enough h = absurd (omega arith)
    stream_loop-Ends (suc fuel) remaining r wr port enough h = elim (Bool-cases (remaining == 0)) [
      | inl none_left ↦ rw none_left (_, _, _, _, refl, finish-Released wr port h)
      | inr more ↦
          let want : ℕ = chunk remaining in
          let (ok, buf, r') = read_cb want r in
          let (_, wr', port') = jtag_program_writer_write c buf wr port in
          let h' = write-Releasing buf wr port h in
          rw more (elim (Bool-cases (ok && length buf == want)) [
            | inr short ↦
                rw short
                  (_, _, _, _, refl, abort-Released wr (record port { last_err = short_read }) h)
            | inl full ↦ rw full (elim (Bool-cases (jtag_program_writer_write c buf wr port).0) [
              | inr failed ↦ rw failed (_, _, _, _, refl, abort-Released wr' port' h')
              | inl written ↦ rw written (
                  stream_loop-Ends fuel (remaining - want) r' wr' port'
                    (let small = chunk_bounds remaining (ground arith) in omega arith) h')
            ])
          ])
    ]

  begin_with_id-Releasing :
      (n expected : ℕ) (opts : Option Options) (id : ℕ) (b : Bus c.Device) (port : Port c.Device)
      → opt_or (λ o. o.release_after) opts true ≡ true
      → let (ok, wr, port') = begin_with_id c n expected opts id b port in
        ((ok ≡ true) × Releasing wr) ⊎ ((ok ≡ false) × Released port'.bus)
  unfolding begin_with_id
  begin_with_id-Releasing n expected opts id b port releases =
      elim (Bool-cases (
        opt_or (λ o. o.check_idcode) opts true
        && (not (expected == 0) && not (idcode_match id expected)))) [
          | inl refused ↦ inr (
              rw refused
                (refl, release_if_lets_go (opt_or (λ o. o.release_after) opts true) b releases))
          | inr accepted ↦ inl (rw accepted (refl, (refl, releases)))
        ]

  begin-Releasing :
      (n expected : ℕ) (opts : Option Options) (port : Port c.Device)
      → n ≢ 0
      → opt_or (λ o. o.release_after) opts true ≡ true
      → let (ok, wr, port') = jtag_program_writer_begin c n expected opts port in
        ((ok ≡ true) × Releasing wr) ⊎ ((ok ≡ false) × Released port'.bus)
  unfolding jtag_program_writer_begin
  begin-Releasing zero expected opts port nz releases = absurd (nz refl)
  begin-Releasing (suc n) expected opts port nz releases =
      let more : (suc n == 0) ≡ false = ground arith in
      rw more (begin_with_id-Releasing (suc n) expected opts _ _ _ releases)

  -- Of a payload that is not empty, with options that ask for a release: whatever the reader does and
  -- whatever the chip answers, `jtag_program_stream` returns, and the port then drives no JTAG signal
  -- and the hijack line is inactive, on success and on every error.
  pub jtag_program_stream_releases :
      {R : Type 0} (read_cb : Reader R) (n expected : ℕ) (opts : Option Options) (r : R)
      (port : Port c.Device)
      → n ≢ 0
      → opt_or (λ o. o.release_after) opts true ≡ true
      → (ok : Bool) × (r' : R) × (port' : Port c.Device) × (jtag_program_stream c read_cb n expected
            opts r port
          ≡ some (ok, r', port'))
        × Released port'.bus
  jtag_program_stream_releases read_cb n expected opts r port nz releases =
      let (_, wr, port0) = jtag_program_writer_begin c n expected opts port in
      elim (begin-Releasing n expected opts port nz releases) [
        | inr (refused, released) ↦ (
          false,
          r,
          port0,
          jtag_program_stream-unbegun c read_cb n expected opts r port refused,
          released,
        )
        | inl (begun, h) ↦
            let (ok, r', wr', port', run, released) =
              stream_loop-Ends read_cb (n + 1) n r wr port0 (omega arith) h in
            (
              ok,
              r',
              port',
              jtag_program_stream-loop c read_cb n expected opts r port begun run,
              released,
            )
      ]
