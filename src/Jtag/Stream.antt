-- ===== src/Jtag/Stream.antt =====
-- src/jtag_gpio.c: `jtag_program_stream`, from the reader's bytes to the chip's configuration.
use mega65_expansion_board_i.Base.{
  ℕ, zero, suc, ◌+◌, ◌-◌, ◌^◌, ◌≡◌, ◌≢◌, refl, ap, ◌∙◌, Bool, true, false, List, [], ◌∷◌, ◌++◌,
  ◌==◌, ◌<◌, ◌≤◌, arith, Option, some, ltb, length, take, drop, if◌then◌else◌, length-drop,
  length-take, take-append-drop, append_assoc, append-nil,
}
use mega65_expansion_board_i.Jtag.Tap.{run_test_idle, Update, View, dr}
use mega65_expansion_board_i.Jtag.Pins.{Chain, Conforms}
use mega65_expansion_board_i.Jtag.Config.{Port}
use mega65_expansion_board_i.Jtag.Writer.{
  Writer, Options, Reader, stream_loop, jtag_program_stream, jtag_program_writer_begin,
  jtag_program_writer_finish, jtag_program_writer_write, opt_or,
}
use mega65_expansion_board_i.Jtag.Words.{held}
use mega65_expansion_board_i.Jtag.Begin.{begin_starts, start_updates}
use mega65_expansion_board_i.Jtag.Payload.{Fed, bytes_bits, bytes_bits-append, write_feeds}
use mega65_expansion_board_i.Jtag.Closeout.{closeout_updates}
use mega65_expansion_board_i.Jtag.Finish.{finish_completes}

-- A reader that still has these bytes and hands them out in order, as a file or a line does.
pub record Delivers {R : Type 0} (read_cb : Reader R) (unread : R → List ℕ) : Type 0 where
  pub succeeds : (want : ℕ) (r : R) → want ≤ length (unread r) → (read_cb want r).0 ≡ true
  pub gives :
      (want : ℕ) (r : R) → want ≤ length (unread r) → (read_cb want r).1 ≡ take want (unread r)
  pub keeps :
      (want : ℕ) (r : R)
      → want ≤ length (unread r)
      → unread (read_cb want r).2 ≡ drop want (unread r)

-- `want` of a round
abbrev pub chunk : ℕ → ℕ
chunk remaining = if ltb 4096 remaining then 4096 else remaining

pub chunk_bounds :
    (remaining : ℕ) → 0 < remaining → (0 < chunk remaining) × (chunk remaining ≤ remaining)
chunk_bounds remaining h = ground arith

nil_of_length : (l : List ℕ) → length l ≡ 0 → l ≡ []
nil_of_length [] h = refl
nil_of_length (x ∷ l) h = absurd (omega arith)

module _ (c : Chain) {R : Type 0} (read_cb : Reader R) where
  stream_loop-end :
      (fuel : ℕ) (r : R) (wr : Writer) (port : Port c.Device)
      → stream_loop c read_cb (suc fuel) 0 r wr port
        ≡ (let (ok, wr', port') = jtag_program_writer_finish c wr port in some (ok, r, wr', port'))
  unfolding stream_loop
  stream_loop-end fuel r wr port = refl

  stream_loop-round :
      (fuel remaining : ℕ) (r : R) (wr : Writer) (port : Port c.Device)
      → remaining ≢ 0
      → (read_cb (chunk remaining) r).0 ≡ true
      → length (read_cb (chunk remaining) r).1 ≡ chunk remaining
      → (jtag_program_writer_write c (read_cb (chunk remaining) r).1 wr port).0 ≡ true
      → stream_loop c read_cb (suc fuel) remaining r wr port ≡ (
          let (ok, buf, r') = read_cb (chunk remaining) r in
          let (_, wr', port') = jtag_program_writer_write c buf wr port in
          stream_loop c read_cb fuel (remaining - chunk remaining) r' wr' port')
  unfolding stream_loop
  stream_loop-round fuel remaining r wr port nz ok len written = ground arith

  pub jtag_program_stream-loop :
      (n expected : ℕ) (opts : Option Options) (r : R) (port : Port c.Device) {ok : Bool} {r' : R}
      {wr' : Writer} {port' : Port c.Device}
      → (jtag_program_writer_begin c n expected opts port).0 ≡ true
      → (let (_, wr, port0) = jtag_program_writer_begin c n expected opts port in
          stream_loop c read_cb (n + 1) n r wr port0)
        ≡ some (ok, r', wr', port')
      → jtag_program_stream c read_cb n expected opts r port ≡ some (ok, r', port')
  unfolding jtag_program_stream
  jtag_program_stream-loop n expected opts r port begun run = rw (begun, run)

-- The program ends well with the payload `p` in the chip: the loop returns, reports success, and
-- the chip has taken over the scan `s` followed by the bits of `p`, and closed out.
module _ {c : Chain} (conf : Conforms c) {R : Type 0} {read_cb : Reader R} {unread : R → List ℕ}
    (d : Delivers read_cb unread) where
  abbrev Programs : Option (Bool × R × Writer × Port c.Device) → List Bool → List Update → Type 0
  Programs o s u =
      (r' : R) × (wr' : Writer) × (port' : Port c.Device) × (o ≡ some (true, r', wr', port'))
      × ((conf.view port'.bus.chip).tap ≡ run_test_idle)
      × ((conf.view port'.bus.chip).updates ≡ u ++ (dr s ∷ closeout_updates))

  -- the bytes of one read and those left behind it are the bytes before it
  bits_of_round :
      (want : ℕ) (r : R) (s : List Bool)
      → want ≤ length (unread r)
      → (s ++ bytes_bits (read_cb want r).1) ++ bytes_bits (unread (read_cb want r).2)
        ≡ s ++ bytes_bits (unread r)
  bits_of_round want r s fits = rw (
    d.gives want r fits,
    d.keeps want r fits,
    append_assoc,
    ← bytes_bits-append,
    take-append-drop,
  )

  finish-Programs :
      (fuel : ℕ) (r : R) (wr : Writer) (port : Port c.Device) {s : List Bool} {u : List Update}
      → Fed conf wr port.bus s u
      → wr.active ≡ true
      → wr.done ≡ wr.payload_length
      → Programs (stream_loop c read_cb (suc fuel) 0 r wr port) s u
  finish-Programs fuel r wr port fed act full =
      let (ok, wr', port') = jtag_program_writer_finish c wr port in
      let (done, _, _, _, _, idle, loaded) = finish_completes conf wr port fed act full in
      (
        r,
        wr',
        port',
        stream_loop-end c read_cb fuel r wr port ∙ ap (λ b. some (b, r, wr', port')) done,
        idle,
        loaded,
      )

  stream_loop-Programs :
      (fuel remaining : ℕ) (r : R) (wr : Writer) (port : Port c.Device) {s : List Bool}
      {u : List Update}
      → remaining < fuel
      → Fed conf wr port.bus s u
      → wr.active ≡ true
      → wr.done + remaining ≡ wr.payload_length
      → length (unread r) ≡ remaining
      → Programs (stream_loop c read_cb fuel remaining r wr port) (s ++ bytes_bits (unread r)) u
  stream_loop-Programs zero remaining r wr port enough fed act count len = absurd (omega arith)
  stream_loop-Programs (suc fuel) zero r wr port {s} {u} enough fed act count len =
      rw (nil_of_length (unread r) len, append-nil)
        (finish-Programs fuel r wr port fed act (omega arith))
  stream_loop-Programs (suc fuel) (suc k) r wr port {s} {u} enough fed act count len =
      let want : ℕ = chunk (suc k) in
      let small : (0 < want) × (want ≤ suc k) = chunk_bounds (suc k) (omega arith) in
      let fits : want ≤ length (unread r) = omega arith in
      let (ok, buf, r') = read_cb want r in
      let size : length buf ≡ want =
        ap length (d.gives want r fits) ∙ length-take want (unread r) ∙ omega arith in
      let (written, fed', moved) = write_feeds conf buf wr port fed act (omega arith) in
      let (_, wr', port') = jtag_program_writer_write c buf wr port in
      let left : length (unread r') ≡ suc k - want =
        ap length (d.keeps want r fits) ∙ length-drop want (unread r) ∙ omega arith in
      let at_done : wr'.done ≡ wr.done + length buf = ap (λ w. w.done) moved in
      let at_len : wr'.payload_length ≡ wr.payload_length = ap (λ w. w.payload_length) moved in
      let act' : wr'.active ≡ true = ap (λ w. w.active) moved ∙ act in
      let (r2, wr2, port2, run, idle, loaded) =
        stream_loop-Programs fuel (suc k - want) r' wr' port' (omega arith) fed' act' (omega arith)
          left in
      (
        r2,
        wr2,
        port2,
        stream_loop-round c read_cb fuel (suc k) r wr port (omega arith) (d.succeeds want r fits)
              size written
            ∙ run,
        idle,
        rw (bits_of_round want r s fits) at loaded,
      )

  -- `jtag_program_stream` programs the chip. If the port may claim the bus, the chip's IDCODE is
  -- accepted (begin succeeds) and the reader delivers the declared number of bytes, then the loop
  -- returns and reports success, and the chip, whatever state it was in, has been reset, has taken
  -- JPROGRAM, ISC_NOOP and CFG_IN, then exactly the payload's bits as one scan, each byte's top bit
  -- first, then JSTART, ISC_NOOP, BYPASS and the status reads; it is left in Run-Test/Idle.
  pub jtag_program_stream_programs :
      (n expected : ℕ) (opts : Option Options) (r : R) (port : Port c.Device) {v : View}
      → conf.view port.bus.chip ≡ v
      → n ≢ 0
      → n < 2 ^ 32
      → opt_or (λ o. o.use_hijack) opts true ≡ true
      → (jtag_program_writer_begin c n expected opts port).0 ≡ true
      → length (unread r) ≡ n
      → (r' : R) × (port' : Port c.Device) × (jtag_program_stream c read_cb n expected opts r port
          ≡ some (true, r', port'))
        × ((conf.view port'.bus.chip).tap ≡ run_test_idle)
        × ((conf.view port'.bus.chip).updates
            ≡ ((held 8 v).updates ++ start_updates conf)
              ++ (dr (bytes_bits (unread r)) ∷ closeout_updates))
  jtag_program_stream_programs n expected opts r port h nz small hijack begun len =
      let (_, wr, port0) = jtag_program_writer_begin c n expected opts port in
      let (seen, low, full, start, act) =
        begin_starts conf n expected opts port h nz hijack (ap (λ b. (b, wr, port0)) begun) in
      let more : (wr.done == wr.payload_length) ≡ false = ground arith in
      let fed : Fed conf wr port0.bus [] _ = record {
        sees = rw more seen;
        tms = rw more low;
        small = omega arith;
        within = omega arith;
      } in
      let (r', wr', port', run, idle, loaded) =
        stream_loop-Programs (n + 1) n r wr port0 (omega arith) fed act (omega arith) len in
      (r', port', jtag_program_stream-loop c read_cb n expected opts r port begun run, idle, loaded)
