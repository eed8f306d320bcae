-- ===== src/Jtag/Tests.antt =====
-- Runs of the port against a chip, and instances of its theorems.
use mega65_expansion_board_i.Base.{
  ℕ, ◌+◌, ◌≡◌, refl, Bool, true, false, List, [], ◌∷◌, ◌++◌, Option, none, some, take, drop, arith,
}
use mega65_expansion_board_i.Base.Bits.{bits_lsb, bits_msb}
use mega65_expansion_board_i.Jtag.Tap.{
  Tap, test_logic_reset, run_test_idle, shift_dr, View, step, dr,
}
use mega65_expansion_board_i.Jtag.Pins.{Pins, Chain, Conforms, Bus, claim_ops, release_ops, tick}
use mega65_expansion_board_i.Jtag.Shift
use mega65_expansion_board_i.Jtag.Edges.{at, Sees}
use mega65_expansion_board_i.Jtag.Scans.{shift_dr_read32_word}
use mega65_expansion_board_i.Jtag.Words.{words_bits, held}
use mega65_expansion_board_i.Jtag.Config.{Status, Port, no_error, short_payload, idcode_mismatch}
use mega65_expansion_board_i.Jtag.Writer.{
  Options, Writer, Reader, begin_with_id, jtag_program_writer_begin, jtag_program_writer_write,
  jtag_program_writer_finish, jtag_program_stream, idcode_match,
}
use mega65_expansion_board_i.Jtag.Begin.{
  Quiet, SwitchesQuietly, claim_release-SwitchesQuietly, start_updates, id_updates, begin_starts,
  begin_refuses,
}
use mega65_expansion_board_i.Jtag.Payload.{Fed, bytes_bits, write_feeds}
use mega65_expansion_board_i.Jtag.Closeout.{closeout_updates}
use mega65_expansion_board_i.Jtag.Finish.{finish_completes, finish_short}
use mega65_expansion_board_i.Jtag.Stream.{Delivers, jtag_program_stream_programs}
use mega65_expansion_board_i.Jtag.Returns.{jtag_program_stream_returns}
use mega65_expansion_board_i.Jtag.Release.{Released, jtag_program_stream_releases}

-- a chip that is nothing but its TAP controller, with TDO low
abbrev bare : Chain
bare = record { Device = View; rise = λ p d. step p.tms p.tdi d; tdo = λ d. false }

abbrev bare-Conforms : Conforms bare
bare-Conforms = record { view = λ d. d; view-rise = λ p d h. refl }

-- a wire that plays these TDO levels, one for each edge
abbrev player : Chain
player = record {
  Device = List Bool;
  rise = λ p d. drop 1 d;
  tdo = λ d. elim d [ [] ↦ false | b ∷ bs ↦ b ];
}

abbrev driving : Pins
driving = record {
  tck = false;
  tms = false;
  tdi = false;
  tck_out = true;
  tms_out = true;
  tdi_out = true;
  tdo_out = false;
  hijack = true;
}

abbrev idle_bus : Bus View
idle_bus = record { pins = driving; chip = at run_test_idle [] [] }

idle-Sees : Sees bare-Conforms idle_bus (at run_test_idle [] [])
idle-Sees = record { live = refl; state = refl }

claim_release-SwitchesQuietly_example :
    SwitchesQuietly claim_ops driving × SwitchesQuietly release_ops driving
claim_release-SwitchesQuietly_example = claim_release-SwitchesQuietly driving

-- the levels of three lead-in clocks, then of a word
abbrev playing : List Bool → Bus (List Bool)
playing word = record { pins = driving; chip = false ∷ false ∷ false ∷ false ∷ word }

shift_dr_read32_word_example :
    (Shift.shift_dr_read32 player (playing (bits_lsb 32 0x1363_1093))).0 ≡ 0x1363_1093
unfolding tick Shift.enter_shift_dr
shift_dr_read32_word_example =
    shift_dr_read32_word player (playing (bits_lsb 32 0x1363_1093)) 0x1363_1093 (omega arith) refl

abbrev two_words : List Bool
two_words = words_bits (0xffff_ffff ∷ 0xaa99_5566 ∷ [])

-- the port before a configuration: nothing is driven, the chip is in its reset state
abbrev fresh : Port View
fresh = record {
  bus = record {
    pins = record driving { tck_out = false; tms_out = false; tdi_out = false; hijack = false };
    chip = at test_logic_reset [] [];
  };
  last_err = no_error;
  last_status = none;
  last_status_valid = false;
  progress = [];
}

abbrev defaults : Option Options
defaults = none

-- two bytes at once, then nothing left
abbrev list_reader : Reader (List ℕ)
list_reader want l = (true, take want l, drop want l)

abbrev list_reader-Delivers : Delivers list_reader (λ l. l)
list_reader-Delivers = record {
  succeeds = λ want r h. refl;
  gives = λ want r h. refl;
  keeps = λ want r h. refl;
}

-- begin with a length of two and no IDCODE to check
abbrev begun : Bool × Writer × Port View
begun = jtag_program_writer_begin bare 2 0 defaults fresh

abbrev reset_view : View
reset_view = at test_logic_reset [] []

begin_starts_example :
    Sees bare-Conforms begun.2.bus
      (at shift_dr [] ((held 8 reset_view).updates ++ start_updates bare-Conforms))
    × (begun.2.bus.pins.tms ≡ false)
    × (begun.1.payload_length ≡ 2)
    × (begun.1.done ≡ 0)
    × (begun.1.active ≡ true)
unfolding jtag_program_writer_begin begin_with_id
begin_starts_example = begin_starts bare-Conforms 2 0 defaults fresh refl (omega arith) refl refl

-- the chip's TDO is low, so it reads as IDCODE 0
abbrev refused : Bool × Writer × Port View
refused = jtag_program_writer_begin bare 2 0x1363_1093 defaults fresh

begin_refuses_example :
    ((bare-Conforms.view refused.2.bus.chip).updates
      ≡ (held 8 reset_view).updates ++ id_updates bare-Conforms)
    × ((id : ℕ) × (refused.2.last_err ≡ idcode_mismatch id 0x1363_1093)
        × (idcode_match id 0x1363_1093 ≡ false))
    × Quiet refused.2.bus.pins
    × (refused.2.bus.pins.hijack ≡ false)
unfolding jtag_program_writer_begin begin_with_id idcode_match Shift.shift_dr_read32
    Shift.read_bits_lsb tick Shift.enter_shift_dr
begin_refuses_example =
    begin_refuses bare-Conforms 2 0x1363_1093 defaults fresh refl (omega arith) refl refl refl

abbrev half_done : Writer
half_done = record {
  payload_length = 2;
  expected_idcode = 0;
  done = 1;
  active = true;
  release_after = true;
  wants_progress = true;
}

abbrev all_done : Writer
all_done = record half_done { done = 2 }

-- one byte is in, the chip waits for the next
abbrev in_shift : Port View
in_shift = record fresh { bus = record { pins = driving; chip = at shift_dr (bits_msb 8 0xaa) [] } }

abbrev in_shift-Fed : Fed bare-Conforms half_done in_shift.bus (bits_msb 8 0xaa) []
in_shift-Fed = record {
  sees = record { live = refl; state = refl };
  tms = refl;
  small = omega arith;
  within = omega arith;
}

write_feeds_example :
    let (ok, wr', port') = jtag_program_writer_write bare (0x99 ∷ []) half_done in_shift in
    (ok ≡ true)
    × Fed bare-Conforms wr' port'.bus (bits_msb 8 0xaa ++ bytes_bits (0x99 ∷ [])) []
    × (wr' ≡ record half_done { done = 1 + 1 })
write_feeds_example =
    write_feeds bare-Conforms (0x99 ∷ []) half_done in_shift in_shift-Fed refl (omega arith)

-- both bytes are in
abbrev in_exit : Port View
in_exit = record fresh {
  bus = record {
    pins = record driving { tms = true };
    chip = at Tap.exit1_dr (bytes_bits (0xaa ∷ 0x99 ∷ [])) [];
  };
}

abbrev in_exit-Fed : Fed bare-Conforms all_done in_exit.bus (bytes_bits (0xaa ∷ 0x99 ∷ [])) []
in_exit-Fed = record {
  sees = record { live = refl; state = refl };
  tms = refl;
  small = omega arith;
  within = omega arith;
}

finish_completes_example :
    let (ok, wr', port') = jtag_program_writer_finish bare all_done in_exit in
    (ok ≡ true)
    × (wr'.active ≡ false)
    × (port'.last_err ≡ no_error)
    × (port'.last_status_valid ≡ true)
    × ((st : Status) × (port'.last_status ≡ some st)
        × (st.bootsts_valid ≡ true)
        × (st.stat_valid ≡ true)
        × (st.bypass_valid ≡ true))
    × ((bare-Conforms.view port'.bus.chip).tap ≡ run_test_idle)
    × ((bare-Conforms.view port'.bus.chip).updates
        ≡ dr (bytes_bits (0xaa ∷ 0x99 ∷ [])) ∷ closeout_updates)
finish_completes_example = finish_completes bare-Conforms all_done in_exit in_exit-Fed refl refl

finish_short_example :
    let (ok, wr', port') = jtag_program_writer_finish bare half_done in_shift in
    (ok ≡ false)
    × (wr'.active ≡ false)
    × (port'.last_err ≡ short_payload)
    × ((bare-Conforms.view port'.bus.chip).tap ≡ run_test_idle)
    × ((bare-Conforms.view port'.bus.chip).updates ≡ dr (bits_msb 8 0xaa ++ (false ∷ [])) ∷ [])
finish_short_example = finish_short bare-Conforms half_done in_shift in_shift-Fed refl (omega arith)

abbrev two_bytes : List ℕ
two_bytes = 0xaa ∷ 0x99 ∷ []

jtag_program_stream_programs_example :
    (r' : List ℕ) × (port' : Port View) × (jtag_program_stream bare list_reader 2 0 defaults
        two_bytes fresh
      ≡ some (true, r', port'))
    × ((bare-Conforms.view port'.bus.chip).tap ≡ run_test_idle)
    × ((bare-Conforms.view port'.bus.chip).updates
        ≡ ((held 8 reset_view).updates ++ start_updates bare-Conforms)
          ++ (dr (bytes_bits two_bytes) ∷ closeout_updates))
unfolding jtag_program_writer_begin begin_with_id
jtag_program_stream_programs_example =
    jtag_program_stream_programs bare-Conforms list_reader-Delivers 2 0 defaults two_bytes fresh
      refl (omega arith) (omega arith) refl refl refl

-- a reader that never has anything
abbrev broken_reader : Reader (List ℕ)
broken_reader want l = (false, [], l)

jtag_program_stream_releases_example :
    (ok : Bool) × (r' : List ℕ) × (port' : Port View) × (jtag_program_stream bare broken_reader 2 0
        defaults two_bytes fresh
      ≡ some (ok, r', port'))
    × Released port'.bus
jtag_program_stream_releases_example =
    jtag_program_stream_releases bare broken_reader 2 0 defaults two_bytes fresh (omega arith) refl

jtag_program_stream_returns_example :
    (ok : Bool) × (r' : List ℕ) × (port' : Port View) × (jtag_program_stream bare broken_reader 2 0
        defaults two_bytes fresh
      ≡ some (ok, r', port'))
jtag_program_stream_returns_example =
    jtag_program_stream_returns bare broken_reader 2 0 defaults two_bytes fresh
