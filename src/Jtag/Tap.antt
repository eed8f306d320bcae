-- ===== src/Jtag/Tap.antt =====
-- The TAP controller of IEEE 1149.1, as the comments of src/jtag_gpio.c name its states, with the
-- bits that a scan has shifted in and the registers that it has updated.
use mega65_expansion_board_i.Base.{Bool, true, false, List, [], ◌∷◌, ◌++◌}

pub data Tap : Type 0 where
  test_logic_reset run_test_idle : Tap
  select_dr capture_dr shift_dr exit1_dr pause_dr exit2_dr update_dr : Tap
  select_ir capture_ir shift_ir exit1_ir pause_ir exit2_ir update_ir : Tap

-- the state after a rising edge of TCK with this TMS
abbrev pub next : Tap → Bool → Tap
next test_logic_reset true = test_logic_reset
next test_logic_reset false = run_test_idle
next run_test_idle true = select_dr
next run_test_idle false = run_test_idle
next select_dr true = select_ir
next select_dr false = capture_dr
next capture_dr true = exit1_dr
next capture_dr false = shift_dr
next shift_dr true = exit1_dr
next shift_dr false = shift_dr
next exit1_dr true = update_dr
next exit1_dr false = pause_dr
next pause_dr true = exit2_dr
next pause_dr false = pause_dr
next exit2_dr true = update_dr
next exit2_dr false = shift_dr
next update_dr true = select_dr
next update_dr false = run_test_idle
next select_ir true = test_logic_reset
next select_ir false = capture_ir
next capture_ir true = exit1_ir
next capture_ir false = shift_ir
next shift_ir true = exit1_ir
next shift_ir false = shift_ir
next exit1_ir true = update_ir
next exit1_ir false = pause_ir
next pause_ir true = exit2_ir
next pause_ir false = pause_ir
next exit2_ir true = update_ir
next exit2_ir false = shift_ir
next update_ir true = select_dr
next update_ir false = run_test_idle

-- A scan that an Update state has taken over, with its bits in the order they were shifted in.
pub data Update : Type 0 where
  ir : List Bool → Update
  dr : List Bool → Update

-- `scan` is what the current scan has shifted in, `updates` every scan that was completed.
pub record View : Type 0 where
  pub tap : Tap
  pub scan : List Bool
  pub updates : List Update

abbrev scan_after : Tap → List Bool → Bool → List Bool
scan_after shift_dr scan tdi = scan ++ (tdi ∷ [])
scan_after shift_ir scan tdi = scan ++ (tdi ∷ [])
scan_after capture_dr scan tdi = []
scan_after capture_ir scan tdi = []
scan_after _ scan tdi = scan

-- the Update state takes the scan over
abbrev updates_after : Tap → List Bool → List Update → List Update
updates_after update_dr scan done = done ++ (dr scan ∷ [])
updates_after update_ir scan done = done ++ (ir scan ∷ [])
updates_after _ scan done = done

abbrev pub step : Bool → Bool → View → View
step tms tdi v = record {
  tap = next v.tap tms;
  scan = scan_after v.tap v.scan tdi;
  updates = updates_after v.tap v.scan v.updates;
}
