-- ===== src/WriteGate.antt =====
-- src/write_gate.c: the window in which the card may be written, opened by a button on a pin.
pub mod Window
mod Tests
use mega65_expansion_board_i.Base.{
  ℕ, ◌+◌, ◌-◌, ◌*◌, ◌/◌, ◌%◌, ◌^◌, ◌<◌, ◌≤◌, ◌≡◌, ◌↔◌, ◌⊎◌, inl, inr, refl, Bool, true, false, not,
  ◌&&◌, ◌||◌, List, [], ◌∷◌, ◌==◌, ltb, leb, if◌then◌else◌, arith, Bool-cases,
}

-- M65_WRITE_ENABLE_TIMEOUT_MS in microseconds
abbrev pub window_us : ℕ
window_us = 120_000 * 1000

-- M65_WRITE_ENABLE_ACTIVE_LOW is 1; `level` is what `gpio_get` returns.
unfoldable pub write_gate_physical_asserted : Bool → Bool
write_gate_physical_asserted level = not level

-- The new `write_auth_until_us`; `now` is what `time_us_64` returns.
unfoldable pub write_gate_refresh_from_pin : Bool → ℕ → ℕ → ℕ
unfolding write_gate_physical_asserted
write_gate_refresh_from_pin level now until =
    if write_gate_physical_asserted level then (now + window_us) % 2 ^ 64 else until

-- The clock is read twice: for the refresh, and for the test.
unfoldable pub write_gate_active : Bool → ℕ → ℕ → ℕ → Bool × ℕ
write_gate_active level now1 now2 until =
    let until' = write_gate_refresh_from_pin level now1 until in
    (not (until' == 0) && ltb now2 until', until')

unfoldable pub write_gate_remaining_ms : Bool → ℕ → ℕ → ℕ → ℕ × ℕ
write_gate_remaining_ms level now1 now2 until =
    let until' = write_gate_refresh_from_pin level now1 until in
    let left = (until' - now2) / 1000 % 2 ^ 32 in
    ((if until' == 0 || leb until' now2 then 0 else left), until')
