-- ===== src/WriteGate/Tests.antt =====
-- An instance of the theorem on the write gate.
use mega65_expansion_board_i.Base.{ℕ, ◌+◌, ◌<◌, ◌≡◌, ◌↔◌, true, false, [], ◌∷◌, arith}
use mega65_expansion_board_i.WriteGate.{window_us, write_gate_active}
use mega65_expansion_board_i.WriteGate.Window.{after, LastPress, write_gate_active-LastPress}

write_gate_active-LastPress_example :
    ((write_gate_active true 5000 5001 (after ((false, 1000) ∷ []))).0 ≡ true)
    ↔ ((t : ℕ) × LastPress ((true, 5000) ∷ (false, 1000) ∷ []) t × (5001 < t + window_us))
write_gate_active-LastPress_example =
    write_gate_active-LastPress true 5000 5001 ((false, 1000) ∷ []) (omega arith, (omega arith, tt))
