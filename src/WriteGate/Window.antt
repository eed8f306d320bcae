-- ===== src/WriteGate/Window.antt =====
-- src/write_gate.c: when the gate is open.
use mega65_expansion_board_i.Base.{
  ℕ, ◌+◌, ◌^◌, ◌<◌, ◌≡◌, ◌↔◌, ◌⊎◌, inl, inr, refl, Bool, true, false, not, ◌&&◌, List, [], ◌∷◌,
  ◌==◌, ltb, arith,
}
use mega65_expansion_board_i.WriteGate.{window_us, write_gate_refresh_from_pin, write_gate_active}

-- a look at the pin: its level, and the time
abbrev pub Look : Type 0
Look = Bool × ℕ

-- `write_auth_until_us` after `write_gate_init` and these looks, the last one first
abbrev pub after : List Look → ℕ
after [] = 0
after ((level, now) ∷ earlier) = write_gate_refresh_from_pin level now (after earlier)

-- The last look that saw the button pressed was at this time.
pub data LastPress : List Look → ℕ → Type 0 where
  here : {now : ℕ} {earlier : List Look} → LastPress ((false, now) ∷ earlier) now
  there :
      {now t : ℕ} {earlier : List Look} → LastPress earlier t → LastPress ((true, now) ∷ earlier) t

-- all times lie within the first 2 ^ 63 microseconds
abbrev pub Early : List Look → Type 0
Early [] = Unit
Early ((level, now) ∷ earlier) = (now < 2 ^ 63) × Early earlier

after-LastPress :
    (looks : List Look) (t : ℕ)
    → Early looks
    → LastPress looks t
    → (after looks ≡ t + window_us) × (t < 2 ^ 63)
unfolding write_gate_refresh_from_pin
after-LastPress [] t early p = elim p [ ]
after-LastPress ((level, now) ∷ earlier) t (small, rest) here = (omega arith, small)
after-LastPress ((level, now) ∷ earlier) t (small, rest) (there p) =
    after-LastPress earlier t rest p

after_pressed :
    (looks : List Look) → Early looks → (after looks ≡ 0) ⊎ ((t : ℕ) × LastPress looks t)
unfolding write_gate_refresh_from_pin
after_pressed [] early = inl refl
after_pressed ((false, now) ∷ earlier) early = inr (now, here)
after_pressed ((true, now) ∷ earlier) (small, rest) = elim (after_pressed earlier rest) [
  | inl zero' ↦ inl zero'
  | inr (t, p) ↦ inr (t, there p)
]

open_test : (now until : ℕ) → ((not (until == 0) && ltb now until) ≡ true) ↔ (now < until)
open_test now until = ground arith

-- The gate is open exactly if the button was seen pressed, at this look or an earlier one, and the
-- last time was less than 120 seconds ago; for times below 2 ^ 63 microseconds.
pub write_gate_active-LastPress :
    (level : Bool) (now1 now2 : ℕ) (earlier : List Look)
    → Early ((level, now1) ∷ earlier)
    → ((write_gate_active level now1 now2 (after earlier)).0 ≡ true)
      ↔ ((t : ℕ) × LastPress ((level, now1) ∷ earlier) t × (now2 < t + window_us))
unfolding write_gate_active
write_gate_active-LastPress level now1 now2 earlier early =
    let looks : List Look = (level, now1) ∷ earlier in
    (
      λ h.
          let below : now2 < after looks = (open_test now2 (after looks)).0 h in
          elim (after_pressed looks early) [
            | inl none' ↦ absurd (omega arith)
            | inr (t, p) ↦ let (e, _) = after-LastPress looks t early p in (t, p, omega arith)
          ],
      λ h.
          let (t, p, below) = h in
          let (e, _) = after-LastPress looks t early p in
          (open_test now2 (after looks)).1 (omega arith),
    )
