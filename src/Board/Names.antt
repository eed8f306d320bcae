-- ===== src/Board/Names.antt =====
-- src/machine_identity.c: a valid name survives, and the board and the name can be told from the
-- printed identity.
use mega65_expansion_board_i.Base.{
  ℕ, ◌≤◌, ◌<◌, ◌≡◌, Bool, true, false, ◌||◌, List, ◌∷◌, ◌++◌, ◌==◌, ltb, if◌then◌else◌, length,
  take-all, length-append, arith,
}
use mega65_expansion_board_i.Board.Identity.{
  Machine, valid_bytes, machine_identity_valid_name, machine_identity_set_name,
  machine_identity_board_token, machine_identity_format,
}

token_length : (m : Machine) → length (machine_identity_board_token m) ≡ 2
unfolding machine_identity_board_token
token_length m = ground arith

not_empty : (n : ℕ) → 0 < n → (n == 0) ≡ false
not_empty n h = ground arith

valid_length :
    (n : ℕ) (rest : Bool) → (if n == 0 || ltb 24 n then false else rest) ≡ true → (0 < n) × (n ≤ 24)
valid_length n rest h = ground arith

-- A valid name is kept whole, and the printed identity is the board's token, a colon and that name
-- if there is room for 27 bytes.
pub set_name-keeps :
    (name : List ℕ) (room : ℕ) (m : Machine)
    → machine_identity_valid_name name ≡ true
    → 27 ≤ room
    → ((machine_identity_set_name name m).machine_name ≡ name)
      × (machine_identity_format room (machine_identity_set_name name m)
          ≡ machine_identity_board_token m ++ (b':' ∷ name))
unfolding machine_identity_valid_name machine_identity_set_name machine_identity_format
    machine_identity_board_token
set_name-keeps name room m valid enough =
    let (some_bytes, short) = valid_length (length name) (valid_bytes name) valid in
    let whole = take-all 24 name short in
    let token = token_length m in
    let sum = length-append (machine_identity_board_token m) (b':' ∷ name) in
    (
      whole,
      simp (whole, not_empty (length name) some_bytes)
          (take-all room (machine_identity_board_token m ++ (b':' ∷ name)) (omega arith)),
    )
