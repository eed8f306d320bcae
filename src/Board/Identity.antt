-- ===== src/Board/Identity.antt =====
-- src/machine_identity.c: the machine's name and board revision. A name is a list of bytes without
-- a NUL.
use mega65_expansion_board_i.Base.{
  ℕ, Bool, true, false, ◌&&◌, ◌||◌, List, [], ◌∷◌, ◌++◌, ◌==◌, ltb, if◌then◌else◌, length, take,
}
use mega65_expansion_board_i.Base.Text.{codes, isalnum}

-- the file's `machine_name` and `machine_board_rev`
pub record Machine : Type 0 where
  pub machine_name : List ℕ
  pub machine_board_rev : ℕ

-- M65_MACHINE_NAME_MAX
abbrev pub machine_name_max : ℕ
machine_name_max = 24

unfoldable pub machine_identity_init_defaults : Machine
machine_identity_init_defaults = record { machine_name = []; machine_board_rev = 0 }

unfoldable pub valid_bytes : List ℕ → Bool
valid_bytes [] = true
valid_bytes (c ∷ cs) = (isalnum c || (c == b'-' || (c == b'_' || c == b'.'))) && valid_bytes cs

unfoldable pub machine_identity_valid_name : List ℕ → Bool
machine_identity_valid_name name =
    if length name == 0 || ltb machine_name_max (length name) then false else valid_bytes name

unfoldable pub machine_identity_set_name : List ℕ → Machine → Machine
machine_identity_set_name name m = record m { machine_name = take machine_name_max name }

unfoldable pub machine_identity_set_board_rev : ℕ → Machine → Machine
machine_identity_set_board_rev board_rev m = record m {
  machine_board_rev = (if board_rev == 3 || board_rev == 6 then board_rev else 0);
}

unfoldable pub machine_identity_board_token : Machine → List ℕ
machine_identity_board_token m =
    if m.machine_board_rev == 3
    then codes "r3"
    else if m.machine_board_rev == 6
    then codes "r6"
    else codes "r0"

-- `snprintf` into `out_len` bytes, one of which is the NUL
unfoldable pub machine_identity_format : ℕ → Machine → List ℕ
machine_identity_format room m =
    let name = if length m.machine_name == 0 then codes "unnamed" else m.machine_name in
    take room (machine_identity_board_token m ++ (b':' ∷ name))
