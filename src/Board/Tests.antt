-- ===== src/Board/Tests.antt =====
-- Runs of the name checks and the core filter, and instances of their theorems.
use mega65_expansion_board_i.Base.{◌≡◌, ◌↔◌, inl, refl, true, some, ◌∷◌, ◌++◌, arith}
use mega65_expansion_board_i.Base.Text.{codes, isalnum, isalpha, isdigit, tolower}
use mega65_expansion_board_i.Board.Identity.{
  valid_bytes, machine_identity_valid_name, machine_identity_set_name,
  machine_identity_init_defaults, machine_identity_board_token, machine_identity_format,
}
use mega65_expansion_board_i.Board.Names.{set_name-keeps}
use mega65_expansion_board_i.Board.Filter
use mega65_expansion_board_i.Board.Filter.{CoreNames, core_matches_board}
use mega65_expansion_board_i.Board.Matches.{IsFor, core_matches_board_iff}

hint_r3 : Filter.core_board_hint_from_name (codes "cores/my-R3.cor") ≡ 3
unfolding Filter.core_board_hint_from_name Filter.contains_model Filter.token_match
    Filter.token_from Filter.is_boundary Filter.strstr Filter.starts_with isalnum isalpha isdigit
    tolower
hint_r3 = refl

name_is_valid : machine_identity_valid_name (codes "lab-1") ≡ true
unfolding machine_identity_valid_name valid_bytes isalnum isalpha isdigit
name_is_valid = refl

set_name-keeps_example :
    ((machine_identity_set_name (codes "lab-1") machine_identity_init_defaults).machine_name
      ≡ codes "lab-1")
    × (machine_identity_format 31
          (machine_identity_set_name (codes "lab-1") machine_identity_init_defaults)
        ≡ machine_identity_board_token machine_identity_init_defaults ++ (b':' ∷ codes "lab-1"))
set_name-keeps_example =
    set_name-keeps (codes "lab-1") 31 machine_identity_init_defaults name_is_valid (omega arith)

-- no id, and a model that names no board
abbrev plain_core : CoreNames
plain_core = record { model_id = 0; model = codes "MEGA65" }

core_matches_board_iff_example :
    (core_matches_board (some plain_core) (codes "cores/my-R3.cor") 3 ≡ true)
    ↔ IsFor plain_core (codes "cores/my-R3.cor") 3
core_matches_board_iff_example =
    core_matches_board_iff plain_core (codes "cores/my-R3.cor") (inl refl)
