-- ===== src/Board/Filter.antt =====
-- src/core_filter.c: which board a core is for. Texts are lists of bytes without a NUL.
use mega65_expansion_board_i.Base.{
  ℕ, Bool, true, false, not, ◌&&◌, ◌||◌, Option, none, some, List, [], ◌∷◌, ◌==◌, if◌then◌else◌,
}
use mega65_expansion_board_i.Base.Text.{codes, isalnum, tolower}

-- the fields of `core_file_t` that the filter reads
pub record CoreNames : Type 0 where
  pub model_id : ℕ
  pub model : List ℕ

-- nothing, or no letter and no digit
unfoldable pub is_boundary : List ℕ → Bool
is_boundary [] = true
is_boundary (c ∷ cs) = not (isalnum c)

-- The loop of `token_match`; `before_ok` is what the byte before the place allows.
unfoldable pub token_from : Bool → ℕ → List ℕ → Bool
token_from before_ok r [] = false
token_from before_ok r (c ∷ []) = false
token_from before_ok r (c ∷ d ∷ after) =
    let here = (tolower c == b'r' && tolower d == r) && (before_ok && is_boundary after) in
    here || token_from (not (isalnum c)) r (d ∷ after)

unfoldable pub token_match : List ℕ → ℕ → Bool
token_match s r = token_from true r s

unfoldable pub starts_with : List ℕ → List ℕ → Bool
starts_with s [] = true
starts_with [] (p ∷ ps) = false
starts_with (x ∷ xs) (p ∷ ps) = x == p && starts_with xs ps

-- `strstr(s, part) != NULL`, for a part that is not empty
unfoldable pub strstr : List ℕ → List ℕ → Bool
strstr [] part = false
strstr (x ∷ xs) part = starts_with (x ∷ xs) part || strstr xs part

unfoldable pub contains_model : List ℕ → ℕ → Bool
contains_model s board =
    if board == 3
    then token_match s b'3' || (strstr s (codes "mega65r3") || strstr s (codes "MEGA65R3"))
    else if board == 6
    then token_match s b'6' || (strstr s (codes "mega65r6") || strstr s (codes "MEGA65R6"))
    else false

unfoldable pub core_board_hint_from_name : List ℕ → ℕ
core_board_hint_from_name path =
    let r3 = contains_model path 3 in
    let r6 = contains_model path 6 in if r3 && not r6 then 3 else if r6 && not r3 then 6 else 0

unfoldable pub hint_matches : List ℕ → ℕ → Bool
hint_matches path board_rev =
    let hint = core_board_hint_from_name path in hint == 0 || hint == board_rev

unfoldable pub core_matches_board : Option CoreNames → List ℕ → ℕ → Bool
core_matches_board cf path board_rev =
    let by_core : Bool = elim cf [
      | none ↦ hint_matches path board_rev
      | some c ↦
          if c.model_id == 3 || c.model_id == 6
          then c.model_id == board_rev
          else if contains_model c.model 3 || contains_model c.model 6
          then contains_model c.model board_rev
          else hint_matches path board_rev
    ] in
    if not (board_rev == 3) && not (board_rev == 6) then true else by_core
