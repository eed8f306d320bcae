-- ===== src/RemoteAuth/Values.antt =====
-- src/remote_auth.c: the values of a setting. `none` is a `false` of the C function.
use mega65_expansion_board_i.Base.{
  ℕ, ◌+◌, ◌-◌, ◌*◌, Bool, true, false, not, ◌&&◌, ◌||◌, Option, none, some, List, [], ◌∷◌, ◌++◌,
  ◌==◌, leb, if◌then◌else◌, length, drop, get_or,
}
use mega65_expansion_board_i.Base.Text.{codes, ci_equal, ci_starts_with, isspace}
use mega65_expansion_board_i.Signed.Block.{Key}

unfoldable pub parse_bool_value : List ℕ → Option Bool
parse_bool_value s =
    if (ci_equal s (codes "1") || ci_equal s (codes "yes"))
      || (ci_equal s (codes "true") || ci_equal s (codes "on"))
    then some true
    else if (ci_equal s (codes "0") || ci_equal s (codes "no"))
        || (ci_equal s (codes "false") || ci_equal s (codes "off"))
    then some false
    else none

unfoldable pub hex_value : ℕ → Option ℕ
hex_value c =
    if leb b'0' c && leb c b'9'
    then some (c - b'0')
    else if leb b'a' c && leb c b'f'
    then some (10 + (c - b'a'))
    else if leb b'A' c && leb c b'F'
    then some (10 + (c - b'A'))
    else none

unfoldable pub parse_board_value : List ℕ → Option ℕ
parse_board_value s =
    if ci_equal s (codes "3") || ci_equal s (codes "r3")
    then some 3
    else if ci_equal s (codes "6") || ci_equal s (codes "r6")
    then some 6
    else none

-- REMOTE_AUTH_MAX_KEY_BYTES, REMOTE_AUTH_MAX_KEYS
abbrev pub max_key_bytes : ℕ
max_key_bytes = 80

abbrev pub max_keys : ℕ
max_keys = 4

-- The loop of `parse_hex_bytes`: `out` holds the bytes so far, `high` the first digit of a pair.
unfoldable pub hex_loop : List ℕ → Option ℕ → List ℕ → Option (List ℕ)
hex_loop out none [] = if length out == 0 then none else some out
hex_loop out (some high) [] = none
hex_loop out high (c ∷ s) =
    let skip = hex_loop out high s in
    let digit : Option (List ℕ) = elim (hex_value c) [
      | none ↦ none
      | some v ↦ elim high [
        | none ↦ hex_loop out (some v) s
        | some h ↦
            if leb max_key_bytes (length out)
            then none
            else hex_loop (out ++ ((h * 16 + v) ∷ [])) none s
      ]
    ] in
    if (c == b':' || c == b'-') || isspace c then skip else digit

unfoldable pub parse_hex_bytes : List ℕ → Option (List ℕ)
parse_hex_bytes s = hex_loop [] none s

-- The keys with the new one behind them.
unfoldable pub parse_trusted_key : List Key → List ℕ → Option (List Key)
parse_trusted_key keys value =
    let hex =
      if ci_starts_with value (codes "p256:")
      then drop 5 value
      else if ci_starts_with value (codes "ecdsa-p256:")
      then drop 11 value
      else value in
    let parsed : Option (List Key) = elim (parse_hex_bytes hex) [
      | none ↦ none
      | some bytes ↦
          if not (length bytes == 65) || not (get_or bytes 0 0 == 4)
          then none
          else some (keys ++ (record { is_p256 = true; bytes = bytes } ∷ []))
    ] in
    if leb max_keys (length keys) then none else parsed
