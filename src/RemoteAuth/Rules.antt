-- ===== src/RemoteAuth/Rules.antt =====
-- src/remote_auth.c: the rules of who may do what from where.
use mega65_expansion_board_i.Base.{
  ℕ, Bool, false, ◌||◌, Option, none, some, List, [], ◌∷◌, ◌++◌, ◌==◌, leb, ◌>>=◌, if◌then◌else◌,
  length,
}
use mega65_expansion_board_i.Base.Text.{codes, ci_equal}
use mega65_expansion_board_i.RemoteAuth.Scan.{is_empty, trim, cut_at, tokens}
use mega65_expansion_board_i.RemoteAuth.Values.{parse_bool_value}
use mega65_expansion_board_i.RemoteAuth.Address.{parse_cidr}

-- `remote_auth_rule_t`
pub record Rule : Type 0 where
  pub network : ℕ
  pub mask : ℕ
  pub allow_files : Bool
  pub allow_bitstreams : Bool

-- one of several spellings, whatever the case of their letters
unfoldable pub is_one_of : List (List ℕ) → List ℕ → Bool
is_one_of [] key = false
is_one_of (name ∷ names) key = ci_equal key name || is_one_of names key

unfoldable pub split_key_value : List ℕ → Option (List ℕ × List ℕ)
split_key_value token = elim (cut_at b'=' token) [
  | none ↦ none
  | some (before, behind) ↦
      let key = trim before in
      let value = trim behind in if is_empty key || is_empty value then none else some (key, value)
]

unfoldable pub set_rule_option : Rule → List ℕ → List ℕ → Option Rule
set_rule_option rule key value =
    if is_one_of (codes "files" ∷ codes "file" ∷ codes "sd" ∷ []) key
    then (parse_bool_value value >>= λ b. some (record rule { allow_files = b }))
    else if is_one_of (codes "bitstreams" ∷ codes "bitstream" ∷ codes "jtag" ∷ codes "program" ∷ [])
        key
    then (parse_bool_value value >>= λ b. some (record rule { allow_bitstreams = b }))
    else none

unfoldable pub parse_rule_option : Rule → List ℕ → Option Rule
parse_rule_option rule token = split_key_value token >>= λ kv. set_rule_option rule kv.0 kv.1

unfoldable pub parse_rule_options : Rule → List (List ℕ) → Option Rule
parse_rule_options rule [] = some rule
parse_rule_options rule (token ∷ rest) =
    parse_rule_option rule token >>= λ r. parse_rule_options r rest

-- the range of a rule: bare, or behind `range=` or `allow=`
unfoldable pub rule_range : List ℕ → Option (List ℕ)
rule_range first = elim (cut_at b'=' first) [
  | none ↦ some first
  | some parts ↦ split_key_value first >>= λ kv.
      if is_one_of (codes "range" ∷ codes "allow" ∷ []) kv.0 then some kv.1 else none
]

-- REMOTE_AUTH_MAX_RULES
abbrev pub max_rules : ℕ
max_rules = 8

abbrev pub is_rule_delimiter : ℕ → Bool
is_rule_delimiter c = c == 32 || (c == 9 || c == b',')

unfoldable pub parse_rule_tokens : List (List ℕ) → Option Rule
parse_rule_tokens [] = none
parse_rule_tokens (first ∷ options) = do
  token ← rule_range first
  (network, mask) ← parse_cidr token
  parse_rule_options
      (record { network = network; mask = mask; allow_files = false; allow_bitstreams = false })
      options

-- The rules with the new one behind them.
unfoldable pub parse_rule : List Rule → List ℕ → Option (List Rule)
parse_rule rules line =
    let parsed =
      parse_rule_tokens (tokens is_rule_delimiter line) >>= λ rule. some (rules ++ (rule ∷ [])) in
    if leb max_rules (length rules) then none else parsed
