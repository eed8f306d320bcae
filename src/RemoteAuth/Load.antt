-- ===== src/RemoteAuth/Load.antt =====
-- src/remote_auth.c: `remote_auth_load`.
use mega65_expansion_board_i.Base.{
  ℕ, ◌+◌, Bool, true, not, ◌||◌, Option, none, some, List, [], ◌∷◌, ◌==◌, ltb, ◌>>=◌, if◌then◌else◌,
  length, get_or,
}
use mega65_expansion_board_i.Base.Text.{codes, ci_starts_with, isdigit, cstr}
use mega65_expansion_board_i.Storage.{Storage}
use mega65_expansion_board_i.RemoteAuth.Scan.{is_empty, trim, cut_at, tokens}
use mega65_expansion_board_i.RemoteAuth.Rules.{parse_rule}
use mega65_expansion_board_i.RemoteAuth.Globals.{AuthConfig, remote_auth_reset, parse_global}

-- what is printed to `err`
pub data LoadError : Type 0 where
  loaded not_found too_large read_failed no_allow_rules : LoadError
  parse_error : ℕ → LoadError

-- REMOTE_CFG_MAX_BYTES
abbrev pub max_bytes : ℕ
max_bytes = 4096

-- a line up to its '#', without the spaces around
unfoldable pub strip_comment : List ℕ → List ℕ
strip_comment line = elim (cut_at b'#' line) [
  | none ↦ trim line
  | some (before, behind) ↦ trim before
]

unfoldable pub is_rule : List ℕ → Bool
is_rule line =
    isdigit (get_or line 0 0)
    || (ci_starts_with line (codes "range=") || ci_starts_with line (codes "allow="))

-- one line of the file; an empty one changes nothing
unfoldable pub parse_line : AuthConfig → List ℕ → Option AuthConfig
parse_line cfg line =
    if is_empty line
    then some cfg
    else if is_rule line
    then (parse_rule cfg.rules line >>= λ rules. some (record cfg { rules = rules }))
    else parse_global cfg line

-- the loop over the lines, from the line of this number on
unfoldable pub parse_lines : ℕ → AuthConfig → List (List ℕ) → LoadError × AuthConfig
parse_lines line_no cfg [] =
    if length cfg.rules == 0 then (no_allow_rules, remote_auth_reset) else (loaded, cfg)
parse_lines line_no cfg (line ∷ lines) = elim (parse_line cfg (strip_comment line)) [
  | none ↦ (parse_error (line_no + 1), remote_auth_reset)
  | some cfg' ↦ parse_lines (line_no + 1) cfg' lines
]

-- the configuration that a text describes
unfoldable pub parse_text : List ℕ → LoadError × AuthConfig
parse_text text =
    parse_lines 0 (record remote_auth_reset { present = true }) (tokens (λ c. c == 10) (cstr text))

module _ (st : Storage) where
  abbrev pub LoadOut : Type 0
  LoadOut = LoadError × AuthConfig × st.Disk

  -- from the open file on
  unfoldable pub load_file : st.File → st.Disk → LoadOut
  load_file f disk =
      let size = st.storage_size f disk in
      let (ok, bytes, disk') = st.storage_read f size disk in
      let (error, cfg) = parse_text bytes in
      if ltb max_bytes size
      then (too_large, remote_auth_reset, st.storage_close f disk)
      else if not ok || not (length bytes == size)
      then (read_failed, remote_auth_reset, st.storage_close f disk')
      else (error, cfg, st.storage_close f disk')

  -- the configuration's file, or else the legacy one
  unfoldable pub load_either : Option st.File → st.Disk → Option st.File → st.Disk → LoadOut
  load_either (some f) disk legacy disk' = load_file f disk
  load_either none disk (some f) disk' = load_file f disk'
  load_either none disk none disk' = (not_found, remote_auth_reset, disk')

  -- The C function returns true for `loaded`.
  unfoldable pub remote_auth_load : st.Disk → LoadOut
  remote_auth_load disk =
      let (file, disk1) = st.storage_open (codes "mega65-jtag.cfg") disk in
      let (legacy, disk2) = st.storage_open (codes "REMOTE_ENABLE.cfg") disk1 in
      load_either file disk1 legacy disk2
