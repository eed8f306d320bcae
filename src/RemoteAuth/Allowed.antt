-- ===== src/RemoteAuth/Allowed.antt =====
-- src/remote_auth.c: `remote_auth_allowed`.
use mega65_expansion_board_i.Base.{ℕ, Bool, false, not, ◌&&◌, List, [], ◌∷◌, ◌==◌, if◌then◌else◌}
use mega65_expansion_board_i.RemoteAuth.Address.{and32}
use mega65_expansion_board_i.RemoteAuth.Rules.{Rule}
use mega65_expansion_board_i.RemoteAuth.Globals.{AuthConfig}

-- `remote_auth_perm_t`
pub data Perm : Type 0 where
  files bitstreams : Perm

-- what a rule grants
unfoldable pub grants : Perm → Rule → Bool
grants files r = r.allow_files
grants bitstreams r = r.allow_bitstreams

unfoldable pub first_match : List Rule → ℕ → Perm → Bool
first_match [] remote_ip perm = false
first_match (r ∷ rules) remote_ip perm =
    if not (and32 remote_ip r.mask == r.network)
    then first_match rules remote_ip perm
    else grants perm r

unfoldable pub remote_auth_allowed : AuthConfig → ℕ → Perm → Bool
remote_auth_allowed cfg remote_ip perm = cfg.present && first_match cfg.rules remote_ip perm
