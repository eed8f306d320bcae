-- ===== src/RemoteAuth/Globals.antt =====
-- src/remote_auth.c: the configuration, its defaults, and the settings that are not rules.
use mega65_expansion_board_i.Base.{
  ℕ, Bool, true, false, not, ◌||◌, Option, none, some, List, [], ◌∷◌, ltb, ◌>>=◌, if◌then◌else◌,
  take,
}
use mega65_expansion_board_i.Base.Text.{codes, ci_equal}
use mega65_expansion_board_i.Signed.Block.{Key}
use mega65_expansion_board_i.RemoteAuth.Scan.{is_empty, strtoul}
use mega65_expansion_board_i.RemoteAuth.Values.{
  parse_bool_value, parse_board_value, parse_trusted_key,
}
use mega65_expansion_board_i.RemoteAuth.Address.{remote_auth_parse_ipv4}
use mega65_expansion_board_i.RemoteAuth.Rules.{Rule, is_one_of, split_key_value}

-- `remote_auth_config_t`; the counts are the lengths of the lists
pub record AuthConfig : Type 0 where
  pub present : Bool
  pub dhcp : Bool
  pub http_enabled : Bool
  pub autofetch_enabled : Bool
  pub require_write_grant : Bool
  pub require_signatures : Bool
  pub http_port : ℕ
  pub fetch_interval_hours : ℕ
  pub fetch_board_rev : ℕ
  pub wifi_ssid : List ℕ
  pub wifi_psk : List ℕ
  pub http_user : List ℕ
  pub http_password : List ℕ
  pub fetch_base_url : List ℕ
  pub fetch_channel : List ℕ
  pub static_ip : ℕ
  pub netmask : ℕ
  pub gateway : ℕ
  pub rules : List Rule
  pub trusted_keys : List Key

-- what `remote_auth_reset` leaves behind
unfoldable pub remote_auth_reset : AuthConfig
remote_auth_reset = record {
  present = false;
  dhcp = true;
  http_enabled = true;
  autofetch_enabled = false;
  require_write_grant = true;
  require_signatures = false;
  http_port = 80;
  fetch_interval_hours = 3;
  fetch_board_rev = 0;
  wifi_ssid = [];
  wifi_psk = [];
  http_user = [];
  http_password = [];
  fetch_base_url = [];
  fetch_channel = codes "stable";
  static_ip = 0;
  netmask = 0xffffff00;
  gateway = 0;
  rules = [];
  trusted_keys = [];
}

-- a number in a range, with nothing behind it
unfoldable pub parse_within : ℕ → ℕ → List ℕ → Option ℕ
parse_within lo hi value =
    let (v, end) = strtoul value in
    if not (is_empty end) || (ltb v lo || ltb hi v) then none else some v

unfoldable pub set_mode : AuthConfig → List ℕ → Option AuthConfig
set_mode cfg value =
    if ci_equal value (codes "dhcp")
    then some (record cfg { dhcp = true })
    else if ci_equal value (codes "static")
    then some (record cfg { dhcp = false })
    else none

-- the second half of `parse_global`: network, texts and keys
unfoldable pub set_network : AuthConfig → List ℕ → List ℕ → Option AuthConfig
set_network cfg key value =
    if is_one_of (codes "mode" ∷ codes "ip_mode" ∷ []) key
    then set_mode cfg value
    else if is_one_of (codes "ip" ∷ codes "addr" ∷ codes "address" ∷ []) key
    then (remote_auth_parse_ipv4 value >>= λ a. some (record cfg { dhcp = false; static_ip = a }))
    else if is_one_of (codes "netmask" ∷ codes "mask" ∷ []) key
    then (remote_auth_parse_ipv4 value >>= λ a. some (record cfg { dhcp = false; netmask = a }))
    else if is_one_of (codes "gateway" ∷ codes "gw" ∷ []) key
    then (remote_auth_parse_ipv4 value >>= λ a. some (record cfg { dhcp = false; gateway = a }))
    else if is_one_of (codes "ssid" ∷ codes "wifi_ssid" ∷ []) key
    then some (record cfg { wifi_ssid = take 32 value })
    else if is_one_of (codes "http_user" ∷ codes "http_username" ∷ codes "user" ∷ []) key
    then some (record cfg { http_user = take 32 value })
    else if is_one_of (codes "http_password" ∷ codes "http_pass" ∷ []) key
    then some (record cfg { http_password = take 64 value })
    else if is_one_of (codes "psk" ∷ codes "password" ∷ codes "wifi_psk" ∷ []) key
    then some (record cfg { wifi_psk = take 64 value })
    else if is_one_of (codes "trusted_key" ∷ codes "public_key" ∷ codes "signature_key" ∷ []) key
    then (parse_trusted_key cfg.trusted_keys value >>= λ keys.
        some (record cfg { trusted_keys = keys }))
    else none

unfoldable pub set_global : AuthConfig → List ℕ → List ℕ → Option AuthConfig
set_global cfg key value =
    if is_one_of (codes "dhcp" ∷ []) key
    then (parse_bool_value value >>= λ b. some (record cfg { dhcp = b }))
    else if is_one_of (codes "http" ∷ codes "http_enabled" ∷ codes "http_enable" ∷ []) key
    then (parse_bool_value value >>= λ b. some (record cfg { http_enabled = b }))
    else if is_one_of (codes "autofetch" ∷ codes "auto_fetch" ∷ codes "auto_update" ∷ []) key
    then (parse_bool_value value >>= λ b. some (record cfg { autofetch_enabled = b }))
    else if is_one_of
        (codes "fetch_interval" ∷ codes "fetch_interval_hours" ∷ codes "autofetch_interval" ∷ [])
        key
    then (parse_within 3 8760 value >>= λ v. some (record cfg { fetch_interval_hours = v }))
    else if is_one_of
        (codes "fetch_board"
          ∷ codes "fetch_board_rev"
          ∷ codes "autofetch_board"
          ∷ codes "board_rev"
          ∷ [])
        key
    then (parse_board_value value >>= λ v. some (record cfg { fetch_board_rev = v }))
    else if is_one_of
        (codes "fetch_base_url"
          ∷ codes "mirror_url"
          ∷ codes "autofetch_url"
          ∷ codes "update_url"
          ∷ [])
        key
    then some (record cfg { fetch_base_url = take 191 value })
    else if is_one_of
        (codes "fetch_channel"
          ∷ codes "mirror_channel"
          ∷ codes "update_channel"
          ∷ codes "channel"
          ∷ [])
        key
    then some (record cfg { fetch_channel = take 23 value })
    else if is_one_of (codes "http_port" ∷ codes "port" ∷ []) key
    then (parse_within 1 65535 value >>= λ v. some (record cfg { http_port = v }))
    else if is_one_of
        (codes "require_write_grant" ∷ codes "write_grant_required" ∷ codes "write_grant" ∷ []) key
    then (parse_bool_value value >>= λ b. some (record cfg { require_write_grant = b }))
    else if is_one_of
        (codes "require_signatures"
          ∷ codes "signed_files_required"
          ∷ codes "signature_required"
          ∷ [])
        key
    then (parse_bool_value value >>= λ b. some (record cfg { require_signatures = b }))
    else set_network cfg key value

-- The new configuration; at none the caller resets the old one, so what C has changed by then is
-- gone.
unfoldable pub parse_global : AuthConfig → List ℕ → Option AuthConfig
parse_global cfg line = split_key_value line >>= λ kv. set_global cfg kv.0 kv.1
