-- ===== src/RemoteAuth/Tests.antt =====
-- Runs of the parser of mega65-jtag.cfg, and instances of its theorems.
use mega65_expansion_board_i.Base.{
  ℕ, ◌+◌, ◌*◌, ◌/◌, ◌^◌, ◌≡◌, ◌↔◌, refl, true, false, none, some, List, [], ◌∷◌, ◌++◌, arith, ◌-◌,
}
use mega65_expansion_board_i.Base.Text
use mega65_expansion_board_i.Base.Text.{codes}
use mega65_expansion_board_i.Storage.{Storage}
use mega65_expansion_board_i.RemoteAuth.Scan
use mega65_expansion_board_i.RemoteAuth.Values
use mega65_expansion_board_i.RemoteAuth.Address
use mega65_expansion_board_i.RemoteAuth.Address.{
  and32, remote_auth_parse_ipv4, remote_auth_format_ipv4, parse_cidr, decimal,
}
use mega65_expansion_board_i.RemoteAuth.Rules
use mega65_expansion_board_i.RemoteAuth.Rules.{Rule}
use mega65_expansion_board_i.RemoteAuth.Globals
use mega65_expansion_board_i.RemoteAuth.Globals.{AuthConfig, remote_auth_reset}
use mega65_expansion_board_i.RemoteAuth.Load
use mega65_expansion_board_i.RemoteAuth.Load.{loaded, parse_text, remote_auth_load}
use mega65_expansion_board_i.RemoteAuth.Allowed.{files, grants, remote_auth_allowed}
use mega65_expansion_board_i.RemoteAuth.FailClosed.{
  First, remote_auth_allowed-First, remote_auth_load_denies,
}
use mega65_expansion_board_i.RemoteAuth.RoundTrip.{parse-format_ipv4}
use mega65_expansion_board_i.RemoteAuth.Covers.{parse_cidr-covers}

-- no file can be opened
abbrev empty_card : Storage
empty_card = record {
  Disk = Unit;
  File = Unit;
  storage_open = λ p d. (none, d);
  storage_open_write = λ p d. (none, d);
  storage_read = λ f n d. (false, [], d);
  storage_write = λ f xs d. (false, 0, d);
  storage_sync = λ f d. (false, d);
  storage_seek = λ f n d. (false, d);
  storage_tell = λ f d. 0;
  storage_size = λ f d. 0;
  storage_close = λ f d. d;
  storage_delete = λ p d. (false, d);
  storage_mkdir = λ p d. (false, d);
}

abbrev sample : List ℕ
sample = codes "port=8080 # web\n10.1.2.3 files=yes\nrange=10.1.2.0/24, jtag=on\n"

-- the first address of the network's two hosts
abbrev host : ℕ
host = 10 * 2 ^ 24 + 2 ^ 16 + 2 * 2 ^ 8 + 3

sample_loads : (parse_text sample).0 ≡ loaded
unfolding parse_text Load.parse_lines Load.parse_line Load.strip_comment Load.is_rule
    remote_auth_reset Rules.parse_rule Rules.parse_rule_tokens Rules.rule_range
    Rules.parse_rule_options Rules.parse_rule_option Rules.set_rule_option Rules.split_key_value
    Rules.is_one_of Globals.parse_global Globals.set_global Globals.parse_within
    Values.parse_bool_value parse_cidr Address.cidr_range Address.and_bits Address.prefix_mask
    remote_auth_parse_ipv4 Address.parse_dotted Address.parse_part Address.ends_address Scan.tokens
    Scan.tokens_from Scan.trim Scan.trim_end Scan.drop_while Scan.cut_at Scan.break_at Scan.strtoul
    Scan.strtoul_sign Scan.strtoul_at Scan.digits Text.cstr Text.isspace Text.isdigit Text.ci_equal
    Text.ci_starts_with Text.tolower
sample_loads = refl

abbrev host_rule : Rule
host_rule = record {
  network = host;
  mask = 2 ^ 32 - 1;
  allow_files = true;
  allow_bitstreams = false;
}

abbrev network_rule : Rule
network_rule = record {
  network = host - 3;
  mask = 2 ^ 32 - 256;
  allow_files = false;
  allow_bitstreams = true;
}

-- one host may store files, its network may program the FPGA
abbrev config : AuthConfig
config = record remote_auth_reset { present = true; rules = host_rule ∷ network_rule ∷ [] }

remote_auth_allowed-First_example :
    (remote_auth_allowed config host files ≡ true)
    ↔ ((config.present ≡ true) × ((r : Rule) × First config.rules host r × (grants files r ≡ true)))
remote_auth_allowed-First_example = remote_auth_allowed-First config host files

parse-format_ipv4_example :
    remote_auth_parse_ipv4 (remote_auth_format_ipv4 (10 * 2 ^ 24 + 258) 24 ++ codes "/24")
    ≡ some (10 * 2 ^ 24 + 258)
unfolding Address.ends_address Text.isspace
parse-format_ipv4_example =
    parse-format_ipv4 (10 * 2 ^ 24 + 258) 24 (codes "/24") (omega arith) (omega arith) refl

parse_cidr-covers_example :
    (r : ℕ × ℕ) × (parse_cidr
        (remote_auth_format_ipv4 (10 * 2 ^ 24 + 258) 24 ++ (b'/' ∷ decimal 24))
      ≡ some r)
    × ((and32 (10 * 2 ^ 24 + 300) r.1 ≡ r.0)
        ↔ ((10 * 2 ^ 24 + 300) / 2 ^ (32 - 24) ≡ (10 * 2 ^ 24 + 258) / 2 ^ (32 - 24)))
parse_cidr-covers_example =
    parse_cidr-covers (10 * 2 ^ 24 + 258) 24 (10 * 2 ^ 24 + 300) 24 (omega arith) (omega arith)
      (omega arith) (omega arith)

remote_auth_load_denies_example :
    remote_auth_allowed (remote_auth_load empty_card tt).1 7 files ≡ false
unfolding remote_auth_load Load.load_either
remote_auth_load_denies_example = remote_auth_load_denies empty_card tt 7 files (λ e. cc)

-- a range whose prefix is left out behind the slash covers every address
empty_prefix : parse_cidr (codes "10.0.0.1/") ≡ some (0, 0)
unfolding parse_cidr Address.cidr_range Address.and_bits Address.prefix_mask remote_auth_parse_ipv4
    Address.parse_dotted Address.parse_part Address.ends_address Scan.drop_while Scan.cut_at
    Scan.break_at Scan.strtoul Scan.strtoul_sign Scan.strtoul_at Scan.digits Text.isspace
    Text.isdigit
empty_prefix = refl
