-- ===== src/Http/Tests.antt =====
-- The string functions, and a theme of one member on a card that keeps a log of the paths it writes.
use mega65_expansion_board_i.Base.{
  ℕ, ◌<◌, ◌≡◌, refl, true, false, some, List, [], ◌∷◌, ◌++◌, arith, length, take, drop, replicate,
  ◌&&◌, ◌↔◌,
}
use mega65_expansion_board_i.Base.Text.{
  codes, cstr, strrchr, ci_equal, tolower, isspace, isdigit, ci_starts_with,
}
use mega65_expansion_board_i.Board.Filter.{starts_with, strstr}
use mega65_expansion_board_i.Storage.{Storage}
use mega65_expansion_board_i.Http.Strings.{strchr, fits_in, snprintf}
use mega65_expansion_board_i.Http.Names.{
  is_empty, has_special, has_ext_of, safe_www_path, safe_manifest_source_path,
}
use mega65_expansion_board_i.Http.Escape.{
  url_encode, url_decode, html_escape, js_string_escape, html_escape_from, html_rep,
}
use mega65_expansion_board_i.Http.RoundTrip.{url_decode-url_encode}
use mega65_expansion_board_i.Http.Inert.{no_markup, html_escape_inert}
use mega65_expansion_board_i.Http.Script.{Reads, js_string_escape-Reads}
use mega65_expansion_board_i.Http.Tar.{
  tar_octal_from, tar_octal, tar_sum, tar_checksum_ok, tar_name, strip_slashes,
  make_www_output_path,
}
use mega65_expansion_board_i.Http.Theme.{member_of, theme_archive_process}
use mega65_expansion_board_i.Http.Confined.{IsWebPath, Keeps}
use mega65_expansion_board_i.Http.Unpack.{theme_archive_process_confined}
use mega65_expansion_board_i.Http.Names.{ManifestKind, has_core_ext}
use mega65_expansion_board_i.Http.Escape.{hex_to_bytes32, hex_to_bytes, hex_pair, hex_value}
use mega65_expansion_board_i.RemoteAuth.Scan.{drop_while, break_at, cut_at}
use mega65_expansion_board_i.Http.Manifest.{
  Entry, accepted, manifest_next_token, isxdigit, all_xdigits, is_hex64_token, set_attr,
  parse_manifest_attrs, plain_entry, check_entry, with_tokens, line_from, parse_manifest_entry,
}
use mega65_expansion_board_i.Http.Accepted.{IsStorable, parse_manifest_entry-IsStorable}
use mega65_expansion_board_i.Http.Auth.{
  cut_crlf, next_line, header_value_from, header_value, header_line, basic_auth_ok,
}
use mega65_expansion_board_i.Http.Base64.{symbol, base64}
use mega65_expansion_board_i.Http.Login.{basic_auth_ok-sent}

abbrev theme_rel : List ℕ
theme_rel = codes "themes/blue.tar"

url_decode-url_encode_example : url_decode (url_encode (codes "a b%") 64) 16 ≡ some (codes "a b%")
url_decode-url_encode_example =
    url_decode-url_encode (codes "a b%") 64 16 (omega arith) (omega arith) (omega arith)

html_escape_inert_example :
    (no_markup (html_escape (codes "<b>&") 10) ≡ true)
    × (length (html_escape (codes "<b>&") 10) < 10)
html_escape_inert_example = html_escape_inert (codes "<b>&") 10 (omega arith)

html_escape_cut : html_escape (codes "<b>&") 10 ≡ codes "&lt;b&gt;"
unfolding html_escape html_escape_from html_rep
html_escape_cut = refl

js_string_escape-Reads_example :
    Reads (js_string_escape (codes "it's") 20) (codes ");") (codes "it's") 20
js_string_escape-Reads_example = js_string_escape-Reads (codes "it's") (codes ");") 20 (omega arith)

-- What is unread of the archive, and the paths that were opened for writing or made.
abbrev log_card : Storage
log_card = record {
  Disk = List ℕ × List (List ℕ);
  File = Unit {0};
  storage_open = λ p d. (some tt, d);
  storage_open_write = λ p d. (some tt, (d.0, p ∷ d.1));
  storage_read = λ f n d. (true, take n d.0, (drop n d.0, d.1));
  storage_write = λ f xs d. (true, length xs, d);
  storage_sync = λ f d. (true, d);
  storage_seek = λ f n d. (true, d);
  storage_tell = λ f d. 0;
  storage_size = λ f d. 1024;
  storage_close = λ f d. d;
  storage_delete = λ p d. (true, d);
  storage_mkdir = λ p d. (true, (d.0, p ∷ d.1));
}

abbrev AllWeb : List (List ℕ) → Type 0
AllWeb [] = Unit {0}
AllWeb (p ∷ log) = IsWebPath p × AllWeb log

log_card-Keeps : Keeps log_card (λ d. AllWeb d.1) (λ f. Unit {0})
log_card-Keeps = record {
  open-keeps = λ p d h. h;
  read-keeps = λ f n d h. h;
  seek-keeps = λ f n d h. h;
  close-keeps = λ f d h. h;
  sync-keeps = λ f d ours h. h;
  mkdir-keeps = λ p d web h. (web, h);
  open_write-keeps = λ p d web h. (web, h);
  open_write-ours = λ p d f web e. tt;
  write-keeps = λ f xs d ours h. h;
}

-- a header for an empty file "a/b", and a zero block
abbrev archive : List ℕ
archive =
    codes "a/b"
    ++ replicate 121 0
    ++ codes "00000000000"
    ++ replicate 13 0
    ++ codes "002062"
    ++ (0 ∷ 32 ∷ [])
    ++ codes "0"
    ++ replicate 867 0

theme_archive_process_confined_example :
    AllWeb (theme_archive_process log_card 3 (codes "t.tar") true (archive, [])).1.1
theme_archive_process_confined_example =
    theme_archive_process_confined log_card-Keeps 3 (codes "t.tar") true (archive, []) tt

archive_member :
    member_of (take 512 archive)
    ≡ some (record { size = 0; out_path = codes "WWW/a/b"; type = b'0' })
unfolding member_of tar_octal tar_octal_from tar_name make_www_output_path strip_slashes snprintf
    fits_in cstr is_empty safe_www_path has_special strstr starts_with strchr
archive_member = refl

archive_checksum : tar_checksum_ok (take 512 archive) ≡ true
unfolding tar_checksum_ok tar_octal tar_octal_from tar_sum
archive_checksum = refl

abbrev digits64 : List ℕ
digits64 = replicate 64 b'a'

abbrev manifest_line : List ℕ
manifest_line = digits64 ++ 32 ∷ digits64 ++ codes " x.cor version=2"

abbrev manifest_entry : Entry
manifest_entry = record {
  kind = ManifestKind.core;
  payload_sha = digits64;
  transfer_sha = digits64;
  rel = codes "x.cor";
  version = codes "2";
  build = [];
  name = [];
}

manifest_line_read : parse_manifest_entry manifest_line ≡ accepted manifest_entry
unfolding parse_manifest_entry line_from with_tokens check_entry plain_entry parse_manifest_attrs
    set_attr is_hex64_token all_xdigits isxdigit manifest_next_token drop_while break_at cut_at
    isspace isdigit is_empty hex_to_bytes32 hex_to_bytes hex_pair hex_value
    safe_manifest_source_path has_special strstr starts_with strchr has_ext_of has_core_ext strrchr
    tolower ci_equal snprintf
manifest_line_read = refl

parse_manifest_entry-IsStorable_example : IsStorable manifest_entry
parse_manifest_entry-IsStorable_example =
    parse_manifest_entry-IsStorable manifest_line manifest_entry manifest_line_read

abbrev request : List ℕ
request =
    codes "GET / HTTP/1.1" ++ 13 ∷ 10 ∷ codes "Authorization: Basic YTpi" ++ 13 ∷ 10 ∷ 13 ∷ 10 ∷ []

abbrev credentials : List ℕ
credentials = codes "Basic YTpi" ++ 13 ∷ 10 ∷ 13 ∷ 10 ∷ []

credentials_sent : header_value request (codes "Authorization") ≡ some credentials
unfolding header_value header_value_from next_line cut_crlf cut_at break_at starts_with
    ci_starts_with tolower drop_while
credentials_sent = refl

credentials_line : header_line credentials ≡ codes "Basic " ++ base64 (codes "a:b")
unfolding header_line break_at symbol
credentials_line = refl

a_b_configured : (is_empty (codes "a") && is_empty (codes "b")) ≡ false
unfolding is_empty
a_b_configured = refl

basic_auth_ok-sent_example :
    (basic_auth_ok (codes "a") (codes "b") request ≡ true)
    ↔ (codes "a:b" ≡ codes "a" ++ b':' ∷ codes "b")
basic_auth_ok-sent_example =
    basic_auth_ok-sent (codes "a") (codes "b") request (codes "a:b") credentials a_b_configured
      (omega arith) credentials_sent credentials_line (omega arith) (omega arith) (omega arith)
      (omega arith)
