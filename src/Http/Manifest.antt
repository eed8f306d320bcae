-- ===== src/Http/Manifest.antt =====
-- remote_http.c: the lines of a manifest. A line is what stands before its NUL.
use mega65_expansion_board_i.Base.{
  ℕ, zero, suc, Bool, true, false, not, ◌&&◌, ◌||◌, Option, none, some, List, [], ◌∷◌, length,
  get_or, drop, ◌==◌, leb, if◌then◌else◌,
}
use mega65_expansion_board_i.Base.Text.{codes, isspace, isdigit, ci_equal}
use mega65_expansion_board_i.RemoteAuth.Scan.{drop_while, break_at, cut_at}
use mega65_expansion_board_i.Http.Strings.{snprintf}
use mega65_expansion_board_i.Http.Names.{
  ManifestKind, core, is_empty, parse_manifest_kind, safe_manifest_source_path,
}
use mega65_expansion_board_i.Http.Escape.{hex_to_bytes32}

-- `manifest_entry_t`
pub record Entry : Type 0 where
  pub kind : ManifestKind
  pub payload_sha : List ℕ
  pub transfer_sha : List ℕ
  pub rel : List ℕ
  pub version : List ℕ
  pub build : List ℕ
  pub name : List ℕ

pub data ManifestError : Type 0 where
  bad_type bad_line bad_payload_sha bad_transfer_sha unsafe_name : ManifestError

-- true with `skip`, false with a message, or true with an entry
pub data ManifestLine : Type 0 where
  skip_line : ManifestLine
  refused : ManifestError → ManifestLine
  accepted : Entry → ManifestLine

-- the token and the new cursor
unfoldable pub manifest_next_token : List ℕ → Option (List ℕ) × List ℕ
manifest_next_token cursor =
    let s = drop_while isspace cursor in
    let (tok, rest) = break_at isspace s in
    if is_empty s || get_or s 0 0 == b'#' then (none, s) else (some tok, drop 1 rest)

unfoldable pub isxdigit : ℕ → Bool
isxdigit c = isdigit c || (leb b'a' c && leb c b'f' || leb b'A' c && leb c b'F')

unfoldable pub all_xdigits : List ℕ → Bool
all_xdigits [] = true
all_xdigits (c ∷ s) = isxdigit c && all_xdigits s

unfoldable pub is_hex64_token : List ℕ → Bool
is_hex64_token s = if not (length s == 64) then false else all_xdigits s

-- one `key=value`
unfoldable pub set_attr : List ℕ → Entry → Entry
set_attr tok entry = elim (cut_at b'=' tok) [
  | none ↦ entry
  | some (key, value) ↦
      if ci_equal key (codes "version")
      then record entry { version = snprintf 48 value }
      else if ci_equal key (codes "build")
      then record entry { build = snprintf 64 value }
      else if ci_equal key (codes "name")
      then record entry { name = snprintf 48 value }
      else entry
]

-- The loop runs on fuel; a token takes a byte at least, so the length and one are enough.
unfoldable pub parse_manifest_attrs : ℕ → List ℕ → Entry → Entry
parse_manifest_attrs zero s entry = entry
parse_manifest_attrs (suc n) s entry =
    let (tok, cursor) = manifest_next_token s in
    elim tok [ none ↦ entry | some t ↦ parse_manifest_attrs n cursor (set_attr t entry) ]

-- the entry before its attributes are read
unfoldable pub plain_entry : ManifestKind → List ℕ → List ℕ → List ℕ → Entry
plain_entry kind payload_hash transfer_hash rel = record {
  kind = kind;
  payload_sha = snprintf 65 payload_hash;
  transfer_sha = snprintf 65 transfer_hash;
  rel = snprintf 224 rel;
  version = [];
  build = [];
  name = [];
}

unfoldable pub check_entry : ManifestKind → List ℕ → List ℕ → List ℕ → List ℕ → ManifestLine
check_entry kind payload_hash transfer_hash rel cursor =
    let entry =
      parse_manifest_attrs (suc (length cursor)) cursor
        (plain_entry kind payload_hash transfer_hash rel) in
    if not (is_hex64_token payload_hash) || not (is_hex64_token transfer_hash)
    then refused bad_line
    else elim (hex_to_bytes32 payload_hash) [
      | none ↦ refused bad_payload_sha
      | some payload ↦ elim (hex_to_bytes32 transfer_hash) [
        | none ↦ refused bad_transfer_sha
        | some transfer ↦
            if not (safe_manifest_source_path rel kind) then refused unsafe_name else accepted entry
      ]
    ]

-- `!payload_hash || !transfer_hash || !rel`
unfoldable pub with_tokens :
    ManifestKind → Option (List ℕ) → Option (List ℕ) → Option (List ℕ) → List ℕ → ManifestLine
with_tokens kind (some p) (some t) (some r) cursor = check_entry kind p t r cursor
with_tokens kind (some p) (some t) none cursor = refused bad_line
with_tokens kind (some p) none r cursor = refused bad_line
with_tokens kind none t r cursor = refused bad_line

-- the tokens behind the first
unfoldable pub line_from : List ℕ → List ℕ → ManifestLine
line_from first cursor =
    let (a, c1) = manifest_next_token cursor in
    let (b, c2) = manifest_next_token c1 in
    let (c, c3) = manifest_next_token c2 in
    let typed : ManifestLine = elim (parse_manifest_kind first) [
      | none ↦ refused bad_type
      | some kind ↦ with_tokens kind a b c c3
    ] in
    if is_hex64_token first then with_tokens core (some first) a b c2 else typed

unfoldable pub parse_manifest_entry : List ℕ → ManifestLine
parse_manifest_entry line =
    let s = drop_while isspace line in
    let (first, cursor) = manifest_next_token s in
    if is_empty s || get_or s 0 0 == b'#'
    then skip_line
    else elim first [ none ↦ skip_line | some tok ↦ line_from tok cursor ]
