-- ===== src/Http/Names.antt =====
-- remote_http.c: which file names are taken for cores, manifests, firmware and themes, which paths a
-- client may name, and the paths that are made of them.
use mega65_expansion_board_i.Base.{
  ℕ, ◌-◌, Bool, true, false, not, ◌&&◌, ◌||◌, Option, none, some, List, [], ◌∷◌, ◌++◌, length, take,
  drop, get_or, ltb, leb, ◌==◌, if◌then◌else◌,
}
use mega65_expansion_board_i.Base.Text.{codes, tolower, ci_equal, ci_starts_with, strrchr}
use mega65_expansion_board_i.Board.Filter.{strstr}
use mega65_expansion_board_i.Boot.Update.{firmware_package_path}
use mega65_expansion_board_i.Http.Strings.{strchr, fits_in}

-- what stands from the last '.' on meets the test
unfoldable pub at_dot : (List ℕ → Bool) → List ℕ → Bool
at_dot test name = elim (strrchr b'.' name) [ none ↦ false | some dot ↦ test dot ]

-- The bytes behind the string's NUL, which C may read here, do not change the answer: they are 0.
unfoldable pub has_core_ext : List ℕ → Bool
unfolding at_dot
has_core_ext name =
    at_dot
      (λ dot.
        let e = λ (i : ℕ). tolower (get_or dot i 0) in
        (e 1 == b'b' && (e 2 == b'i' && (e 3 == b't' && e 4 == 0)))
        || ((e 1 == b'c' && (e 2 == b'o' && (e 3 == b'r' && e 4 == 0)))
            || (e 1 == b'm' && (e 2 == b'6' && (e 3 == b'5' && (e 4 == b'j' && e 5 == 0))))))
      name

unfoldable pub has_manifest_ext : List ℕ → Bool
unfolding at_dot
has_manifest_ext name =
    at_dot
      (λ dot.
        tolower (get_or dot 1 0) == b's'
        && (tolower (get_or dot 2 0) == b'h'
            && (tolower (get_or dot 3 0) == b'a'
                && (get_or dot 4 0 == b'2'
                    && (get_or dot 5 0 == b'5'
                        && (get_or dot 6 0 == b'6' && get_or dot 7 0 == 0))))))
      name

unfoldable pub has_firmware_ext : List ℕ → Bool
unfolding at_dot
has_firmware_ext name =
    at_dot
      (λ dot.
        ci_equal dot (codes ".uf2")
        || (ci_equal dot (codes ".m65fw") || ci_equal dot (codes ".bin")))
      name

unfoldable pub has_theme_ext : List ℕ → Bool
unfolding at_dot
has_theme_ext name =
    at_dot (λ dot. ci_equal dot (codes ".m65jtheme") || ci_equal dot (codes ".tar")) name

-- `manifest_kind_t`
pub data ManifestKind : Type 0 where
  skip core firmware theme : ManifestKind

unfoldable pub manifest_kind_name : ManifestKind → List ℕ
manifest_kind_name core = codes "core"
manifest_kind_name firmware = codes "firmware"
manifest_kind_name theme = codes "theme"
manifest_kind_name skip = codes "skip"

unfoldable pub manifest_kind_stores_signed_transfer : ManifestKind → Bool
manifest_kind_stores_signed_transfer firmware = true
manifest_kind_stores_signed_transfer theme = true
manifest_kind_stores_signed_transfer core = false
manifest_kind_stores_signed_transfer skip = false

unfoldable pub parse_manifest_kind : List ℕ → Option ManifestKind
parse_manifest_kind s =
    if ci_equal s (codes "core")
    then some core
    else if ci_equal s (codes "firmware") || ci_equal s (codes "fw")
    then some firmware
    else if ci_equal s (codes "theme") || ci_equal s (codes "www-theme")
    then some theme
    else none

unfoldable pub path_basename_const : List ℕ → List ℕ
path_basename_const path = elim (strrchr b'/' path) [ none ↦ path | some base ↦ drop 1 base ]

unfoldable pub is_empty : List ℕ → Bool
is_empty [] = true
is_empty (x ∷ xs) = false

-- `strchr(path, '\\') || strchr(path, ':') || strchr(path, '*') || strchr(path, '?')`
unfoldable pub has_special : List ℕ → Bool
has_special path = strchr path b'\\' || (strchr path b':' || (strchr path b'*' || strchr path b'?'))

unfoldable pub safe_theme_package_name : List ℕ → Bool
safe_theme_package_name name =
    if is_empty name
    then false
    else if ltb 180 (length name)
    then false
    else if strchr name b'/' || has_special name
    then false
    else if strstr name (codes "..")
    then false
    else has_theme_ext name

-- M65_THEME_DIR_PATH and M65_THEME_PACKAGE_PATH
abbrev pub theme_dir_path : List ℕ
theme_dir_path = codes "THEMES"

abbrev pub theme_package_path : List ℕ
theme_package_path = codes "THEMES/mega65-jtag-theme.m65jtheme"

unfoldable pub make_theme_package_path_from_name : List ℕ → ℕ → Option (List ℕ)
make_theme_package_path_from_name name out_len =
    if safe_theme_package_name name then fits_in out_len (theme_dir_path ++ b'/' ∷ name) else none

unfoldable pub make_theme_package_path_from_rel : List ℕ → ℕ → Option (List ℕ)
make_theme_package_path_from_rel rel out_len =
    make_theme_package_path_from_name (path_basename_const rel) out_len

unfoldable pub manifest_final_path : ManifestKind → List ℕ → List ℕ
manifest_final_path firmware rel = firmware_package_path
manifest_final_path theme rel = elim (make_theme_package_path_from_rel rel 256) [
  | none ↦ theme_package_path
  | some path ↦ path
]
manifest_final_path core rel = rel
manifest_final_path skip rel = rel

-- `path_starts_with_ci` is `ci_starts_with`.
unfoldable pub safe_file_path : List ℕ → Bool
safe_file_path path =
    if is_empty path
    then false
    else if ltb 220 (length path)
    then false
    else if strstr path (codes "..")
    then false
    else if has_special path
    then false
    else if ci_starts_with path (codes "WWW/") || ci_starts_with path (codes "DOWNLOADS/")
    then false
    else has_core_ext path || has_manifest_ext path

unfoldable pub has_ext_of : ManifestKind → List ℕ → Bool
has_ext_of core path = has_core_ext path
has_ext_of firmware path = has_firmware_ext path
has_ext_of theme path = has_theme_ext path
has_ext_of skip path = false

unfoldable pub safe_manifest_source_path : List ℕ → ManifestKind → Bool
safe_manifest_source_path path kind =
    if is_empty path
    then false
    else if ltb 220 (length path)
    then false
    else if get_or path 0 0 == b'/'
    then false
    else if strstr path (codes "..")
    then false
    else if has_special path
    then false
    else has_ext_of kind path

unfoldable pub safe_www_path : List ℕ → Bool
safe_www_path path =
    if is_empty path
    then false
    else if ltb 220 (length path)
    then false
    else if strstr path (codes "..")
    then false
    else if get_or path 0 0 == b'/'
    then false
    else if has_special path
    then false
    else true

unfoldable pub safe_download_name : List ℕ → Bool
safe_download_name path =
    if is_empty path
    then false
    else if ltb 180 (length path)
    then false
    else if get_or path 0 0 == b'/'
    then false
    else if strstr path (codes "..")
    then false
    else if has_special path
    then false
    else true

unfoldable pub make_download_path : List ℕ → ℕ → Option (List ℕ)
make_download_path name out_len =
    if safe_download_name name then fits_in out_len (codes "DOWNLOADS/" ++ name) else none

unfoldable pub path_has_ext : List ℕ → List ℕ → Bool
unfolding at_dot
path_has_ext path ext = at_dot (λ dot. ci_equal dot ext) path

unfoldable pub path_has_suffix_ci : List ℕ → List ℕ → Bool
path_has_suffix_ci path suffix =
    if ltb (length path) (length suffix)
    then false
    else ci_equal (drop (length path - length suffix) path) suffix

unfoldable pub strip_partial_suffix : List ℕ → ℕ → Option (List ℕ)
strip_partial_suffix path out_len =
    let base_len = length path - 8 in
    if not (path_has_suffix_ci path (codes ".partial"))
    then none
    else if base_len == 0 || leb out_len base_len
    then none
    else some (take base_len path)

unfoldable pub is_partial_core_path : List ℕ → Bool
is_partial_core_path path = elim (strip_partial_suffix path 256) [
  | none ↦ false
  | some base ↦ has_core_ext base
]

-- `safe_index_path`: the directory that the index page may list, empty or "/" for the root
unfoldable pub safe_index_path : List ℕ → Bool
safe_index_path path =
    if is_empty path
    then true
    else if length path == 1 && get_or path 0 0 == b'/'
    then true
    else if ltb 180 (length path)
    then false
    else if get_or path 0 0 == b'/'
    then false
    else if strstr path (codes "..")
    then false
    else if has_special path
    then false
    else true
