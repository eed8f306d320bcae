-- ===== src/Http/Safety.antt =====
-- remote_http.c: the paths that the tests let pass stay inside the card's root.
use mega65_expansion_board_i.Base.{
  ℕ, ◌≤◌, ◌≡◌, refl, sym, subst, ◌∙◌, ◌≢◌, ◌↔◌, Bool, true, false, not, ◌&&◌, Option, none, some,
  List, [], ◌∷◌, ◌++◌, arith, length, get_or, ltb, ◌==◌, inl, inr, Bool-cases, ltb→le, le→ltb,
}
use mega65_expansion_board_i.Base.Text.{codes}
use mega65_expansion_board_i.Board.Filter.{starts_with, strstr}
use mega65_expansion_board_i.Boot.Update.{firmware_package_path}
use mega65_expansion_board_i.Http.Strings.{
  strchr, fits_in, Contains, Has, strstr-Contains, Contains-strstr, Has-strchr, strchr-Has,
}
use mega65_expansion_board_i.Http.Names.{
  ManifestKind, core, firmware, theme, skip, is_empty, has_special, theme_dir_path,
  theme_package_path, safe_theme_package_name, make_theme_package_path_from_name,
  make_theme_package_path_from_rel, path_basename_const, manifest_final_path, safe_www_path,
  safe_download_name, safe_manifest_source_path,
}

-- A path of at most `max` bytes below the root: not empty, not absolute, with no "..", and none of
-- the bytes that the file system reads otherwise.
pub record IsBelow (max : ℕ) (path : List ℕ) : Type 0 where
  pub some_name : path ≢ []
  pub short : length path ≤ max
  pub relative : (rest : List ℕ) → path ≢ b'/' ∷ rest
  pub no_parent : ¬ Contains (codes "..") path
  pub no_backslash : ¬ Has b'\\' path
  pub no_drive : ¬ Has b':' path
  pub no_star : ¬ Has b'*' path
  pub no_question : ¬ Has b'?' path

-- what the tests ask, whatever their order
abbrev pub passes : ℕ → List ℕ → Bool
passes max path =
    not (is_empty path)
    && (not (ltb max (length path))
        && (not (get_or path 0 0 == b'/')
            && (not (strstr path (codes "..")) && not (has_special path))))

true-ne-false : {b : Bool} → b ≡ true → b ≢ false
true-ne-false h k = cc

pub passes-IsBelow : (max : ℕ) (path : List ℕ) → passes max path ≡ true → IsBelow max path
unfolding is_empty has_special
passes-IsBelow max [] h = cc
passes-IsBelow max (x ∷ xs) h =
    let sh : ltb max (length (x ∷ xs)) ≡ false = ground arith in
    let pa : strstr (x ∷ xs) (codes "..") ≡ false = ground arith in
    let ba : strchr (x ∷ xs) b'\\' ≡ false = ground arith in
    let co : strchr (x ∷ xs) b':' ≡ false = ground arith in
    let st : strchr (x ∷ xs) b'*' ≡ false = ground arith in
    let qu : strchr (x ∷ xs) b'?' ≡ false = ground arith in
    record {
      some_name = λ e. cc;
      short = ltb→le max _ sh;
      relative = λ rest e. ground arith;
      no_parent = λ c. true-ne-false (Contains-strstr b'.' (codes ".") _ c) pa;
      no_backslash = λ c. true-ne-false (Has-strchr _ _ c) ba;
      no_drive = λ c. true-ne-false (Has-strchr _ _ c) co;
      no_star = λ c. true-ne-false (Has-strchr _ _ c) st;
      no_question = λ c. true-ne-false (Has-strchr _ _ c) qu;
    }

absent : {P : Type 0} (b : Bool) → (b ≡ true → P) → ¬ P → b ≡ false
absent true f no_p = absurd (no_p (f refl))
absent false f no_p = refl

pub IsBelow-passes : (max : ℕ) (path : List ℕ) → IsBelow max path → passes max path ≡ true
unfolding is_empty has_special
IsBelow-passes max [] b = absurd (b.some_name refl)
IsBelow-passes max (x ∷ xs) b =
    let sh : ltb max (length (x ∷ xs)) ≡ false = le→ltb max _ b.short in
    let pa = absent _ (strstr-Contains (x ∷ xs) b'.' (codes ".")) b.no_parent in
    let ba = absent _ (strchr-Has (x ∷ xs) b'\\') b.no_backslash in
    let co = absent _ (strchr-Has (x ∷ xs) b':') b.no_drive in
    let st = absent _ (strchr-Has (x ∷ xs) b'*') b.no_star in
    let qu = absent _ (strchr-Has (x ∷ xs) b'?') b.no_question in
    let re = b.relative xs in ground arith

-- `safe_www_path` accepts exactly the paths below the root of at most 220 bytes.
pub safe_www_path_iff : (path : List ℕ) → (safe_www_path path ≡ true) ↔ IsBelow 220 path
unfolding safe_www_path
safe_www_path_iff path =
    let same : safe_www_path path ≡ passes 220 path = ground arith in
    (λ h. passes-IsBelow 220 path (sym same ∙ h), λ b. same ∙ IsBelow-passes 220 path b)

pub safe_download_name_iff : (path : List ℕ) → (safe_download_name path ≡ true) ↔ IsBelow 180 path
unfolding safe_download_name
safe_download_name_iff path =
    let same : safe_download_name path ≡ passes 180 path = ground arith in
    (λ h. passes-IsBelow 180 path (sym same ∙ h), λ b. same ∙ IsBelow-passes 180 path b)

source-passes :
    (path : List ℕ) (kind : ManifestKind)
    → safe_manifest_source_path path kind ≡ true
    → passes 220 path ≡ true
unfolding safe_manifest_source_path
source-passes path kind h = ground arith

module _ (name : List ℕ) (safe : safe_theme_package_name name ≡ true) where
  theme_name_short : ltb 180 (length name) ≡ false
  unfolding safe_theme_package_name
  theme_name_short = ground arith

  theme_name_no_parent : strstr name (codes "..") ≡ false
  unfolding safe_theme_package_name
  theme_name_no_parent = ground arith

  theme_name_plain : has_special name ≡ false
  unfolding safe_theme_package_name
  theme_name_plain = ground arith

theme_name-passes :
    (name : List ℕ)
    → safe_theme_package_name name ≡ true
    → passes 220 (theme_dir_path ++ b'/' ∷ name) ≡ true
unfolding safe_theme_package_name is_empty has_special strstr strchr starts_with
theme_name-passes name h =
    let short : length name ≤ 180 = ltb→le 180 _ (theme_name_short name h) in
    let in_dir : ltb 220 (length (theme_dir_path ++ b'/' ∷ name)) ≡ false =
      le→ltb 220 _ (omega arith) in
    let up : strstr name (codes "..") ≡ false = theme_name_no_parent name h in
    let plain : has_special name ≡ false = theme_name_plain name h in simp (in_dir, up, plain)

theme_path-IsBelow :
    (name path : List ℕ) → make_theme_package_path_from_name name 256 ≡ some path → IsBelow 220 path
unfolding make_theme_package_path_from_name fits_in
theme_path-IsBelow name path h = elim (Bool-cases (safe_theme_package_name name)) [
  | inr unsafe ↦ let no_path : none ≡ some path = simp unsafe at h in cc
  | inl safe ↦
      let e : theme_dir_path ++ b'/' ∷ name ≡ path = ground arith in
      subst (IsBelow 220) e (passes-IsBelow 220 _ (theme_name-passes name safe))
]

or_default :
    (o : Option (List ℕ))
    → ((path : List ℕ) → o ≡ some path → IsBelow 220 path)
    → IsBelow 220 (elim o [ none ↦ theme_package_path | some path ↦ path ])
unfolding strstr starts_with strchr has_special is_empty
or_default none f = passes-IsBelow 220 theme_package_path refl
or_default (some path) f = f path refl

-- Where a manifest's entry is stored lies below the root: a source path that is accepted as a core, a
-- firmware or a theme gives a final path that is relative, has no "..", none of the bytes that the
-- file system reads otherwise, and at most 220 bytes.
pub manifest_final_path-IsBelow :
    (kind : ManifestKind) (rel : List ℕ)
    → safe_manifest_source_path rel kind ≡ true
    → IsBelow 220 (manifest_final_path kind rel)
unfolding manifest_final_path make_theme_package_path_from_rel strstr starts_with strchr has_special
    is_empty
manifest_final_path-IsBelow core rel h = passes-IsBelow 220 rel (source-passes rel core h)
manifest_final_path-IsBelow firmware rel h = passes-IsBelow 220 firmware_package_path refl
manifest_final_path-IsBelow theme rel h =
    or_default (make_theme_package_path_from_rel rel 256)
      (λ path made. theme_path-IsBelow (path_basename_const rel) path made)
manifest_final_path-IsBelow skip rel h = passes-IsBelow 220 rel (source-passes rel skip h)
