-- ===== src/Http/Accepted.antt =====
-- remote_http.c: what an accepted line of a manifest guarantees.
use mega65_expansion_board_i.Base.{
  ℕ, zero, suc, ◌≤◌, ◌≡◌, refl, ap, subst, ◌∙◌, ◌≢◌, true, false, ◌||◌, Option, none, some, List,
  arith, length, get_or, take, ◌==◌, ltb, Bool-cases, Option-cases, inl, inr, ltb→le, take-all,
}
use mega65_expansion_board_i.Base.Text.{isspace}
use mega65_expansion_board_i.RemoteAuth.Scan.{drop_while, cut_at}
use mega65_expansion_board_i.Http.Strings.{snprintf}
use mega65_expansion_board_i.Http.Names.{
  ManifestKind, core, skip, is_empty, has_ext_of, parse_manifest_kind, manifest_final_path,
  safe_manifest_source_path,
}
use mega65_expansion_board_i.Http.Safety.{IsBelow, manifest_final_path-IsBelow}
use mega65_expansion_board_i.Http.Manifest.{
  Entry, ManifestError, skip_line, refused, accepted, manifest_next_token, is_hex64_token, set_attr,
  parse_manifest_attrs, plain_entry, check_entry, with_tokens, line_from, parse_manifest_entry,
}

-- An entry of a kind that is stored, with two SHA-256 of 64 digits, from a source path that is safe
-- for its kind to a path below the root of the card.
pub record IsStorable (e : Entry) : Type 0 where
  pub stored : e.kind ≢ skip
  pub payload_digits : is_hex64_token e.payload_sha ≡ true
  pub transfer_digits : is_hex64_token e.transfer_sha ≡ true
  pub safe : safe_manifest_source_path e.rel e.kind ≡ true
  pub target : IsBelow 220 (manifest_final_path e.kind e.rel)

-- the fields that attributes leave alone
abbrev Same : Entry → Entry → Type 0
Same a b =
    (a.kind ≡ b.kind)
    × (a.payload_sha ≡ b.payload_sha)
    × (a.transfer_sha ≡ b.transfer_sha)
    × (a.rel ≡ b.rel)

set_attr-Same : (tok : List ℕ) (e : Entry) → Same (set_attr tok e) e
unfolding set_attr
set_attr-Same tok e = elim (Option-cases (cut_at b'=' tok)) [
  | inl no_value ↦ ground arith
  | inr ((key, value), cut) ↦ ground arith
]

parse_manifest_attrs-Same : (n : ℕ) (s : List ℕ) (e : Entry) → Same (parse_manifest_attrs n s e) e
unfolding parse_manifest_attrs
parse_manifest_attrs-Same zero s e = (refl, refl, refl, refl)
parse_manifest_attrs-Same (suc n) s e = elim (Option-cases (manifest_next_token s).0) [
  | inl end ↦ ground arith
  | inr (t, more) ↦
      let ih = parse_manifest_attrs-Same n (manifest_next_token s).1 (set_attr t e) in
      let st = set_attr-Same t e in ground arith
]

hex64-length : (s : List ℕ) → is_hex64_token s ≡ true → length s ≡ 64
unfolding is_hex64_token
hex64-length s h = ground arith

safe-length :
    (s : List ℕ) (kind : ManifestKind) → safe_manifest_source_path s kind ≡ true → length s ≤ 220
unfolding safe_manifest_source_path
safe-length s kind h = let short : ltb 220 (length s) ≡ false = ground arith in ltb→le 220 _ short

safe_stored :
    (s : List ℕ) (kind : ManifestKind) → safe_manifest_source_path s kind ≡ true → kind ≢ skip
unfolding safe_manifest_source_path has_ext_of
safe_stored s kind h e =
    let k : safe_manifest_source_path s skip ≡ true =
      subst (λ k. safe_manifest_source_path s k ≡ true) e h in
    ground arith

plain-IsStorable :
    (kind : ManifestKind) (p t r : List ℕ) (e : Entry)
    → is_hex64_token p ≡ true
    → is_hex64_token t ≡ true
    → safe_manifest_source_path r kind ≡ true
    → Same e (plain_entry kind p t r)
    → IsStorable e
unfolding plain_entry snprintf
plain-IsStorable kind p t r e hp ht safe (k1, k2, k3, k4) =
    let fp : take 64 p ≡ p = take-all 64 p (omega (arith, hex64-length p hp)) in
    let ft : take 64 t ≡ t = take-all 64 t (omega (arith, hex64-length t ht)) in
    let fr : take 223 r ≡ r = take-all 223 r (omega (arith, safe-length r kind safe)) in
    let ek : e.kind ≡ kind = k1 in
    let ep : e.payload_sha ≡ p = k2 ∙ fp in
    let et : e.transfer_sha ≡ t = k3 ∙ ft in
    let er : e.rel ≡ r = k4 ∙ fr in
    let ok : safe_manifest_source_path e.rel e.kind ≡ true =
      ap (λ x. safe_manifest_source_path x e.kind) er
      ∙ ap (safe_manifest_source_path r) ek
      ∙ safe in
    record {
      stored = safe_stored e.rel e.kind ok;
      payload_digits = ap is_hex64_token ep ∙ hp;
      transfer_digits = ap is_hex64_token et ∙ ht;
      safe = ok;
      target = manifest_final_path-IsBelow e.kind e.rel ok;
    }

check_entry-IsStorable :
    (kind : ManifestKind) (p t r cursor : List ℕ) (e : Entry)
    → check_entry kind p t r cursor ≡ accepted e
    → IsStorable e
unfolding check_entry
check_entry-IsStorable kind p t r cursor e h =
    let entry = parse_manifest_attrs (suc (length cursor)) cursor (plain_entry kind p t r) in
    let hp : is_hex64_token p ≡ true = ground arith in
    let ht : is_hex64_token t ≡ true = ground arith in
    let safe : safe_manifest_source_path r kind ≡ true = ground arith in
    let same : entry ≡ e = ground arith in
    plain-IsStorable kind p t r e hp ht safe (
      subst (λ x. Same x (plain_entry kind p t r)) same
        (parse_manifest_attrs-Same (suc (length cursor)) cursor (plain_entry kind p t r)))

with_tokens-IsStorable :
    (kind : ManifestKind) (p t r : Option (List ℕ)) (cursor : List ℕ) (e : Entry)
    → with_tokens kind p t r cursor ≡ accepted e
    → IsStorable e
unfolding with_tokens
with_tokens-IsStorable kind (some p) (some t) (some r) cursor e h =
    check_entry-IsStorable kind p t r cursor e h
with_tokens-IsStorable kind (some p) (some t) none cursor e h = cc
with_tokens-IsStorable kind (some p) none r cursor e h = cc
with_tokens-IsStorable kind none t r cursor e h = cc

line_from-IsStorable :
    (first cursor : List ℕ) (e : Entry) → line_from first cursor ≡ accepted e → IsStorable e
unfolding line_from
line_from-IsStorable first cursor e h =
    let n1 = manifest_next_token cursor in
    let n2 = manifest_next_token n1.1 in
    let n3 = manifest_next_token n2.1 in
    elim (Bool-cases (is_hex64_token first)) [
      | inl digits ↦ with_tokens-IsStorable core (some first) n1.0 n2.0 n2.1 e (simp digits at h)
      | inr word ↦ elim (Option-cases (parse_manifest_kind first)) [
        | inl unknown ↦
            let bad : refused ManifestError.bad_type ≡ accepted e = simp (word, unknown) at h in cc
        | inr (kind, named) ↦
            with_tokens-IsStorable kind n1.0 n2.0 n3.0 n3.1 e (simp (word, named) at h)
      ]
    ]

-- A line of a manifest is accepted only as an entry that may be stored: its kind is a core, a
-- firmware or a theme, both its SHA-256 are 64 hexadecimal digits, its source path is safe for that
-- kind, and the path it is stored at is below the root of the card.
pub parse_manifest_entry-IsStorable :
    (line : List ℕ) (e : Entry) → parse_manifest_entry line ≡ accepted e → IsStorable e
unfolding parse_manifest_entry
parse_manifest_entry-IsStorable line e h =
    let s = drop_while isspace line in
    let n = manifest_next_token s in
    elim (Bool-cases (is_empty s || get_or s 0 0 == b'#')) [
      | inl nothing ↦ let bad : skip_line ≡ accepted e = simp nothing at h in cc
      | inr something ↦ elim (Option-cases n.0) [
        | inl no_token ↦ let bad : skip_line ≡ accepted e = simp (something, no_token) at h in cc
        | inr (tok, token) ↦ line_from-IsStorable tok n.1 e (simp (something, token) at h)
      ]
    ]
