-- ===== src/Http/Confined.antt =====
-- remote_http.c: unpacking a theme touches nothing but the WWW directory.
use mega65_expansion_board_i.Base.{
  ℕ, ◌<◌, ◌≡◌, refl, ap, subst, ◌∙◌, ◌⊎◌, inl, inr, true, false, Option, none, some, List, [], ◌∷◌,
  ◌++◌, append_assoc, arith, length, slice, get_or, ltb, ◌==◌, if◌then◌else◌, Bool-cases,
  Option-cases, ltb→lt,
}
use mega65_expansion_board_i.Base.Text.{codes}
use mega65_expansion_board_i.Board.Filter.{starts_with, strstr}
use mega65_expansion_board_i.Storage.{Storage}
use mega65_expansion_board_i.Http.Strings.{
  Contains, here, later, fits_in, snprintf, strstr-Contains, Contains-strstr,
}
use mega65_expansion_board_i.Http.Names.{is_empty, safe_www_path}
use mega65_expansion_board_i.Http.Safety.{safe_www_path_iff}
use mega65_expansion_board_i.Http.Tar.{
  tar_octal, tar_checksum_ok, tar_name, strip_slashes, make_www_output_path,
}
use mega65_expansion_board_i.Http.Theme.{Member, member_of, supported, read_member}

-- WWW or a path in it that never goes up
pub record IsWebPath (p : List ℕ) : Type 0 where
  pub inside : (p ≡ codes "WWW") ⊎ ((rest : List ℕ) × (p ≡ codes "WWW/" ++ rest))
  pub no_parent : ¬ Contains (codes "..") p

Contains-append : {part s : List ℕ} (t : List ℕ) → Contains part s → Contains part (s ++ t)
Contains-append {part} t (here post e) =
    here (post ++ t) (ap (λ k. k ++ t) e ∙ append_assoc part post t)
Contains-append t (later x rest e c) =
    later x (rest ++ t) (ap (λ k. k ++ t) e) (Contains-append t c)

-- a prefix that ends before a '/' of such a path
prefix-inside :
    (p r tmp : List ℕ)
    → p ++ b'/' ∷ r ≡ codes "WWW/" ++ tmp
    → is_empty p ≡ false
    → (p ≡ codes "WWW") ⊎ ((rest : List ℕ) × (p ≡ codes "WWW/" ++ rest))
unfolding is_empty
prefix-inside [] r tmp e h = cc
prefix-inside (a ∷ []) r tmp e h = absurd (ground arith)
prefix-inside (a ∷ b ∷ []) r tmp e h = absurd (ground arith)
prefix-inside (a ∷ b ∷ c ∷ []) r tmp e h = inl (ground arith)
prefix-inside (a ∷ b ∷ c ∷ d ∷ x) r tmp e h = inr (x, ground arith)

prefix-IsWebPath :
    (p r tmp : List ℕ)
    → p ++ b'/' ∷ r ≡ codes "WWW/" ++ tmp
    → is_empty p ≡ false
    → ¬ Contains (codes "..") (codes "WWW/" ++ tmp)
    → IsWebPath p
prefix-IsWebPath p r tmp e h up = record {
  inside = prefix-inside p r tmp e h;
  no_parent = λ c. up (subst (Contains (codes "..")) e (Contains-append (b'/' ∷ r) c));
}

-- What a property of the card must survive: reading, moving in and closing files, writing to files
-- that were opened below WWW, and opening files and making directories there.
pub record Keeps (st : Storage) (P : st.Disk → Type 0) (Ours : st.File → Type 0) : Type 0 where
  pub open-keeps : (p : List ℕ) (d : st.Disk) → P d → P (st.storage_open p d).1
  pub read-keeps : (f : st.File) (n : ℕ) (d : st.Disk) → P d → P (st.storage_read f n d).2
  pub seek-keeps : (f : st.File) (n : ℕ) (d : st.Disk) → P d → P (st.storage_seek f n d).1
  pub close-keeps : (f : st.File) (d : st.Disk) → P d → P (st.storage_close f d)
  pub sync-keeps : (f : st.File) (d : st.Disk) → Ours f → P d → P (st.storage_sync f d).1
  pub mkdir-keeps : (p : List ℕ) (d : st.Disk) → IsWebPath p → P d → P (st.storage_mkdir p d).1
  pub open_write-keeps :
      (p : List ℕ) (d : st.Disk) → IsWebPath p → P d → P (st.storage_open_write p d).1
  pub open_write-ours :
      (p : List ℕ) (d : st.Disk) (f : st.File)
      → IsWebPath p
      → (st.storage_open_write p d).0 ≡ some f
      → Ours f
  pub write-keeps :
      (f : st.File) (xs : List ℕ) (d : st.Disk) → Ours f → P d → P (st.storage_write f xs d).2

-- a member's path, and the directories above it
pub record IsMemberPath (p : List ℕ) : Type 0 where
  pub itself : IsWebPath p
  pub above :
      (before rest : List ℕ)
      → before ++ b'/' ∷ rest ≡ p
      → is_empty before ≡ false
      → IsWebPath before
  pub length_fits : length p < 256

www-no_parent :
    (tmp : List ℕ) → ¬ Contains (codes "..") tmp → ¬ Contains (codes "..") (codes "WWW/" ++ tmp)
unfolding strstr starts_with
www-no_parent tmp up c = up (
    strstr-Contains tmp b'.' (codes ".") (Contains-strstr b'.' (codes ".") (codes "WWW/" ++ tmp) c))

www-IsMemberPath :
    (tmp p : List ℕ)
    → safe_www_path tmp ≡ true
    → fits_in 256 (codes "WWW/" ++ tmp) ≡ some p
    → IsMemberPath p
unfolding fits_in
www-IsMemberPath tmp p safe fits =
    let up = www-no_parent tmp ((safe_www_path_iff tmp).0 safe).no_parent in
    let small : ltb (length (codes "WWW/" ++ tmp)) 256 ≡ true = ground arith in
    let made : some (codes "WWW/" ++ tmp) ≡ some p = simp small at fits in
    let same : codes "WWW/" ++ tmp ≡ p = cc in
    subst IsMemberPath same (record {
      itself = record { inside = inr (tmp, refl); no_parent = up };
      above = λ before rest e h. prefix-IsWebPath before rest tmp e h up;
      length_fits = ltb→lt _ _ small;
    })

make_www_output_path-IsMemberPath :
    (rel p : List ℕ) → make_www_output_path rel 256 ≡ some p → IsMemberPath p
unfolding make_www_output_path
make_www_output_path-IsMemberPath rel p h =
    let tmp = strip_slashes (snprintf 224 rel) in
    elim (Bool-cases (safe_www_path tmp)) [
      | inr unsafe ↦ let no_path : none ≡ some p = simp unsafe at h in cc
      | inl safe ↦ elim (Bool-cases (is_empty tmp)) [
        | inl empty ↦ let no_path : none ≡ some p = simp (safe, empty) at h in cc
        | inr full ↦ www-IsMemberPath tmp p safe (simp (safe, full) at h)
      ]
    ]

supported_same : (o : Option Member) (m : Member) → (supported o).1 ≡ some m → o ≡ some m
unfolding supported
supported_same none m h = cc
supported_same (some k) m h = ground arith

member_of-IsMemberPath :
    (header : List ℕ) (m : Member) → member_of header ≡ some m → IsMemberPath m.out_path
unfolding member_of
member_of-IsMemberPath header m h =
    let bad : (none ≡ some m) → IsMemberPath m.out_path = λ e. cc in
    elim (Option-cases (tar_octal (slice 124 12 header))) [
      | inl e1 ↦ bad (simp e1 at h)
      | inr (size, e1) ↦ elim (Option-cases (tar_name header 224)) [
        | inl e2 ↦ bad (simp (e1, e2) at h)
        | inr (rel, e2) ↦ elim (Option-cases (make_www_output_path rel 256)) [
          | inl e3 ↦ bad (simp (e1, e2, e3) at h)
          | inr (p, e3) ↦
              let t = get_or header 156 0 in
              let made : some
                    (record { size = size; out_path = p; type = if t == 0 then b'0' else t })
                  ≡ some m =
                simp (e1, e2, e3) at h in
              let same : p ≡ m.out_path = cc in
              subst IsMemberPath same (make_www_output_path-IsMemberPath rel p e3)
        ]
      ]
    ]

pub read_member-IsMemberPath :
    (header : List ℕ) (m : Member) → (read_member header).1 ≡ some m → IsMemberPath m.out_path
unfolding read_member
read_member-IsMemberPath header m h = elim (Bool-cases (tar_checksum_ok header)) [
  | inr bad ↦ let no_member : none ≡ some m = simp bad at h in cc
  | inl good ↦
      let kept : (supported (member_of header)).1 ≡ some m = simp good at h in
      member_of-IsMemberPath header m (supported_same (member_of header) m kept)
]
