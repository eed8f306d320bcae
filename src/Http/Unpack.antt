-- ===== src/Http/Unpack.antt =====
-- remote_http.c: unpacking a theme touches nothing but the WWW directory.
use mega65_expansion_board_i.Base.{
  ℕ, zero, suc, ◌+◌, ◌-◌, ◌%◌, ◌^◌, ◌≡◌, refl, sym, ap, ◌∙◌, inl, inr, Bool, true, false, not, ◌&&◌,
  ◌||◌, Option, none, some, List, [], ◌∷◌, ◌++◌, append_assoc, arith, length, take, min, ◌==◌,
  if◌then◌else◌, if_rule, Option-cases, take-all, ==_iff,
}
use mega65_expansion_board_i.Storage.{Storage}
use mega65_expansion_board_i.Http.Strings.{snprintf}
use mega65_expansion_board_i.Http.Names.{is_empty}
use mega65_expansion_board_i.Http.Theme.{
  ThemeEnd, Member, read_member, parent_dirs, ensure_parent_dirs, copy_member, unpack_to,
  unpack_file, handle_member, skip_padding, member_round, archive_loop, process_open,
  theme_archive_process,
}
use mega65_expansion_board_i.Http.Confined.{Keeps, IsMemberPath, read_member-IsMemberPath}

module _ {st : Storage} {P : st.Disk → Type 0} {Ours : st.File → Type 0}
    (keeps : Keeps st P Ours) where
  parent_dirs-keeps :
      (path before rest : List ℕ) (d : st.Disk)
      → IsMemberPath path
      → before ++ rest ≡ path
      → P d
      → P (parent_dirs st before rest d).1
  unfolding parent_dirs
  parent_dirs-keeps path before [] d member e h = h
  parent_dirs-keeps path before (c ∷ rest) d member e h =
      let made =
        if c == b'/' && not (is_empty before) then st.storage_mkdir before d else (true, d) in
      let kept : P made.1 =
        if_rule {A = Bool × st.Disk} (λ r. P r.1) (c == b'/' && not (is_empty before))
          (st.storage_mkdir before d) (true, d)
          (λ slash.
            let is_slash : c ≡ b'/' = (==_iff c b'/').0 (ground arith) in
            let named : is_empty before ≡ false = ground arith in
            keeps.mkdir-keeps before d
              (member.above before rest (ap (λ k. before ++ k ∷ rest) (sym is_slash) ∙ e) named) h)
          (λ _. h) in
      if_rule {A = Bool × st.Disk} (λ r. P r.1) made.0 _ _
        (λ ok.
          parent_dirs-keeps path (before ++ c ∷ []) rest made.1 member
            (append_assoc before (c ∷ []) rest ∙ e) kept)
        (λ failed. kept)

  ensure_parent_dirs-keeps :
      (path : List ℕ) (d : st.Disk) → IsMemberPath path → P d → P (ensure_parent_dirs st path d).1
  unfolding ensure_parent_dirs snprintf
  ensure_parent_dirs-keeps path d member h =
      let small = member.length_fits in
      parent_dirs-keeps path [] (take 255 path) d member (take-all 255 path (omega arith)) h

  copy_member-keeps :
      (n : ℕ) (inp out : st.File) (remain : ℕ) (d : st.Disk)
      → Ours out
      → P d
      → P (copy_member st n inp out remain d).1
  unfolding copy_member
  copy_member-keeps zero inp out remain d ours h = h
  copy_member-keeps (suc n) inp out remain d ours h =
      let want = min 1024 remain in
      let r = st.storage_read inp want d in
      let w = st.storage_write out r.1 r.2 in
      let h1 = keeps.read-keeps inp want d h in
      let h2 = keeps.write-keeps out r.1 r.2 ours h1 in
      if_rule {A = Bool × st.Disk} (λ k. P k.1) (remain == 0) _ _ (λ _. h)
        (λ _.
          if_rule {A = Bool × st.Disk} (λ k. P k.1) (not r.0 || not (length r.1 == want)) _ _
            (λ _. h1)
            (λ _.
              if_rule {A = Bool × st.Disk} (λ k. P k.1) (not w.0 || not (w.1 == length r.1)) _ _
                (λ _. h2) (λ _. copy_member-keeps n inp out (remain - want) w.2 ours h2)))

  unpack_to-keeps :
      (inp out : st.File) (size : ℕ) (d : st.Disk)
      → Ours out
      → P d
      → P (unpack_to st inp out size d).1
  unfolding unpack_to
  unpack_to-keeps inp out size d ours h =
      let c = copy_member st (suc size) inp out size d in
      let h1 = copy_member-keeps (suc size) inp out size d ours h in
      let h2 = keeps.sync-keeps out c.1 ours h1 in
      let h3 = keeps.close-keeps out (st.storage_sync out c.1).1 h2 in ground arith

  opened-keeps :
      (inp : st.File) (size : ℕ) (o : Option st.File) (d2 : st.Disk)
      → P d2
      → ((f : st.File) → o ≡ some f → Ours f)
      → P
          (elim o as (λ _. Option ThemeEnd × st.Disk) [
            | none ↦ (some ThemeEnd.cannot_create_file, d2)
            | some out ↦ unpack_to st inp out size d2
          ]).1
  opened-keeps inp size none d2 h2 ours = h2
  opened-keeps inp size (some f) d2 h2 ours = unpack_to-keeps inp f size d2 (ours f refl) h2

  unpack_file-keeps :
      (inp : st.File) (m : Member) (d : st.Disk)
      → IsMemberPath m.out_path
      → P d
      → P (unpack_file st inp m d).1
  unfolding unpack_file
  unpack_file-keeps inp m d member h =
      let d1 = (ensure_parent_dirs st m.out_path d).1 in
      let h1 = ensure_parent_dirs-keeps m.out_path d member h in
      let h2 = keeps.open_write-keeps m.out_path d1 member.itself h1 in
      let h3 =
        opened-keeps inp m.size (st.storage_open_write m.out_path d1).0 _ h2
          (λ f e. keeps.open_write-ours m.out_path d1 f member.itself e) in
      ground arith

  handle_member-keeps :
      (apply : Bool) (inp : st.File) (m : Member) (d : st.Disk)
      → IsMemberPath m.out_path
      → P d
      → P (handle_member st apply inp m d).1
  unfolding handle_member
  handle_member-keeps apply inp m d member h =
      let h1 = keeps.mkdir-keeps m.out_path d member.itself h in
      let h2 = unpack_file-keeps inp m d member h in
      let h3 = keeps.seek-keeps inp ((st.storage_tell inp d + m.size) % 2 ^ 32) d h in ground arith

  skip_padding-keeps :
      (inp : st.File) (size : ℕ) (d : st.Disk) → P d → P (skip_padding st inp size d).1
  unfolding skip_padding
  skip_padding-keeps inp size d h =
      let pad = (512 - size % 512) % 512 in
      let h1 = keeps.seek-keeps inp ((st.storage_tell inp d + pad) % 2 ^ 32) d h in ground arith

  after_failure :
      (o : Option ThemeEnd) (d1 : st.Disk) (r : Option ThemeEnd × st.Disk)
      → P d1
      → P r.1
      → P (elim o as (λ _. Option ThemeEnd × st.Disk) [ some e ↦ (some e, d1) | none ↦ r ]).1
  after_failure none d1 r h k = k
  after_failure (some e) d1 r h k = h

  member_round-keeps :
      (apply : Bool) (inp : st.File) (m : Member) (d : st.Disk)
      → IsMemberPath m.out_path
      → P d
      → P (member_round st apply inp m d).1
  unfolding member_round
  member_round-keeps apply inp m d member h =
      let h1 = handle_member-keeps apply inp m d member h in
      after_failure (handle_member st apply inp m d).0 _ _ h1 (skip_padding-keeps inp m.size _ h1)

  archive_loop-keeps :
      (n : ℕ) (apply : Bool) (inp : st.File) (size files : ℕ) (d : st.Disk)
      → P d
      → P (archive_loop st n apply inp size files d).1
  unfolding archive_loop
  archive_loop-keeps zero apply inp size files d h = h
  archive_loop-keeps (suc n) apply inp size files d h =
      let r = st.storage_read inp 512 d in
      let h1 = keeps.read-keeps inp 512 d h in
      elim (Option-cases (read_member r.1).1) [
        | inl refused ↦ ground arith
        | inr (m, admitted) ↦
            let h2 =
              member_round-keeps apply inp m r.2 (read_member-IsMemberPath r.1 m admitted) h1 in
            let h3 =
              archive_loop-keeps n apply inp size (if m.type == b'0' then files + 1 else files)
                (member_round st apply inp m r.2).1 h2 in
            ground arith
      ]

  process_open-keeps :
      (n : ℕ) (apply : Bool) (inp : st.File) (d : st.Disk)
      → P d
      → P (process_open st n apply inp d).1
  unfolding process_open
  process_open-keeps n apply inp d h =
      let h1 = archive_loop-keeps n apply inp (st.storage_size inp d) 0 d h in
      let h2 = keeps.close-keeps inp _ h1 in let h3 = keeps.close-keeps inp d h in ground arith

  -- Unpacking a theme touches nothing but the WWW directory: any property of the card that survives
  -- reading, writes to files opened below WWW, and directories and files made in WWW by paths that
  -- never go up, holds after `theme_archive_process` if it held before, whatever the archive holds,
  -- on success and on every error.
  pub theme_archive_process_confined :
      (fuel : ℕ) (package_path : List ℕ) (apply : Bool) (d : st.Disk)
      → P d
      → P (theme_archive_process st fuel package_path apply d).1
  unfolding theme_archive_process
  theme_archive_process_confined fuel package_path apply d h =
      let o = st.storage_open package_path d in
      let h1 = keeps.open-keeps package_path d h in
      elim (Option-cases o.0) [
        | inl closed ↦ ground arith
        | inr (inp, opened) ↦ let h2 = process_open-keeps fuel apply inp o.1 h1 in ground arith
      ]
