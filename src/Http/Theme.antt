-- ===== src/Http/Theme.antt =====
-- remote_http.c: `ensure_parent_dirs` and `theme_archive_process`, which checks or unpacks a theme.
use mega65_expansion_board_i.Base.{
  ℕ, zero, suc, ◌+◌, ◌-◌, ◌%◌, ◌^◌, Bool, true, false, not, ◌&&◌, ◌||◌, Option, none, some, List,
  [], ◌∷◌, ◌++◌, length, slice, get_or, ltb, min, ◌==◌, ◌>>=◌, if◌then◌else◌,
}
use mega65_expansion_board_i.Storage.{Storage}
use mega65_expansion_board_i.Http.Strings.{snprintf}
use mega65_expansion_board_i.Http.Names.{is_empty}
use mega65_expansion_board_i.Http.Tar.{
  tar_zero_block, tar_octal, tar_checksum_ok, tar_name, make_www_output_path,
}

-- M65_THEME_MAX_PACKAGE_BYTES and M65_HTTP_IO_CHUNK
abbrev pub theme_max_package_bytes : ℕ
theme_max_package_bytes = 16777216

abbrev pub http_io_chunk : ℕ
http_io_chunk = 1024

-- `running` means that the fuel ran out; the others are the messages.
pub data ThemeEnd : Type 0 where
  processed package_not_found bad_package_size short_header bad_checksum : ThemeEnd
  unsafe_member unsupported_type cannot_create_directory cannot_create_parent : ThemeEnd
  cannot_create_file copy_failed sync_failed seek_failed padding_failed no_files running : ThemeEnd

-- a member's header: its size, path and type
pub record Member : Type 0 where
  pub size : ℕ
  pub out_path : List ℕ
  pub type : ℕ

unfoldable pub member_of : List ℕ → Option Member
member_of header = tar_octal (slice 124 12 header) >>= λ size. tar_name header 224 >>= λ rel.
    make_www_output_path rel 256 >>= λ out_path.
    let type = get_or header 156 0 in
    some (record { size = size; out_path = out_path; type = if type == 0 then b'0' else type })

unfoldable pub supported : Option Member → ThemeEnd × Option Member
supported none = (unsafe_member, none)
supported (some m) =
    if not (m.type == b'0') && not (m.type == b'5')
    then (unsupported_type, none)
    else (processed, some m)

-- the checks of a header, in their order
unfoldable pub read_member : List ℕ → ThemeEnd × Option Member
read_member header =
    if not (tar_checksum_ok header) then (bad_checksum, none) else supported (member_of header)

module _ (st : Storage) where
  -- A directory is made for each '/' of the path; `before` is what stands before it.
  unfoldable pub parent_dirs : List ℕ → List ℕ → st.Disk → Bool × st.Disk
  parent_dirs before [] d = (true, d)
  parent_dirs before (c ∷ rest) d =
      let (ok, d') : Bool × st.Disk =
        if c == b'/' && not (is_empty before) then st.storage_mkdir before d else (true, d) in
      let next = parent_dirs (before ++ c ∷ []) rest d' in if ok then next else (false, d')

  unfoldable pub ensure_parent_dirs : List ℕ → st.Disk → Bool × st.Disk
  ensure_parent_dirs path d = parent_dirs [] (snprintf 256 path) d

  -- `while (remain)`, on fuel
  unfoldable pub copy_member : ℕ → st.File → st.File → ℕ → st.Disk → Bool × st.Disk
  copy_member zero inp out remain d = (false, d)
  copy_member (suc n) inp out remain d =
      let want = min http_io_chunk remain in
      let (got, bytes, d1) = st.storage_read inp want d in
      let (put, wr, d2) = st.storage_write out bytes d1 in
      let rest = copy_member n inp out (remain - want) d2 in
      if remain == 0
      then (true, d)
      else if not got || not (length bytes == want)
      then (false, d1)
      else if not put || not (wr == length bytes)
      then (false, d2)
      else rest

  -- a file with its parents: the error, or none
  unfoldable pub unpack_to : st.File → st.File → ℕ → st.Disk → Option ThemeEnd × st.Disk
  unpack_to inp out size d =
      let (ok, d1) = copy_member (suc size) inp out size d in
      let (synced, d2) = st.storage_sync out d1 in
      let d3 = st.storage_close out d2 in
      if not synced
      then (some sync_failed, d3)
      else if not ok
      then (some copy_failed, d3)
      else (none, d3)

  unfoldable pub unpack_file : st.File → Member → st.Disk → Option ThemeEnd × st.Disk
  unpack_file inp m d =
      let (ready, d1) = ensure_parent_dirs m.out_path d in
      let (opened, d2) = st.storage_open_write m.out_path d1 in
      if not ready then (some cannot_create_parent, d1) else elim opened [
        | none ↦ (some cannot_create_file, d2)
        | some out ↦ unpack_to inp out m.size d2
      ]

  -- what is done with a member: made, unpacked or skipped. The position is a `uint32_t`.
  unfoldable pub handle_member : Bool → st.File → Member → st.Disk → Option ThemeEnd × st.Disk
  handle_member apply inp m d =
      let (made, d_dir) = st.storage_mkdir m.out_path d in
      let (moved, d_seek) = st.storage_seek inp ((st.storage_tell inp d + m.size) % 2 ^ 32) d in
      if apply
      then (if m.type == b'5'
          then ((if made then none else some cannot_create_directory), d_dir)
          else unpack_file inp m d)
      else if m.type == b'0'
      then ((if moved then none else some seek_failed), d_seek)
      else (none, d)

  unfoldable pub skip_padding : st.File → ℕ → st.Disk → Option ThemeEnd × st.Disk
  skip_padding inp size d =
      let pad = (512 - size % 512) % 512 in
      let (moved, d') = st.storage_seek inp ((st.storage_tell inp d + pad) % 2 ^ 32) d in
      if pad == 0 then (none, d) else ((if moved then none else some padding_failed), d')

  unfoldable pub member_round : Bool → st.File → Member → st.Disk → Option ThemeEnd × st.Disk
  member_round apply inp m d =
      let (failed, d1) = handle_member apply inp m d in
      let padded = skip_padding inp m.size d1 in
      elim failed [ some e ↦ (some e, d1) | none ↦ padded ]

  unfoldable pub theme_end : ℕ → ThemeEnd
  theme_end files = if files == 0 then no_files else processed

  -- the loop over the headers; `files` counts the files
  unfoldable pub archive_loop : ℕ → Bool → st.File → ℕ → ℕ → st.Disk → ThemeEnd × st.Disk
  archive_loop zero apply inp package_size files d = (running, d)
  archive_loop (suc n) apply inp package_size files d =
      let (got, header, d1) = st.storage_read inp 512 d in
      let (refused, member) = read_member header in
      let go = λ (m : Member).
        (let (failed, d2) = member_round apply inp m d1 in
          let rest =
            archive_loop n apply inp package_size (if m.type == b'0' then files + 1 else files)
              d2 in
          let next : ThemeEnd × st.Disk = elim failed [ some e ↦ (e, d2) | none ↦ rest ] in next) in
      let step : ThemeEnd × st.Disk = elim member [ none ↦ (refused, d1) | some m ↦ go m ] in
      if not (ltb (st.storage_tell inp d) package_size)
      then (theme_end files, d)
      else if not got || not (length header == 512)
      then (short_header, d1)
      else if tar_zero_block header
      then (theme_end files, d1)
      else step

  unfoldable pub process_open : ℕ → Bool → st.File → st.Disk → ThemeEnd × st.Disk
  process_open fuel apply inp d =
      let package_size = st.storage_size inp d in
      let (end, d') = archive_loop fuel apply inp package_size 0 d in
      if package_size == 0 || ltb theme_max_package_bytes package_size
      then (bad_package_size, st.storage_close inp d)
      else (end, st.storage_close inp d')

  unfoldable pub theme_archive_process : ℕ → List ℕ → Bool → st.Disk → ThemeEnd × st.Disk
  theme_archive_process fuel package_path apply d =
      let (opened, d') = st.storage_open package_path d in
      elim opened [ none ↦ (package_not_found, d') | some inp ↦ process_open fuel apply inp d' ]
