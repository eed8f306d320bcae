-- ===== src/CoreFile/Open.antt =====
-- src/core_file.c: `core_open` and what is done with an open core.
use mega65_expansion_board_i.Base.{ℕ, ◌*◌, Bool, none, some, List, [], take, if◌then◌else◌}
use mega65_expansion_board_i.Base.Text.{codes, bytes_eq}
use mega65_expansion_board_i.Storage.{Storage}
use mega65_expansion_board_i.CoreFile.Steps.{
  open_failed, cannot_read_file_header, Result, ok, err, Step, and_then, give, seek_to, read_exact,
}
use mega65_expansion_board_i.CoreFile.Headers.{
  Payload, CorHeader, parse_cor_header, parse_m65j, parse_xilinx_bit_at,
}
use mega65_expansion_board_i.CoreFile.Wrapper.{find_xilinx_bit_wrapper}

-- `core_kind_t`
pub data CoreKind : Type 0 where
  unknown bit cor raw_m65j : CoreKind

unfoldable pub core_kind_name : CoreKind → List ℕ
core_kind_name bit = codes "BIT"
core_kind_name cor = codes "COR"
core_kind_name raw_m65j = codes "M65J"
core_kind_name unknown = codes "UNKNOWN"

-- `core_file_t`; its strings and its model id are empty and 0 unless it is a COR file
pub record Core (File : Type 0) : Type 0 where
  pub file : File
  pub kind : CoreKind
  pub payload : Payload
  pub header : CorHeader

abbrev pub no_header : CorHeader
no_header = record { title = []; version = []; model = []; model_id = 0 }

module _ (st : Storage) where
  -- the .bit file at 4096 of a COR file, or else where the search finds it
  unfoldable pub cor_payload : st.File → Step st Payload
  cor_payload f d =
      let (first, d1) = parse_xilinx_bit_at st f 4096 d in
      let (base, d2) = find_xilinx_bit_wrapper st f 0 (1024 * 1024) d1 in
      elim first [
        | ok p ↦ (ok p, d1)
        | err e ↦ elim base [ none ↦ (err e, d2) | some b ↦ parse_xilinx_bit_at st f b d2 ]
      ]

  -- the file by its first 16 bytes
  unfoldable pub parse_by_magic : st.File → List ℕ → Step st (Core st.File)
  parse_by_magic f magic =
      if bytes_eq (take 4 magic) (codes "M65J")
      then and_then st (parse_m65j st f)
          (λ p. give st (record { file = f; kind = raw_m65j; payload = p; header = no_header }))
      else if bytes_eq magic (codes "MEGA65BITSTREAM0")
      then and_then st (parse_cor_header st f) (λ h.
        and_then st (cor_payload f)
          (λ p. give st (record { file = f; kind = cor; payload = p; header = h })))
      else and_then st (parse_xilinx_bit_at st f 0)
          (λ p. give st (record { file = f; kind = bit; payload = p; header = no_header }))

  -- A file that is refused is closed.
  unfoldable pub open_parsed : st.File → st.Disk → Result (Core st.File) × st.Disk
  open_parsed f d =
      let (r, d') =
        and_then st (seek_to st cannot_read_file_header f 0)
          (λ _.
            and_then st (read_exact st cannot_read_file_header f 16)
              (λ magic. parse_by_magic f magic))
          d in
      elim r [ ok c ↦ (ok c, d') | err e ↦ (err e, st.storage_close f d') ]

  unfoldable pub core_open : List ℕ → Step st (Core st.File)
  core_open path d =
      let (opened, d') = st.storage_open path d in
      elim opened [ none ↦ (err open_failed, d') | some f ↦ open_parsed f d' ]

  unfoldable pub core_close : Core st.File → st.Disk → st.Disk
  core_close c d = st.storage_close c.file d

  unfoldable pub core_rewind_payload : Core st.File → st.Disk → Bool × st.Disk
  core_rewind_payload c d = st.storage_seek c.file c.payload.payload_offset d

  unfoldable pub core_read_payload : Core st.File → ℕ → st.Disk → Bool × List ℕ × st.Disk
  core_read_payload c len d = st.storage_read c.file len d
