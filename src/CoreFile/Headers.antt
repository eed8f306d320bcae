-- ===== src/CoreFile/Headers.antt =====
-- src/core_file.c: the headers of M65J, COR and Xilinx .bit files.
use mega65_expansion_board_i.Base.{
  ℕ, zero, suc, ◌+◌, ◌-◌, ◌%◌, ◌^◌, not, ◌&&◌, ◌||◌, List, get_or, take, drop, slice, length, ltb,
  leb, ◌==◌, if◌then◌else◌,
}
use mega65_expansion_board_i.Base.Text.{codes, cstr, bytes_eq}
use mega65_expansion_board_i.Storage.{Storage}
use mega65_expansion_board_i.CoreFile.Steps.{
  ok, cannot_read_cor_header, cannot_read_m65j_header, bad_m65j_magic, cannot_read_header_length,
  not_a_wrapper, cannot_skip_preamble, cannot_read_marker, bad_marker, end_of_records,
  cannot_read_string_length, cannot_skip_string, cannot_read_payload_length, unknown_tag,
  payload_not_found, be16, be32, Step, and_then, give, fail, seek_to, read_exact, skip_bytes,
}

-- where the bitstream is, and for which chip (0 if unknown)
pub record Payload : Type 0 where
  pub payload_offset : ℕ
  pub payload_length : ℕ
  pub expected_idcode : ℕ

-- the strings of a COR header and its model
pub record CorHeader : Type 0 where
  pub title : List ℕ
  pub version : List ℕ
  pub model : List ℕ
  pub model_id : ℕ

-- into a buffer of `dst_len` bytes, NUL included
unfoldable pub copy_fixed_string : ℕ → List ℕ → List ℕ
copy_fixed_string dst_len src = take (dst_len - 1) (cstr src)

module _ (st : Storage) where
  unfoldable pub parse_cor_header : st.File → Step st CorHeader
  parse_cor_header f = and_then st (seek_to st cannot_read_cor_header f 0) λ _.
      and_then st (read_exact st cannot_read_cor_header f 128) λ hdr. give st (record {
        title = copy_fixed_string 32 (slice 0x10 32 hdr);
        version = copy_fixed_string 32 (slice 0x30 32 hdr);
        model = copy_fixed_string 32 (slice 0x50 32 hdr);
        model_id = get_or hdr 0x70 0;
      })

  unfoldable pub parse_m65j : st.File → Step st Payload
  parse_m65j f = and_then st (seek_to st cannot_read_m65j_header f 0) λ _.
      and_then st (read_exact st cannot_read_m65j_header f 16) λ hdr.
        if not (bytes_eq (take 4 hdr) (codes "M65J"))
        then fail st bad_m65j_magic
        else give st (record {
          payload_offset = 16;
          payload_length = be32 (drop 4 hdr);
          expected_idcode = be32 (drop 8 hdr);
        })

  -- the IDCODE at 0x80 of the payload, if it is that long and can be read
  unfoldable pub optional_idcode : st.File → ℕ → ℕ → st.Disk → ℕ × st.Disk
  optional_idcode f offset len d =
      let (moved, d1) = st.storage_seek f ((offset + 0x80) % 2 ^ 32) d in
      let (got, bytes, d2) = st.storage_read f 4 d1 in
      let found : ℕ = if moved && (got && length bytes == 4) then be32 bytes else 0 in
      let read_to = if moved then d2 else d1 in
      let back = (st.storage_seek f offset read_to).1 in
      if ltb 0x84 len then (found, back) else (0, d)

  unfoldable pub payload_found : st.File → List ℕ → Step st Payload
  payload_found f b d =
      let offset = st.storage_tell f d in
      let (idcode, d') = optional_idcode f offset (be32 b) d in
      let found : Payload = record {
        payload_offset = offset;
        payload_length = be32 b;
        expected_idcode = if idcode == 0xffffffff then 0 else idcode;
      } in
      (ok found, d')

  -- the 'e' record
  unfoldable pub payload_record : st.File → Step st Payload
  payload_record f = and_then st (read_exact st cannot_read_payload_length f 4) (payload_found f)

  -- the 'a' to 'd' records, and then the other rounds
  unfoldable pub skip_string : st.File → Step st Payload → List ℕ → Step st Payload
  skip_string f rest b = and_then st (skip_bytes st cannot_skip_string f (be16 b)) (λ _. rest)

  unfoldable pub record_by_tag : st.File → Step st Payload → List ℕ → Step st Payload
  record_by_tag f rest t =
      let tag = get_or t 0 0 in
      if leb b'a' tag && leb tag b'd'
      then and_then st (read_exact st cannot_read_string_length f 2) (skip_string f rest)
      else if tag == b'e'
      then payload_record f
      else fail st unknown_tag

  -- `for (rec = 0; rec < 32; rec++)`, by the rounds left
  unfoldable pub records : ℕ → st.File → Step st Payload
  records zero f = fail st payload_not_found
  records (suc n) f =
      let rest = records n f in
      and_then st (read_exact st end_of_records f 1) (record_by_tag f rest)

  unfoldable pub check_marker : st.File → List ℕ → Step st Payload
  check_marker f m = if not (be16 m == 1) then fail st bad_marker else records 32 f

  unfoldable pub check_length : st.File → List ℕ → Step st Payload
  check_length f b =
      if be16 b == 0 || ltb 4096 (be16 b)
      then fail st not_a_wrapper
      else and_then st (skip_bytes st cannot_skip_preamble f (be16 b))
          (λ _. and_then st (read_exact st cannot_read_marker f 2) (check_marker f))

  unfoldable pub parse_xilinx_bit_at : st.File → ℕ → Step st Payload
  parse_xilinx_bit_at f base =
      and_then st (seek_to st cannot_read_header_length f base)
        (λ _. and_then st (read_exact st cannot_read_header_length f 2) (check_length f))
