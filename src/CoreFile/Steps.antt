-- ===== src/CoreFile/Steps.antt =====
-- src/core_file.c: steps on an open core file, which fail with a message or go on.
use mega65_expansion_board_i.Base.{
  ℕ, ◌+◌, ◌*◌, ◌%◌, ◌^◌, List, ◌&&◌, get_or, length, ◌==◌, if◌then◌else◌,
}
use mega65_expansion_board_i.Storage.{Storage}

-- `last_err`, by message
pub data CoreError : Type 0 where
  open_failed cannot_read_file_header cannot_read_cor_header cannot_read_m65j_header : CoreError
  bad_m65j_magic cannot_read_header_length not_a_wrapper cannot_skip_preamble : CoreError
  cannot_read_marker bad_marker end_of_records cannot_read_string_length : CoreError
  cannot_skip_string cannot_read_payload_length unknown_tag payload_not_found : CoreError

pub data Result (A : Type 0) : Type 0 where
  ok : A → Result A
  err : CoreError → Result A

abbrev pub be16 : List ℕ → ℕ
be16 p = get_or p 0 0 * 2 ^ 8 + get_or p 1 0

abbrev pub be32 : List ℕ → ℕ
be32 p = get_or p 0 0 * 2 ^ 24 + get_or p 1 0 * 2 ^ 16 + get_or p 2 0 * 2 ^ 8 + get_or p 3 0

module _ (st : Storage) where
  abbrev pub Step : Type 0 → Type 0
  Step A = st.Disk → Result A × st.Disk

  abbrev pub and_then : {A B : Type 0} → Step A → (A → Step B) → Step B
  and_then m f d = let (r, d') = m d in elim r [ ok a ↦ f a d' | err e ↦ (err e, d') ]

  abbrev pub give : {A : Type 0} → A → Step A
  give a d = (ok a, d)

  abbrev pub fail : {A : Type 0} → CoreError → Step A
  fail e d = (err e, d)

  -- `storage_seek`, or the message
  unfoldable pub seek_to : CoreError → st.File → ℕ → Step ℕ
  seek_to e f n d =
      let (moved, d') = st.storage_seek f n d in if moved then (ok n, d') else (err e, d')

  -- all of `len` bytes, or the message
  unfoldable pub read_exact : CoreError → st.File → ℕ → Step (List ℕ)
  read_exact e f len d =
      let (got, bytes, d') = st.storage_read f len d in
      if got && length bytes == len then (ok bytes, d') else (err e, d')

  unfoldable pub skip_bytes : CoreError → st.File → ℕ → Step ℕ
  skip_bytes e f n d = seek_to e f ((st.storage_tell f d + n) % 2 ^ 32) d
