-- ===== src/CoreFile/Wrapper.antt =====
-- src/core_file.c: `find_xilinx_bit_wrapper`, the search in windows of 256 bytes.
use mega65_expansion_board_i.Base.{
  ℕ, zero, suc, ◌+◌, ◌-◌, ◌%◌, ◌^◌, not, ◌||◌, Option, none, some, List, [], ◌∷◌, take, length, min,
  ltb, leb, ◌==◌, if◌then◌else◌,
}
use mega65_expansion_board_i.Base.Text.{bytes_eq}
use mega65_expansion_board_i.Storage.{Storage}

-- `sig`
abbrev pub wrapper_sig : List ℕ
wrapper_sig = 0x00 ∷ 0x09 ∷ 0x0f ∷ 0xf0 ∷ 0x0f ∷ 0xf0 ∷ 0x0f ∷ 0xf0 ∷ 0x0f ∷ 0xf0 ∷ []

-- the inner loop, at `pos` of the file
unfoldable pub scan_window : ℕ → List ℕ → Option ℕ
scan_window pos [] = none
scan_window pos (b ∷ buf) =
    let next = scan_window (pos + 1) buf in
    if leb 10 (length (b ∷ buf))
    then (if bytes_eq (take 10 (b ∷ buf)) wrapper_sig then some pos else next)
    else none

module _ (st : Storage) where
  -- `while (pos + sizeof(sig) <= end)`, on fuel
  unfoldable pub scan_file : ℕ → st.File → ℕ → ℕ → st.Disk → Option ℕ × st.Disk
  scan_file zero f pos end d = (none, d)
  scan_file (suc n) f pos end d =
      let want = min 256 (end - pos) in
      let (moved, d1) = st.storage_seek f pos d in
      let (ok, buf, d2) = st.storage_read f want d1 in
      let found = scan_window pos buf in
      let rest = scan_file n f (pos + (length buf - 9)) end d2 in
      let next : Option ℕ × st.Disk = elim found [
        | some base ↦ (some base, d2)
        | none ↦ if ltb (length buf) 10 then (none, d2) else rest
      ] in
      if ltb end (pos + 10)
      then (none, d)
      else if not moved
      then (none, d1)
      else if not ok || length buf == 0
      then (none, d2)
      else next

  -- Each round moves on by a byte at least, so `limit` and one rounds are enough.
  unfoldable pub find_xilinx_bit_wrapper : st.File → ℕ → ℕ → st.Disk → Option ℕ × st.Disk
  find_xilinx_bit_wrapper f start limit d =
      let end = (start + limit) % 2 ^ 32 in
      let file_size = st.storage_size f d in
      scan_file (suc limit) f start (if ltb file_size end then file_size else end) d
