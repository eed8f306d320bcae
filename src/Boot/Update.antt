-- ===== src/Boot/Update.antt =====
-- src/ota_apply.c: `remote_http_firmware_update`. Its loop runs on fuel, a unit for each block read;
-- the size of the file and one are enough. Whether an update is available is an argument.
use mega65_expansion_board_i.Base.{
  ℕ, zero, suc, Bool, not, ◌&&◌, none, some, List, length, ◌==◌, if◌then◌else◌,
}
use mega65_expansion_board_i.Base.Text.{codes}
use mega65_expansion_board_i.Storage.{Storage}
use mega65_expansion_board_i.Boot.Flash.{Flash, Layout}
use mega65_expansion_board_i.Boot.Staging.{Staging, uf2_block_of, start_staging, flush, stage_block}
use mega65_expansion_board_i.Boot.Loader.{update_magic}

-- sizeof(struct uf2_block)
abbrev pub block_size : ℕ
block_size = 512

-- M65_FIRMWARE_PACKAGE_PATH
abbrev pub firmware_package_path : List ℕ
firmware_package_path = codes "DOWNLOADS/mega65-integrated-jtag-firmware.uf2"

-- how the call ends: with one of its messages, or in the reboot that it waits for
pub data UpdateEnd : Type 0 where
  no_pending_package open_failed rebooting : UpdateEnd

module _ (st : Storage) (fl : Flash) (l : Layout) where
  unfoldable pub stage_file : ℕ → st.File → st.Disk → Staging fl → st.Disk × Staging fl
  stage_file zero f d s = (d, s)
  stage_file (suc n) f d s =
      let (ok, raw, d') = st.storage_read f block_size d in
      let rest = stage_file n f d' (stage_block l (uf2_block_of raw) s) in
      if ok && length raw == block_size then rest else (d', s)

  -- the call with the package open
  unfoldable pub update_from : st.File → st.Disk → fl.Chip → UpdateEnd × st.Disk × ℕ × fl.Chip
  update_from f d c =
      let (d', s) = stage_file (suc (st.storage_size f d)) f d (start_staging c) in
      (rebooting, st.storage_close f d', update_magic, flush s)

  -- The state is the card, `scratch[2]` and the chip.
  unfoldable pub remote_http_firmware_update :
      Bool → st.Disk → ℕ → fl.Chip → UpdateEnd × st.Disk × ℕ × fl.Chip
  remote_http_firmware_update firmware_update_available d scratch c =
      let (opened, d') = st.storage_open firmware_package_path d in
      if not firmware_update_available
      then (no_pending_package, d, scratch, c)
      else elim opened [ none ↦ (open_failed, d', scratch, c) | some f ↦ update_from f d' c ]
