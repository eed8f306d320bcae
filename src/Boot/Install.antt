-- ===== src/Boot/Install.antt =====
-- src/ota_apply.c and bootloader/main.c: a package that is applied is the image that is started.
use mega65_expansion_board_i.Base.{
  ℕ, suc, ◌+◌, ◌≤◌, ◌<◌, ◌≡◌, refl, ap, Bool, true, some, List, arith, length,
}
use mega65_expansion_board_i.Storage.{Storage, Reads}
use mega65_expansion_board_i.Boot.Flash.{Flash, IsNor, Layout, Fits, slot1_offset}
use mega65_expansion_board_i.Boot.Update.{
  rebooting, firmware_package_path, update_from, remote_http_firmware_update,
}
use mega65_expansion_board_i.Boot.Package.{Package, flush-Progress}
use mega65_expansion_board_i.Boot.Reading.{stage_file-Progress, start_staging-Progress}
use mega65_expansion_board_i.Boot.Loader.{Outcome, boot, update_magic}

-- the first `m` bytes of slot 0 are the image, no copy is asked for, and slot 0 was started
pub record IsInstalled (fl : Flash) (l : Layout) (img : ℕ → ℕ) (rp2040 : Bool) (sram_end m : ℕ)
    (b : Outcome × ℕ × fl.Chip) : Type 0 where
  pub image : (j : ℕ) → j < m → fl.byte_at b.2 (l.slot0_offset + j) ≡ img j
  pub cleared : b.1 ≡ 0
  pub started : b.0 ≡ boot rp2040 sram_end l (fl.byte_at b.2)

module _ {fl : Flash} (nor : IsNor fl) {l : Layout} (fits : Fits l) {img : ℕ → ℕ} where
  module _ {st : Storage} (rd : Reads st)
      (reads : (f : st.File) (n : ℕ) (d : st.Disk) → (st.storage_read f n d).0 ≡ true)
      (d d' : st.Disk) (f : st.File)
      (opened : st.storage_open firmware_package_path d ≡ (some f, d')) {m : ℕ} {file : List ℕ}
      (holding : Package l img m 0 file) (holds : rd.unread f d' ≡ file)
      (small : m ≤ l.slot_size) where
    -- `remote_http_firmware_update` stores the image: if the package opens, its reads succeed and it
    -- holds the image's blocks in order (among any that are invalid or for another address), no more
    -- than a slot's, then the call asks for the copy and the reboot, and slot 1 holds the image.
    pub remote_http_firmware_update_stores :
        (scratch : ℕ) (c : fl.Chip)
        → ((remote_http_firmware_update st fl l true d scratch c).0 ≡ rebooting)
          × ((remote_http_firmware_update st fl l true d scratch c).2 ≡ update_magic)
          × ((j : ℕ)
              → j < m
              → fl.byte_at
                  (remote_http_firmware_update st fl l true d scratch c).3
                  (slot1_offset l + j)
                ≡ img j)
    unfolding remote_http_firmware_update update_from
    remote_http_firmware_update_stores scratch c =
        let size : length file < suc (st.storage_size f d') =
          omega (arith, rd.size-open firmware_package_path d d' f opened, ap length holds) in
        simp opened (
          refl,
          refl,
          flush-Progress nor fits m _ (
              stage_file-Progress nor fits rd reads (suc (st.storage_size f d')) f d' _ holding
                holds size small refl (start_staging-Progress nor fits c)),
        )
