-- ===== src/Boot/Slot1.antt =====
-- src/ota_apply.c: the update writes nothing outside slot 1.
use mega65_expansion_board_i.Base.{
  ℕ, zero, suc, ◌+◌, ◌-◌, ◌*◌, ◌/◌, ◌%◌, ◌≤◌, ◌<◌, ◌≡◌, refl, ◌∙◌, ◌⊎◌, inl, inr, Bool, true, false,
  ◌&&◌, arith, length, ◌==◌, if◌then◌else◌, ltb, leb, Bool-cases, Option-cases,
}
use mega65_expansion_board_i.Storage.{Storage}
use mega65_expansion_board_i.Boot.Flash.{
  Flash, IsNor, Layout, Fits, Outside, sector_size, slot1_offset, xip_base,
}
use mega65_expansion_board_i.Boot.Staging.{
  Uf2Block, Staging, uf2_block_of, start_staging, flush, select_sector, copy_payload,
  is_valid_block, is_for_slot0, stage_block, length-overwrite, length-blank_sector,
}
use mega65_expansion_board_i.Boot.Update.{
  firmware_package_path, block_size, stage_file, update_from, remote_http_firmware_update,
}

module _ {fl : Flash} (nor : IsNor fl) {l : Layout} (fits : Fits l) where
  -- The gathered sector, if dirty, is one of slot 1, and the rest of the chip is as it was.
  pub record IsContained (view : ℕ → ℕ) (s : Staging fl) : Type 0 where
    pub full : length s.sector_buf ≡ sector_size
    pub aligned : s.sector_dirty ≡ true → s.current_sector % sector_size ≡ 0
    pub above : s.sector_dirty ≡ true → slot1_offset l ≤ s.current_sector
    pub under :
        s.sector_dirty ≡ true → s.current_sector + sector_size ≤ slot1_offset l + l.slot_size
    pub others : (a : ℕ) → Outside (slot1_offset l) l.slot_size a → fl.byte_at s.chip a ≡ view a

  pub flush-Outside :
      (view : ℕ → ℕ) (s : Staging fl)
      → IsContained view s
      → (a : ℕ) → Outside (slot1_offset l) l.slot_size a
      → fl.byte_at (flush s) a ≡ view a
  unfolding flush
  flush-Outside view s inv a out = elim (Bool-cases s.sector_dirty) [
    | inr clean ↦ simp clean (inv.others a out)
    | inl dirty ↦
        let al = inv.aligned dirty in
        let lo = inv.above dirty in
        let hi = inv.under dirty in
        let full = inv.full in
        let far : (a < s.current_sector) ⊎ (s.current_sector + sector_size ≤ a) = elim out [
          | inl b ↦ inl (omega arith)
          | inr b ↦ inr (omega arith)
        ] in
        simp dirty (
          nor.program-outside s.current_sector a s.sector_buf _ (omega arith) (omega arith)
            (elim far [ inl b ↦ inl b | inr b ↦ inr (omega arith) ])
          ∙ nor.erase-outside s.current_sector sector_size a s.chip al refl far
          ∙ inv.others a out)
  ]

  select_sector-IsContained :
      (view : ℕ → ℕ) (start : ℕ) (s : Staging fl)
      → IsContained view s
      → IsContained view (select_sector start s)
  unfolding select_sector
  select_sector-IsContained view start s inv = elim (Bool-cases (s.current_sector == start)) [
    | inl same ↦ simp same inv
    | inr other ↦ simp other (record {
      full = length-blank_sector;
      aligned = λ h. cc;
      above = λ h. cc;
      under = λ h. cc;
      others = flush-Outside view s inv;
    })
  ]

  pub select_sector-current :
      (start : ℕ) (s : Staging fl) → (select_sector start s).current_sector ≡ start
  unfolding select_sector
  select_sector-current start s = ground arith

  copy_payload-IsContained :
      (view : ℕ → ℕ) (off : ℕ) (b : Uf2Block) (s : Staging fl)
      → IsContained view s
      → s.current_sector % sector_size ≡ 0
      → slot1_offset l ≤ s.current_sector
      → s.current_sector + sector_size ≤ slot1_offset l + l.slot_size
      → IsContained view (copy_payload off b s)
  unfolding copy_payload
  copy_payload-IsContained view off b s inv al lo hi =
      let size = if ltb 256 b.payload_size then 256 else b.payload_size in
      elim (Bool-cases (leb (off + size) sector_size)) [
        | inr long ↦ simp long inv
        | inl short ↦ simp short (record {
          full = length-overwrite off _ s.sector_buf ∙ inv.full;
          aligned = λ h. al;
          above = λ h. lo;
          under = λ h. hi;
          others = inv.others;
        })
      ]

  pub stage_block-IsContained :
      (view : ℕ → ℕ) (b : Uf2Block) (s : Staging fl)
      → IsContained view s
      → IsContained view (stage_block l b s)
  unfolding stage_block is_for_slot0
  stage_block-IsContained view b s inv =
      let t = slot1_offset l + (b.target_addr - (xip_base + l.slot0_offset)) in
      let start = t / sector_size * sector_size in
      let fa = fits.start_aligned in
      let fs = fits.size_aligned in
      elim (Bool-cases (is_valid_block b)) [
        | inr bad ↦ simp bad inv
        | inl good ↦ elim (Bool-cases (is_for_slot0 l b)) [
          | inr other ↦ simp (good, other) inv
          | inl for ↦
              let at = select_sector-current start s in
              let low : slot1_offset l ≤ start = ground arith in
              let high : start + sector_size ≤ slot1_offset l + l.slot_size = ground arith in
              simp (good, for)
                (copy_payload-IsContained view (t % sector_size) b _
                  (select_sector-IsContained view start s inv) (omega arith) (omega arith)
                  (omega arith))
        ]
      ]

  stage_file-IsContained :
      (st : Storage) (view : ℕ → ℕ) (n : ℕ) (f : st.File) (d : st.Disk) (s : Staging fl)
      → IsContained view s
      → IsContained view (stage_file st fl l n f d s).1
  unfolding stage_file
  stage_file-IsContained st view zero f d s inv = inv
  stage_file-IsContained st view (suc n) f d s inv =
      let r = st.storage_read f block_size d in
      elim (Bool-cases (r.0 && length r.1 == block_size)) [
        | inr end ↦ simp (stage_file, end) inv
        | inl more ↦
            simp (stage_file, more)
              (stage_file-IsContained st view n f r.2 _
                (stage_block-IsContained view (uf2_block_of r.1) s inv))
      ]

  start_staging-IsContained : (c : fl.Chip) → IsContained (fl.byte_at c) (start_staging c)
  unfolding start_staging
  start_staging-IsContained c = record {
    full = length-blank_sector;
    aligned = λ h. cc;
    above = λ h. cc;
    under = λ h. cc;
    others = λ a out. refl;
  }

  -- `remote_http_firmware_update` writes to slot 1 only: whatever the package holds and however the
  -- card answers, no byte of the chip outside slot 1 changes, so that the bootloader and the running
  -- firmware of slot 0 stay whole.
  pub remote_http_firmware_update_contained :
      (st : Storage) (available : Bool) (d : st.Disk) (scratch : ℕ) (c : fl.Chip) (a : ℕ)
      → Outside (slot1_offset l) l.slot_size a
      → fl.byte_at (remote_http_firmware_update st fl l available d scratch c).3 a ≡ fl.byte_at c a
  unfolding remote_http_firmware_update update_from
  remote_http_firmware_update_contained st false d scratch c a out = refl
  remote_http_firmware_update_contained st true d scratch c a out =
      elim (Option-cases (st.storage_open firmware_package_path d).0) [
        | inl closed ↦ simp closed
        | inr (f, opened) ↦ simp opened (
            flush-Outside (fl.byte_at c) _
              (stage_file-IsContained st (fl.byte_at c) _ f _ _ (start_staging-IsContained c)) a
              out)
      ]
