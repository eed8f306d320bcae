-- ===== src/Boot/Copy.antt =====
-- bootloader/main.c: `do_ota_update`, the copy of slot 1 over slot 0. Each loop runs on fuel; a round
-- takes a sector or a page, so the size of a slot is enough.
use mega65_expansion_board_i.Base.{
  ℕ, zero, suc, ◌+◌, ◌-◌, ◌%◌, ◌≤◌, ◌<◌, ◌≡◌, refl, sym, ap, ◌∙◌, ◌⊎◌, inl, inr, true, false, arith,
  ltb, if◌then◌else◌, Bool-cases,
}
use mega65_expansion_board_i.Boot.Flash.{
  Flash, IsNor, Layout, Fits, Outside, sector_size, page_size, slot1_offset, xip_read,
  length-xip_read, get_or-xip_read,
}

module _ (fl : Flash) (l : Layout) where
  -- `for (offset = 0; offset < SLOT_SIZE; offset += FLASH_SECTOR_SIZE)`
  unfoldable pub erase_slot : ℕ → ℕ → fl.Chip → fl.Chip
  erase_slot zero offset c = c
  erase_slot (suc n) offset c =
      let erased = fl.flash_range_erase (l.slot0_offset + offset) sector_size c in
      let rest = erase_slot n (offset + sector_size) erased in
      if ltb offset l.slot_size then rest else c

  -- `for (offset = 0; offset < SLOT_SIZE; offset += FLASH_PAGE_SIZE)`
  unfoldable pub copy_slot : ℕ → ℕ → fl.Chip → fl.Chip
  copy_slot zero offset c = c
  copy_slot (suc n) offset c =
      let page_buf = xip_read fl c (slot1_offset l + offset) page_size in
      let programmed = fl.flash_range_program (l.slot0_offset + offset) page_buf c in
      let rest = copy_slot n (offset + page_size) programmed in
      if ltb offset l.slot_size then rest else c

  unfoldable pub do_ota_update : fl.Chip → fl.Chip
  do_ota_update c = copy_slot l.slot_size 0 (erase_slot l.slot_size 0 c)

-- What the copy promises, on the contents alone: slot 0 reads as slot 1, all else as before.
abbrev pub slot_copied : Layout → (ℕ → ℕ) → ℕ → ℕ
slot_copied l view a =
    if (if ltb a l.slot0_offset then false else ltb a (slot1_offset l))
    then view (a + l.slot_size)
    else view a

module _ {fl : Flash} (nor : IsNor fl) {l : Layout} (fits : Fits l) where
  erase_slot-outside :
      (n offset a : ℕ) (c : fl.Chip)
      → offset % sector_size ≡ 0
      → (a < l.slot0_offset + offset) ⊎ (slot1_offset l ≤ a)
      → fl.byte_at (erase_slot fl l n offset c) a ≡ fl.byte_at c a
  unfolding erase_slot
  erase_slot-outside zero offset a c even out = refl
  erase_slot-outside (suc n) offset a c even out = elim (Bool-cases (ltb offset l.slot_size)) [
    | inl more ↦
        let fa = fits.start_aligned in
        let fs = fits.size_aligned in
        let room : offset + sector_size ≤ l.slot_size = ground arith in
        rw (more, erase_slot)
          (erase_slot-outside n (offset + sector_size) a _ (omega arith)
              (elim out [ inl b ↦ inl (omega arith) | inr b ↦ inr b ])
            ∙ nor.erase-outside (l.slot0_offset + offset) sector_size a c (omega arith) refl
                (elim out [ inl b ↦ inl (omega arith) | inr b ↦ inr (omega arith) ]))
    | inr done ↦ rw (done, erase_slot) refl
  ]

  erase_slot-inside :
      (n offset a : ℕ) (c : fl.Chip)
      → offset % sector_size ≡ 0
      → l.slot_size ≤ offset + n
      → l.slot0_offset + offset ≤ a
      → a < slot1_offset l
      → fl.byte_at (erase_slot fl l n offset c) a ≡ 0xff
  unfolding erase_slot
  erase_slot-inside zero offset a c even fuel lo hi = absurd (omega arith)
  erase_slot-inside (suc n) offset a c even fuel lo hi =
      let fa = fits.start_aligned in
      let more : ltb offset l.slot_size ≡ true = ground arith in
      elim (Bool-cases (ltb a (l.slot0_offset + (offset + sector_size)))) [
        | inl here ↦
            let below : a < l.slot0_offset + (offset + sector_size) = ground arith in
            rw (more, erase_slot)
              (erase_slot-outside n (offset + sector_size) a _ (omega arith) (inl below)
                ∙ nor.erase-inside (l.slot0_offset + offset) sector_size a c (omega arith) refl
                    (lo, omega arith))
        | inr later ↦
            rw (more, erase_slot)
              (erase_slot-inside n (offset + sector_size) a _ (omega arith) (omega arith)
                (ground arith) hi)
      ]

  page-Outside :
      (offset a : ℕ) (c : fl.Chip)
      → offset % page_size ≡ 0
      → Outside (l.slot0_offset + offset) page_size a
      → fl.byte_at
          (fl.flash_range_program
            (l.slot0_offset + offset)
            (xip_read fl c (slot1_offset l + offset) page_size)
            c)
          a
        ≡ fl.byte_at c a
  page-Outside offset a c even out =
      let fa = fits.start_aligned in
      let len = length-xip_read fl c (slot1_offset l + offset) page_size in
      nor.program-outside (l.slot0_offset + offset) a _ c (omega arith) (omega arith)
        (elim out [ inl b ↦ inl b | inr b ↦ inr (omega arith) ])

  copy_slot-outside :
      (n offset a : ℕ) (c : fl.Chip)
      → offset % page_size ≡ 0
      → (a < l.slot0_offset + offset) ⊎ (slot1_offset l ≤ a)
      → fl.byte_at (copy_slot fl l n offset c) a ≡ fl.byte_at c a
  unfolding copy_slot
  copy_slot-outside zero offset a c even out = refl
  copy_slot-outside (suc n) offset a c even out = elim (Bool-cases (ltb offset l.slot_size)) [
    | inl more ↦
        let fs = fits.size_aligned in
        let room : offset + page_size ≤ l.slot_size = ground arith in
        rw (more, copy_slot)
          (copy_slot-outside n (offset + page_size) a _ (omega arith)
              (elim out [ inl b ↦ inl (omega arith) | inr b ↦ inr b ])
            ∙ page-Outside offset a c even
                (elim out [ inl b ↦ inl (omega arith) | inr b ↦ inr (omega arith) ]))
    | inr done ↦ rw (done, copy_slot) refl
  ]

  copy_slot-inside :
      (n offset i : ℕ) (c : fl.Chip)
      → offset % page_size ≡ 0
      → l.slot_size ≤ offset + n
      → offset ≤ i
      → i < l.slot_size
      → ((j : ℕ) → offset ≤ j → j < l.slot_size → fl.byte_at c (l.slot0_offset + j) ≡ 0xff)
      → fl.byte_at (copy_slot fl l n offset c) (l.slot0_offset + i)
        ≡ fl.byte_at c (slot1_offset l + i)
  unfolding copy_slot
  copy_slot-inside zero offset i c even fuel lo hi blank = absurd (omega arith)
  copy_slot-inside (suc n) offset i c even fuel lo hi blank =
      let fa = fits.start_aligned in
      let fs = fits.size_aligned in
      let more : ltb offset l.slot_size ≡ true = ground arith in
      let room : offset + page_size ≤ l.slot_size = omega arith in
      let from = slot1_offset l + offset in
      let len = length-xip_read fl c from page_size in
      let k = i - offset in
      let at : l.slot0_offset + i ≡ l.slot0_offset + offset + k = omega arith in
      elim (Bool-cases (ltb i (offset + page_size))) [
        | inl here ↦
            let below : i < offset + page_size = ground arith in
            rw (more, copy_slot)
              (copy_slot-outside n (offset + page_size) (l.slot0_offset + i) _ (omega arith)
                  (inl (omega arith))
                ∙ ap (fl.byte_at _) at
                ∙ nor.program-inside (l.slot0_offset + offset) k (xip_read fl c from page_size) c
                    (omega arith) (omega arith) (omega arith)
                    (ap (fl.byte_at c) (sym at) ∙ blank i lo hi)
                ∙ get_or-xip_read fl c from page_size k 0 (omega arith)
                ∙ ap (fl.byte_at c) (omega arith))
        | inr later ↦
            rw (more, copy_slot)
              (copy_slot-inside n (offset + page_size) i _ (omega arith) (omega arith)
                  (ground arith) hi
                  (λ j lo' hi'.
                    page-Outside offset (l.slot0_offset + j) c even (inr (omega arith))
                    ∙ blank j (omega arith) hi')
                ∙ page-Outside offset (slot1_offset l + i) c even (inr (omega arith)))
      ]

  -- `do_ota_update` copies slot 1 over slot 0: on a chip whose slots are whole sectors, every byte of
  -- slot 0 then reads as the byte of slot 1 at the same place did, and no other byte has changed.
  pub do_ota_update_copies :
      (c : fl.Chip) (a : ℕ) → fl.byte_at (do_ota_update fl l c) a ≡ slot_copied l (fl.byte_at c) a
  unfolding do_ota_update
  do_ota_update_copies c a =
      let erased = erase_slot fl l l.slot_size 0 c in
      let blank : (j : ℕ)
          → 0 ≤ j
          → j < l.slot_size
          → fl.byte_at erased (l.slot0_offset + j) ≡ 0xff =
        λ j lo hi.
          erase_slot-inside l.slot_size 0 (l.slot0_offset + j) c refl (omega arith) (omega arith)
            (omega arith) in
      let i = a - l.slot0_offset in
      elim (Bool-cases (ltb a l.slot0_offset)) [
        | inl before ↦
            let b : a < l.slot0_offset + 0 = ground arith in
            simp before (
              copy_slot-outside l.slot_size 0 a erased refl (inl b)
              ∙ erase_slot-outside l.slot_size 0 a c refl (inl b))
        | inr from ↦ elim (Bool-cases (ltb a (slot1_offset l))) [
          | inl inside ↦
              let at : a ≡ l.slot0_offset + i = ground arith in
              let up : slot1_offset l + i ≡ a + l.slot_size = ground arith in
              simp (from, inside)
                (ap (fl.byte_at _) at
                  ∙ copy_slot-inside l.slot_size 0 i erased refl (omega arith) (omega arith)
                      (ground arith) blank
                  ∙ erase_slot-outside l.slot_size 0 (slot1_offset l + i) c refl (inr (omega arith))
                  ∙ ap (fl.byte_at c) up)
          | inr after ↦
              let b : slot1_offset l ≤ a = ground arith in
              simp (from, after)
                (copy_slot-outside l.slot_size 0 a erased refl (inr b)
                  ∙ erase_slot-outside l.slot_size 0 a c refl (inr b))
        ]
      ]
