-- ===== src/Boot/Flash.antt =====
-- The flash chip, behind hardware/flash.h of the Pico SDK: a parameter, with its documented laws. An
-- offset counts from XIP_BASE. Layout is where bootloader/main.c and src/ota_apply.c place the slots.
use mega65_expansion_board_i.Base.{
  ℕ, zero, suc, ◌+◌, ◌*◌, ◌%◌, ◌^◌, ◌≤◌, ◌<◌, ◌≡◌, refl, ap, ◌∙◌, ◌⊎◌, List, [], ◌∷◌, arith, length,
  get_or,
}

pub record Flash : Type 1 where
  pub Chip : Type 0
  pub byte_at : Chip → ℕ → ℕ
  pub flash_range_erase : ℕ → ℕ → Chip → Chip
  pub flash_range_program : ℕ → List ℕ → Chip → Chip

-- FLASH_SECTOR_SIZE and FLASH_PAGE_SIZE
abbrev pub sector_size : ℕ
sector_size = 4096

abbrev pub page_size : ℕ
page_size = 256

abbrev pub Within : ℕ → ℕ → ℕ → Type 0
Within off n a = (off ≤ a) × (a < off + n)

abbrev pub Outside : ℕ → ℕ → ℕ → Type 0
Outside off n a = (a < off) ⊎ (off + n ≤ a)

-- Whole sectors are erased to 0xff; a program of whole pages sets erased bytes; neither touches the
-- rest of the chip.
pub record IsNor (fl : Flash) : Type 0 where
  pub erase-inside :
      (off n a : ℕ) (c : fl.Chip)
      → off % sector_size ≡ 0
      → n % sector_size ≡ 0
      → Within off n a
      → fl.byte_at (fl.flash_range_erase off n c) a ≡ 0xff
  pub erase-outside :
      (off n a : ℕ) (c : fl.Chip)
      → off % sector_size ≡ 0
      → n % sector_size ≡ 0
      → Outside off n a
      → fl.byte_at (fl.flash_range_erase off n c) a ≡ fl.byte_at c a
  pub program-inside :
      (off i : ℕ) (xs : List ℕ) (c : fl.Chip)
      → off % page_size ≡ 0
      → length xs % page_size ≡ 0
      → i < length xs
      → fl.byte_at c (off + i) ≡ 0xff
      → fl.byte_at (fl.flash_range_program off xs c) (off + i) ≡ get_or xs i 0
  pub program-outside :
      (off a : ℕ) (xs : List ℕ) (c : fl.Chip)
      → off % page_size ≡ 0
      → length xs % page_size ≡ 0
      → Outside off (length xs) a
      → fl.byte_at (fl.flash_range_program off xs c) a ≡ fl.byte_at c a

-- M65_BOOTLOADER_SLOT0_OFFSET and M65_BOOTLOADER_SLOT_SIZE, which the build may set
pub record Layout : Type 0 where
  pub slot0_offset : ℕ
  pub slot_size : ℕ

abbrev pub slot1_offset : Layout → ℕ
slot1_offset l = l.slot0_offset + l.slot_size

-- The slots are whole sectors and lie in the first 16 megabytes.
pub record Fits (l : Layout) : Type 0 where
  pub start_aligned : l.slot0_offset % sector_size ≡ 0
  pub size_aligned : l.slot_size % sector_size ≡ 0
  pub below : l.slot0_offset + 2 * l.slot_size ≤ 2 ^ 24

abbrev pub xip_base : ℕ
xip_base = 0x10000000

-- `n` bytes of the chip from `off` on, as `memcpy` from the XIP window reads them
unfoldable pub xip_read : (fl : Flash) → fl.Chip → ℕ → ℕ → List ℕ
xip_read fl c off zero = []
xip_read fl c off (suc n) = fl.byte_at c off ∷ xip_read fl c (suc off) n

pub length-xip_read : (fl : Flash) (c : fl.Chip) (off n : ℕ) → length (xip_read fl c off n) ≡ n
unfolding xip_read
length-xip_read fl c off zero = refl
length-xip_read fl c off (suc n) = ap suc (length-xip_read fl c (suc off) n)

pub get_or-xip_read :
    (fl : Flash) (c : fl.Chip) (off n i d : ℕ)
    → i < n
    → get_or (xip_read fl c off n) i d ≡ fl.byte_at c (off + i)
unfolding xip_read
get_or-xip_read fl c off zero i d h = absurd (omega arith)
get_or-xip_read fl c off (suc n) zero d h = ap (fl.byte_at c) (omega arith)
get_or-xip_read fl c off (suc n) (suc i) d h =
    get_or-xip_read fl c (suc off) n i d (omega arith) ∙ ap (fl.byte_at c) (omega arith)
