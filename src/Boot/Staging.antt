-- ===== src/Boot/Staging.antt =====
-- src/ota_apply.c: the UF2 blocks, and the sector that gathers their payloads before it is flashed.
use mega65_expansion_board_i.Base.{
  ℕ, zero, suc, ◌+◌, ◌-◌, ◌*◌, ◌/◌, ◌%◌, ◌≤◌, ◌<◌, ◌≡◌, refl, ap, ◌∙◌, Bool, true, false, not, ◌&&◌,
  List, [], ◌∷◌, arith, length, take, slice, get_or, replicate, length-replicate, ltb, leb, ◌==◌,
  if◌then◌else◌,
}
use mega65_expansion_board_i.Signed.Block.{le32}
use mega65_expansion_board_i.Boot.Flash.{Flash, Layout, sector_size, slot1_offset, xip_base}

abbrev pub uf2_magic_start0 : ℕ
uf2_magic_start0 = 0x0a324655

abbrev pub uf2_magic_start1 : ℕ
uf2_magic_start1 = 0x9e5d5157

abbrev pub uf2_magic_end : ℕ
uf2_magic_end = 0x0ab16f30

-- The fields of `struct uf2_block` that are read; the others are `flags`, `blockNo`, `numBlocks` and
-- `fileSize`.
pub record Uf2Block : Type 0 where
  pub magic_start0 : ℕ
  pub magic_start1 : ℕ
  pub target_addr : ℕ
  pub payload_size : ℕ
  pub payload : List ℕ
  pub magic_end : ℕ

-- The 512 bytes of the struct, little-endian and packed as the compiler lays it out.
unfoldable pub uf2_block_of : List ℕ → Uf2Block
uf2_block_of raw = record {
  magic_start0 = le32 raw 0;
  magic_start1 = le32 raw 4;
  target_addr = le32 raw 12;
  payload_size = le32 raw 16;
  payload = slice 32 476 raw;
  magic_end = le32 raw 508;
}

-- `memset(sector_buf, 0xFF, sizeof(sector_buf))`
unfoldable pub blank_sector : List ℕ
blank_sector = replicate sector_size 0xff

-- `memcpy(&buf[off], xs, length xs)`
unfoldable pub overwrite : ℕ → List ℕ → List ℕ → List ℕ
overwrite off xs [] = []
overwrite (suc off) xs (b ∷ bs) = b ∷ overwrite off xs bs
overwrite zero [] (b ∷ bs) = b ∷ bs
overwrite zero (x ∷ xs) (b ∷ bs) = x ∷ overwrite zero xs bs

-- the variables of the loop in `remote_http_firmware_update`, and the chip
pub record Staging (fl : Flash) : Type 0 where
  pub sector_buf : List ℕ
  pub current_sector : ℕ
  pub sector_dirty : Bool
  pub chip : fl.Chip

unfoldable pub is_valid_block : Uf2Block → Bool
is_valid_block b =
    b.magic_start0 == uf2_magic_start0
    && (b.magic_start1 == uf2_magic_start1 && b.magic_end == uf2_magic_end)

unfoldable pub is_for_slot0 : Layout → Uf2Block → Bool
is_for_slot0 l b =
    leb (xip_base + l.slot0_offset) b.target_addr
    && ltb b.target_addr (xip_base + l.slot0_offset + l.slot_size)

module _ {fl : Flash} where
  unfoldable pub start_staging : fl.Chip → Staging fl
  start_staging c = record {
    sector_buf = blank_sector;
    current_sector = 0xffffffff;
    sector_dirty = false;
    chip = c;
  }

  -- the erase and program of the gathered sector, if it is dirty
  unfoldable pub flush : Staging fl → fl.Chip
  flush s =
      if s.sector_dirty
      then fl.flash_range_program s.current_sector s.sector_buf
          (fl.flash_range_erase s.current_sector sector_size s.chip)
      else s.chip

  -- `if (current_sector != sector_start)`
  unfoldable pub select_sector : ℕ → Staging fl → Staging fl
  select_sector sector_start s = if s.current_sector == sector_start then s else record {
    sector_buf = blank_sector;
    current_sector = sector_start;
    sector_dirty = false;
    chip = flush s;
  }

  unfoldable pub copy_payload : ℕ → Uf2Block → Staging fl → Staging fl
  copy_payload offset_in_sector b s =
      let copy_size = if ltb 256 b.payload_size then 256 else b.payload_size in
      if leb (offset_in_sector + copy_size) sector_size
      then record s {
        sector_buf = overwrite offset_in_sector (take copy_size b.payload) s.sector_buf;
        sector_dirty = true;
      }
      else s

  -- the body of the loop
  unfoldable pub stage_block : Layout → Uf2Block → Staging fl → Staging fl
  stage_block l b s =
      let slot1_target = slot1_offset l + (b.target_addr - (xip_base + l.slot0_offset)) in
      let sector_start = slot1_target / sector_size * sector_size in
      let offset_in_sector = slot1_target % sector_size in
      if not (is_valid_block b)
      then s
      else if is_for_slot0 l b
      then copy_payload offset_in_sector b (select_sector sector_start s)
      else s

pub length-blank_sector : length blank_sector ≡ sector_size
unfolding blank_sector
length-blank_sector = let b : ℕ = 0xff in length-replicate sector_size b

pub length-overwrite : (off : ℕ) (xs bs : List ℕ) → length (overwrite off xs bs) ≡ length bs
unfolding overwrite
length-overwrite off xs [] = refl
length-overwrite (suc off) xs (b ∷ bs) = ap suc (length-overwrite off xs bs)
length-overwrite zero [] (b ∷ bs) = refl
length-overwrite zero (x ∷ xs) (b ∷ bs) = ap suc (length-overwrite zero xs bs)

-- A byte read back after a write that fits in the block.
pub get_or-overwrite-inside :
    (off : ℕ) (xs bs : List ℕ) (i d : ℕ)
    → off + length xs ≤ length bs
    → i < length xs
    → get_or (overwrite off xs bs) (off + i) d ≡ get_or xs i d
unfolding overwrite
get_or-overwrite-inside off xs [] i d fits h = absurd (omega arith)
get_or-overwrite-inside (suc off) xs (b ∷ bs) i d fits h =
    let up : suc off + i ≡ suc (off + i) = omega arith in
    ap (λ k. get_or (b ∷ overwrite off xs bs) k d) up
    ∙ get_or-overwrite-inside off xs bs i d (omega arith) h
get_or-overwrite-inside zero [] (b ∷ bs) i d fits h = absurd (omega arith)
get_or-overwrite-inside zero (x ∷ xs) (b ∷ bs) zero d fits h = refl
get_or-overwrite-inside zero (x ∷ xs) (b ∷ bs) (suc i) d fits h =
    let up : zero + suc i ≡ suc i = omega arith in
    let down : i ≡ zero + i = omega arith in
    ap (λ k. get_or (x ∷ overwrite zero xs bs) k d) up
    ∙ ap (λ k. get_or (overwrite zero xs bs) k d) down
    ∙ get_or-overwrite-inside zero xs bs i d (omega arith) (omega arith)

pub get_or-overwrite-before :
    (off : ℕ) (xs bs : List ℕ) (i d : ℕ)
    → i < off
    → get_or (overwrite off xs bs) i d ≡ get_or bs i d
unfolding overwrite
get_or-overwrite-before off xs [] i d h = refl
get_or-overwrite-before (suc off) xs (b ∷ bs) zero d h = refl
get_or-overwrite-before (suc off) xs (b ∷ bs) (suc i) d h =
    get_or-overwrite-before off xs bs i d (omega arith)
get_or-overwrite-before zero xs (b ∷ bs) i d h = absurd (omega arith)
