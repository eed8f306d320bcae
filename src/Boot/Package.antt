-- ===== src/Boot/Package.antt =====
-- src/ota_apply.c: what staging the blocks of a package does. `img` gives the bytes of the image.
use mega65_expansion_board_i.Base.{
  ℕ, ◌+◌, ◌-◌, ◌*◌, ◌/◌, ◌%◌, ◌≤◌, ◌<◌, ◌≡◌, refl, sym, ap, ◌∙◌, inl, inr, true, false, ◌&&◌, List,
  ◌++◌, arith, length, take, get_or, ◌==◌, ltb, Bool-cases,
}
use mega65_expansion_board_i.Boot.Flash.{
  Flash, IsNor, Layout, Fits, sector_size, page_size, slot1_offset, xip_base,
}
use mega65_expansion_board_i.Boot.Staging.{
  Uf2Block, Staging, uf2_block_of, flush, select_sector, is_valid_block, is_for_slot0,
  length-blank_sector,
}
use mega65_expansion_board_i.Boot.Update.{block_size}

-- A block for the 256 bytes of the image at `n`.
pub record IsPage (l : Layout) (img : ℕ → ℕ) (n : ℕ) (b : Uf2Block) : Type 0 where
  pub valid : is_valid_block b ≡ true
  pub target : b.target_addr ≡ xip_base + l.slot0_offset + n
  pub size : b.payload_size ≡ page_size
  pub room : page_size ≤ length b.payload
  pub bytes : (i : ℕ) → i < page_size → get_or (take page_size b.payload) i 0 ≡ img (n + i)

-- A file whose blocks hold the bytes of `img` from `n` up to `m` in order, among blocks that are
-- invalid or for another address. Less than a block may follow them, as the 256 bytes of the signature
-- do in a stored package.
pub data Package (l : Layout) (img : ℕ → ℕ) (m : ℕ) : ℕ → List ℕ → Type 0 where
  done : {n : ℕ} {file : List ℕ} → n ≡ m → length file < block_size → Package l img m n file
  paged :
      {n : ℕ} {file : List ℕ} (raw rest : List ℕ)
      → length raw ≡ block_size
      → IsPage l img n (uf2_block_of raw)
      → file ≡ raw ++ rest
      → Package l img m (n + page_size) rest
      → Package l img m n file
  skipped :
      {n : ℕ} {file : List ℕ} (raw rest : List ℕ)
      → length raw ≡ block_size
      → (is_valid_block (uf2_block_of raw) && is_for_slot0 l (uf2_block_of raw)) ≡ false
      → file ≡ raw ++ rest
      → Package l img m n rest
      → Package l img m n file

pub Package-le :
    {l : Layout} {img : ℕ → ℕ} {m n : ℕ} {file : List ℕ} → Package l img m n file → n ≤ m
Package-le (done e _) = omega arith
Package-le (paged raw rest _ _ _ p) = omega (arith, Package-le p)
Package-le (skipped raw rest _ _ _ p) = Package-le p

module _ {fl : Flash} (l : Layout) (img : ℕ → ℕ) where
  -- Bytes below `n` are in the selected sector's buffer, or on the chip below that sector.
  pub record IsReady (n : ℕ) (s : Staging fl) : Type 0 where
    pub full : length s.sector_buf ≡ sector_size
    pub aligned : s.current_sector % sector_size ≡ 0
    pub above : slot1_offset l ≤ s.current_sector
    pub reached : s.current_sector ≤ slot1_offset l + n
    pub within : slot1_offset l + n ≤ s.current_sector + sector_size
    pub buffered :
        (i j : ℕ)
        → s.current_sector + i ≡ slot1_offset l + j
        → j < n
        → get_or s.sector_buf i 0 ≡ img j
    pub flashed :
        (j : ℕ)
        → slot1_offset l + j < s.current_sector
        → fl.byte_at s.chip (slot1_offset l + j) ≡ img j

  -- The state between two blocks, with the first `n` bytes taken.
  pub data Progress (n : ℕ) (s : Staging fl) : Type 0 where
    fresh : n ≡ 0 → s.current_sector ≡ 0xffffffff → s.sector_dirty ≡ false → Progress n s
    going : s.sector_dirty ≡ true → IsReady n s → Progress n s

module _ {fl : Flash} (nor : IsNor fl) {l : Layout} (fits : Fits l) {img : ℕ → ℕ} where
  -- Once flushed, the chip holds in slot 1 what was taken.
  pub flush-Progress :
      (n : ℕ) (s : Staging fl)
      → Progress l img n s
      → (j : ℕ) → j < n
      → fl.byte_at (flush s) (slot1_offset l + j) ≡ img j
  unfolding flush
  flush-Progress n s (fresh e _ _) j lt = absurd (omega arith)
  flush-Progress n s (going dirty r) j lt =
      let cur = s.current_sector in
      let a = slot1_offset l + j in
      let full = r.full in
      let al = r.aligned in
      let wi = r.within in
      elim (Bool-cases (ltb a cur)) [
        | inl below ↦
            let lo : a < cur = ground arith in
            simp dirty (
              nor.program-outside cur a s.sector_buf _ (omega arith) (omega arith) (inl lo)
              ∙ nor.erase-outside cur sector_size a s.chip al refl (inl lo)
              ∙ r.flashed j lo)
        | inr here ↦
            let i = a - cur in
            let at : a ≡ cur + i = ground arith in
            simp dirty (
              ap (fl.byte_at _) at
              ∙ nor.program-inside cur i s.sector_buf _ (omega arith) (omega arith) (omega arith) (
                  nor.erase-inside cur sector_size (cur + i) s.chip al refl
                    (omega arith, omega arith))
              ∙ r.buffered i j (sym at) lt)
      ]

  pub select_sector-IsReady :
      (n : ℕ) (s : Staging fl)
      → Progress l img n s
      → n % page_size ≡ 0
      → n + page_size ≤ l.slot_size
      → IsReady l img n (select_sector ((slot1_offset l + n) / sector_size * sector_size) s)
  unfolding select_sector
  select_sector-IsReady n s (fresh e c clean) even small =
      let start = (slot1_offset l + n) / sector_size * sector_size in
      let fa = fits.start_aligned in
      let fs = fits.size_aligned in
      let fb = fits.below in
      let other : (s.current_sector == start) ≡ false = ground arith in
      simp other (record {
        full = length-blank_sector;
        aligned = omega arith;
        above = omega arith;
        reached = omega arith;
        within = omega arith;
        buffered = λ i j at lt. absurd (omega arith);
        flashed = λ j lt. absurd (omega arith);
      })
  select_sector-IsReady n s (going dirty r) even small =
      let start = (slot1_offset l + n) / sector_size * sector_size in
      let fa = fits.start_aligned in
      let fs = fits.size_aligned in
      let ra = r.aligned in
      let rw' = r.within in
      let rr = r.reached in
      elim (Bool-cases (s.current_sector == start)) [
        | inl same ↦ simp same r
        | inr other ↦
            let next : start ≡ slot1_offset l + n = ground arith in
            simp other (record {
              full = length-blank_sector;
              aligned = omega arith;
              above = omega arith;
              reached = omega arith;
              within = omega arith;
              buffered = λ i j at lt. absurd (omega arith);
              flashed = λ j lt. flush-Progress n s (going dirty r) j (omega arith);
            })
      ]
