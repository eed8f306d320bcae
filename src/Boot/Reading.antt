-- ===== src/Boot/Reading.antt =====
-- src/ota_apply.c: the loop of the update takes a whole package.
use mega65_expansion_board_i.Base.{
  ℕ, zero, suc, ◌+◌, ◌-◌, ◌*◌, ◌/◌, ◌%◌, ◌≤◌, ◌<◌, ◌≡◌, refl, sym, ap, subst, ◌∙◌, inl, inr, true,
  false, ◌&&◌, List, ◌++◌, arith, length, take, drop, get_or, ◌==◌, if◌then◌else◌, ltb, leb,
  Bool-cases, ltb→lt, ltb→le, length-append, length-take, take-append, drop-append,
}
use mega65_expansion_board_i.Storage.{Storage, Reads}
use mega65_expansion_board_i.Boot.Flash.{
  Flash, IsNor, Layout, Fits, sector_size, page_size, slot1_offset, xip_base,
}
use mega65_expansion_board_i.Boot.Staging.{
  Uf2Block, Staging, uf2_block_of, overwrite, start_staging, copy_payload, is_valid_block,
  is_for_slot0, stage_block, length-overwrite, get_or-overwrite-inside, get_or-overwrite-before,
}
use mega65_expansion_board_i.Boot.Update.{block_size, stage_file}
use mega65_expansion_board_i.Boot.Package.{
  IsPage, Package, done, paged, skipped, Package-le, IsReady, Progress, fresh, going,
  select_sector-IsReady,
}
use mega65_expansion_board_i.Boot.Slot1.{select_sector-current}

copy_payload-page :
    {fl : Flash} (off : ℕ) (b : Uf2Block) (s : Staging fl)
    → b.payload_size ≡ page_size
    → off + page_size ≤ sector_size
    → copy_payload off b s ≡ record s {
      sector_buf = overwrite off (take page_size b.payload) s.sector_buf;
      sector_dirty = true;
    }
unfolding copy_payload
copy_payload-page off b s size room =
    let e : (if ltb 256 b.payload_size then 256 else b.payload_size) ≡ page_size = ground arith in
    let short : leb (off + page_size) sector_size ≡ true = ground arith in simp e (rw short)

module _ {fl : Flash} (l : Layout) where
  stage_block-skips :
      (b : Uf2Block) (s : Staging fl)
      → (is_valid_block b && is_for_slot0 l b) ≡ false
      → stage_block l b s ≡ s
  unfolding stage_block
  stage_block-skips b s h = elim (Bool-cases (is_valid_block b)) [
    | inr bad ↦ simp bad
    | inl good ↦ let out : is_for_slot0 l b ≡ false = simp good at h in simp (good, out)
  ]

  -- a round of the loop that reads a whole block
  stage_file-block :
      {st : Storage} (rd : Reads st)
      → ((f : st.File) (n : ℕ) (d : st.Disk) → (st.storage_read f n d).0 ≡ true)
      → (fuel : ℕ) (f : st.File) (d : st.Disk) (s : Staging fl) (raw rest : List ℕ)
      → rd.unread f d ≡ raw ++ rest
      → length raw ≡ block_size
      → (d' : st.Disk) × (rd.unread f d' ≡ rest)
        × (stage_file st fl l (suc fuel) f d s
            ≡ stage_file st fl l fuel f d' (stage_block l (uf2_block_of raw) s))
  unfolding stage_file
  stage_file-block {st} rd reads fuel f d s raw rest at len =
      let ok = reads f block_size d in
      let got : (st.storage_read f block_size d).1 ≡ raw =
        rd.read-gives f block_size d ok
        ∙ ap (take block_size) at
        ∙ take-append block_size raw rest len in
      let size : (length raw == block_size) ≡ true = ground arith in
      (
        _,
        rd.unread-read f block_size d ok
            ∙ ap (drop block_size) at
            ∙ drop-append block_size raw rest len,
        simp (stage_file, ok, got, size),
      )

module _ {fl : Flash} (nor : IsNor fl) {l : Layout} (fits : Fits l) {img : ℕ → ℕ} where
  copy_payload-Progress :
      (n : ℕ) (b : Uf2Block) (s : Staging fl)
      → IsPage l img n b
      → IsReady l img n s
      → n % page_size ≡ 0
      → slot1_offset l + n < s.current_sector + sector_size
      → Progress l img (n + page_size) (copy_payload ((slot1_offset l + n) % sector_size) b s)
  copy_payload-Progress n b s p r even inside =
      let off = (slot1_offset l + n) % sector_size in
      let fa = fits.start_aligned in
      let fs = fits.size_aligned in
      let ps = p.size in
      let ra = r.aligned in
      let rr = r.reached in
      let full = r.full in
      let up = r.above in
      let at : s.current_sector + off ≡ slot1_offset l + n = omega arith in
      let len : length (take page_size b.payload) ≡ page_size =
        omega (arith, length-take page_size b.payload, p.room) in
      subst (Progress l img (n + page_size)) (sym (copy_payload-page off b s p.size (omega arith)))
        (going refl (record {
          full = length-overwrite off _ s.sector_buf ∙ full;
          aligned = ra;
          above = up;
          reached = omega arith;
          within = omega arith;
          buffered = λ i j e lt. elim (Bool-cases (ltb i off)) [
            | inl before ↦
                let lo : i < off = ltb→lt i off before in
                get_or-overwrite-before off _ s.sector_buf i 0 lo ∙ r.buffered i j e (omega arith)
            | inr from ↦
                let k = i - off in
                let past : off ≤ i = ltb→le i off from in
                let split : i ≡ off + k = omega arith in
                let small : k < page_size = omega arith in
                ap (λ x. get_or (overwrite off (take page_size b.payload) s.sector_buf) x 0) split
                ∙ get_or-overwrite-inside off (take page_size b.payload) s.sector_buf k 0
                    (omega arith) (omega arith)
                ∙ p.bytes k small
                ∙ ap img (omega arith)
          ];
          flashed = r.flashed;
        }))

  stage_block-Progress :
      (n : ℕ) (b : Uf2Block) (s : Staging fl)
      → IsPage l img n b
      → Progress l img n s
      → n % page_size ≡ 0
      → n + page_size ≤ l.slot_size
      → Progress l img (n + page_size) (stage_block l b s)
  unfolding stage_block is_for_slot0
  stage_block-Progress n b s p pr even small =
      let t = b.target_addr - (xip_base + l.slot0_offset) in
      let pt = p.target in
      let for : is_for_slot0 l b ≡ true = ground arith in
      let same : t ≡ n = omega arith in
      let start = (slot1_offset l + n) / sector_size * sector_size in
      let at = select_sector-current nor fits start s in
      simp (p.valid, for, same)
        (copy_payload-Progress n b _ p (select_sector-IsReady nor fits n s pr even small) even
          (omega arith))

  pub start_staging-Progress : (c : fl.Chip) → Progress l img 0 (start_staging {fl = fl} c)
  unfolding start_staging
  start_staging-Progress c = fresh refl refl refl

  -- the package is read through to its end
  pub stage_file-Progress :
      {st : Storage} (rd : Reads st)
      → ((f : st.File) (n : ℕ) (d : st.Disk) → (st.storage_read f n d).0 ≡ true)
      → (fuel : ℕ) {m n : ℕ} {file : List ℕ} (f : st.File) (d : st.Disk) (s : Staging fl)
      → Package l img m n file
      → rd.unread f d ≡ file
      → length file < fuel
      → m ≤ l.slot_size
      → n % page_size ≡ 0
      → Progress l img n s
      → Progress l img m (stage_file st fl l fuel f d s).1
  unfolding stage_file
  stage_file-Progress rd reads zero f d s p at fuel small even pr = absurd (omega arith)
  stage_file-Progress {st} rd reads (suc fuel) {m} {n} {file} f d s (done e short) at more small
        even pr =
      let r = st.storage_read f block_size d in
      let got : r.1 ≡ take block_size file =
        rd.read-gives f block_size d (reads f block_size d) ∙ ap (take block_size) at in
      let few : length r.1 < block_size =
        omega (arith, ap length got, length-take block_size file) in
      let end : (r.0 && length r.1 == block_size) ≡ false = ground arith in
      simp (stage_file, end) (subst (λ k. Progress l img k s) e pr)
  stage_file-Progress {st} rd reads (suc fuel) {m} {n} f d s (paged raw rest len pg e p) at more
        small even pr =
      let (d', left, step) = stage_file-block l rd reads fuel f d s raw rest (at ∙ e) len in
      let total = ap length e ∙ length-append raw rest in
      let end = Package-le p in
      subst (λ k. Progress l img m k.1) (sym step)
        (stage_file-Progress rd reads fuel f d' _ p left (omega arith) small (omega arith)
          (stage_block-Progress n (uf2_block_of raw) s pg pr even (omega arith)))
  stage_file-Progress {st} rd reads (suc fuel) {m} {n} f d s (skipped raw rest len no_page e p) at
        more small even pr =
      let (d', left, step) = stage_file-block l rd reads fuel f d s raw rest (at ∙ e) len in
      let total = ap length e ∙ length-append raw rest in
      subst (λ k. Progress l img m k.1) (sym step)
        (stage_file-Progress rd reads fuel f d' _ p left (omega arith) small even
          (subst (Progress l img n) (sym (stage_block-skips l (uf2_block_of raw) s no_page)) pr))
