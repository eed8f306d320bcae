-- ===== src/Boot/Loader.antt =====
-- bootloader/main.c: the test of a slot's vectors and `main`. The diagnostics on the UART and the
-- pin are not modelled, nor the registers that `reboot_to_slot` resets before it jumps.
use mega65_expansion_board_i.Base.{
  ℕ, ◌+◌, ◌-◌, ◌*◌, ◌/◌, ◌%◌, ◌^◌, ◌≤◌, ◌<◌, ◌≡◌, ◌↔◌, Bool, false, not, ◌&&◌, arith, ltb, leb,
  ◌==◌, if◌then◌else◌, Bool-cases, inl, inr, sym, ◌∙◌,
}
use mathlib.Core.Path.{fun_ext}
use mega65_expansion_board_i.Boot.Flash.{Flash, IsNor, Layout, Fits, xip_base}
use mega65_expansion_board_i.Boot.Copy.{do_ota_update, slot_copied, do_ota_update_copies}

-- PICO_BOOT2_LEN, by whether the chip is an RP2040
unfoldable pub boot2_len : Bool → ℕ
boot2_len rp2040 = if rp2040 then 0x100 else 0

abbrev pub sram_base : ℕ
sram_base = 0x20000000

-- the value that asks for a copy, in `watchdog_hw->scratch[2]`
abbrev pub update_magic : ℕ
update_magic = 0x07a07a07

unfoldable pub in_range : ℕ → ℕ → ℕ → Bool
in_range value base len = leb base value && ltb value ((base + len) % 2 ^ 32)

-- a `uint32_t` at an address in the XIP window
unfoldable pub word_at : (ℕ → ℕ) → ℕ → ℕ
word_at view address =
    let a = address - xip_base in
    view a + view (a + 1) * 2 ^ 8 + view (a + 2) * 2 ^ 16 + view (a + 3) * 2 ^ 24

-- the four bytes from `off` on are `v`, little-endian
abbrev pub IsWord : (ℕ → ℕ) → ℕ → ℕ → Type 0
IsWord view off v =
    v ≡ view off + 256 * view (off + 1) + 65536 * view (off + 2) + 16777216 * view (off + 3)

-- Where `main` ends: in the application, with its stack pointer and its reset handler, or in BOOTSEL.
pub data Outcome : Type 0 where
  jumped : ℕ → ℕ → Outcome
  bootsel : Outcome

unfoldable pub slot0_base : Layout → ℕ
slot0_base l = xip_base + l.slot0_offset

-- `sram_end` is the SDK's SRAM_END.
unfoldable pub valid_initial_sp : ℕ → ℕ → Bool
valid_initial_sp sram_end value =
    if not (value % 4 == 0) then false else leb sram_base value && leb value sram_end

module _ (rp2040 : Bool) (sram_end : ℕ) (l : Layout) where
  -- `view` is the chip as the XIP window shows it.
  unfoldable pub slot_vectors_look_valid : (ℕ → ℕ) → ℕ → Bool
  slot_vectors_look_valid view slot_base =
      let vectors = slot_base + boot2_len rp2040 in
      let initial_sp = word_at view vectors in
      let reset = word_at view (vectors + 4) in
      if not (valid_initial_sp sram_end initial_sp)
      then false
      else if reset % 2 == 0
      then false
      else in_range (reset / 2 * 2) slot_base l.slot_size

  unfoldable pub reboot_to_slot : (ℕ → ℕ) → ℕ → Outcome
  reboot_to_slot view slot_base =
      let vectors = slot_base + boot2_len rp2040 in
      jumped (word_at view vectors) (word_at view (vectors + 4))

  -- what `main` does when no copy is asked for
  unfoldable pub boot : (ℕ → ℕ) → Outcome
  boot view =
      if slot_vectors_look_valid view (slot0_base l)
      then reboot_to_slot view (slot0_base l)
      else bootsel

  -- The bootloader's state is `scratch[2]` and the chip.
  unfoldable pub main : (fl : Flash) → ℕ → fl.Chip → Outcome × ℕ × fl.Chip
  main fl scratch c =
      if scratch == update_magic
      then (let c' = do_ota_update fl l c in (boot (fl.byte_at c'), 0, c'))
      else (boot (fl.byte_at c), scratch, c)

  -- the same on the contents of the chip alone
  abbrev pub boot_spec : ℕ → (ℕ → ℕ) → Outcome × ℕ × (ℕ → ℕ)
  boot_spec scratch view =
      if scratch == update_magic
      then (boot (slot_copied l view), 0, slot_copied l view)
      else (boot view, scratch, view)

  -- `sp` and `reset` are the two words, little-endian, at the vectors of slot 0, which on an RP2040
  -- stand behind the 256 bytes of its second stage; and an application can start from them: the
  -- stack pointer is aligned and in the SRAM, the reset handler a Thumb address of the slot.
  pub record IsEntry (view : ℕ → ℕ) (sp reset : ℕ) : Type 0 where
    pub sp_word : IsWord view (l.slot0_offset + (if rp2040 then 256 else 0)) sp
    pub reset_word : IsWord view (l.slot0_offset + (if rp2040 then 256 else 0) + 4) reset
    pub sp_aligned : sp % 4 ≡ 0
    pub sp_above : 0x20000000 ≤ sp
    pub sp_below : sp ≤ sram_end
    pub thumb : reset % 2 ≡ 1
    pub reset_above : 0x10000000 + l.slot0_offset + 1 ≤ reset
    pub reset_below : reset < 0x10000000 + l.slot0_offset + l.slot_size + 1

module _ (rp2040 : Bool) (sram_end : ℕ) {l : Layout} (fits : Fits l) where
  word_at-IsWord :
      (view : ℕ → ℕ) (address k : ℕ) → address ≡ xip_base + k → IsWord view k (word_at view address)
  unfolding word_at
  word_at-IsWord view address k e =
      let back : address - xip_base ≡ k = omega arith in rw back (omega arith)

  -- what `boot` decides, on the two words of the vectors
  boot_words_iff :
      (view : ℕ → ℕ) (sp reset : ℕ)
      → let vectors = slot0_base l + boot2_len rp2040 in
        (boot rp2040 sram_end l view ≡ jumped sp reset) ↔ (
          (sp ≡ word_at view vectors)
          × (reset ≡ word_at view (vectors + 4))
          × (sp % 4 ≡ 0)
          × (sram_base ≤ sp)
          × (sp ≤ sram_end)
          × (reset % 2 ≡ 1)
          × (slot0_base l + 1 ≤ reset)
          × (reset < slot0_base l + l.slot_size + 1))
  unfolding boot slot_vectors_look_valid valid_initial_sp in_range reboot_to_slot slot0_base
  boot_words_iff view sp reset = let b = fits.below in let a = fits.size_aligned in ground arith

  boot_jumps_iff :
      (view : ℕ → ℕ) (sp reset : ℕ)
      → (boot rp2040 sram_end l view ≡ jumped sp reset) ↔ IsEntry rp2040 sram_end l view sp reset
  unfolding slot0_base boot2_len
  boot_jumps_iff view sp reset =
      let vectors = slot0_base l + boot2_len rp2040 in
      let off = l.slot0_offset + (if rp2040 then 256 else 0) in
      let w = word_at-IsWord view vectors off (omega arith) in
      let w4 = word_at-IsWord view (vectors + 4) (off + 4) (omega arith) in
      let k = boot_words_iff view sp reset in
      (
        λ h.
            let (s, r, al, lo, hi, th, above, below) = k.0 h in
            record {
              sp_word = s ∙ w;
              reset_word = r ∙ w4;
              sp_aligned = al;
              sp_above = lo;
              sp_below = hi;
              thumb = th;
              reset_above = above;
              reset_below = below;
            },
        λ e. k.1 (
          e.sp_word ∙ sym w,
          e.reset_word ∙ sym w4,
          e.sp_aligned,
          e.sp_above,
          e.sp_below,
          e.thumb,
          e.reset_above,
          e.reset_below,
        ),
      )

  -- `main` ends in an application with the stack pointer `sp` at the address `reset` exactly if these
  -- are the words at the vectors of slot 0 as `main` leaves it, the stack pointer is aligned and in
  -- the SRAM, and the reset handler is a Thumb address of the slot; in a layout whose slots are
  -- whole sectors in the first 16 megabytes, whether a copy was asked for or not.
  pub main_jumps_iff :
      (fl : Flash) (scratch : ℕ) (c : fl.Chip) (sp reset : ℕ)
      → ((main rp2040 sram_end l fl scratch c).0 ≡ jumped sp reset)
        ↔ IsEntry rp2040 sram_end l (fl.byte_at (main rp2040 sram_end l fl scratch c).2) sp reset
  unfolding main
  main_jumps_iff fl scratch c sp reset = elim (Bool-cases (scratch == update_magic)) [
    | inl asked ↦ simp asked (boot_jumps_iff (fl.byte_at (do_ota_update fl l c)) sp reset)
    | inr idle ↦ simp idle (boot_jumps_iff (fl.byte_at c) sp reset)
  ]

  -- `main` implements the specification on the chip's contents: if `scratch[2]` asks for it, slot 1
  -- is copied over slot 0, the request is cleared and the copied slot is started if its vectors are
  -- valid; otherwise nothing is written and slot 0 is started as it is, if it is valid.
  pub main_refines :
      {fl : Flash} (nor : IsNor fl) (scratch : ℕ) (c : fl.Chip)
      → (
        (main rp2040 sram_end l fl scratch c).0,
        (main rp2040 sram_end l fl scratch c).1,
        fl.byte_at (main rp2040 sram_end l fl scratch c).2,
      )
        ≡ boot_spec rp2040 sram_end l scratch (fl.byte_at c)
  unfolding main
  main_refines {fl} nor scratch c =
      let same : fl.byte_at (do_ota_update fl l c) ≡ slot_copied l (fl.byte_at c) =
        fun_ext (do_ota_update_copies nor fits c) in
      elim (Bool-cases (scratch == update_magic)) [
        | inl asked ↦ simp (asked, same)
        | inr idle ↦ simp idle
      ]
