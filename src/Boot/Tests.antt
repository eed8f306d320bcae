-- ===== src/Boot/Tests.antt =====
-- A chip as a function, a card that holds a package of one block, and the update on them.
use Prim.Native.Nat.{bit_and}
use mega65_expansion_board_i.Base.{
  ℕ, ◌+◌, ◌-◌, ◌≤◌, ◌<◌, ◌≡◌, refl, inl, inr, Bool, true, false, some, List, [], ◌∷◌, ◌++◌, arith,
  length, take, drop, get_or, replicate, ltb, ◌==◌, if◌then◌else◌, ◌↔◌,
}
use mega65_expansion_board_i.Storage.{Storage, Reads}
use mega65_expansion_board_i.Boot.Flash.{Flash, IsNor, Layout, Fits, Outside}
use mega65_expansion_board_i.Boot.Loader.{
  jumped, main, boot_spec, IsEntry, main_jumps_iff, main_refines, update_magic,
}
use mega65_expansion_board_i.Boot.Update.{remote_http_firmware_update}
use mega65_expansion_board_i.Boot.Slot1.{remote_http_firmware_update_contained}
use mega65_expansion_board_i.Boot.Package.{Package}

abbrev inside : ℕ → ℕ → ℕ → Bool
inside off n a = if ltb a off then false else ltb a (off + n)

-- programming can only clear bits
abbrev nor : Flash
nor = record {
  Chip = ℕ → ℕ;
  byte_at = λ c a. c a;
  flash_range_erase = λ off n c a. if inside off n a then 0xff else c a;
  flash_range_program = λ off xs c a.
      if inside off (length xs) a
      then (if c a == 0xff then get_or xs (a - off) 0 else bit_and (c a) (get_or xs (a - off) 0))
      else c a;
}

nor_inside : (off n a : ℕ) → off ≤ a → a < off + n → inside off n a ≡ true
nor_inside off n a lo hi = ground arith

nor-Outside : (off n a : ℕ) → Outside off n a → inside off n a ≡ false
nor-Outside off n a (inl b) = ground arith
nor-Outside off n a (inr b) = ground arith

nor-IsNor : IsNor nor
nor-IsNor = record {
  erase-inside = λ off n a c e1 e2 w. simp (nor_inside off n a w.0 w.1);
  erase-outside = λ off n a c e1 e2 out. simp (nor-Outside off n a out);
  program-inside = λ off i xs c e1 e2 lt blank.
      let back : off + i - off ≡ i = omega arith in
      simp (nor_inside off (length xs) (off + i) (omega arith) (omega arith), blank, back);
  program-outside = λ off a xs c e1 e2 out. simp (nor-Outside off (length xs) a out);
}

-- the defaults of the build
abbrev layout : Layout
layout = record { slot0_offset = 0x10000; slot_size = 0xf0000 }

layout-Fits : Fits layout
layout-Fits = record { start_aligned = refl; size_aligned = refl; below = omega arith }

-- one file, whose unread bytes are the disk
abbrev card : Storage
card = record {
  Disk = List ℕ;
  File = Unit {0};
  storage_open = λ p d. (some tt, d);
  storage_open_write = λ p d. (some tt, []);
  storage_read = λ f n d. (true, take n d, drop n d);
  storage_write = λ f xs d. (true, length xs, d ++ xs);
  storage_sync = λ f d. (true, d);
  storage_seek = λ f n d. (true, d);
  storage_tell = λ f d. 0;
  storage_size = λ f d. length d;
  storage_close = λ f d. d;
  storage_delete = λ p d. (true, d);
  storage_mkdir = λ p d. (true, d);
}

abbrev card-Reads : Reads card
card-Reads = record {
  unread = λ f d. d;
  size-open = λ p d d' f e. refl;
  read-gives = λ f n d ok. refl;
  unread-read = λ f n d ok. refl;
}

-- a block for the first 256 bytes of slot 0, all of them 7
abbrev raw_block : List ℕ
raw_block =
    (0x55 ∷ 0x46 ∷ 0x32 ∷ 0x0a ∷ 0x57 ∷ 0x51 ∷ 0x5d ∷ 0x9e ∷ [])
    ++ (0 ∷ 0 ∷ 0 ∷ 0 ∷ 0 ∷ 0 ∷ 1 ∷ 0x10 ∷ 0 ∷ 1 ∷ 0 ∷ 0 ∷ 0 ∷ 0 ∷ 0 ∷ 0 ∷ 1 ∷ 0 ∷ 0 ∷ 0 ∷ 0 ∷ 0 ∷ 0
        ∷ 0 ∷ [])
    ++ replicate 476 7
    ++ (0x30 ∷ 0x6f ∷ 0xb1 ∷ 0x0a ∷ [])

abbrev sevens : ℕ → ℕ
sevens j = 7

-- the block with the 256 bytes of a signature behind it
abbrev stored_package : List ℕ
stored_package = raw_block ++ replicate 256 0

abbrev blank : ℕ → ℕ
blank a = 0xff

main_refines_example :
    (
      (main true 0x20042000 layout nor update_magic blank).0,
      (main true 0x20042000 layout nor update_magic blank).1,
      (main true 0x20042000 layout nor update_magic blank).2,
    )
    ≡ boot_spec true 0x20042000 layout update_magic blank
main_refines_example = main_refines true 0x20042000 layout-Fits nor-IsNor update_magic blank

-- a chip whose slot 1 has a stack pointer of 0x20040400 and a reset handler at 0x10010101
abbrev bootable : ℕ → ℕ
bootable a =
    if a == 0x100101
    then 4
    else if a == 0x100102
    then 4
    else if a == 0x100103
    then 0x20
    else if a == 0x100104
    then 1
    else if a == 0x100105
    then 1
    else if a == 0x100106
    then 1
    else if a == 0x100107
    then 0x10
    else 0

main_jumps_iff_example :
    ((main true 0x20042000 layout nor update_magic bootable).0 ≡ jumped 0x20040400 0x10010101)
    ↔ IsEntry true 0x20042000 layout
        (main true 0x20042000 layout nor update_magic bootable).2
        0x20040400
        0x10010101
main_jumps_iff_example =
    main_jumps_iff true 0x20042000 layout-Fits nor update_magic bootable 0x20040400 0x10010101

remote_http_firmware_update_contained_example :
    (remote_http_firmware_update card nor layout true raw_block 0 blank).3 0x10000 ≡ 0xff
remote_http_firmware_update_contained_example =
    remote_http_firmware_update_contained nor-IsNor layout-Fits card true raw_block 0 blank 0x10000
      (inl (omega arith))
