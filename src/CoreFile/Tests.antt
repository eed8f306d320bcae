-- ===== src/CoreFile/Tests.antt =====
-- A card whose file has a position, and the search on it.
use mega65_expansion_board_i.Base.{
  ℕ, ◌+◌, ◌≡◌, refl, true, false, none, some, List, ◌++◌, arith, length, take, drop, replicate, ◌∷◌,
  [],
}
use mega65_expansion_board_i.Storage.{Storage, Seeks, IsSteady}
use mega65_expansion_board_i.CoreFile.Steps.{ok}
use mega65_expansion_board_i.CoreFile.Headers.{parse_xilinx_bit_at}
use mega65_expansion_board_i.CoreFile.Bit.{
  BitRecords, string, body, found_at, parse_xilinx_bit_at-finds,
}
use mega65_expansion_board_i.CoreFile.Wrapper.{wrapper_sig, find_xilinx_bit_wrapper}
use mega65_expansion_board_i.CoreFile.Search.{
  first_preamble, find_xilinx_bit_wrapper-eq-first_preamble,
}

-- 300 bytes, the preamble and some more
abbrev searched : List ℕ
searched = replicate 300 0xff ++ wrapper_sig ++ replicate 20 1

-- The file is fixed; the disk is the position.
abbrev seek_card : List ℕ → Storage
seek_card file = record {
  Disk = ℕ;
  File = Unit {0};
  storage_open = λ p d. (some tt, 0);
  storage_open_write = λ p d. (none, d);
  storage_read = λ f n d. (true, take n (drop d file), d + length (take n (drop d file)));
  storage_write = λ f xs d. (false, 0, d);
  storage_sync = λ f d. (true, d);
  storage_seek = λ f n d. (true, n);
  storage_tell = λ f d. d;
  storage_size = λ f d. length file;
  storage_close = λ f d. d;
  storage_delete = λ p d. (false, d);
  storage_mkdir = λ p d. (false, d);
}

abbrev seek_card-Seeks : (file : List ℕ) → Seeks (seek_card file)
seek_card-Seeks file = record {
  contents = λ f d. file;
  size-contents = λ f d. refl;
  contents-seek = λ f n d. refl;
  contents-read = λ f n d. refl;
  tell-seek = λ f n d ok le. refl;
  tell-read = λ f n d ok. refl;
  read-at = λ f n d ok. refl;
}

abbrev seek_card-IsSteady : (file : List ℕ) → IsSteady (seek_card file)
seek_card-IsSteady file = record { reads = λ f n d. refl; seeks = λ f n d. refl }

find_xilinx_bit_wrapper-eq-first_preamble_example :
    (find_xilinx_bit_wrapper (seek_card searched) tt 0 1000 0).0
    ≡ first_preamble 0 (take 1000 (drop 0 searched))
find_xilinx_bit_wrapper-eq-first_preamble_example =
    find_xilinx_bit_wrapper-eq-first_preamble (seek_card-Seeks searched)
      (seek_card-IsSteady searched) tt 0 1000 0 (omega arith)

abbrev tail_of_bit : List ℕ
tail_of_bit = b'a' ∷ 0 ∷ 1 ∷ 7 ∷ b'e' ∷ 0 ∷ 0 ∷ 0 ∷ 3 ∷ 5 ∷ 6 ∷ 7 ∷ []

-- one string record and a payload of three bytes
abbrev bit_file : List ℕ
bit_file = 0 ∷ 2 ∷ 9 ∷ 9 ∷ 0 ∷ 1 ∷ tail_of_bit

bit_records : BitRecords 3 (5 ∷ 6 ∷ 7 ∷ []) 32 tail_of_bit
bit_records =
    string b'a' 0 1 (7 ∷ []) (b'e' ∷ 0 ∷ 0 ∷ 0 ∷ 3 ∷ 5 ∷ 6 ∷ 7 ∷ []) (omega arith) (omega arith)
      refl refl (body (0 ∷ 0 ∷ 0 ∷ 3 ∷ []) refl refl refl)

parse_xilinx_bit_at-finds_example :
    (parse_xilinx_bit_at (seek_card bit_file) tt 0 0).0 ≡ ok (found_at bit_file 3 (5 ∷ 6 ∷ 7 ∷ []))
parse_xilinx_bit_at-finds_example =
    parse_xilinx_bit_at-finds (seek_card-Seeks bit_file) (seek_card-IsSteady bit_file) tt bit_file
      (omega arith) 0 0 2 3 (9 ∷ 9 ∷ []) tail_of_bit (5 ∷ 6 ∷ 7 ∷ []) 0 refl (omega arith) refl refl
      (omega arith) (omega arith) bit_records (omega arith)
