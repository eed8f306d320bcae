-- ===== src/Http/Tar.antt =====
-- remote_http.c: the tar headers of a theme package, and the paths that their members go to.
use mega65_expansion_board_i.Base.{
  ℕ, suc, ◌+◌, ◌-◌, ◌*◌, ◌/◌, ◌^◌, Bool, true, false, not, ◌&&◌, ◌||◌, Option, none, some, List, [],
  ◌∷◌, ◌++◌, take, slice, ltb, leb, ◌==◌, if◌then◌else◌,
}
use mega65_expansion_board_i.Base.Text.{codes, cstr}
use mega65_expansion_board_i.Http.Strings.{fits_in, snprintf}
use mega65_expansion_board_i.Http.Names.{is_empty, safe_www_path}

-- on the 512 bytes of a block
unfoldable pub tar_zero_block : List ℕ → Bool
tar_zero_block [] = true
tar_zero_block (b ∷ rest) = b == 0 && tar_zero_block rest

-- `any` says that a digit was read; the result is none for false.
unfoldable pub tar_octal_from : Bool → ℕ → List ℕ → Option ℕ
tar_octal_from any v [] = some v
tar_octal_from any v (c ∷ p) =
    let blank : Option ℕ = if any then some v else tar_octal_from any v p in
    let digit = tar_octal_from true (v * 8 + (c - b'0')) p in
    if c == 0 || c == 32
    then blank
    else if ltb c b'0' || ltb b'7' c
    then none
    else if ltb ((2 ^ 32 - 1) / 8) v
    then none
    else digit

unfoldable pub tar_octal : List ℕ → Option ℕ
tar_octal p = tar_octal_from false 0 p

-- the sum of the bytes, with the checksum's own field, at 148, as spaces
unfoldable pub tar_sum : ℕ → List ℕ → ℕ
tar_sum i [] = 0
tar_sum i (b ∷ rest) = (if leb 148 i && ltb i 156 then 32 else b) + tar_sum (suc i) rest

unfoldable pub tar_checksum_ok : List ℕ → Bool
tar_checksum_ok block = elim (tar_octal (slice 148 8 block)) [
  | none ↦ false
  | some stored ↦ tar_sum 0 block == stored
]

unfoldable pub tar_name : List ℕ → ℕ → Option (List ℕ)
tar_name block out_len =
    let name = cstr (take 100 block) in
    let prefix = cstr (slice 345 155 block) in
    if is_empty prefix then fits_in out_len name else fits_in out_len (prefix ++ b'/' ∷ name)

-- `while (n > 0 && tmp[n - 1] == '/') tmp[--n] = 0`
unfoldable pub strip_slashes : List ℕ → List ℕ
strip_slashes [] = []
strip_slashes (c ∷ rest) =
    let kept = strip_slashes rest in if c == b'/' && is_empty kept then [] else c ∷ kept

unfoldable pub make_www_output_path : List ℕ → ℕ → Option (List ℕ)
make_www_output_path rel out_len =
    let tmp = strip_slashes (snprintf 224 rel) in
    if not (safe_www_path tmp)
    then none
    else if is_empty tmp
    then none
    else fits_in out_len (codes "WWW/" ++ tmp)
