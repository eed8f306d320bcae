-- ===== src/Http/Escape.antt =====
-- remote_http.c: `html_escape`, `js_string_escape`, `url_encode`, `url_decode` and the hexadecimal
-- digits. Each writes into a buffer of `out_len` bytes from position `pos` on, its NUL included.
use mega65_expansion_board_i.Base.{
  ℕ, zero, suc, ◌+◌, ◌-◌, ◌*◌, ◌/◌, ◌%◌, Bool, ◌&&◌, ◌||◌, Option, none, some, List, [], ◌∷◌, ◌++◌,
  length, get_or, drop, ltb, leb, ◌==◌, if◌then◌else◌,
}
use mega65_expansion_board_i.Base.Text.{codes, isalnum}

unfoldable pub html_rep : ℕ → Option (List ℕ)
html_rep c =
    if c == b'&'
    then some (codes "&amp;")
    else if c == b'<'
    then some (codes "&lt;")
    else if c == b'>'
    then some (codes "&gt;")
    else if c == b'"'
    then some (codes "&quot;")
    else none

unfoldable pub html_escape_from : ℕ → ℕ → List ℕ → List ℕ
html_escape_from out_len pos [] = []
html_escape_from out_len pos (c ∷ rest) =
    let put : List ℕ = elim (html_rep c) [
      | some rep ↦
          let more = rep ++ html_escape_from out_len (pos + length rep) rest in
          if leb out_len (pos + length rep) then [] else more
      | none ↦ c ∷ html_escape_from out_len (pos + 1) rest
    ] in
    if ltb (pos + 1) out_len then put else []

-- An empty buffer is left alone.
unfoldable pub html_escape : List ℕ → ℕ → List ℕ
html_escape s out_len = html_escape_from out_len 0 s

unfoldable pub hex_upper : ℕ → ℕ
hex_upper v = get_or (codes "0123456789ABCDEF") v 0

unfoldable pub hex_lower : ℕ → ℕ
hex_lower v = get_or (codes "0123456789abcdef") v 0

-- the bytes that `url_encode` keeps
unfoldable pub url_keep : ℕ → Bool
url_keep c = isalnum c || (c == b'-' || (c == b'_' || (c == b'.' || (c == b'~' || c == b'/'))))

unfoldable pub url_encode_from : ℕ → ℕ → List ℕ → List ℕ
url_encode_from out_len pos [] = []
url_encode_from out_len pos (c ∷ rest) =
    let kept = c ∷ url_encode_from out_len (pos + 1) rest in
    let coded =
      b'%' ∷ hex_upper (c / 16) ∷ hex_upper (c % 16) ∷ url_encode_from out_len (pos + 3) rest in
    let put : List ℕ = if url_keep c then kept else if leb out_len (pos + 3) then [] else coded in
    if ltb (pos + 1) out_len then put else []

unfoldable pub url_encode : List ℕ → ℕ → List ℕ
url_encode s out_len = url_encode_from out_len 0 s

-- none for -1
unfoldable pub hex_value : ℕ → Option ℕ
hex_value c =
    if leb b'0' c && leb c b'9'
    then some (c - b'0')
    else if leb b'a' c && leb c b'f'
    then some (10 + c - b'a')
    else if leb b'A' c && leb c b'F'
    then some (10 + c - b'A')
    else none

-- the two digits that stand at the head of `s`
unfoldable pub hex_pair : List ℕ → Option ℕ
hex_pair s = elim (hex_value (get_or s 0 0)) [
  | none ↦ none
  | some h1 ↦ elim (hex_value (get_or s 1 0)) [ none ↦ none | some h2 ↦ some (h1 * 16 + h2) ]
]

abbrev pub cons_to : ℕ → Option (List ℕ) → Option (List ℕ)
cons_to c none = none
cons_to c (some out) = some (c ∷ out)

-- The result is none for false. `skip` bytes at the head belong to an escape that was read.
unfoldable pub url_decode_from : ℕ → ℕ → ℕ → List ℕ → Option (List ℕ)
url_decode_from out_len pos skip [] = some []
url_decode_from out_len pos (suc skip) (c ∷ rest) = url_decode_from out_len pos skip rest
url_decode_from out_len pos zero (c ∷ rest) =
    let escaped : Option (List ℕ) = elim (hex_pair rest) [
      | none ↦ none
      | some v ↦ cons_to v (url_decode_from out_len (pos + 1) 2 rest)
    ] in
    let plain = cons_to (if c == b'+' then 32 else c) (url_decode_from out_len (pos + 1) 0 rest) in
    let step : Option (List ℕ) = if c == b'%' then escaped else plain in
    if ltb (pos + 1) out_len then step else none

unfoldable pub url_decode : List ℕ → ℕ → Option (List ℕ)
url_decode s out_len = if out_len == 0 then none else url_decode_from out_len 0 0 s

unfoldable pub js_rep : ℕ → Option (List ℕ)
js_rep c =
    if c == b'\\'
    then some (b'\\' ∷ b'\\' ∷ [])
    else if c == b'\''
    then some (b'\\' ∷ b'\'' ∷ [])
    else if c == 10
    then some (codes "\\n")
    else if c == 13
    then some (codes "\\r")
    else if c == 9
    then some (codes "\\t")
    else none

unfoldable pub js_string_escape_from : ℕ → ℕ → List ℕ → List ℕ
js_string_escape_from out_len pos [] = []
js_string_escape_from out_len pos (c ∷ rest) =
    let coded =
      b'\\'
      ∷ b'x'
      ∷ hex_lower (c / 16)
      ∷ hex_lower (c % 16)
      ∷ js_string_escape_from out_len (pos + 4) rest in
    let plain = c ∷ js_string_escape_from out_len (pos + 1) rest in
    let put : List ℕ = elim (js_rep c) [
      | some rep ↦
          let more = rep ++ js_string_escape_from out_len (pos + length rep) rest in
          if leb out_len (pos + length rep) then [] else more
      | none ↦ if ltb c 0x20 then (if leb out_len (pos + 4) then [] else coded) else plain
    ] in
    if ltb (pos + 1) out_len then put else []

unfoldable pub js_string_escape : List ℕ → ℕ → List ℕ
js_string_escape s out_len = js_string_escape_from out_len 0 s

-- `hex_to_bytes32` on `n` pairs of digits
unfoldable pub hex_to_bytes : ℕ → List ℕ → Option (List ℕ)
hex_to_bytes zero hex = if get_or hex 0 0 == 0 then some [] else none
hex_to_bytes (suc n) hex = elim (hex_pair hex) [
  | none ↦ none
  | some v ↦ cons_to v (hex_to_bytes n (drop 2 hex))
]

unfoldable pub hex_to_bytes32 : List ℕ → Option (List ℕ)
hex_to_bytes32 hex = hex_to_bytes 32 hex

unfoldable pub bytes32_to_hex : List ℕ → List ℕ
bytes32_to_hex [] = []
bytes32_to_hex (b ∷ rest) = hex_lower (b / 16) ∷ hex_lower (b % 16) ∷ bytes32_to_hex rest
