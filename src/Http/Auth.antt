-- ===== src/Http/Auth.antt =====
-- remote_http.c: the fields of a request's header, base64 and the check of the credentials. `val` of
-- `base64_decode` keeps its low 32 bits, and `bits` counts from -8 as 0.
use mega65_expansion_board_i.Base.{
  ℕ, zero, suc, ◌+◌, ◌-◌, ◌*◌, ◌/◌, ◌%◌, ◌^◌, Bool, true, false, not, ◌&&◌, ◌||◌, Option, none,
  some, List, [], ◌∷◌, ◌++◌, length, get_or, drop, ◌==◌, ltb, leb, if◌then◌else◌,
}
use mega65_expansion_board_i.Base.Text.{codes, cstr, isspace, ci_starts_with, bytes_eq}
use mega65_expansion_board_i.RemoteAuth.Scan.{drop_while, break_at, cut_at}
use mega65_expansion_board_i.Board.Filter.{starts_with}
use mega65_expansion_board_i.Http.Strings.{snprintf}
use mega65_expansion_board_i.Http.Names.{is_empty}
use mega65_expansion_board_i.Http.Escape.{cons_to}

-- what stands before the first "\r\n", and behind it
unfoldable pub cut_crlf : List ℕ → Option (List ℕ × List ℕ)
cut_crlf [] = none
cut_crlf (c ∷ s) =
    let more : Option (List ℕ × List ℕ) = elim (cut_crlf s) [
      | none ↦ none
      | some (line, rest) ↦ some (c ∷ line, rest)
    ] in
    if starts_with (c ∷ s) (13 ∷ 10 ∷ []) then some ([], drop 1 s) else more

-- `line_end`: the first "\r\n" of all that is left, or else the first '\n'
unfoldable pub next_line : List ℕ → Option (List ℕ × List ℕ)
next_line p = elim (cut_crlf p) [ some cut ↦ some cut | none ↦ cut_at 10 p ]

-- The loop runs on fuel; a line takes a byte at least, so the length and one are enough. The value
-- is all that stands behind the ':' and its blanks.
unfoldable pub header_value_from : ℕ → List ℕ → List ℕ → Option (List ℕ)
header_value_from zero key p = none
header_value_from (suc n) key p = elim (next_line p) [
  | none ↦ none
  | some (line, rest) ↦
      let further = header_value_from n key rest in
      let here = some (drop_while (λ c. c == 32 || c == 9) (drop (length key + 1) p)) in
      if length line == 0
      then none
      else if ltb (length key) (length line)
          && (ci_starts_with p key && get_or p (length key) 0 == b':')
      then here
      else further
]

unfoldable pub header_value : List ℕ → List ℕ → Option (List ℕ)
header_value headers key = header_value_from (suc (length headers)) key headers

-- the first `header_value_len` bytes
unfoldable pub header_line : List ℕ → List ℕ
header_line value = (break_at (λ c. c == 13 || c == 10) value).0

pub data Symbol : Type 0 where
  digit : ℕ → Symbol
  padding unknown : Symbol

unfoldable pub b64_value : ℕ → Symbol
b64_value c =
    if leb b'A' c && leb c b'Z'
    then digit (c - b'A')
    else if leb b'a' c && leb c b'z'
    then digit (26 + c - b'a')
    else if leb b'0' c && leb c b'9'
    then digit (52 + c - b'0')
    else if c == b'+'
    then digit 62
    else if c == b'/'
    then digit 63
    else if c == b'='
    then padding
    else unknown

unfoldable pub base64_end : ℕ → ℕ → Option (List ℕ)
base64_end out_len pos = if leb out_len pos then none else some []

unfoldable pub base64_from : ℕ → ℕ → ℕ → ℕ → List ℕ → Option (List ℕ)
base64_from out_len pos val bits [] = base64_end out_len pos
base64_from out_len pos val bits (c ∷ rest) =
    let skipped = base64_from out_len pos val bits rest in
    let coded : Option (List ℕ) = elim (b64_value c) [
      | padding ↦ base64_end out_len pos
      | unknown ↦ none
      | digit v ↦
          let val' = (val * 64 + v) % 2 ^ 32 in
          let kept = base64_from out_len pos val' (bits + 6) rest in
          let put =
            cons_to (val' / 2 ^ (bits + 6 - 8) % 256)
              (base64_from out_len (pos + 1) val' (bits + 6 - 8) rest) in
          let full : Option (List ℕ) = if leb out_len (pos + 1) then none else put in
          if leb 8 (bits + 6) then full else kept
    ] in
    if isspace c then skipped else coded

unfoldable pub base64_decode : List ℕ → ℕ → Option (List ℕ)
base64_decode s out_len = base64_from out_len 0 0 0 s

-- the bytes of `strcmp(decoded, expected) == 0`
unfoldable pub same_credentials : Option (List ℕ) → List ℕ → Bool
same_credentials none expected = false
same_credentials (some decoded) expected = bytes_eq (cstr decoded) expected

-- the value of the field "Authorization"
unfoldable pub authorized : List ℕ → List ℕ → Option (List ℕ) → Bool
authorized user password none = false
authorized user password (some auth) =
    let line = header_line auth in
    let expected = snprintf 112 (user ++ b':' ∷ password) in
    if ltb (length line) 7 || not (ci_starts_with auth (codes "Basic "))
    then false
    else same_credentials (base64_decode (drop 6 line) 112) expected

unfoldable pub basic_auth_ok : List ℕ → List ℕ → List ℕ → Bool
basic_auth_ok user password header =
    if is_empty user && is_empty password
    then true
    else authorized user password (header_value header (codes "Authorization"))
