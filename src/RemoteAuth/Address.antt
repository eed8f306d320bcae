-- ===== src/RemoteAuth/Address.antt =====
-- src/remote_auth.c: IPv4 addresses and ranges of them. An address is a 32-bit number.
use mega65_expansion_board_i.Base.{
  ℕ, zero, suc, ◌+◌, ◌-◌, take, ◌*◌, ◌/◌, ◌%◌, ◌^◌, Bool, true, not, ◌&&◌, ◌||◌, Option, none, some,
  List, [], ◌∷◌, ◌++◌, ◌==◌, ltb, ◌>>=◌, if◌then◌else◌,
}
use mega65_expansion_board_i.Base.Text.{isdigit, isspace}
use mega65_expansion_board_i.Base.Bits.{odd}
use mega65_expansion_board_i.RemoteAuth.Scan.{is_empty, cut_at, strtoul}

-- `a & b` of two words of `n` bits
unfoldable pub and_bits : ℕ → ℕ → ℕ → ℕ
and_bits zero a b = 0
and_bits (suc n) a b = (if odd a && odd b then 1 else 0) + 2 * and_bits n (a / 2) (b / 2)

abbrev pub and32 : ℕ → ℕ → ℕ
and32 a b = and_bits 32 a b

-- one of the four parts: a digit first, then a number up to 255
unfoldable pub parse_part : List ℕ → Option (ℕ × List ℕ)
parse_part [] = none
parse_part (x ∷ xs) =
    let (v, end) = strtoul (x ∷ xs) in
    if not (isdigit x) then none else if ltb 255 v then none else some (v, end)

-- a part and the dot behind it
unfoldable pub parse_dotted : List ℕ → Option (ℕ × List ℕ)
parse_dotted s = elim (parse_part s) [
  | none ↦ none
  | some (v, []) ↦ none
  | some (v, x ∷ rest) ↦ if x == b'.' then some (v, rest) else none
]

-- The address may end the text, or a space, '/', ',' or ';' follows.
unfoldable pub ends_address : List ℕ → Bool
ends_address [] = true
ends_address (x ∷ xs) = isspace x || (x == b'/' || (x == b',' || x == b';'))

unfoldable pub remote_auth_parse_ipv4 : List ℕ → Option ℕ
remote_auth_parse_ipv4 s = do
  (a, s1) ← parse_dotted s
  (b, s2) ← parse_dotted s1
  (c, s3) ← parse_dotted s2
  (d, s4) ← parse_part s3
  if ends_address s4 then some (a * 2 ^ 24 + b * 2 ^ 16 + c * 2 ^ 8 + d) else none

-- `%lu` of a number below 256
unfoldable pub decimal : ℕ → List ℕ
decimal v =
    if ltb v 10
    then (b'0' + v) ∷ []
    else if ltb v 100
    then (b'0' + v / 10) ∷ (b'0' + v % 10) ∷ []
    else (b'0' + v / 100) ∷ (b'0' + v / 10 % 10) ∷ (b'0' + v % 10) ∷ []

-- what the format of `remote_auth_format_ipv4` gives
unfoldable pub ipv4_text : ℕ → List ℕ
ipv4_text ip =
    decimal (ip / 2 ^ 24 % 256)
    ++ (b'.' ∷ decimal (ip / 2 ^ 16 % 256)
        ++ (b'.' ∷ decimal (ip / 2 ^ 8 % 256) ++ (b'.' ∷ decimal (ip % 256))))

-- What `buf` holds up to its NUL: `snprintf` cuts the text at a buffer of `buflen` bytes.
unfoldable pub remote_auth_format_ipv4 : ℕ → ℕ → List ℕ
remote_auth_format_ipv4 ip buflen = take (buflen - 1) (ipv4_text ip)

-- `prefix == 0 ? 0u : 0xffffffffu << (32u - prefix)`
unfoldable pub prefix_mask : ℕ → ℕ
prefix_mask prefix = if prefix == 0 then 0 else ((2 ^ 32 - 1) * 2 ^ (32 - prefix)) % 2 ^ 32

unfoldable pub cidr_range : ℕ → Option ℕ → Option (ℕ × ℕ)
cidr_range prefix none = none
cidr_range prefix (some ip) = some (and32 ip (prefix_mask prefix), prefix_mask prefix)

-- The network and the mask of a range.
unfoldable pub parse_cidr : List ℕ → Option (ℕ × ℕ)
parse_cidr token = elim (cut_at b'/' token) [
  | none ↦ cidr_range 32 (remote_auth_parse_ipv4 token)
  | some (address, behind) ↦
      let (v, end) = strtoul behind in
      if not (is_empty end) || ltb 32 v then none else cidr_range v (remote_auth_parse_ipv4 address)
]
