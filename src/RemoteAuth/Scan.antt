-- ===== src/RemoteAuth/Scan.antt =====
-- The functions of <string.h> and <stdlib.h> that src/remote_auth.c scans its text with, and `trim`.
use mega65_expansion_board_i.Base.{
  ℕ, ◌+◌, ◌-◌, ◌*◌, ◌%◌, ◌^◌, Bool, true, false, ◌&&◌, Option, none, some, List, [], ◌∷◌, ◌++◌,
  ◌==◌, ltb, if◌then◌else◌,
}
use mega65_expansion_board_i.Base.Text.{isspace, isdigit}

abbrev pub is_empty : List ℕ → Bool
is_empty [] = true
is_empty (x ∷ xs) = false

unfoldable pub drop_while : (ℕ → Bool) → List ℕ → List ℕ
drop_while p [] = []
drop_while p (x ∷ xs) = if p x then drop_while p xs else x ∷ xs

-- what stands before the first byte that passes, and from there on
unfoldable pub break_at : (ℕ → Bool) → List ℕ → List ℕ × List ℕ
break_at p [] = ([], [])
break_at p (x ∷ xs) =
    let (before, rest) = break_at p xs in if p x then ([], x ∷ xs) else (x ∷ before, rest)

unfoldable pub trim_end : List ℕ → List ℕ
trim_end [] = []
trim_end (x ∷ xs) = let rest = trim_end xs in if isspace x && is_empty rest then [] else x ∷ rest

unfoldable pub trim : List ℕ → List ℕ
trim s = trim_end (drop_while isspace s)

-- `strchr(s, c)` with the byte replaced by a NUL: what stands before it, and behind it
unfoldable pub cut_at : ℕ → List ℕ → Option (List ℕ × List ℕ)
cut_at c s =
    let (before, rest) = break_at (λ x. x == c) s in
    elim rest [ [] ↦ none | x ∷ behind ↦ some (before, behind) ]

-- The tokens that `strtok_r` returns one by one; `acc` is the one under way.
unfoldable pub tokens_from : (ℕ → Bool) → List ℕ → List ℕ → List (List ℕ)
tokens_from delim acc [] = if is_empty acc then [] else acc ∷ []
tokens_from delim acc (x ∷ xs) =
    let fresh = tokens_from delim [] xs in
    let longer = tokens_from delim (acc ++ (x ∷ [])) xs in
    if delim x then (if is_empty acc then fresh else acc ∷ fresh) else longer

unfoldable pub tokens : (ℕ → Bool) → List ℕ → List (List ℕ)
tokens delim s = tokens_from delim [] s

-- the number that the leading digits write, and what follows them
unfoldable pub digits : ℕ → List ℕ → ℕ × List ℕ
digits acc [] = (acc, [])
digits acc (x ∷ xs) =
    let next = digits (acc * 10 + (x - b'0')) xs in if isdigit x then next else (acc, x ∷ xs)

-- `strtoul(s, &end, 10)` behind the sign; `unsigned long` has 32 bits, a larger number is
-- ULONG_MAX, and without a digit `end` is `s`
unfoldable pub strtoul_at : Bool → List ℕ → List ℕ → ℕ × List ℕ
strtoul_at negative s [] = (0, s)
strtoul_at negative s (x ∷ xs) =
    let (v, end) = digits 0 (x ∷ xs) in
    let value =
      if ltb (2 ^ 32 - 1) v then 2 ^ 32 - 1 else if negative then (2 ^ 32 - v) % 2 ^ 32 else v in
    if isdigit x then (value, end) else (0, s)

unfoldable pub strtoul_sign : List ℕ → List ℕ → ℕ × List ℕ
strtoul_sign s [] = (0, s)
strtoul_sign s (x ∷ xs) =
    if x == b'-'
    then strtoul_at true s xs
    else if x == b'+'
    then strtoul_at false s xs
    else strtoul_at false s (x ∷ xs)

unfoldable pub strtoul : List ℕ → ℕ × List ℕ
strtoul s = strtoul_sign s (drop_while isspace s)
