-- ===== src/Base/Text.antt =====
-- C strings as lists of byte values without their NUL, and the functions of <string.h> and
-- <ctype.h> (C locale) that the firmware calls.
use Prim.Native.Char.{code}
use Prim.Native.String.{String}
use mega65_expansion_board_i.Base.{
  ℕ, ◌+◌, ◌≡◌, ◌↔◌, Bool, true, false, ◌&&◌, ◌||◌, Option, none, some, List, [], ◌∷◌, arith, leb,
  ◌==◌, if◌then◌else◌,
}

-- the bytes of an ASCII literal
abbrev pub codes : String → List ℕ
codes String.[] = []
codes (String.◌∷◌ c s) = code c ∷ codes s

abbrev within : ℕ → ℕ → ℕ → Bool
within lo hi c = leb lo c && leb c hi

unfoldable pub isdigit : ℕ → Bool
isdigit c = within b'0' b'9' c

unfoldable pub isalpha : ℕ → Bool
isalpha c = within b'a' b'z' c || within b'A' b'Z' c

unfoldable pub isalnum : ℕ → Bool
unfolding isdigit isalpha
isalnum c = isdigit c || isalpha c

-- space, \t, \n, \v, \f, \r
unfoldable pub isspace : ℕ → Bool
isspace c = c == 32 || within 9 13 c

unfoldable pub tolower : ℕ → ℕ
tolower c = if within b'A' b'Z' c then c + 32 else c

-- `memcmp(a, b, n) == 0` on blocks of one length, `strcmp(a, b) == 0` on strings
unfoldable pub bytes_eq : List ℕ → List ℕ → Bool
bytes_eq [] [] = true
bytes_eq (x ∷ xs) (y ∷ ys) = x == y && bytes_eq xs ys
bytes_eq _ _ = false

pub bytes_eq_iff : (a b : List ℕ) → (bytes_eq a b ≡ true) ↔ (a ≡ b)
unfolding bytes_eq
bytes_eq_iff (x ∷ a) (y ∷ b) = ground (arith, bytes_eq_iff a b)
bytes_eq_iff _ _ = ground arith

-- `ext_equal_ci` and `ci_equal`: equal but for the case of letters
unfoldable pub ci_equal : List ℕ → List ℕ → Bool
ci_equal [] [] = true
ci_equal (x ∷ xs) (y ∷ ys) = tolower x == tolower y && ci_equal xs ys
ci_equal _ _ = false

-- `ci_starts_with(s, prefix)`
unfoldable pub ci_starts_with : List ℕ → List ℕ → Bool
ci_starts_with s [] = true
ci_starts_with [] (p ∷ ps) = false
ci_starts_with (x ∷ xs) (p ∷ ps) = tolower x == tolower p && ci_starts_with xs ps

-- `strrchr(s, c)`: from the last `c` on
unfoldable pub strrchr : ℕ → List ℕ → Option (List ℕ)
strrchr c [] = none
strrchr c (x ∷ xs) = elim (strrchr c xs) [
  | some r ↦ some r
  | none ↦ if x == c then some (x ∷ xs) else none
]

-- what stands before the first NUL of a field
unfoldable pub cstr : List ℕ → List ℕ
cstr [] = []
cstr (x ∷ xs) = if x == 0 then [] else x ∷ cstr xs
