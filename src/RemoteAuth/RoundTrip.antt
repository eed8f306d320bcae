-- ===== src/RemoteAuth/RoundTrip.antt =====
-- src/remote_auth.c: addresses as text.
use mega65_expansion_board_i.Base.{
  ℕ, ◌+◌, ◌-◌, length, ◌≤◌, length-append, take-all, ◌*◌, ◌/◌, ◌%◌, ◌^◌, ◌<◌, ◌≡◌, inl, inr, refl,
  sym, ap, ◌∙◌, true, false, ◌&&◌, ◌||◌, some, List, [], ◌∷◌, ◌++◌, ◌==◌, ltb, leb, arith,
  Bool-cases, ltb→lt, append_assoc,
}
use mega65_expansion_board_i.Base.Text.{isdigit, isspace}
use mega65_expansion_board_i.RemoteAuth.Scan.{drop_while, digits, strtoul, strtoul_at, strtoul_sign}
use mega65_expansion_board_i.RemoteAuth.Address.{
  parse_part, parse_dotted, ends_address, remote_auth_parse_ipv4, decimal, ipv4_text,
  remote_auth_format_ipv4,
}

-- the text does not go on with a digit
abbrev pub Stops : List ℕ → Type 0
Stops [] = Unit
Stops (x ∷ xs) = isdigit x ≡ false

digits-digit :
    (acc d : ℕ) (xs : List ℕ) → d < 10 → digits acc ((b'0' + d) ∷ xs) ≡ digits (acc * 10 + d) xs
unfolding digits isdigit
digits-digit acc d xs h =
    let is : (leb b'0' (b'0' + d) && leb (b'0' + d) b'9') ≡ true = ground arith in
    let e : b'0' + d - b'0' ≡ d = omega arith in simp (is, e) refl

digits-Stops : (acc : ℕ) (rest : List ℕ) → Stops rest → digits acc rest ≡ (acc, rest)
unfolding digits
digits-Stops acc [] h = refl
digits-Stops acc (x ∷ rest) h = simp h refl

strtoul-digit :
    (d v : ℕ) (xs rest : List ℕ)
    → d < 10
    → v < 256
    → digits d xs ≡ (v, rest)
    → strtoul ((b'0' + d) ∷ xs) ≡ (v, rest)
unfolding strtoul strtoul_sign strtoul_at drop_while isspace isdigit
strtoul-digit d v xs rest h small e =
    let is : (leb b'0' (b'0' + d) && leb (b'0' + d) b'9') ≡ true = ground arith in
    let no_space : (b'0' + d == 32 || (leb 9 (b'0' + d) && leb (b'0' + d) 13)) ≡ false =
      ground arith in
    let no_minus : (b'0' + d == b'-') ≡ false = ground arith in
    let no_plus : (b'0' + d == b'+') ≡ false = ground arith in
    let run : digits 0 ((b'0' + d) ∷ xs) ≡ (v, rest) =
      digits-digit 0 d xs h ∙ (let z : 0 * 10 + d ≡ d = omega arith in rw z e) in
    let fits : ltb (2 ^ 32 - 1) v ≡ false = ground arith in
    simp (no_space, no_minus, no_plus, run, is, fits) refl

pub strtoul-decimal :
    (v : ℕ) (rest : List ℕ) → v < 256 → Stops rest → strtoul (decimal v ++ rest) ≡ (v, rest)
unfolding decimal
strtoul-decimal v rest small stops = elim (Bool-cases (ltb v 10)) [
  | inl one ↦
      simp one (strtoul-digit v v rest rest (ltb→lt v 10 one) small (digits-Stops v rest stops))
  | inr more ↦ elim (Bool-cases (ltb v 100)) [
    | inl two ↦
        let below = ltb→lt v 100 two in
        let val : v / 10 * 10 + v % 10 ≡ v = omega arith in
        simp (more, two)
          (strtoul-digit (v / 10) v _ rest (omega arith) small (
            digits-digit (v / 10) (v % 10) rest (omega arith) ∙ rw val (digits-Stops v rest stops)))
    | inr three ↦
        let mid : v / 100 * 10 + v / 10 % 10 ≡ v / 10 = omega arith in
        let val : v / 10 * 10 + v % 10 ≡ v = omega arith in
        simp (more, three)
          (strtoul-digit (v / 100) v _ rest (omega arith) small (
            digits-digit (v / 100) (v / 10 % 10) ((b'0' + v % 10) ∷ rest) (omega arith)
            ∙ rw mid (
                digits-digit (v / 10) (v % 10) rest (omega arith)
                ∙ rw val (digits-Stops v rest stops))))
  ]
]

decimal_head :
    (v : ℕ) → v < 256 → (d : ℕ) × (xs : List ℕ) × (d < 10) × (decimal v ≡ (b'0' + d) ∷ xs)
unfolding decimal
decimal_head v small = elim (Bool-cases (ltb v 10)) [
  | inl one ↦ (v, [], ltb→lt v 10 one, simp one refl)
  | inr more ↦ elim (Bool-cases (ltb v 100)) [
    | inl two ↦
        let below = ltb→lt v 100 two in
        (v / 10, (b'0' + v % 10) ∷ [], omega arith, simp (more, two) refl)
    | inr three ↦
        (v / 100, (b'0' + v / 10 % 10) ∷ (b'0' + v % 10) ∷ [], omega arith, simp (more, three) refl)
  ]
]

digit_is : (d : ℕ) → d < 10 → isdigit (b'0' + d) ≡ true
unfolding isdigit
digit_is d h = ground arith

part-digit :
    (d v : ℕ) (xs rest : List ℕ)
    → d < 10
    → v < 256
    → strtoul ((b'0' + d) ∷ xs) ≡ (v, rest)
    → parse_part ((b'0' + d) ∷ xs) ≡ some (v, rest)
unfolding parse_part
part-digit d v xs rest h small run =
    let fits : ltb 255 v ≡ false = ground arith in simp (digit_is d h, run, fits) refl

parse_part-decimal :
    (v : ℕ) (rest : List ℕ) → v < 256 → Stops rest → parse_part (decimal v ++ rest) ≡ some (v, rest)
parse_part-decimal v rest small stops =
    let (d, xs, h, e) = decimal_head v small in
    let whole : decimal v ++ rest ≡ (b'0' + d) ∷ (xs ++ rest) = ap (λ w. w ++ rest) e in
    rw whole (
      part-digit d v (xs ++ rest) rest h small
        (sym (ap strtoul whole) ∙ strtoul-decimal v rest small stops))

parse_dotted-decimal :
    (v : ℕ) (rest : List ℕ) → v < 256 → parse_dotted (decimal v ++ (b'.' ∷ rest)) ≡ some (v, rest)
unfolding parse_dotted isdigit
parse_dotted-decimal v rest small =
    simp (parse_dotted, parse_part-decimal v (b'.' ∷ rest) small refl) refl

ends-Stops : (rest : List ℕ) → ends_address rest ≡ true → Stops rest
unfolding ends_address isdigit isspace
ends-Stops [] h = tt
ends-Stops (x ∷ rest) h = ground arith

-- four parts and what follows them
abbrev dotted : ℕ → ℕ → ℕ → ℕ → List ℕ → List ℕ
dotted a b c d rest =
    decimal a ++ (b'.' ∷ (decimal b ++ (b'.' ∷ (decimal c ++ (b'.' ∷ (decimal d ++ rest))))))

parse-dotted :
    (a b c d : ℕ) (rest : List ℕ)
    → a < 256
    → b < 256
    → c < 256
    → d < 256
    → Stops rest
    → ends_address rest ≡ true
    → remote_auth_parse_ipv4 (dotted a b c d rest) ≡ some (a * 2 ^ 24 + b * 2 ^ 16 + c * 2 ^ 8 + d)
unfolding remote_auth_parse_ipv4
parse-dotted a b c d rest ha hb hc hd stops ends =
    simp (parse_dotted-decimal, parse_part-decimal d rest hd stops, ha, hb, hc, ends) refl

format-dotted :
    (ip : ℕ) (rest : List ℕ)
    → ipv4_text ip ++ rest
      ≡ dotted (ip / 2 ^ 24 % 256) (ip / 2 ^ 16 % 256) (ip / 2 ^ 8 % 256) (ip % 256) rest
unfolding ipv4_text
format-dotted ip rest = simp append_assoc refl

pub parse-ipv4_text :
    (ip : ℕ) (rest : List ℕ)
    → ip < 2 ^ 32
    → ends_address rest ≡ true
    → remote_auth_parse_ipv4 (ipv4_text ip ++ rest) ≡ some ip
parse-ipv4_text ip rest small ends =
    let parts : ip / 2 ^ 24 % 256 * 2 ^ 24
          + ip / 2 ^ 16 % 256 * 2 ^ 16
          + ip / 2 ^ 8 % 256 * 2 ^ 8
          + ip % 256
        ≡ ip =
      omega arith in
    ap remote_auth_parse_ipv4 (format-dotted ip rest)
    ∙ parse-dotted (ip / 2 ^ 24 % 256) (ip / 2 ^ 16 % 256) (ip / 2 ^ 8 % 256) (ip % 256) rest
        (omega arith) (omega arith) (omega arith) (omega arith) (ends-Stops rest ends) ends
    ∙ ap some parts

length-decimal : (v : ℕ) → length (decimal v) ≤ 3
unfolding decimal
length-decimal v = ground arith

-- The longest address fits into 16 bytes with its NUL.
pub format_ipv4-fits :
    (ip buflen : ℕ) → 16 ≤ buflen → remote_auth_format_ipv4 ip buflen ≡ ipv4_text ip
unfolding remote_auth_format_ipv4 ipv4_text
format_ipv4-fits ip buflen room =
    let a = decimal (ip / 2 ^ 24 % 256) in
    let b = decimal (ip / 2 ^ 16 % 256) in
    let c = decimal (ip / 2 ^ 8 % 256) in
    let d = decimal (ip % 256) in
    let la = length-append a (b'.' ∷ b ++ (b'.' ∷ c ++ (b'.' ∷ d))) in
    let lb = length-append b (b'.' ∷ c ++ (b'.' ∷ d)) in
    let lc = length-append c (b'.' ∷ d) in
    take-all (buflen - 1) (ipv4_text ip) (
      omega (
        arith,
        la,
        lb,
        lc,
        length-decimal (ip / 2 ^ 24 % 256),
        length-decimal (ip / 2 ^ 16 % 256),
        length-decimal (ip / 2 ^ 8 % 256),
        length-decimal (ip % 256),
      ))

-- A 32-bit address that is printed into a buffer of at least 16 bytes, at the end of a text or before
-- a space, '/', ',' or ';', is read back.
pub parse-format_ipv4 :
    (ip buflen : ℕ) (rest : List ℕ)
    → ip < 2 ^ 32
    → 16 ≤ buflen
    → ends_address rest ≡ true
    → remote_auth_parse_ipv4 (remote_auth_format_ipv4 ip buflen ++ rest) ≡ some ip
parse-format_ipv4 ip buflen rest small room ends =
    rw (format_ipv4-fits ip buflen room) (parse-ipv4_text ip rest small ends)
