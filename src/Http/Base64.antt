-- ===== src/Http/Base64.antt =====
-- remote_http.c: `base64_decode` reads back the base64 of any bytes.
use mega65_expansion_board_i.Base.{
  ℕ, ◌+◌, ◌-◌, ◌*◌, ◌/◌, ◌%◌, ◌^◌, ◌≤◌, ◌<◌, ◌≡◌, refl, ap, ◌∙◌, Bool, true, false, not, ◌&&◌,
  Option, some, List, [], ◌∷◌, arith, length, get_or, ◌==◌, leb, table, table_entry,
}
use mega65_expansion_board_i.Base.Text.{codes, isspace}
use mega65_expansion_board_i.Http.Escape.{cons_to}
use mega65_expansion_board_i.Http.Auth.{
  digit, padding, unknown, b64_value, base64_end, base64_from, base64_decode,
}
use mega65_expansion_board_i.Http.RoundTrip.{Bytes}

-- RFC 4648: the alphabet, and the coding of three bytes by four symbols
abbrev pub alphabet : List ℕ
alphabet = codes "ABCDEFGHIJKLMNOPQRSTUVWXYZabcdefghijklmnopqrstuvwxyz0123456789+/"

unfoldable pub symbol : ℕ → ℕ
symbol v = get_or alphabet v 0

abbrev pub base64 : List ℕ → List ℕ
base64 [] = []
base64 (a ∷ []) = symbol (a / 4) ∷ symbol (a % 4 * 16) ∷ b'=' ∷ b'=' ∷ []
base64 (a ∷ b ∷ []) =
    symbol (a / 4) ∷ symbol (a % 4 * 16 + b / 16) ∷ symbol (b % 16 * 4) ∷ b'=' ∷ []
base64 (a ∷ b ∷ c ∷ rest) =
    symbol (a / 4)
    ∷ symbol (a % 4 * 16 + b / 16)
    ∷ symbol (b % 16 * 4 + c / 64)
    ∷ symbol (c % 64)
    ∷ base64 rest

abbrev is_symbol : ℕ → Bool
is_symbol v =
    let value : Bool = elim (b64_value (symbol v)) [
      | digit w ↦ w == v
      | padding ↦ false
      | unknown ↦ false
    ] in
    not (isspace (symbol v)) && value

symbols : table is_symbol 64 ≡ true
unfolding table symbol b64_value isspace
symbols = refl

symbol-digit : (v : ℕ) → v < 64 → b64_value (symbol v) ≡ digit v
symbol-digit v lt = let e = table_entry is_symbol 64 v lt symbols in ground arith

symbol_seen : (v : ℕ) → v < 64 → isspace (symbol v) ≡ false
symbol_seen v lt = let e = table_entry is_symbol 64 v lt symbols in ground arith

-- a symbol that leaves less than a byte
base64_from-keeps :
    (n pos val bits v : ℕ) (rest : List ℕ)
    → v < 64
    → bits < 2
    → base64_from n pos val bits (symbol v ∷ rest)
      ≡ base64_from n pos ((val * 64 + v) % 2 ^ 32) (bits + 6) rest
unfolding base64_from
base64_from-keeps n pos val bits v rest lt few =
    let short : leb 8 (bits + 6) ≡ false = ground arith in
    simp (base64_from, symbol_seen v lt, symbol-digit v lt, short)

-- a symbol that completes a byte
base64_from-puts :
    (n pos val bits v : ℕ) (rest : List ℕ)
    → v < 64
    → 2 ≤ bits
    → pos + 1 < n
    → base64_from n pos val bits (symbol v ∷ rest)
      ≡ cons_to
          ((val * 64 + v) % 2 ^ 32 / 2 ^ (bits + 6 - 8) % 256)
          (base64_from n (pos + 1) ((val * 64 + v) % 2 ^ 32) (bits + 6 - 8) rest)
unfolding base64_from
base64_from-puts n pos val bits v rest lt many room =
    let full : leb 8 (bits + 6) ≡ true = ground arith in
    let fits : leb n (pos + 1) ≡ false = ground arith in
    simp (base64_from, symbol_seen v lt, symbol-digit v lt, full, fits)

module _ (x a b c : ℕ) (la : a < 256) (lb : b < 256) (lc : c < 256) where
  first_byte : (((x * 64 + a / 4) % 2 ^ 32 * 64 + (a % 4 * 16 + b / 16)) % 2 ^ 32) / 2 ^ 4 % 256 ≡ a
  first_byte = omega arith

  second_byte :
      ((x * 64 + (a % 4 * 16 + b / 16)) % 2 ^ 32 * 64 + (b % 16 * 4 + c / 64))
        % 2 ^ 32
        / 2 ^ 2
        % 256
      ≡ b
  second_byte = omega arith

  third_byte : ((x * 64 + (b % 16 * 4 + c / 64)) % 2 ^ 32 * 64 + c % 64) % 2 ^ 32 / 2 ^ 0 % 256 ≡ c
  third_byte = omega arith

cons_to-some :
    (v w : ℕ) (s : List ℕ) (o : Option (List ℕ)) → v ≡ w → o ≡ some s → cons_to v o ≡ some (w ∷ s)
cons_to-some v w s o e h = rw (e, h) refl

base64_from-end :
    (n pos val bits : ℕ) (rest : List ℕ)
    → pos < n
    → base64_from n pos val bits (b'=' ∷ rest) ≡ some []
unfolding base64_from b64_value isspace base64_end
base64_from-end n pos val bits rest room = let fits : leb n pos ≡ false = ground arith in simp fits

base64_from-base64 :
    (s : List ℕ) (n pos val : ℕ)
    → Bytes s
    → pos + length s < n
    → base64_from n pos val 0 (base64 s) ≡ some s
unfolding base64_from base64_end
base64_from-base64 [] n pos val bs room = let fits : leb n pos ≡ false = ground arith in simp fits
base64_from-base64 (a ∷ []) n pos val (la, _) room =
    let zero_b : a % 4 * 16 ≡ a % 4 * 16 + 0 / 16 = omega arith in
    base64_from-keeps n pos val 0 (a / 4) (symbol (a % 4 * 16) ∷ b'=' ∷ b'=' ∷ []) (omega arith)
      (omega arith)
    ∙ base64_from-puts n pos _ 6 (a % 4 * 16) (b'=' ∷ b'=' ∷ []) (omega arith) (omega arith)
        (omega arith)
    ∙ cons_to-some _ a [] _
        (ap (λ t. ((val * 64 + a / 4) % 2 ^ 32 * 64 + t) % 2 ^ 32 / 2 ^ 4 % 256) zero_b
          ∙ first_byte val a 0 0 la (omega arith) (omega arith))
        (base64_from-end n (pos + 1) _ 4 (b'=' ∷ []) (omega arith))
base64_from-base64 (a ∷ b ∷ []) n pos val (la, (lb, _)) room =
    let zero_c : b % 16 * 4 ≡ b % 16 * 4 + 0 / 64 = omega arith in
    let v1 = (val * 64 + a / 4) % 2 ^ 32 in
    base64_from-keeps n pos val 0 (a / 4)
      (symbol (a % 4 * 16 + b / 16) ∷ symbol (b % 16 * 4) ∷ b'=' ∷ []) (omega arith) (omega arith)
    ∙ base64_from-puts n pos v1 6 (a % 4 * 16 + b / 16) (symbol (b % 16 * 4) ∷ b'=' ∷ [])
        (omega arith) (omega arith) (omega arith)
    ∙ cons_to-some _ a (b ∷ []) _ (first_byte val a b 0 la lb (omega arith)) (
        base64_from-puts n (pos + 1) _ 4 (b % 16 * 4) (b'=' ∷ []) (omega arith) (omega arith)
          (omega arith)
        ∙ cons_to-some _ b [] _
            (ap (λ t. ((v1 * 64 + (a % 4 * 16 + b / 16)) % 2 ^ 32 * 64 + t) % 2 ^ 32 / 2 ^ 2 % 256)
                zero_c
              ∙ second_byte v1 a b 0 la lb (omega arith))
            (base64_from-end n (pos + 1 + 1) _ 2 [] (omega arith)))
base64_from-base64 (a ∷ b ∷ c ∷ s) n pos val (la, (lb, (lc, bs))) room =
    let v1 = (val * 64 + a / 4) % 2 ^ 32 in
    let v2 = (v1 * 64 + (a % 4 * 16 + b / 16)) % 2 ^ 32 in
    let v3 = (v2 * 64 + (b % 16 * 4 + c / 64)) % 2 ^ 32 in
    let t3 = symbol (c % 64) ∷ base64 s in
    let t2 = symbol (b % 16 * 4 + c / 64) ∷ t3 in
    base64_from-keeps n pos val 0 (a / 4) (symbol (a % 4 * 16 + b / 16) ∷ t2) (omega arith)
      (omega arith)
    ∙ base64_from-puts n pos v1 6 (a % 4 * 16 + b / 16) t2 (omega arith) (omega arith) (omega arith)
    ∙ cons_to-some _ a (b ∷ c ∷ s) _ (first_byte val a b c la lb lc) (
        base64_from-puts n (pos + 1) v2 4 (b % 16 * 4 + c / 64) t3 (omega arith) (omega arith)
          (omega arith)
        ∙ cons_to-some _ b (c ∷ s) _ (second_byte v1 a b c la lb lc) (
            base64_from-puts n (pos + 1 + 1) v3 2 (c % 64) (base64 s) (omega arith) (omega arith)
              (omega arith)
            ∙ cons_to-some _ c s _ (third_byte v2 a b c la lb lc)
                (base64_from-base64 s n (pos + 1 + 1 + 1) _ bs (omega arith))))

-- `base64_decode` reads back the base64 of any bytes, if the buffer has more bytes than they are.
pub base64_decode-base64 :
    (s : List ℕ) (n : ℕ) → Bytes s → length s < n → base64_decode (base64 s) n ≡ some s
unfolding base64_decode
base64_decode-base64 s n bs room = base64_from-base64 s n 0 0 bs (omega arith)
