-- ===== src/Http/RoundTrip.antt =====
-- remote_http.c: what is encoded for a URL or as hexadecimal is read back.
use mega65_expansion_board_i.Base.{
  ℕ, suc, ◌+◌, ◌*◌, ◌/◌, ◌%◌, ◌<◌, ◌≡◌, refl, ap, subst, ◌∙◌, Bool, true, false, none, some, List,
  [], ◌∷◌, arith, length, drop, ltb, leb, ◌==◌, Bool-cases, inl, inr, table, table_entry, lt→ltb,
}
use mega65_expansion_board_i.Base.Text.{isalnum, isdigit, isalpha}
use mega65_expansion_board_i.Http.Escape.{
  hex_upper, hex_lower, url_keep, url_encode_from, url_encode, hex_value, hex_pair, cons_to,
  url_decode_from, url_decode, hex_to_bytes, hex_to_bytes32, bytes32_to_hex,
}

abbrev reads_back : (ℕ → ℕ) → ℕ → Bool
reads_back digit v = elim (hex_value (digit v)) [ none ↦ false | some w ↦ w == v ]

reads_back-some : (digit : ℕ → ℕ) (v : ℕ) → reads_back digit v ≡ true → hex_value (digit v) ≡ some v
reads_back-some digit v h = ground arith

hex_upper_reads : table (reads_back hex_upper) 16 ≡ true
unfolding table hex_value hex_upper
hex_upper_reads = refl

hex_value-hex_upper : (v : ℕ) → v < 16 → hex_value (hex_upper v) ≡ some v
hex_value-hex_upper v lt =
    reads_back-some hex_upper v (table_entry (reads_back hex_upper) 16 v lt hex_upper_reads)

hex_lower_reads : table (reads_back hex_lower) 16 ≡ true
unfolding table hex_value hex_lower
hex_lower_reads = refl

pub hex_value-hex_lower : (v : ℕ) → v < 16 → hex_value (hex_lower v) ≡ some v
hex_value-hex_lower v lt =
    reads_back-some hex_lower v (table_entry (reads_back hex_lower) 16 v lt hex_lower_reads)

hex_pair-upper :
    (c : ℕ) (rest : List ℕ)
    → c < 256
    → hex_pair (hex_upper (c / 16) ∷ hex_upper (c % 16) ∷ rest) ≡ some c
unfolding hex_pair
hex_pair-upper c rest lt =
    let whole : c / 16 * 16 + c % 16 ≡ c = omega arith in
    simp (
      hex_pair,
      hex_value-hex_upper (c / 16) (omega arith),
      hex_value-hex_upper (c % 16) (omega arith),
      whole,
    )

hex_pair-lower :
    (c : ℕ) (rest : List ℕ)
    → c < 256
    → hex_pair (hex_lower (c / 16) ∷ hex_lower (c % 16) ∷ rest) ≡ some c
unfolding hex_pair
hex_pair-lower c rest lt =
    let whole : c / 16 * 16 + c % 16 ≡ c = omega arith in
    simp (
      hex_pair,
      hex_value-hex_lower (c / 16) (omega arith),
      hex_value-hex_lower (c % 16) (omega arith),
      whole,
    )

-- every element is a byte
abbrev pub Bytes : List ℕ → Type 0
Bytes [] = Unit {0}
Bytes (c ∷ rest) = (c < 256) × Bytes rest

kept_plain : (c : ℕ) → url_keep c ≡ true → ((c == b'%') ≡ false) × ((c == b'+') ≡ false)
unfolding url_keep isalnum isdigit isalpha
kept_plain c h = ground arith

url_decode-url_encode_from :
    (s : List ℕ) (n m p q : ℕ)
    → Bytes s
    → p + 3 * length s < n
    → q + length s < m
    → url_decode_from m q 0 (url_encode_from n p s) ≡ some s
unfolding url_encode_from url_decode_from
url_decode-url_encode_from [] n m p q b h k = refl
url_decode-url_encode_from (c ∷ s) n m p q (lt, b) h k =
    let room : ltb (p + 1) n ≡ true = lt→ltb _ _ (omega arith) in
    let left : ltb (q + 1) m ≡ true = lt→ltb _ _ (omega arith) in
    elim (Bool-cases (url_keep c)) [
      | inl keep ↦
          let (no_percent, no_plus) = kept_plain c keep in
          simp (url_encode_from, room, keep)
            (simp (
              url_decode_from,
              no_percent,
              no_plus,
              left,
              url_decode-url_encode_from s n m (p + 1) (q + 1) b (omega arith) (omega arith),
            ))
      | inr code ↦
          let fits : leb n (p + 3) ≡ false = ground arith in
          simp (url_encode_from, room, code, fits)
            (simp (
              url_decode_from,
              hex_pair-upper c _ lt,
              left,
              url_decode-url_encode_from s n m (p + 3) (q + 1) b (omega arith) (omega arith),
            ))
    ]

-- `url_decode` reads back what `url_encode` wrote, whatever the bytes, if the first buffer has more
-- than three times their number and the second more than their number.
pub url_decode-url_encode :
    (s : List ℕ) (n m : ℕ)
    → Bytes s
    → 3 * length s < n
    → length s < m
    → url_decode (url_encode s n) m ≡ some s
unfolding url_decode url_encode
url_decode-url_encode s n m b h k =
    let some_room : (m == 0) ≡ false = ground arith in
    simp some_room (url_decode-url_encode_from s n m 0 0 b (omega arith) (omega arith))

hex_to_bytes_step :
    (n v : ℕ) (hex : List ℕ)
    → hex_pair hex ≡ some v
    → hex_to_bytes (suc n) hex ≡ cons_to v (hex_to_bytes n (drop 2 hex))
unfolding hex_to_bytes
hex_to_bytes_step n v hex h = rw (h, hex_to_bytes) refl

hex_to_bytes-bytes32_to_hex :
    (bs : List ℕ) → Bytes bs → hex_to_bytes (length bs) (bytes32_to_hex bs) ≡ some bs
unfolding hex_to_bytes bytes32_to_hex
hex_to_bytes-bytes32_to_hex [] b = refl
hex_to_bytes-bytes32_to_hex (c ∷ bs) (lt, b) =
    hex_to_bytes_step (length bs) c (bytes32_to_hex (c ∷ bs)) (hex_pair-lower c _ lt)
    ∙ ap (cons_to c) (hex_to_bytes-bytes32_to_hex bs b)

-- `hex_to_bytes32` reads back the 64 digits that `bytes32_to_hex` writes of 32 bytes.
pub hex_to_bytes32-bytes32_to_hex :
    (bs : List ℕ) → Bytes bs → length bs ≡ 32 → hex_to_bytes32 (bytes32_to_hex bs) ≡ some bs
unfolding hex_to_bytes32
hex_to_bytes32-bytes32_to_hex bs b len =
    subst (λ n. hex_to_bytes n (bytes32_to_hex bs) ≡ some bs) len (hex_to_bytes-bytes32_to_hex bs b)
