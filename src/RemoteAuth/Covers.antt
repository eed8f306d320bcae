-- ===== src/RemoteAuth/Covers.antt =====
-- src/remote_auth.c: which addresses a range of the configuration file covers.
use native.Mathlib.Nat.{mul-div_cancel}
use mega65_expansion_board_i.Base.{
  ℕ, ◌+◌, ◌-◌, ◌*◌, ◌/◌, ◌%◌, ◌^◌, ◌<◌, ◌≤◌, ◌≡◌, ◌↔◌, inl, inr, refl, sym, ap, ◌∙◌, true, false,
  some, List, [], ◌∷◌, ◌++◌, ◌==◌, ltb, arith, Bool-cases, ltb→lt, append-nil,
}
use mega65_expansion_board_i.RemoteAuth.Scan.{break_at, cut_at, strtoul}
use mega65_expansion_board_i.RemoteAuth.Address.{
  and32, ends_address, remote_auth_parse_ipv4, decimal, ipv4_text, remote_auth_format_ipv4,
  prefix_mask, cidr_range, parse_cidr,
}
use mega65_expansion_board_i.RemoteAuth.RoundTrip.{
  strtoul-decimal, parse-ipv4_text, format_ipv4-fits,
}
use mega65_expansion_board_i.RemoteAuth.Subnet.{pow_positive, network_of}

-- no byte of the text is `c`
abbrev Without : ℕ → List ℕ → Type 0
Without c [] = Unit
Without c (x ∷ xs) = ((x == c) ≡ false) × Without c xs

Without-append : (c : ℕ) (xs ys : List ℕ) → Without c xs → Without c ys → Without c (xs ++ ys)
Without-append c [] ys h g = g
Without-append c (x ∷ xs) ys (this, h) g = (this, Without-append c xs ys h g)

digit_is_no_slash : (d : ℕ) → d < 10 → (b'0' + d == b'/') ≡ false
digit_is_no_slash d h = ground arith

decimal-Without : (v : ℕ) → v < 256 → Without b'/' (decimal v)
unfolding decimal
decimal-Without v small = elim (Bool-cases (ltb v 10)) [
  | inl one ↦ simp one (digit_is_no_slash v (ltb→lt v 10 one), tt)
  | inr more ↦ elim (Bool-cases (ltb v 100)) [
    | inl two ↦
        let below = ltb→lt v 100 two in
        simp (more, two)
          (digit_is_no_slash (v / 10) (omega arith), (digit_is_no_slash (v % 10) (omega arith), tt))
    | inr three ↦
        simp (more, three)
          (
            digit_is_no_slash (v / 100) (omega arith),
            (
              digit_is_no_slash (v / 10 % 10) (omega arith),
              (digit_is_no_slash (v % 10) (omega arith), tt),
            ),
          )
  ]
]

ipv4_text-Without : (ip : ℕ) → Without b'/' (ipv4_text ip)
unfolding ipv4_text
ipv4_text-Without ip =
    Without-append b'/' (decimal (ip / 2 ^ 24 % 256)) _ (decimal-Without _ (omega arith)) (
      refl,
      Without-append b'/' (decimal (ip / 2 ^ 16 % 256)) _ (decimal-Without _ (omega arith)) (
        refl,
        Without-append b'/' (decimal (ip / 2 ^ 8 % 256)) _ (decimal-Without _ (omega arith))
            (refl, decimal-Without _ (omega arith)),
      ),
    )

equal_bytes : (c : ℕ) → (c == c) ≡ true
equal_bytes c = ground arith

break_at-Without :
    (c : ℕ) (xs ys : List ℕ) → Without c xs → break_at (λ x. x == c) (xs ++ (c ∷ ys)) ≡ (xs, c ∷ ys)
unfolding break_at
break_at-Without c [] ys h = simp (equal_bytes c) refl
break_at-Without c (x ∷ xs) ys (this, h) = simp (this, break_at-Without c xs ys h) refl

cut_at-Without : (c : ℕ) (xs ys : List ℕ) → Without c xs → cut_at c (xs ++ (c ∷ ys)) ≡ some (xs, ys)
unfolding cut_at
cut_at-Without c xs ys h = simp (cut_at, break_at-Without c xs ys h) refl

parse_cidr-eq :
    (a p : ℕ)
    → a < 2 ^ 32
    → p ≤ 32
    → parse_cidr (ipv4_text a ++ (b'/' ∷ decimal p)) ≡ some (and32 a (prefix_mask p), prefix_mask p)
unfolding parse_cidr cidr_range ends_address
parse_cidr-eq a p small le =
    let number : strtoul (decimal p) ≡ (p, []) =
      ap strtoul (sym (append-nil (decimal p))) ∙ strtoul-decimal p [] (omega arith) tt in
    let address : remote_auth_parse_ipv4 (ipv4_text a) ≡ some a =
      ap remote_auth_parse_ipv4 (sym (append-nil (ipv4_text a)))
      ∙ parse-ipv4_text a [] small refl in
    let fits : ltb 32 p ≡ false = ground arith in
    simp
      (
        parse_cidr,
        cut_at-Without b'/' (ipv4_text a) (decimal p) (ipv4_text-Without a),
        number,
        address,
        fits,
      )
      refl

same_quotient : (a b q : ℕ) → 1 ≤ q → a * q ≡ b * q → a ≡ b
same_quotient a b q h e = sym (mul-div_cancel a h) ∙ ap (λ x. x / q) e ∙ mul-div_cancel b h

-- A range `a.b.c.d/p`, with the address printed into a buffer of at least 16 bytes and `p` at most 32,
-- is read, and it holds a 32-bit address exactly if
-- that agrees with `a.b.c.d` in the first `p` bits.
pub parse_cidr-covers :
    (a p ip buflen : ℕ)
    → a < 2 ^ 32
    → p ≤ 32
    → ip < 2 ^ 32
    → 16 ≤ buflen
    → (r : ℕ × ℕ) × (parse_cidr (remote_auth_format_ipv4 a buflen ++ (b'/' ∷ decimal p)) ≡ some r)
      × ((and32 ip r.1 ≡ r.0) ↔ (ip / 2 ^ (32 - p) ≡ a / 2 ^ (32 - p)))
parse_cidr-covers a p ip buflen small le ip_small room =
    let net = network_of p a le small in
    let net_ip = network_of p ip le ip_small in
    (
      (and32 a (prefix_mask p), prefix_mask p),
      rw (format_ipv4-fits a buflen room) (parse_cidr-eq a p small le),
      (
        λ e.
            same_quotient (ip / 2 ^ (32 - p)) (a / 2 ^ (32 - p)) (2 ^ (32 - p))
              (pow_positive (32 - p)) (sym net_ip ∙ e ∙ net),
        λ e. net_ip ∙ ap (λ x. x * 2 ^ (32 - p)) e ∙ sym net,
      ),
    )
