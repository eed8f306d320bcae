-- ===== src/Http/Inert.antt =====
-- remote_http.c: escaped text cannot leave the HTML text it is put into.
use mega65_expansion_board_i.Base.{
  ℕ, ◌+◌, ◌<◌, ◌≡◌, refl, Bool, true, not, ◌&&◌, ◌||◌, none, some, List, [], ◌∷◌, ◌++◌, arith,
  length, ltb, leb, ◌==◌, Bool-cases, Option-cases, inl, inr, length-append, ltb→lt,
}
use mega65_expansion_board_i.Http.Escape.{html_rep, html_escape_from, html_escape}

-- a byte that ends a text or an attribute's value
abbrev pub is_markup : ℕ → Bool
is_markup c = c == b'<' || (c == b'>' || c == b'"')

-- no byte of the string does
abbrev pub no_markup : List ℕ → Bool
no_markup [] = true
no_markup (c ∷ s) = not (is_markup c) && no_markup s

no_markup-append :
    (s t : List ℕ) → no_markup s ≡ true → no_markup t ≡ true → no_markup (s ++ t) ≡ true
no_markup-append [] t h k = k
no_markup-append (c ∷ s) t h k =
    let r : no_markup s ≡ true = ground arith in
    let f : not (is_markup c) ≡ true = ground arith in
    let ih = no_markup-append s t r k in simp (f, ih)

html_rep_all :
    (c : ℕ) → (elim (html_rep c) as (λ _. Bool) [ none ↦ true | some rep ↦ no_markup rep ]) ≡ true
unfolding html_rep
html_rep_all c = ground arith

html_rep_inert : (c : ℕ) (rep : List ℕ) → html_rep c ≡ some rep → no_markup rep ≡ true
html_rep_inert c rep h = let t = html_rep_all c in simp h at t

html_rep-none : (c : ℕ) → html_rep c ≡ none → not (is_markup c) ≡ true
unfolding html_rep
html_rep-none c h = ground arith

html_escape_from_inert : (s : List ℕ) (n p : ℕ) → no_markup (html_escape_from n p s) ≡ true
unfolding html_escape_from
html_escape_from_inert [] n p = refl
html_escape_from_inert (c ∷ s) n p = elim (Bool-cases (ltb (p + 1) n)) [
  | inr full ↦ simp (html_escape_from, full)
  | inl room ↦ elim (Option-cases (html_rep c)) [
    | inl plain ↦
        simp
          (html_escape_from, room, plain, html_rep-none c plain, html_escape_from_inert s n (p + 1))
    | inr (rep, coded) ↦ elim (Bool-cases (leb n (p + length rep))) [
      | inl long ↦ simp (html_escape_from, room, coded, long)
      | inr short ↦
          simp (html_escape_from, room, coded, short)
            (no_markup-append rep _ (html_rep_inert c rep coded)
              (html_escape_from_inert s n (p + length rep)))
    ]
  ]
]

html_escape_from_fits : (s : List ℕ) (n p : ℕ) → p < n → p + length (html_escape_from n p s) < n
unfolding html_escape_from
html_escape_from_fits [] n p h = omega arith
html_escape_from_fits (c ∷ s) n p h = elim (Bool-cases (ltb (p + 1) n)) [
  | inr full ↦ simp (html_escape_from, full) (omega arith)
  | inl room ↦ elim (Option-cases (html_rep c)) [
    | inl plain ↦
        let ih = html_escape_from_fits s n (p + 1) (ltb→lt _ _ room) in
        simp (html_escape_from, room, plain) (omega arith)
    | inr (rep, coded) ↦ elim (Bool-cases (leb n (p + length rep))) [
      | inl long ↦ simp (html_escape_from, room, coded, long) (omega arith)
      | inr short ↦
          let ih = html_escape_from_fits s n (p + length rep) (ground arith) in
          let len = length-append rep (html_escape_from n (p + length rep) s) in
          simp (html_escape_from, room, coded, short) (omega arith)
    ]
  ]
]

-- `html_escape` cannot end the text or the quoted attribute it is put into: whatever the string, its
-- output has no '<', '>' or '"', and with its NUL it fits into any buffer that is not empty.
pub html_escape_inert :
    (s : List ℕ) (out_len : ℕ)
    → 0 < out_len
    → (no_markup (html_escape s out_len) ≡ true) × (length (html_escape s out_len) < out_len)
unfolding html_escape
html_escape_inert s n h =
    (html_escape_from_inert s n 0, let f = html_escape_from_fits s n 0 h in omega arith)
