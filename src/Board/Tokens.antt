-- ===== src/Board/Tokens.antt =====
-- src/core_filter.c: where a text names a board, stated by the places in the text.
use mega65_expansion_board_i.Base.{
  ℕ, ◌≡◌, ◌↔◌, ◌⊎◌, inl, inr, refl, ap, Bool, true, not, ◌&&◌, ◌||◌, List, [], ◌∷◌, ◌++◌, ◌==◌,
  ==_iff, arith, Bool-cases,
}
use mega65_expansion_board_i.Base.Text.{codes, isalnum, tolower}
use mega65_expansion_board_i.Board.Filter.{
  is_boundary, token_from, token_match, strstr, contains_model,
}
use mega65_expansion_board_i.Http.Strings.{Contains, strstr-Contains, Contains-strstr}

-- the last byte is no letter and no digit; `start` for the empty text
abbrev pub ends_free : Bool → List ℕ → Bool
ends_free start [] = start
ends_free start (x ∷ s) = ends_free (not (isalnum x)) s

-- nor is the first
abbrev pub starts_free : List ℕ → Bool
starts_free [] = true
starts_free (x ∷ s) = not (isalnum x)

-- An `r` in either case and the character `r` behind it stand in the text as a word of their own.
abbrev pub HasToken : Bool → ℕ → List ℕ → Type 0
HasToken start r s =
    (pre : List ℕ) × (c : ℕ) × (d : ℕ) × (post : List ℕ) × (s ≡ pre ++ (c ∷ d ∷ post))
    × (tolower c ≡ b'r')
    × (tolower d ≡ r)
    × (ends_free start pre ≡ true)
    × (starts_free post ≡ true)

is_boundary_free : (s : List ℕ) → is_boundary s ≡ starts_free s
unfolding is_boundary
is_boundary_free [] = refl
is_boundary_free (x ∷ s) = refl

token_from-HasToken :
    (start : Bool) (r : ℕ) (s : List ℕ) → token_from start r s ≡ true → HasToken start r s
unfolding token_from
token_from-HasToken start r [] h = cc
token_from-HasToken start r (c ∷ []) h = cc
token_from-HasToken start r (c ∷ d ∷ post) h =
    elim (Bool-cases (token_from (not (isalnum c)) r (d ∷ post))) [
      | inl later ↦
          let (pre, c', d', post', split, low, digit, before, after) =
            token_from-HasToken (not (isalnum c)) r (d ∷ post) later in
          (c ∷ pre, c', d', post', ap (◌∷◌ c) split, low, digit, before, after)
      | inr gone ↦
          let free = is_boundary_free post in
          let here : ((tolower c == b'r' && tolower d == r) && (start && is_boundary post)) ≡ true =
            ground arith in
          let low : tolower c ≡ b'r' = (==_iff (tolower c) b'r').0 (ground arith) in
          let digit : tolower d ≡ r = (==_iff (tolower d) r).0 (ground arith) in
          ([], c, d, post, refl, low, digit, ground arith, ground arith)
    ]

HasToken-token_from :
    (r : ℕ) (pre : List ℕ) (start : Bool) (c d : ℕ) (post : List ℕ)
    → tolower c ≡ b'r'
    → tolower d ≡ r
    → ends_free start pre ≡ true
    → starts_free post ≡ true
    → token_from start r (pre ++ (c ∷ d ∷ post)) ≡ true
unfolding token_from
HasToken-token_from r [] start c d post low digit before after =
    let free = is_boundary_free post in ground arith
HasToken-token_from r (x ∷ []) start c d post low digit before after =
    let ih = HasToken-token_from r [] (not (isalnum x)) c d post low digit before after in
    ground arith
HasToken-token_from r (x ∷ y ∷ pre) start c d post low digit before after =
    let ih = HasToken-token_from r (y ∷ pre) (not (isalnum x)) c d post low digit before after in
    ground arith

-- `token_match` finds exactly the words of this form.
pub token_match_iff : (s : List ℕ) (r : ℕ) → (token_match s r ≡ true) ↔ HasToken true r s
unfolding token_match
token_match_iff s r = (
  token_from-HasToken true r s,
  λ (pre, c, d, post, split, low, digit, before, after).
      rw split (HasToken-token_from r pre true c d post low digit before after),
)

-- The text names the board: by the word, or by one of the two spellings of the machine's name.
pub data Names (s : List ℕ) : ℕ → Type 0 where
  r3 :
      HasToken true b'3' s ⊎ (Contains (codes "mega65r3") s ⊎ Contains (codes "MEGA65R3") s)
      → Names s 3
  r6 :
      HasToken true b'6' s ⊎ (Contains (codes "mega65r6") s ⊎ Contains (codes "MEGA65R6") s)
      → Names s 6

-- three tests, each of which decides a statement, decide their sum
one_of :
    {P Q R : Type 0} {a b c : Bool}
    → (a ≡ true) ↔ P
    → (b ≡ true) ↔ Q
    → (c ≡ true) ↔ R
    → ((a || (b || c)) ≡ true) ↔ (P ⊎ (Q ⊎ R))
one_of {a} {b} {c} f g h = (
  λ e. elim (Bool-cases a) [
    | inl at ↦ inl (f.0 at)
    | inr na ↦ elim (Bool-cases b) [
      | inl bt ↦ inr (inl (g.0 bt))
      | inr nb ↦ inr (inr (h.0 (ground arith)))
    ]
  ],
  λ w. elim w [
    | inl p ↦ let e = f.1 p in ground arith
    | inr v ↦ elim v [
      | inl q ↦ let e = g.1 q in ground arith
      | inr r ↦ let e = h.1 r in ground arith
    ]
  ],
)

strstr_iff : (s : List ℕ) (p : ℕ) (ps : List ℕ) → (strstr s (p ∷ ps) ≡ true) ↔ Contains (p ∷ ps) s
strstr_iff s p ps = (strstr-Contains s p ps, Contains-strstr p ps s)

by_r3 :
    {s : List ℕ} {board : ℕ}
    → Names s board
    → board ≡ 3
    → HasToken true b'3' s ⊎ (Contains (codes "mega65r3") s ⊎ Contains (codes "MEGA65R3") s)
by_r3 (r3 w) e = w
by_r3 (r6 w) e = absurd (omega arith)

by_r6 :
    {s : List ℕ} {board : ℕ}
    → Names s board
    → board ≡ 6
    → HasToken true b'6' s ⊎ (Contains (codes "mega65r6") s ⊎ Contains (codes "MEGA65R6") s)
by_r6 (r6 w) e = w
by_r6 (r3 w) e = absurd (omega arith)

pub contains_model_iff :
    (s : List ℕ) (board : ℕ)
    → (board ≡ 3) ⊎ (board ≡ 6)
    → (contains_model s board ≡ true) ↔ Names s board
unfolding contains_model
contains_model_iff s board (inl is) =
    let k = one_of (token_match_iff s b'3') (strstr_iff s _ _) (strstr_iff s _ _) in
    rw is (λ h. r3 (k.0 h), λ n. k.1 (by_r3 n refl))
contains_model_iff s board (inr is) =
    let k = one_of (token_match_iff s b'6') (strstr_iff s _ _) (strstr_iff s _ _) in
    rw is (λ h. r6 (k.0 h), λ n. k.1 (by_r6 n refl))
