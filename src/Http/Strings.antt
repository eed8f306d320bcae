-- ===== src/Http/Strings.antt =====
-- <string.h> and `snprintf` as remote_http.c calls them, and what its tests say of a string.
use mega65_expansion_board_i.Base.{
  ℕ, ◌-◌, ◌≡◌, refl, ap, ◌∙◌, inl, inr, Bool, true, false, ◌||◌, Option, none, some, List, [], ◌∷◌,
  ◌++◌, arith, length, take, drop, ltb, ◌==◌, if◌then◌else◌, ==_iff, Bool-cases,
}
use mega65_expansion_board_i.Board.Filter.{starts_with, strstr}

-- `strchr(s, c) != NULL`, for a byte that is not NUL
unfoldable pub strchr : List ℕ → ℕ → Bool
strchr [] c = false
strchr (x ∷ xs) c = x == c || strchr xs c

-- `snprintf(out, out_len, "%s", s) < (int)out_len`, with what `out` then holds
unfoldable pub fits_in : ℕ → List ℕ → Option (List ℕ)
fits_in out_len s = if ltb (length s) out_len then some s else none

-- what `snprintf` leaves in `out`, of whatever length
unfoldable pub snprintf : ℕ → List ℕ → List ℕ
snprintf out_len s = take (out_len - 1) s

pub data Contains (part : List ℕ) : List ℕ → Type 0 where
  here : {s : List ℕ} (post : List ℕ) → s ≡ part ++ post → Contains part s
  later : {s : List ℕ} (x : ℕ) (rest : List ℕ) → s ≡ x ∷ rest → Contains part rest → Contains part s

pub starts_with_split :
    (s part : List ℕ) → starts_with s part ≡ true → s ≡ part ++ drop (length part) s
unfolding starts_with
starts_with_split s [] h = refl
starts_with_split [] (p ∷ ps) h = cc
starts_with_split (x ∷ xs) (p ∷ ps) h =
    let e : x ≡ p = (==_iff x p).0 (ground arith) in
    let r : starts_with xs ps ≡ true = ground arith in
    ap (λ k. k ∷ xs) e ∙ ap (◌∷◌ p) (starts_with_split xs ps r)

pub starts_with-append : (part post : List ℕ) → starts_with (part ++ post) part ≡ true
unfolding starts_with
starts_with-append [] post = refl
starts_with-append (p ∷ ps) post = ground (arith, starts_with-append ps post)

-- `strstr` finds a part exactly if the string contains it.
pub strstr-Contains :
    (s : List ℕ) (p : ℕ) (ps : List ℕ) → strstr s (p ∷ ps) ≡ true → Contains (p ∷ ps) s
unfolding strstr
strstr-Contains [] p ps h = cc
strstr-Contains (x ∷ xs) p ps h = elim (Bool-cases (starts_with (x ∷ xs) (p ∷ ps))) [
  | inl e ↦ here (drop (length (p ∷ ps)) (x ∷ xs)) (starts_with_split (x ∷ xs) (p ∷ ps) e)
  | inr e ↦
      let r : strstr xs (p ∷ ps) ≡ true = simp e at h in later x xs refl (strstr-Contains xs p ps r)
]

pub Contains-strstr : (p : ℕ) (ps s : List ℕ) → Contains (p ∷ ps) s → strstr s (p ∷ ps) ≡ true
unfolding strstr
Contains-strstr p ps s (here post e) = let h = starts_with-append (p ∷ ps) post in rw e (rw h refl)
Contains-strstr p ps s (later x rest e c) =
    let ih = Contains-strstr p ps rest c in rw e (ground arith)

-- a byte occurs in a string
pub data Has (c : ℕ) : List ℕ → Type 0 where
  first : {s : List ℕ} (rest : List ℕ) → s ≡ c ∷ rest → Has c s
  after : {s : List ℕ} (x : ℕ) (rest : List ℕ) → s ≡ x ∷ rest → Has c rest → Has c s

pub Has-strchr : (c : ℕ) (s : List ℕ) → Has c s → strchr s c ≡ true
unfolding strchr
Has-strchr c s (first rest e) = rw e (ground arith)
Has-strchr c s (after x rest e h) = let ih = Has-strchr c rest h in rw e (ground arith)

pub strchr-Has : (s : List ℕ) (c : ℕ) → strchr s c ≡ true → Has c s
unfolding strchr
strchr-Has [] c h = cc
strchr-Has (x ∷ xs) c h = elim (Bool-cases (x == c)) [
  | inl e ↦ first xs (ap (λ k. k ∷ xs) ((==_iff x c).0 e))
  | inr e ↦ let r : strchr xs c ≡ true = simp e at h in after x xs refl (strchr-Has xs c r)
]
