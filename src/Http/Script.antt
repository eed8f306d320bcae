-- ===== src/Http/Script.antt =====
-- remote_http.c: what a JavaScript engine reads of the text that `js_string_escape` wrote.
use mega65_expansion_board_i.Base.{
  ℕ, ◌+◌, ◌-◌, ◌*◌, ◌/◌, ◌%◌, ◌<◌, ◌≤◌, ◌≡◌, refl, ap, subst, ◌∙◌, ◌||◌, Option, none, some, List,
  [], ◌∷◌, ◌++◌, ◌⊎◌, arith, length, ltb, leb, ◌==◌, if◌then◌else◌, Bool-cases, Option-cases, inl,
  inr, ltb→lt, append_assoc,
}
use mega65_expansion_board_i.Http.Escape.{
  hex_lower, hex_value, js_rep, js_string_escape_from, js_string_escape,
}
use mega65_expansion_board_i.Http.RoundTrip.{hex_value-hex_lower}

-- Where the reader of a string in single quotes stands: in its text, behind a backslash, behind
-- `\x`, or behind the first digit of that escape.
pub data Place : Type 0 where
  text escaped hex : Place
  digit : ℕ → Place

-- the escapes of one letter, of which this reader knows no other
abbrev escape_value : ℕ → Option ℕ
escape_value c =
    if c == b'n'
    then some 10
    else if c == b'r'
    then some 13
    else if c == b't'
    then some 9
    else if c == b'\\' || c == b'\''
    then some c
    else none

abbrev put : ℕ → Option (List ℕ × List ℕ) → Option (List ℕ × List ℕ)
put c none = none
put c (some (value, rest)) = some (c ∷ value, rest)

-- The value of the string and what stands behind its closing quote; none for an error, as a line
-- end in the string is one.
unfoldable pub js_read : Place → List ℕ → Option (List ℕ × List ℕ)
js_read place [] = none
js_read text (c ∷ s) =
    let behind = js_read escaped s in
    let plain = put c (js_read text s) in
    if c == b'\''
    then some ([], s)
    else if c == 10 || c == 13
    then none
    else if c == b'\\'
    then behind
    else plain
js_read escaped (c ∷ s) =
    let coded = js_read hex s in
    let more = js_read text s in
    if c == b'x' then coded else elim (escape_value c) [ none ↦ none | some v ↦ put v more ]
js_read hex (c ∷ s) = elim (hex_value c) [ none ↦ none | some h ↦ js_read (digit h) s ]
js_read (digit h) (c ∷ s) = elim (hex_value c) [
  | none ↦ none
  | some v ↦ put (h * 16 + v) (js_read text s)
]

-- each way that `js_string_escape` writes a byte
js_rep_cases :
    (c : ℕ) (t : List ℕ)
    → (elim (js_rep c) as (λ _. Option (List ℕ × List ℕ)) [
      | none ↦ put c (js_read text t)
      | some rep ↦ js_read text (rep ++ t)
    ])
      ≡ put c (js_read text t)
unfolding js_rep js_read
js_rep_cases c t = ground arith

js_read-rep :
    (c : ℕ) (rep t : List ℕ)
    → js_rep c ≡ some rep
    → js_read text (rep ++ t) ≡ put c (js_read text t)
js_read-rep c rep t h = simp h at (js_rep_cases c t)

js_read-plain :
    (c : ℕ) (t : List ℕ) → js_rep c ≡ none → js_read text (c ∷ t) ≡ put c (js_read text t)
unfolding js_rep js_read
js_read-plain c t h = ground arith

js_read-coded :
    (c : ℕ) (t : List ℕ)
    → c < 0x20
    → js_read text (b'\\' ∷ b'x' ∷ hex_lower (c / 16) ∷ hex_lower (c % 16) ∷ t)
      ≡ put c (js_read text t)
unfolding js_read
js_read-coded c t lt =
    let whole : c / 16 * 16 + c % 16 ≡ c = omega arith in
    simp (
      js_read,
      hex_value-hex_lower (c / 16) (omega arith),
      hex_value-hex_lower (c % 16) (omega arith),
      whole,
    )

-- The string that is written reads as a head of the text, and as all of it if the buffer had room.
abbrev pub Reads : List ℕ → List ℕ → List ℕ → ℕ → Type 0
Reads out tail s room =
    (kept : List ℕ) × (rest : List ℕ) × (s ≡ kept ++ rest)
    × (js_read text (out ++ (b'\'' ∷ tail)) ≡ some (kept, tail))
    × ((rest ≡ []) ⊎ (room ≤ 4 * length s))

Reads-cut : (tail : List ℕ) (c : ℕ) (s : List ℕ) (room : ℕ) → room ≤ 4 → Reads [] tail (c ∷ s) room
unfolding js_read
Reads-cut tail c s room h = ([], c ∷ s, refl, refl, inr (omega arith))

Reads-put :
    (tail : List ℕ) (c : ℕ) (s out put_out : List ℕ) (room less : ℕ)
    → js_read text (put_out ++ (b'\'' ∷ tail)) ≡ put c (js_read text (out ++ (b'\'' ∷ tail)))
    → room ≤ less + 4
    → Reads out tail s less
    → Reads put_out tail (c ∷ s) room
Reads-put tail c s out put_out room less step near (kept, rest, split, got, all) = (
  c ∷ kept,
  rest,
  ap (◌∷◌ c) split,
  step ∙ ap (put c) got,
  elim all [ inl whole ↦ inl whole | inr short ↦ inr (omega arith) ],
)

js_rep_short : (c : ℕ) (rep : List ℕ) → js_rep c ≡ some rep → length rep ≤ 4
unfolding js_rep
js_rep_short c rep h = ground arith

module _ (tail : List ℕ) (n : ℕ) where
  js_string_escape_from-Reads :
      (s : List ℕ) (p : ℕ) → Reads (js_string_escape_from n p s) tail s (n - p)
  unfolding js_string_escape_from js_read
  js_string_escape_from-Reads [] p = ([], [], refl, refl, inl refl)
  js_string_escape_from-Reads (c ∷ s) p = elim (Bool-cases (ltb (p + 1) n)) [
    | inr full ↦
        let near : n - p ≤ 4 = ground arith in
        simp (js_string_escape_from, full) (Reads-cut tail c s (n - p) near)
    | inl room ↦ elim (Option-cases (js_rep c)) [
      | inr (rep, coded) ↦
          let few = js_rep_short c rep coded in
          elim (Bool-cases (leb n (p + length rep))) [
            | inl long ↦
                let near : n - p ≤ 4 = ground arith in
                simp (js_string_escape_from, room, coded, long) (Reads-cut tail c s (n - p) near)
            | inr short ↦
                let out = js_string_escape_from n (p + length rep) s in
                simp (js_string_escape_from, room, coded, short)
                  (Reads-put tail c s out (rep ++ out) (n - p) (n - (p + length rep))
                    (ap (js_read text) (append_assoc rep out _)
                      ∙ js_read-rep c rep (out ++ (b'\'' ∷ tail)) coded)
                    (omega arith) (js_string_escape_from-Reads s (p + length rep)))
          ]
      | inl plain ↦ elim (Bool-cases (ltb c 0x20)) [
        | inr print ↦
            let out = js_string_escape_from n (p + 1) s in
            simp (js_string_escape_from, room, plain, print)
              (Reads-put tail c s out (c ∷ out) (n - p) (n - (p + 1))
                (js_read-plain c (out ++ (b'\'' ∷ tail)) plain) (omega arith)
                (js_string_escape_from-Reads s (p + 1)))
        | inl control ↦ elim (Bool-cases (leb n (p + 4))) [
          | inl long ↦
              let near : n - p ≤ 4 = ground arith in
              simp (js_string_escape_from, room, plain, control, long)
                (Reads-cut tail c s (n - p) near)
          | inr short ↦
              let out = js_string_escape_from n (p + 4) s in
              simp (js_string_escape_from, room, plain, control, short)
                (Reads-put tail c s out
                  (b'\\' ∷ b'x' ∷ hex_lower (c / 16) ∷ hex_lower (c % 16) ∷ out) (n - p)
                  (n - (p + 4)) (js_read-coded c (out ++ (b'\'' ∷ tail)) (ltb→lt _ _ control))
                  (omega arith) (js_string_escape_from-Reads s (p + 4)))
        ]
      ]
    ]
  ]

-- In a buffer that is not empty, and put into single quotes in JavaScript source, what
-- `js_string_escape` writes reads as a head of the text, and as the whole text if the buffer is longer
-- than four bytes for each byte of it; the string ends at the quote that stands behind it. Nothing is
-- said of HTML, which decodes the text before JavaScript reads it where it stands in an attribute.
pub js_string_escape-Reads :
    (s tail : List ℕ) (out_len : ℕ)
    → 0 < out_len
    → Reads (js_string_escape s out_len) tail s out_len
unfolding js_string_escape
js_string_escape-Reads s tail n h =
    let back : n - 0 ≡ n = omega arith in
    subst (Reads (js_string_escape s n) tail s) back (js_string_escape_from-Reads tail n s 0)
