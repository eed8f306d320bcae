-- ===== src/Console/Editing.antt =====
-- src/uart_cmd.c: the buffer of the line editor, the lines it returns, and quoted names.
use mega65_expansion_board_i.Base.{
  ℕ, ◌+◌, ◌-◌, ◌<◌, ◌≡◌, refl, sym, ap, ◌∙◌, false, ◌||◌, List, [], ◌∷◌, ◌++◌, ◌==◌, length,
  length-append, length-take, append_assoc, append-nil, arith,
}
use mega65_expansion_board_i.Console.{Line, ready, edit_line, feed_line_char, unquote_from}

-- Whatever bytes arrive, the text and its NUL fit into the buffer: a byte never lands outside.
pub feed_line_char-fits :
    (buflen c : ℕ) (l : Line)
    → length l.text < buflen
    → length (feed_line_char buflen c l).1.text < buflen
unfolding feed_line_char edit_line
feed_line_char-fits buflen c l h =
    let more = length-append l.text (c ∷ []) in
    let less = length-take (length l.text - 1) l.text in ground arith

-- the bytes that the editor takes as text
abbrev pub Plain : List ℕ → Type 0
Plain [] = Unit
Plain (c ∷ cs) =
    ((c == 13 || c == 10) ≡ false)
    × ((c == 8 || c == 0x7f) ≡ false)
    × ((c == 0x15) ≡ false)
    × Plain cs

-- the editor after a row of bytes
abbrev pub typed : ℕ → List ℕ → Line → Line
typed buflen [] l = l
typed buflen (c ∷ cs) l = typed buflen cs (feed_line_char buflen c l).1

plain_text :
    (buflen c : ℕ) (l : Line)
    → (c == 13 || c == 10) ≡ false
    → (c == 8 || c == 0x7f) ≡ false
    → (c == 0x15) ≡ false
    → length l.text + 1 < buflen
    → (feed_line_char buflen c l).1.text ≡ l.text ++ (c ∷ [])
unfolding feed_line_char edit_line
plain_text buflen c l h1 h2 h3 room = ground arith

typed_text :
    (buflen : ℕ) (cs : List ℕ) (l : Line)
    → Plain cs
    → length l.text + length cs < buflen
    → (typed buflen cs l).text ≡ l.text ++ cs
typed_text buflen [] l plain room = sym (append-nil l.text)
typed_text buflen (c ∷ cs) l (h1, h2, h3, rest) room =
    let next = (feed_line_char buflen c l).1 in
    let e = plain_text buflen c l h1 h2 h3 (omega arith) in
    let more = length-append l.text (c ∷ []) in
    let sum : length (feed_line_char buflen c l).1.text ≡ length l.text + 1 = ap length e ∙ more in
    typed_text buflen cs (feed_line_char buflen c l).1 rest (omega arith)
    ∙ ap (λ t. t ++ cs) e
    ∙ append_assoc l.text (c ∷ []) cs

-- A line of plain bytes that fits, typed into an empty editor and ended by a carriage return, is
-- returned as it was typed.
pub feed_line_char-returns :
    (buflen : ℕ) (cs : List ℕ) (l : Line)
    → l.text ≡ []
    → Plain cs
    → length cs < buflen
    → ((feed_line_char buflen 13 (typed buflen cs l)).0 ≡ ready cs)
      × ((feed_line_char buflen 13 (typed buflen cs l)).1.text ≡ [])
unfolding feed_line_char edit_line
feed_line_char-returns buflen cs l empty plain room =
    let len : length l.text ≡ 0 = ap length empty in
    (ap ready (typed_text buflen cs l plain (omega arith) ∙ ap (λ t. t ++ cs) empty), refl)

-- a name with a backslash before each byte, behind a quote, and the quote again
abbrev pub escape : List ℕ → List ℕ
escape [] = []
escape (c ∷ cs) = b'\\' ∷ c ∷ escape cs

-- A name whose bytes are all escaped is read back, whatever the quote (but a backslash), and what
-- stands behind the closing quote is dropped.
pub unquote-escape :
    (q : ℕ) (name rest : List ℕ)
    → (b'\\' == q) ≡ false
    → unquote_from q (escape name ++ (q ∷ rest)) ≡ name
unfolding unquote_from
unquote-escape q [] [] h = ground arith
unquote-escape q [] (r ∷ rest) h = ground arith
unquote-escape q (c ∷ name) rest h = simp h (ap (λ t. c ∷ t) (unquote-escape q name rest h))
