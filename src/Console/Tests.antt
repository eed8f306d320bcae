-- ===== src/Console/Tests.antt =====
-- Runs of the line editor, and instances of its theorems.
use mega65_expansion_board_i.Base.{◌<◌, ◌≡◌, refl, false, [], ◌∷◌, ◌++◌, length, arith}
use mega65_expansion_board_i.Base.Text
use mega65_expansion_board_i.Base.Text.{codes}
use mega65_expansion_board_i.RemoteAuth.Scan
use mega65_expansion_board_i.Console.{
  Line, ready, feed_line_char, unquote_from, unquote_trimmed, trim_line, unquote_filename,
}
use mega65_expansion_board_i.Console.Editing.{
  typed, escape, feed_line_char-fits, feed_line_char-returns, unquote-escape,
}

abbrev empty_line : Line
empty_line = record { text = []; last_was_cr = false; echoed = [] }

quoted_name : unquote_filename (codes "  \"a b.cor\" ") ≡ codes "a b.cor"
unfolding unquote_filename trim_line unquote_trimmed unquote_from Scan.trim Scan.trim_end
    Scan.drop_while Text.isspace
quoted_name = refl

feed_line_char-fits_example : length (feed_line_char 4 b'x' empty_line).1.text < 4
feed_line_char-fits_example = feed_line_char-fits 4 b'x' empty_line (omega arith)

feed_line_char-returns_example :
    ((feed_line_char 8 13 (typed 8 (codes "AT") empty_line)).0 ≡ ready (codes "AT"))
    × ((feed_line_char 8 13 (typed 8 (codes "AT") empty_line)).1.text ≡ [])
feed_line_char-returns_example =
    feed_line_char-returns 8 (codes "AT") empty_line refl (refl, refl, refl, (refl, refl, refl, tt))
      (omega arith)

unquote-escape_example : unquote_from 34 (escape (codes "a\"b") ++ (34 ∷ codes " x")) ≡ codes "a\"b"
unquote-escape_example = unquote-escape 34 (codes "a\"b") (codes " x") refl
