-- ===== src/Console.antt =====
-- src/uart_cmd.c: the line editor of the command port, and the file names typed there. Texts are lists
-- of bytes without a NUL.
pub mod Editing
mod Tests
use mega65_expansion_board_i.Base.{
  ℕ, zero, suc, ◌+◌, ◌-◌, Bool, true, false, not, ◌&&◌, ◌||◌, List, [], ◌∷◌, ◌++◌, ◌==◌, ltb,
  if◌then◌else◌, length, take,
}
use mega65_expansion_board_i.Base.Text.{isspace}
use mega65_expansion_board_i.RemoteAuth.Scan.{trim}

-- what is sent back if the echo is on: a byte, or the erasing of so many
pub data Echo : Type 0 where
  echo_input_char : ℕ → Echo
  echo_erase_chars : ℕ → Echo

-- `line_feed_result_t`; `ready` carries the line that `buf` holds then
pub data LineFeed : Type 0 where
  none_yet ignored : LineFeed
  ready : List ℕ → LineFeed

-- the first `*pos` bytes of `buf`, `*last_was_cr`, and what was echoed
pub record Line : Type 0 where
  pub text : List ℕ
  pub last_was_cr : Bool
  pub echoed : List Echo

abbrev pub echo : Echo → Line → Line
echo e l = record l { echoed = l.echoed ++ (e ∷ []) }

-- the branches behind the test for a line feed after a carriage return
unfoldable pub edit_line : ℕ → ℕ → Line → LineFeed × Line
edit_line buflen c l =
    if c == 13 || c == 10
    then (ready l.text, echo (echo_input_char c) (record l { text = [] }))
    else if c == 8 || c == 0x7f
    then (if length l.text == 0 then (ignored, l) else (
      ignored,
      echo (echo_erase_chars 1) (record l { text = take (length l.text - 1) l.text }),
    ))
    else if c == 0x15
    then (ignored, echo (echo_erase_chars (length l.text)) (record l { text = [] }))
    else if ltb (length l.text + 1) buflen
    then (none_yet, echo (echo_input_char c) (record l { text = l.text ++ (c ∷ []) }))
    else (none_yet, record l { text = [] })

unfoldable pub feed_line_char : ℕ → ℕ → Line → LineFeed × Line
feed_line_char buflen c l =
    if c == 10 && l.last_was_cr
    then (ignored, record l { last_was_cr = false })
    else edit_line buflen c (record l { last_was_cr = c == 13 })

-- The text up to the closing quote, without the backslashes.
unfoldable pub unquote_from : ℕ → List ℕ → List ℕ
unquote_from q [] = []
unquote_from q (r ∷ []) = if r == q then [] else r ∷ []
unquote_from q (r ∷ next ∷ rest) =
    let escaped = next ∷ unquote_from q rest in
    let plain = r ∷ unquote_from q (next ∷ rest) in
    if r == q then [] else if r == b'\\' then escaped else plain

unfoldable pub unquote_trimmed : List ℕ → List ℕ
unquote_trimmed [] = []
unquote_trimmed (q ∷ s) = if q == 34 || q == 39 then unquote_from q s else q ∷ s

unfoldable pub trim_line : List ℕ → List ℕ
trim_line s = trim s

unfoldable pub unquote_filename : List ℕ → List ℕ
unquote_filename s = unquote_trimmed (trim_line s)
