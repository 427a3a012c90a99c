-- ===== src/Prompt/Line.antt =====
-- The line that the input machine edits, as a user sees it: what is before the cursor, the nearest
-- character first, and what is after it.
use openrep.Prelude.{◌++◌, if◌then◌else◌, [], reverse, ◌∷◌, not, ◌==◌, Text, Bool, ℕ}
use openrep.Prompt.Keys.{
  delete_line_end, delete_line_start, delete_word_left, move_word_right, move_word_left, move_right,
  move_left, backspace, insert, InputCommand,
}

pub record Line : Type 0 where
  pub before : Text
  pub after : Text

abbrev pub line : Text → Text → Line
line b a = record { before = b; after = a }

abbrev pub is_space : ℕ → Bool
is_space c = c == 32

abbrev pub in_word : ℕ → Bool
in_word c = not (is_space c)

-- Move over the characters that pass the test.
unfoldable pub back_over : (ℕ → Bool) → Text → Text → Line
back_over p [] a = line [] a
back_over p (c ∷ b) a = let rest = back_over p b (c ∷ a) in if p c then rest else line (c ∷ b) a

unfoldable pub ahead_over : (ℕ → Bool) → Text → Text → Line
ahead_over p b [] = line b []
ahead_over p b (c ∷ a) = let rest = ahead_over p (c ∷ b) a in if p c then rest else line b (c ∷ a)

abbrev pub word_left : Line → Line
word_left l = let m = back_over is_space l.before l.after in back_over in_word m.before m.after

abbrev pub word_right : Line → Line
word_right l = let m = ahead_over is_space l.before l.after in ahead_over in_word m.before m.after

abbrev one_left : Text → Text → Line
one_left [] a = line [] a
one_left (c ∷ b) a = line b (c ∷ a)

abbrev one_right : Text → Text → Line
one_right b [] = line b []
one_right b (c ∷ a) = line (c ∷ b) a

abbrev rub_out : Text → Text → Line
rub_out [] a = line [] a
rub_out (c ∷ b) a = line b a

unfoldable pub edit_line : InputCommand → Line → Line
edit_line (insert t) l = line (reverse t ++ l.before) l.after
edit_line backspace l = rub_out l.before l.after
edit_line move_left l = one_left l.before l.after
edit_line move_right l = one_right l.before l.after
edit_line move_word_left l = word_left l
edit_line move_word_right l = word_right l
edit_line delete_word_left l = line (word_left l).before l.after
edit_line delete_line_start l = line [] l.after
edit_line delete_line_end l = line l.before []
edit_line _ l = l
