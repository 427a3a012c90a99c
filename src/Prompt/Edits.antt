-- ===== src/Prompt/Edits.antt =====
-- Every command edits the line that the user sees.
use openrep.Prompt.Machine
use openrep.Prelude.{
  ◌≤◌, false, ◌-◌, ◌==◌, suc, length-reverse, length-append, append-nil, reverse-reverse, arith,
  ◌∙◌, reverse-append, [], drop, length, ap₂, ◌++◌, take, ap, ◌∷◌, reverse, Text, sym, refl,
}
use openrep.Prompt.Machine
use openrep.Prompt.Machine
use openrep.Prompt.Machine
use openrep.Prompt.Machine
use openrep.Prompt.Machine
use openrep.Prompt.Machine
use openrep.Prompt.Machine
use openrep.Prompt.Machine
use openrep.Prompt.Machine
use openrep.Prompt.Machine
use openrep.Prompt.Machine
use openrep.Prompt.Machine
use openrep.Prompt.Machine
use openrep.Prompt.Machine
use openrep.Prompt.Machine
use openrep.Prompt.Machine
use openrep.Prompt.Machine
use openrep.Prompt.Machine
use openrep.Prompt.Machine
use openrep.Prompt.Machine
use openrep.Prompt.Machine
use openrep.Prompt.Machine
use openrep.Prompt.Machine
use openrep.Prompt.Machine
use openrep.Prompt.Machine
use openrep.Prompt.Machine
use openrep.Prompt.Machine
use openrep.Prompt.Machine
use openrep.Prompt.Machine
use openrep.Prompt.Machine
use openrep.Prompt.Machine
use openrep.Prompt.Machine
use openrep.Prompt.Machine
use openrep.Prompt.Machine
use openrep.Prompt.Machine
use openrep.Prompt.Machine
use openrep.Prompt.Machine
use openrep.Prompt.Machine
use openrep.Prompt.Machine
use openrep.Prompt.Machine
use openrep.Prelude.{◌≡◌, or_else, ℕ}
use openrep.Prompt.{edit}
use openrep.Prompt.Keys.{
  delete_line_end, delete_line_start, delete_word_left, move_word_right, move_word_left, move_right,
  move_left, backspace, insert, InputCommand,
}
use openrep.Prompt.Line.{word_left, line, Line, edit_line}
use openrep.Prompt.Machine.{InputState}
use openrep.Prompt.Refinement.{
  line_of-state_of, state_of-line_of, line_of, length-value_of, take-value_of, value_of,
  drop-value_of, value_of-cons, input, state_of,
}
use openrep.Prompt.Words.{
  same_cursor, same_value, value_of_line, word_right-boundary, word_left-boundary,
}

abbrev pub edited : InputCommand → InputState → InputState
edited c s = or_else (edit c s) s

suc-sub : (n : ℕ) → suc n - 1 ≡ n
suc-sub n = omega arith

not_zero : (n : ℕ) → (suc n == 0) ≡ false
not_zero n = ground arith

before_cons : (c : ℕ) (b a : Text) → take (length b) (value_of (c ∷ b) a) ≡ reverse b
before_cons c b a = ap (take (length b)) (value_of-cons c b a) ∙ take-value_of b (c ∷ a)

insert_text-line :
    (t : Text) (l : Line)
    → Machine.insert_text (state_of l) t ≡ state_of (line (reverse t ++ l.before) l.after)
unfolding Machine.insert_text
insert_text-line t l =
    ap₂ input (ap₂ (λ x y. x ++ t ++ y) (take-value_of b a) (drop-value_of b a) ∙ sym inserted)
      (omega (arith, length-append (reverse t) b, length-reverse t))
  where
    b : Text
    b = l.before

    a : Text
    a = l.after

    inserted : value_of (reverse t ++ b) a ≡ reverse b ++ t ++ a
    inserted =
        ap (λ x. x ++ a)
          (reverse-append (reverse t) b ∙ ap (λ x. reverse b ++ x) (reverse-reverse t))

delete_at_cursor_left-line :
    (b a : Text)
    → Machine.delete_at_cursor_left (state_of (line b a))
      ≡ state_of (edit_line backspace (line b a))
unfolding Machine.delete_at_cursor_left edit_line
delete_at_cursor_left-line [] a = refl
delete_at_cursor_left-line (c ∷ b) a =
    rw (not_zero (length b), suc-sub (length b))
      (ap (λ x. input x (length b))
        (ap₂ (λ x y. x ++ y) (before_cons c b a) (drop-value_of (c ∷ b) a)))

move_left-line :
    (b a : Text)
    → Machine.move_left (state_of (line b a)) ≡ state_of (edit_line move_left (line b a))
unfolding Machine.move_left edit_line
move_left-line [] a = refl
move_left-line (c ∷ b) a = ap₂ input (value_of-cons c b a) (suc-sub (length b))

move_right-line :
    (b a : Text)
    → Machine.move_right (state_of (line b a)) ≡ state_of (edit_line move_right (line b a))
unfolding Machine.move_right edit_line
move_right-line b [] = ap (input (value_of b [])) (ground (arith, length-value_of b []))
move_right-line b (c ∷ a) =
    ap₂ input (sym (value_of-cons c b a)) (ground (arith, length-value_of b (c ∷ a)))

delete_word_left-line :
    (l : Line)
    → Machine.delete_word_left (state_of l) ≡ state_of (line (word_left l).before l.after)
unfolding Machine.delete_word_left
delete_word_left-line l =
    ap₂ (λ v k. input (take k v ++ drop (length l.before) (value_of_line l)) k)
      (sym (same_value (word_left l) (word_left-boundary l)))
      (sym (same_cursor (word_left l) (word_left-boundary l)))
    ∙ ap (λ x. input x (length (word_left l).before))
        (ap₂ (λ x y. x ++ y) (take-value_of (word_left l).before (word_left l).after)
          (drop-value_of l.before l.after))

edited-state_of : (c : InputCommand) (l : Line) → edited c (state_of l) ≡ state_of (edit_line c l)
unfolding edit edit_line Machine.move_word_left Machine.move_word_right Machine.delete_line_start
    Machine.delete_line_end
edited-state_of (insert t) l = insert_text-line t l
edited-state_of backspace l = delete_at_cursor_left-line l.before l.after
edited-state_of move_left l = move_left-line l.before l.after
edited-state_of move_right l = move_right-line l.before l.after
edited-state_of move_word_left l = sym (word_left-boundary l)
edited-state_of move_word_right l = sym (word_right-boundary l)
edited-state_of delete_word_left l = delete_word_left-line l
edited-state_of delete_line_start l = ap (λ x. input x 0) (drop-value_of l.before l.after)
edited-state_of delete_line_end l =
    ap (λ x. input x (length l.before)) (take-value_of l.before l.after ∙ sym (append-nil _))
edited-state_of _ l = refl

-- On a cursor within the text, every command of the prompt does to the text and the cursor, which
-- it computes by indices and slices, what an editor of two lists does to the text before the cursor
-- and the text after it; and the cursor stays within the text.
pub edited-edit_line :
    (c : InputCommand) (s : InputState)
    → s.cursor ≤ length s.value
    → (line_of (edited c s) ≡ edit_line c (line_of s))
      × ((edited c s).cursor ≤ length (edited c s).value)
edited-edit_line c s h = (
  ap line_of runs ∙ line_of-state_of (edit_line c (line_of s)),
  rw runs (state_of-fits (edit_line c (line_of s))),
)
  where
    runs : edited c s ≡ state_of (edit_line c (line_of s))
    runs = ap (edited c) (sym (state_of-line_of s h)) ∙ edited-state_of c (line_of s)

    state_of-fits : (l : Line) → length l.before ≤ length (value_of l.before l.after)
    state_of-fits l = omega (arith, length-value_of l.before l.after)
