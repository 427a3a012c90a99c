-- ===== src/Tests/Editing.antt =====
-- Runs of the prompt.
use openrep.Prompt.Machine
use openrep.Prelude.{trim_start, trim, ◌≤◌, [], ◌≡◌, ◌∷◌, true, text, false, List, refl, arith}
use openrep.Prompt.Session.{
  apply, run_edit, on_command, after_change, change, on_secret, on_return, on_up, on_input, step,
  supplied, pressed, empty_prompt, Event, run,
}
use openrep.Prompt.Line.{line, back_over, edit_line}
use openrep.Prompt.Keys.{decode_input, csi, delete_word_left, Key}
use openrep.Prompt.Invariant.{run-IsValid, IsValid}
use openrep.Prompt.Machine.{delete_at_cursor_left, insert_text, InputState}
use openrep.Prompt.Refinement.{line_of}
use openrep.Prompt.Edits.{edited-edit_line, edited}
use openrep.Prompt.{edit}

abbrev no_key : Key
no_key = record {
  return = false;
  backspace = false;
  ctrl = false;
  meta = false;
  escape = false;
  left_arrow = false;
  right_arrow = false;
  up_arrow = false;
  down_arrow = false;
}

abbrev draft : InputState
draft = record { value = text "sign  this now"; cursor = 10 }

word_deleted :
    (line_of (edited delete_word_left draft) ≡ line (text "  ngis") (text " now")) × (6 ≤ 10)
unfolding edit_line back_over edit Machine.delete_word_left Machine.previous_word_boundary
    Machine.skip_back
word_deleted = edited-edit_line delete_word_left draft (omega arith)

abbrev session : List Event
session =
    pressed true false (text "hi") no_key
    ∷ pressed true false (csi "[D") no_key
    ∷ pressed true false [] (record no_key { backspace = true })
    ∷ pressed true false [] (record no_key { return = true })
    ∷ supplied []
    ∷ pressed true true (text "secret") no_key
    ∷ pressed true true [] (record no_key { return = true })
    ∷ pressed true false [] (record no_key { up_arrow = true })
    ∷ []

session_history : (run session empty_prompt).history ≡ text "i" ∷ []
unfolding run step on_input on_up on_return trim trim_start on_secret change after_change
    openrep.Prelude.text_eq on_command run_edit edit decode_input apply delete_at_cursor_left
    Machine.move_left insert_text openrep.Prompt.Session.submitted_as openrep.Prompt.Session.recall
session_history = refl

session-IsValid : IsValid (run session empty_prompt)
session-IsValid = run-IsValid session
