-- ===== src/Prompt.antt =====
-- The prompt of the chat: packages/cli/src/ui/prompt.tsx, the component `PromptInput`. Its parent is
-- one that keeps the value that it is given.
pub mod Machine
pub mod Keys
pub mod Line
pub mod Refinement
pub mod Words
pub mod Edits
pub mod Session
pub mod Invariant
use openrep.Prelude.{Option}
use openrep.Prelude.{Option}
use openrep.Prelude.{Option}
use openrep.Prelude.{Option}
use openrep.Prelude.{Option}
use openrep.Prelude.{Option}
use openrep.Prelude.{Option}
use openrep.Prelude.{Option}
use openrep.Prelude.{Option}
use openrep.Prelude.{Option}
use openrep.Prelude.{Option}
use openrep.Prelude.{Option}
use openrep.Prelude.{Option}
use openrep.Prelude.{Option}
use openrep.Prelude.{Option}
use openrep.Prelude.{Option}
use openrep.Prelude.{Option}
use openrep.Prelude.{Option}
use openrep.Prelude.{Option}
use openrep.Prelude.{Option}
use openrep.Prelude.{Option}
use openrep.Prelude.{Option}
use openrep.Prelude.{Option}
use openrep.Prelude.{Option}
use openrep.Prelude.{Option}
use openrep.Prelude.{Option}
use openrep.Prelude.{Option}
use openrep.Prelude.{Option}
use openrep.Prelude.{Option}
use openrep.Prelude.{Option}
use openrep.Prelude.{Option}
use openrep.Prelude.{Option}
use openrep.Prelude.{Option}
use openrep.Prelude.{Option}
use openrep.Prelude.{Option}
use openrep.Prelude.{Option}
use openrep.Prelude.{Option}
use openrep.Prelude.{Option}
use openrep.Prelude.{Option}
use openrep.Prelude.{Option}
use openrep.Prelude.{none, some, Option, ℕ}
use openrep.Prompt.Machine
use openrep.Prompt.Keys.{
  InputCommand, insert, backspace, move_left, move_right, move_word_left, move_word_right,
  delete_word_left, delete_line_start, delete_line_end,
}
use openrep.Prompt.Machine.{InputState}

-- The edit that a command stands for, none for one that the prompt leaves to others.
unfoldable pub edit : InputCommand → InputState → Option InputState
edit (insert t) s = some (Machine.insert_text s t)
edit backspace s = some (Machine.delete_at_cursor_left s)
edit move_left s = some (Machine.move_left s)
edit move_right s = some (Machine.move_right s)
edit move_word_left s = some (Machine.move_word_left s)
edit move_word_right s = some (Machine.move_word_right s)
edit delete_word_left s = some (Machine.delete_word_left s)
edit delete_line_start s = some (Machine.delete_line_start s)
edit delete_line_end s = some (Machine.delete_line_end s)
edit _ s = none
