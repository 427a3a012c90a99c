-- ===== src/Prompt/Keys.antt =====
-- packages/cli/src/ui/input-keys.ts: from what the terminal reports to an edit command.
use openrep.Prelude.{
  starts_with, ◌==◌, length, ◌&&◌, text, ◌||◌, text_eq, [], any, ◌∷◌, if◌then◌else◌, String, List,
  Text, Bool,
}

-- The flags of ink's `Key` that are read.
pub record Key : Type 0 where
  pub return : Bool
  pub backspace : Bool
  pub ctrl : Bool
  pub meta : Bool
  pub escape : Bool
  pub left_arrow : Bool
  pub right_arrow : Bool
  pub up_arrow : Bool
  pub down_arrow : Bool

pub data InputCommand : Type 0 where
  insert : Text → InputCommand
  backspace delete : InputCommand
  move_left move_right move_word_left move_word_right : InputCommand
  delete_word_left delete_line_start delete_line_end : InputCommand
  history_previous history_next submit ignored : InputCommand

-- `\x1b` and a text
abbrev pub csi : String → Text
csi s = 27 ∷ text s

abbrev pub csi_word_left : List Text
csi_word_left = csi "[1;3D" ∷ csi "[1;5D" ∷ csi "[3D" ∷ csi "[5D" ∷ csi "[OD" ∷ []

abbrev pub csi_word_right : List Text
csi_word_right = csi "[1;3C" ∷ csi "[1;5C" ∷ csi "[3C" ∷ csi "[5C" ∷ csi "[OC" ∷ []

abbrev pub csi_plain_left : Text
csi_plain_left = csi "[D"

abbrev pub csi_plain_right : Text
csi_plain_right = csi "[C"

abbrev pub csi_word_backspace : List Text
csi_word_backspace = csi "[127" ∷ csi "[3;5~" ∷ csi "[7~" ∷ []

abbrev is_one_of : List Text → Text → Bool
is_one_of set t = any (text_eq t) set

unfoldable pub decode_input : Text → Key → InputCommand
decode_input input key =
    if key.return
    then submit
    else if is_one_of csi_word_backspace input
    then delete_word_left
    else if key.backspace || text_eq input (127 ∷ [])
    then if key.meta then delete_word_left else backspace
    else if key.ctrl && (text_eq input (text "u") || text_eq input (21 ∷ []))
    then delete_line_start
    else if key.ctrl && (text_eq input (text "k") || text_eq input (11 ∷ []))
    then delete_line_end
    else if is_one_of csi_word_left input
    then move_word_left
    else if is_one_of csi_word_right input
    then move_word_right
    else if text_eq csi_plain_left input
    then move_left
    else if text_eq csi_plain_right input
    then move_right
    else if key.left_arrow
    then if key.ctrl || key.meta then move_word_left else move_left
    else if key.right_arrow
    then if key.ctrl || key.meta then move_word_right else move_right
    else if key.up_arrow
    then history_previous
    else if key.down_arrow
    then history_next
    else if (length input == 0) || key.ctrl || key.meta || key.escape || starts_with (27 ∷ []) input
    then ignored
    else insert input
