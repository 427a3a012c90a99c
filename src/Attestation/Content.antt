-- ===== src/Attestation/Content.antt =====
-- The shape and size validation of packages/sdk/src/attestation.ts, run before anything is signed.
pub mod Bounds
use openrep.Canonical.{
  str, object, null, undefined, array, ref, error, canonicalize_literal, value, Node, Heap, Attempt,
  Value,
}
use openrep.Prelude.{
  [], text_eq, ◌∷◌, ◌==◌, none, not, text, length, ltb, some, List, Option, if◌then◌else◌, Text, ℕ,
}
use openrep.Hex.{is_lowercase_hex_of_length}

abbrev pub max_task_length : ℕ
max_task_length = 4000

abbrev pub max_output_length : ℕ
max_output_length = 8000

abbrev pub max_tools_used_entries : ℕ
max_tools_used_entries = 50

abbrev pub max_tool_name_length : ℕ
max_tool_name_length = 100

abbrev pub max_tool_entry_serialized_length : ℕ
max_tool_entry_serialized_length = 4000

-- `ContentCheckResult`, without the messages.
pub data Check : Type 0 where
  valid : Value → Check
  invalid too_large : Check

-- A value that is no string is `none`.
pub record ContentToValidate : Type 0 where
  pub agent_id : Text
  pub signing_key : Text
  pub task : Option Text
  pub output : Option Text
  pub tools_used : Value

-- `record[key]`, `undefined` when there is no such key.
abbrev pub field_value : Text → List (Text × Value) → Value
field_value key [] = undefined
field_value key ((k, v) ∷ fields) = if text_eq k key then v else field_value key fields

abbrev entry_literal : Text → Value → Value → List (Text × Value)
entry_literal tool input undefined = (text "tool", str tool) ∷ (text "input", input) ∷ []
entry_literal tool input output =
    (text "tool", str tool) ∷ (text "input", input) ∷ (text "output", output) ∷ []

abbrev check_size : Attempt Text → Check
check_size (error e) = invalid
check_size (value t) =
    if ltb max_tool_entry_serialized_length (length t) then too_large else valid null

abbrev and_then : Check → Check → Check
and_then (valid v) rest = rest
and_then invalid rest = invalid
and_then too_large rest = too_large

module _ (heap : Heap) where
  unfoldable pub check_named : Text → List (Text × Value) → Check
  check_named tool fields =
      if length tool == 0
      then invalid
      else if ltb max_tool_name_length (length tool)
      then too_large
      else check_size (
          canonicalize_literal heap (
            entry_literal tool (field_value (text "input") fields)
              (field_value (text "output") fields)))

  unfoldable pub check_tool : Value → List (Text × Value) → Check
  check_tool (str tool) fields = check_named tool fields
  check_tool null fields = invalid
  check_tool _ fields = invalid

  unfoldable pub check_node : Node → Check
  check_node (array items) = invalid
  check_node (object fields) = check_tool (field_value (text "tool") fields) fields

  unfoldable pub check_entry : Value → Check
  check_entry (ref address) = check_node (heap address)
  check_entry null = invalid
  check_entry _ = invalid

  unfoldable pub check_entries : List Value → Check
  check_entries [] = valid null
  check_entries (entry ∷ entries) = and_then (check_entry entry) (check_entries entries)

  unfoldable pub check_items : Value → Node → Check
  check_items tools (object fields) = invalid
  check_items tools (array items) =
      if ltb max_tools_used_entries (length items)
      then too_large
      else and_then (check_entries items) (valid tools)

  unfoldable pub tool_entries_valid : Value → Check
  tool_entries_valid (ref address) = check_items (ref address) (heap address)
  tool_entries_valid null = invalid
  tool_entries_valid _ = invalid

  -- `canonicalize({ task, output, toolsUsed })`: exactly the bytes that are hashed and signed.
  unfoldable pub content_text : Text → Text → Value → Attempt Text
  content_text task output tools =
      canonicalize_literal heap
        ((text "task", str task) ∷ (text "output", str output) ∷ (text "toolsUsed", tools) ∷ [])

  -- The whole content must canonicalize too.
  abbrev check_whole : Text → Text → Check → Check
  check_whole task output (valid tools) = elim (content_text task output tools) [
    | value _ ↦ valid tools
    | error _ ↦ invalid
  ]
  check_whole task output c = c

  -- `fresh` is the address of the empty array that `content.toolsUsed ?? []` makes.
  module _ (fresh : ℕ) where
    abbrev pub or_fresh : Value → Value
    or_fresh null = ref fresh
    or_fresh undefined = ref fresh
    or_fresh v = v

    unfoldable pub check_texts : Text → Text → Value → Check
    check_texts task output tools =
        if ltb max_task_length (length task)
        then too_large
        else if ltb max_output_length (length output)
        then too_large
        else check_whole task output (tool_entries_valid (or_fresh tools))

    unfoldable pub check_strings : Option Text → Option Text → Value → Check
    check_strings none output tools = invalid
    check_strings (some task) none tools =
        if ltb max_task_length (length task) then too_large else invalid
    check_strings (some task) (some output) tools = check_texts task output tools

    unfoldable pub validate_attestation_content : ContentToValidate → Check
    validate_attestation_content content =
        if not (is_lowercase_hex_of_length content.agent_id 32)
        then invalid
        else if not (is_lowercase_hex_of_length content.signing_key 32)
        then invalid
        else check_strings content.task content.output content.tools_used
