-- ===== src/RunLoop/History.antt =====
-- `normalizeHistory` of packages/sdk/src/run-loop.ts.
pub mod Bounds
pub mod Newest
use openrep.Prelude.{
  true, false, ◌==◌, text, ltb, trim, none, text_eq, [], ◌+◌, ◌-◌, reverse, some, ◌∷◌, drop,
  if◌then◌else◌, List, Bool, Option, length, ℕ,
}
use openrep.RunLoop.{Text}
use openrep.RunLoop.Arguments.{
  empty_array, item, get_property, json_array, string, json_object, Json, JsonItems,
}

abbrev pub max_history_turns : ℕ
max_history_turns = 20

abbrev pub max_history_total_characters : ℕ
max_history_total_characters = 16_000

abbrev pub max_history_turn_length : ℕ
max_history_turn_length = 4000

-- A turn, by whether it is the assistant's.
pub record Turn : Type 0 where
  pub by_assistant : Bool
  pub content : Text

abbrev pub content_length : Turn → ℕ
content_length t = length t.content

unfoldable pub turn_with : Bool → Json → Option Turn
turn_with by_assistant (string content) =
    if length (trim content) == 0
    then none
    else if ltb max_history_turn_length (length content)
    then none
    else some (record { by_assistant = by_assistant; content = content })
turn_with by_assistant _ = none

abbrev pub turn_by : Text → Json → Option Turn
turn_by role content =
    if text_eq role (text "user")
    then turn_with false content
    else if text_eq role (text "assistant")
    then turn_with true content
    else none

unfoldable pub turn_of_role : Json → Json → Option Turn
turn_of_role (string role) content = turn_by role content
turn_of_role _ content = none

unfoldable pub turn_of : Json → Option Turn
turn_of (json_object entry) =
    turn_of_role (get_property (text "role") entry) (get_property (text "content") entry)
turn_of _ = none

unfoldable pub cons_turn : Option Turn → Option (List Turn) → Option (List Turn)
cons_turn (some t) (some ts) = some (t ∷ ts)
cons_turn _ _ = none

unfoldable pub turns_of : JsonItems → Option (List Turn)
turns_of empty_array = some []
turns_of (item entry entries) = cons_turn (turn_of entry) (turns_of entries)

-- `turns.slice(-n)`
abbrev pub last_of : {A : Type 0} → ℕ → List A → List A
last_of n xs = drop (length xs - n) xs

-- From the newest turn: a turn that does not fit is dropped.
unfoldable pub keep_fitting : ℕ → List Turn → List Turn
keep_fitting used [] = []
keep_fitting used (t ∷ older) =
    let without = keep_fitting used older in
    let with = t ∷ keep_fitting (used + content_length t) older in
    if ltb max_history_total_characters (used + content_length t) then without else with

unfoldable pub bound_history : List Turn → List Turn
bound_history turns = reverse (keep_fitting 0 (reverse (last_of max_history_turns turns)))

unfoldable pub bounded : Option (List Turn) → Option (List Turn)
bounded none = none
bounded (some turns) = some (bound_history turns)

-- None for "invalid".
unfoldable pub normalize_history : Json → Option (List Turn)
normalize_history (json_array entries) = bounded (turns_of entries)
normalize_history _ = none
