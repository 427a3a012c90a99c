-- ===== src/Prompt/Session.antt =====
-- The state of `PromptInput`, its key handler and the effect that follows a change of the value.
use openrep.Prelude.{
  trim, ◌||◌, true, ◌++◌, take, ◌&&◌, ◌+◌, get_elem?, not, ◌-◌, ◌==◌, ◌∷◌, text_eq, or_else, none,
  leb, false, length, Option, List, some, Bool, [], if◌then◌else◌, Text, ℕ,
}
use openrep.Prompt.Keys.{decode_input, Key, InputCommand}
use openrep.Prompt.Machine.{empty_input, InputState}
use openrep.Prompt.{edit}

-- `history_index` is none for -1. `submitted` is what `onSubmit` was called with, and whether the
-- prompt was secret.
pub record Prompt : Type 0 where
  pub value : Text
  pub cursor : ℕ
  pub history : List Text
  pub history_index : Option ℕ
  pub last_produced : Option Text
  pub submitted : List (Bool × Text)

abbrev pub empty_prompt : Prompt
empty_prompt = record {
  value = [];
  cursor = 0;
  history = [];
  history_index = none;
  last_produced = none;
  submitted = [];
}

abbrev pub is_produced : Text → Option Text → Bool
is_produced value none = false
is_produced value (some v) = text_eq value v

-- The effect on `[value]`, which runs when the value is not what it was.
unfoldable pub after_change : Text → Prompt → Prompt
after_change before p =
    if text_eq p.value before
    then p
    else if is_produced p.value p.last_produced
    then record p { last_produced = none }
    else record p { cursor = length p.value; last_produced = none }

-- The parent keeps a value, and the function `apply`.
unfoldable pub change : Text → Prompt → Prompt
change value p = after_change p.value (record p { value = value })

unfoldable pub apply : InputState → Prompt → Prompt
apply s p =
    after_change p.value
      (record p { value = s.value; cursor = s.cursor; last_produced = some s.value })

-- A draft is submitted, and remembered when the prompt is not secret.
unfoldable pub submitted_as : Bool → Text → Prompt → Prompt
submitted_as true draft p = record p { submitted = p.submitted ++ (true, draft) ∷ [] }
submitted_as false draft p = record p {
  history = p.history ++ draft ∷ [];
  history_index = none;
  submitted = p.submitted ++ (false, draft) ∷ [];
}

unfoldable pub on_return : Bool → Prompt → Prompt
on_return secret p =
    let draft = trim p.value in if length draft == 0 then p else submitted_as secret draft p

unfoldable pub on_secret : Text → Key → Prompt → Prompt
on_secret input key p =
    if key.backspace && not key.meta
    then change (take (length p.value - 1) p.value) p
    else if (length input == 0) || key.ctrl || key.meta
    then p
    else change (p.value ++ input) p

abbrev pub recalled : List Text → ℕ → InputState
recalled history index =
    let value = or_else (get_elem? history index) [] in
    record { value = value; cursor = length value }

unfoldable pub recall : ℕ → Prompt → Prompt
recall index p = apply (recalled p.history index) (record p { history_index = some index })

-- `historyIndex === -1 ? history.length - 1 : Math.max(0, historyIndex - 1)`
abbrev pub previous_from : ℕ → Option ℕ → ℕ
previous_from count none = count - 1
previous_from count (some i) = i - 1

unfoldable pub on_up : Prompt → Prompt
on_up p =
    if length p.history == 0 then p else recall (previous_from (length p.history) p.history_index) p

unfoldable pub down_from : Prompt → Option ℕ → Prompt
down_from p none = p
down_from p (some i) =
    if leb (length p.history) (i + 1)
    then apply empty_input (record p { history_index = none })
    else recall (i + 1) p

unfoldable pub run_edit : Prompt → Option InputState → Prompt
run_edit p none = p
run_edit p (some s) = apply s p

unfoldable pub on_command : InputCommand → Prompt → Prompt
on_command c p = run_edit p (edit c (record { value = p.value; cursor = p.cursor }))

-- The handler of `useInput`.
unfoldable pub on_input : Bool → Bool → Text → Key → Prompt → Prompt
on_input focused secret input key p =
    if not focused
    then p
    else if key.return
    then on_return secret p
    else if secret
    then on_secret input key p
    else if key.up_arrow
    then on_up p
    else if key.down_arrow
    then down_from p p.history_index
    else on_command (decode_input input key) p

-- A key press, with the properties of that moment, or a value that the parent sets.
pub data Event : Type 0 where
  pressed : (focused : Bool) → (secret : Bool) → Text → Key → Event
  supplied : Text → Event

unfoldable pub step : Event → Prompt → Prompt
step (pressed focused secret input key) p = on_input focused secret input key p
step (supplied value) p = change value p

unfoldable pub run : List Event → Prompt → Prompt
run [] p = p
run (e ∷ events) p = run events (step e p)
