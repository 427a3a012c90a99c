-- ===== src/Prompt/Machine.antt =====
-- packages/cli/src/ui/input-machine.ts: the editing of a line with a cursor.
use openrep.Prelude.{Option, some, false, none}
use openrep.Prelude.{
  get_elem?, zero, ◌+◌, ◌==◌, not, suc, ◌++◌, length, leb, ltb, [], Bool, drop, ◌-◌, Text,
  if◌then◌else◌, take, ℕ,
}

pub record InputState : Type 0 where
  pub value : Text
  pub cursor : ℕ

abbrev pub empty_input : InputState
empty_input = record { value = []; cursor = 0 }

-- `value[i] === " "`, which is false past the end.
abbrev pub is_blank : Option ℕ → Bool
is_blank none = false
is_blank (some c) = c == 32

abbrev pub space_at : Text → ℕ → Bool
space_at value i = is_blank (get_elem? value i)

abbrev pub word_at : Text → ℕ → Bool
word_at value i = not (space_at value i)

-- `while (cursor > 0 && p(cursor - 1)) cursor -= 1`
unfoldable pub skip_back : (ℕ → Bool) → ℕ → ℕ
skip_back p zero = zero
skip_back p (suc n) = let rest = skip_back p n in if p n then rest else suc n

-- `while (cursor < len && p(cursor)) cursor += 1`, with `len - cursor` rounds left
unfoldable pub skip_ahead : (ℕ → Bool) → ℕ → ℕ → ℕ
skip_ahead p zero cursor = cursor
skip_ahead p (suc n) cursor =
    let rest = skip_ahead p n (suc cursor) in if p cursor then rest else cursor

unfoldable pub previous_word_boundary : Text → ℕ → ℕ
previous_word_boundary value from = skip_back (word_at value) (skip_back (space_at value) from)

unfoldable pub next_word_boundary : Text → ℕ → ℕ
next_word_boundary value from =
    let cursor = skip_ahead (space_at value) (length value - from) from in
    skip_ahead (word_at value) (length value - cursor) cursor

unfoldable pub move_left : InputState → InputState
move_left s = record s { cursor = s.cursor - 1 }

unfoldable pub move_right : InputState → InputState
move_right s = record s {
  cursor = if ltb (length s.value) (s.cursor + 1) then length s.value else s.cursor + 1;
}

unfoldable pub move_word_left : InputState → InputState
move_word_left s = record s { cursor = previous_word_boundary s.value s.cursor }

unfoldable pub move_word_right : InputState → InputState
move_word_right s = record s { cursor = next_word_boundary s.value s.cursor }

unfoldable pub insert_text : InputState → Text → InputState
insert_text s t = record {
  value = take s.cursor s.value ++ t ++ drop s.cursor s.value;
  cursor = s.cursor + length t;
}

unfoldable pub delete_at_cursor_left : InputState → InputState
delete_at_cursor_left s = if s.cursor == 0 then s else record {
  value = take (s.cursor - 1) s.value ++ drop s.cursor s.value;
  cursor = s.cursor - 1;
}

unfoldable pub delete_at_cursor_right : InputState → InputState
delete_at_cursor_right s =
    if leb (length s.value) s.cursor
    then s
    else record { value = take s.cursor s.value ++ drop (s.cursor + 1) s.value; cursor = s.cursor }

unfoldable pub delete_word_left : InputState → InputState
delete_word_left s =
    let boundary = previous_word_boundary s.value s.cursor in
    record { value = take boundary s.value ++ drop s.cursor s.value; cursor = boundary }

unfoldable pub delete_line_start : InputState → InputState
delete_line_start s = record { value = drop s.cursor s.value; cursor = 0 }

unfoldable pub delete_line_end : InputState → InputState
delete_line_end s = record { value = take s.cursor s.value; cursor = s.cursor }

unfoldable pub replace_all : InputState → Text → InputState
replace_all s value = record { value = value; cursor = length value }
