-- ===== src/Tests/Running.antt =====
-- A run of the loop with one tool.
use openrep.Prelude.{
  String, List, ◌≡◌, true, text_eq, zero, false, [], ◌+◌, suc, ◌∷◌, text, inl, ℕ, refl, some, none,
}
use openrep.RunLoop.Arguments.{
  empty_array, json_array, item, JsonItems, own_property, boolean, empty_object, string, json_field,
  json_object, Json,
}
use openrep.RunLoop.{
  fresh_run, run_agent_loop, max_turns, final_text, tool_call, ProviderResponse, ToolCall,
  ToolDefinition, Host,
}
use openrep.RunLoop.Permitted.{run_agent_loop-Ran, Ran}
use openrep.RunLoop.Schema.{
  is_plain_object, is_false, is_undefined, kind_of, schema_kind, fields_of, has_required,
  validate_fields, validate_kind, validate_against_schema,
}
use openrep.RunLoop.History.{turns_of, Turn, normalize_history}
use openrep.RunLoop.History.Newest.{AreEntries, IsRecent, normalize_history-IsRecent}

abbrev pub echo_schema : Json
echo_schema = json_object (
    json_field (text "type") (string (text "object")) (
      json_field (text "properties")
        (json_object (
          json_field (text "say")
            (json_object (json_field (text "type") (string (text "string")) empty_object))
            empty_object))
        (json_field (text "additionalProperties") (boolean false) empty_object)))

abbrev pub echo : ToolDefinition
echo = record { name = text "echo"; input_schema = echo_schema }

abbrev pub echo_arguments : Json
echo_arguments = json_object (json_field (text "say") (string (text "hi")) empty_object)

abbrev pub echo_call : ToolCall
echo_call = record {
  name = text "echo";
  arguments = echo_arguments;
  id = none;
  thought_signature = none;
}

-- A model that calls the tool twice and then answers; the world counts the requests.
abbrev pub scripted : ℕ → ProviderResponse
scripted zero = tool_call echo_call
scripted (suc zero) = tool_call echo_call
scripted (suc (suc n)) = final_text (text "done")

abbrev pub echo_host : Host ℕ
echo_host = record {
  complete = λ messages n. (inl (scripted n), n + 1);
  is_aborted = λ n. false;
  has_tool = λ name. text_eq name (text "echo");
  call = λ name arguments n. (inl arguments, n);
  on_tool_call = λ c n. n;
  stringify = λ v. some (text "{}");
  to_string = λ v. [];
}

undeclared_argument :
    validate_against_schema
      (json_object (json_field (text "shout") (boolean true) empty_object))
      echo_schema
    ≡ false
unfolding validate_against_schema validate_kind validate_fields has_required fields_of schema_kind
    kind_of own_property is_undefined is_false text_eq
undeclared_argument = refl

-- The name of a property that every object inherits passes for a declared one.
inherited_argument :
    validate_against_schema
      (json_object (json_field (text "toString") (json_object empty_object) empty_object))
      echo_schema
    ≡ true
unfolding validate_against_schema validate_kind validate_fields has_required fields_of schema_kind
    kind_of own_property is_undefined is_false is_plain_object text_eq
inherited_argument = refl

run_agent_loop-Ran_example :
    Ran echo_host
      (echo ∷ [])
      0
      max_turns
      (fresh_run 0)
      (run_agent_loop echo_host (echo ∷ []) (text "task") [] max_turns (fresh_run 0))
run_agent_loop-Ran_example = run_agent_loop-Ran echo_host (echo ∷ []) (text "task") [] max_turns 0

abbrev spoken : String → Json
spoken s = json_object (
    json_field (text "role") (string (text "user"))
      (json_field (text "content") (string (text s)) empty_object))

abbrev two_turns : JsonItems
two_turns = item (spoken "hi") (item (spoken "again") empty_array)

abbrev said : String → Turn
said s = record { by_assistant = false; content = text s }

kept_turns : normalize_history (json_array two_turns) ≡ some (said "hi" ∷ said "again" ∷ [])
unfolding normalize_history openrep.RunLoop.History.bounded turns_of
    openrep.RunLoop.History.cons_turn openrep.RunLoop.History.turn_of
    openrep.RunLoop.History.turn_of_role own_property text_eq openrep.RunLoop.History.turn_with
    openrep.Prelude.trim openrep.Prelude.trim_start openrep.RunLoop.History.bound_history
    openrep.RunLoop.History.keep_fitting
kept_turns = refl

normalize_history-IsRecent_example :
    (turns : List Turn) × AreEntries two_turns turns
    × IsRecent turns (said "hi" ∷ said "again" ∷ [])
normalize_history-IsRecent_example =
    normalize_history-IsRecent two_turns (said "hi" ∷ said "again" ∷ []) kept_turns
