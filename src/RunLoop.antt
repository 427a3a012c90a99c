-- ===== src/RunLoop.antt =====
-- packages/sdk/src/run-loop.ts and packages/sdk/src/providers/validate.ts. The provider, the tools,
-- the timer and `JSON.stringify` are parameters; the messages of failures are left out.
pub mod Arguments
pub mod Schema
pub mod Permitted
pub mod History
use openrep.Prelude.{
  reverse, [], take, length, text_eq, ◌∷◌, not, ltb, find, ◌++◌, ◌||◌, all, Option, if◌then◌else◌,
  text, ◌+◌, Text, ◌⊎◌, List, Bool, ℕ, zero, suc, true, false, none, some, inl, inr,
}
use openrep.Result.{
  tool_argument_invalid, provider_api_failure, run_timed_out, invalid_input, unregistered_tool,
  turn_limit_exceeded, fail, pure, require_some, require, ok, Flow, ◌>>=◌, ◌>>◌,
}
use openrep.RunLoop.Arguments.{empty_object, string, json_field, json_object, Json}
use openrep.RunLoop.Schema.{validate_against_schema}

abbrev pub max_turns : ℕ
max_turns = 10

abbrev max_tool_result_preview_length : ℕ
max_tool_result_preview_length = 4000

pub record ToolDefinition : Type 0 where
  pub name : Text
  pub input_schema : Json

pub record ToolCall : Type 0 where
  pub name : Text
  pub arguments : Json
  pub id : Option Text
  pub thought_signature : Option Text

pub data ProviderMessage : Type 0 where
  user assistant : Text → ProviderMessage
  assistant_call : Text → ToolCall → ProviderMessage
  tool_result :
      Text → (name : Text) → (id : Option Text) → (signature : Option Text) → ProviderMessage

pub data ProviderResponse : Type 0 where
  final_text : Text → ProviderResponse
  tool_call : ToolCall → ProviderResponse

-- What `client.complete` throws.
pub data ProviderError : Type 0 where
  abort_error api_error other_error : ProviderError

pub record CapturedToolCall : Type 0 where
  pub tool : Text
  pub input : Json
  pub output : Json

pub record RunLoopResult : Type 0 where
  pub output : Text
  pub tools_used : List CapturedToolCall
  pub turns : ℕ

-- The provider's client, the abort signal, the tools, with what they inherit, the hook, which does
-- nothing when there is none, `JSON.stringify`, with none where it throws or gives no text, and `String`.
-- A tool returns a value or throws, with the message of the error.
pub record Host (W : Type 0) : Type 0 where
  pub complete : List ProviderMessage → W → (ProviderResponse ⊎ ProviderError) × W
  pub is_aborted : W → Bool
  pub has_tool : Text → Bool
  pub call : Text → Json → W → (Json ⊎ Text) × W
  pub on_tool_call : CapturedToolCall → W → W
  pub stringify : Json → Option Text
  pub to_string : Json → Text

-- The conversation, and what the world has seen: the calls of tools, and how often the provider was
-- asked.
pub record Run (W : Type 0) : Type 0 where
  pub world : W
  pub messages : List ProviderMessage
  pub tools_used : List CapturedToolCall
  pub executed : List (Text × Json)
  pub asked : ℕ

abbrev pub fresh_run : {W : Type 0} → W → Run W
fresh_run w = record { world = w; messages = []; tools_used = []; executed = []; asked = 0 }

-- The last definition of a name is the one in the map.
unfoldable pub find_tool : Text → List ToolDefinition → Option ToolDefinition
find_tool name tools = find (λ t. text_eq t.name name) (reverse tools)

unfoldable pub failed_output : Text → Json
failed_output message = json_object (
    json_field (text "error") (string (text "tool execution failed"))
      (json_field (text "message") (string message) empty_object))

abbrev pub output_of : Json ⊎ Text → Json
output_of (inl output) = output
output_of (inr message) = failed_output message

module _ {W : Type 0} (host : Host W) where
  abbrev preview : Text → Text
  preview t =
      if ltb max_tool_result_preview_length (length t)
      then take max_tool_result_preview_length t ++ text "... (truncated)"
      else t

  abbrev serialized : Json → Option Text → Text
  serialized output none = host.to_string output
  serialized output (some t) = preview t

  unfoldable pub serialize_tool_output : Json → Text
  serialize_tool_output output = serialized output (host.stringify output)

  unfoldable pub check_time : Flow (Run W) (Unit {0})
  check_time s = require (not (host.is_aborted s.world)) run_timed_out s

  abbrev pub is_abort : ProviderError → Bool
  is_abort abort_error = true
  is_abort _ = false

  unfoldable pub answered : ProviderResponse ⊎ ProviderError → Flow (Run W) ProviderResponse
  answered (inl response) s = (ok response, s)
  answered (inr e) s =
      fail (if is_abort e || host.is_aborted s.world then run_timed_out else provider_api_failure) s

  unfoldable pub ask : Flow (Run W) ProviderResponse
  ask s =
      let answer = host.complete s.messages s.world in
      answered answer.0 (record s { world = answer.1; asked = s.asked + 1 })

  abbrev pub captured : ToolCall → Json → CapturedToolCall
  captured call output = record { tool = call.name; input = call.arguments; output = output }

  abbrev pub messages_of : ToolCall → Json → List ProviderMessage
  messages_of call output =
      assistant_call (text "call " ++ call.name) call
      ∷ tool_result (serialize_tool_output output) call.name call.id call.thought_signature
      ∷ []

  -- The tool runs, and what it gives is captured, reported and fed back.
  unfoldable pub use_tool : ToolCall → Flow (Run W) (Unit {0})
  use_tool call s =
      let result = host.call call.name call.arguments s.world in
      let output = output_of result.0 in
      (
        ok tt,
        record {
          world = host.on_tool_call (captured call output) result.1;
          messages = s.messages ++ messages_of call output;
          tools_used = s.tools_used ++ captured call output ∷ [];
          executed = s.executed ++ (call.name, call.arguments) ∷ [];
          asked = s.asked;
        },
      )

  unfoldable pub finish : Text → ℕ → Flow (Run W) RunLoopResult
  finish output turns s =
      pure (record { output = output; tools_used = s.tools_used; turns = turns }) s

  module _ (tools : List ToolDefinition) where
    unfoldable pub after_response :
        ℕ → Flow (Run W) RunLoopResult → ProviderResponse → Flow (Run W) RunLoopResult
    after_response turns again (final_text output) = finish output turns
    after_response turns again (tool_call call) = do
      tool ← require_some (find_tool call.name tools) unregistered_tool
      require (validate_against_schema call.arguments tool.input_schema) tool_argument_invalid
      use_tool call
      again

    -- The loop, with the turns that are left and those taken.
    unfoldable pub loop : ℕ → ℕ → Flow (Run W) RunLoopResult
    loop zero turns = fail turn_limit_exceeded
    loop (suc left) turns = do
      check_time
      response ← ask
      after_response (turns + 1) (loop left (turns + 1)) response

  unfoldable pub run_agent_loop :
      List ToolDefinition → Text → List ProviderMessage → ℕ → Flow (Run W) RunLoopResult
  run_agent_loop tools task history limit s =
      (require (all (λ t. host.has_tool t.name) tools) invalid_input >> loop tools limit 0)
        (record s { messages = history ++ user task ∷ []; tools_used = [] })
