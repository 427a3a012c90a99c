-- ===== src/Agent/Wrap.antt =====
-- `wrapAgent` of packages/sdk/src/agent.ts: a run of the loop, and the attestation of a run that
-- converged.
pub mod Signs
use openrep.Prelude.{
  ltb, ◌==◌, map, or_else, length, not, [], false, if◌then◌else◌, Bool, List, Text, Option, ℕ, none,
  some,
}
use openrep.Platform.{Platform}
use openrep.RunLoop.History.{normalize_history, Turn}
use openrep.Canonical.{Value, Heap}
use openrep.RunLoop.Arguments.{Json}
use openrep.RunLoop.{
  fresh_run, max_turns, run_agent_loop, user, RunLoopResult, assistant, Host, CapturedToolCall,
  ToolDefinition, ProviderMessage,
}
use openrep.Storage.{StorageAdapter}
use openrep.Records.{Attestation}
use openrep.Result.{
  pure, unguarded, input_too_large, require, ◌>>◌, invalid_input, require_some, ◌>>=◌, Flow,
}
use openrep.Attestation.Native.{native_source, AttestationInput, attest}
use openrep.Hex.{is_lowercase_hex_of_length}
use openrep.Attestation.Content.{max_task_length}

-- `typeof` tests are by `Option`: a value that is no string is `none`. The history is absent, or any
-- value.
pub record WrapAgentParams : Type 0 where
  pub agent_id : Text
  pub signing_key : Option Text
  pub model : Option Text
  pub tools : List ToolDefinition
  pub api_key : Option Text
  pub task : Option Text
  pub history : Option Json
  pub source : Option Text
  pub idempotency_key : Option Text

pub record WrappedRunResult : Type 0 where
  pub output : Text
  pub tools_used : List CapturedToolCall
  pub turns : ℕ
  pub attestation : Attestation

-- The captured calls as a value among the objects that `attest` meets.
pub record Captures : Type 0 where
  pub heap : Heap
  pub fresh : ℕ
  pub value : Value

abbrev pub is_text : Option Text → Bool
is_text none = false
is_text (some t) = not (length t == 0)

abbrev pub message_of : Turn → ProviderMessage
message_of t = if t.by_assistant then assistant t.content else user t.content

unfoldable pub history_of : Option Json → Option (List Turn)
history_of none = some []
history_of (some v) = normalize_history v

module _ {S W : Type 0} (p : Platform) (storage : StorageAdapter S) (host : Option (Host W))
    (embed : List CapturedToolCall → Captures) where
  unfoldable pub run_loop :
      Host W → List ToolDefinition → Text → List Turn → Flow (S × W) RunLoopResult
  run_loop h tools task history (s, w) =
      let x = run_agent_loop h tools task (map message_of history) max_turns (fresh_run w) in
      (x.0, (s, x.1.world))

  abbrev pub input_of : WrapAgentParams → Text → RunLoopResult → AttestationInput
  input_of params task result = record {
    agent_id = params.agent_id;
    task = some task;
    output = some result.output;
    tools_used = (embed result.tools_used).value;
    source = some (or_else params.source native_source);
    idempotency_key = params.idempotency_key;
  }

  abbrev pub attest_call :
      Text → Text → WrapAgentParams → Text → Text → RunLoopResult → Flow S Attestation
  attest_call id now params task key result =
      attest p storage (embed result.tools_used).heap (embed result.tools_used).fresh id now
        (input_of params task result) key

  unfoldable pub attest_run :
      Text → Text → WrapAgentParams → Text → Text → RunLoopResult → Flow (S × W) Attestation
  attest_run id now params task key result (s, w) =
      let x = attest_call id now params task key result s in (x.0, (x.1, w))

  abbrev pub wrapped : RunLoopResult → Attestation → WrappedRunResult
  wrapped result attestation = record {
    output = result.output;
    tools_used = result.tools_used;
    turns = result.turns;
    attestation = attestation;
  }

  -- `id` and `now` are the random id and the clock of `attest`.
  unfoldable pub wrap_agent : Text → Text → WrapAgentParams → Flow (S × W) WrappedRunResult
  wrap_agent id now params = do
    task ← require_some params.task invalid_input
    key ← require_some params.signing_key invalid_input
    require (is_lowercase_hex_of_length key 32) invalid_input
    require (is_text params.api_key) invalid_input
    require (is_text params.model) invalid_input
    require (not (ltb max_task_length (length task))) input_too_large
    history ← require_some (history_of params.history) invalid_input
    client ← unguarded host
    result ← run_loop client params.tools task history
    attestation ← attest_run id now params task key result
    pure (wrapped result attestation)
