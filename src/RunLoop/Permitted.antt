-- ===== src/RunLoop/Permitted.antt =====
-- Which tools a run calls, and how long it goes on.
use openrep.Prelude.{
  zero, not, refl, inr, inl, all-find_last, map-append, ◌⊎◌, reverse, text_eq, arith, find_holds,
  ap, append_assoc, text_eq_iff, append-nil, sym, length, ◌∙◌, map, [], ◌∷◌, All, suc, ◌≢◌, ◌≤◌,
  ◌++◌, ◌+◌, some, true, ◌≡◌, all, List, ℕ,
}
use openrep.RunLoop.{
  fresh_run, user, ProviderMessage, run_agent_loop, final_text, tool_call, check_time, finish, loop,
  after_response, captured, ProviderError, ProviderResponse, ask, answered, find_tool,
  RunLoopResult, ToolCall, CapturedToolCall, use_tool, Run, Text, ToolDefinition, Host,
}
use openrep.Result.{pure, ◌>>=◌, Flow, fail, threw, failure, Fault, ErrorCode, ok, Outcome}
use openrep.RunLoop.Arguments.{Json}
use openrep.RunLoop.Schema.{validate_against_schema}
use openrep.Result.Rules.{bind_rule, require_rule, some_rule}

module _ {W : Type 0} (host : Host W) (tools : List ToolDefinition) where
  -- The name is one of a tool of the configuration, which has an implementation, and the arguments
  -- are as its schema says.
  pub record IsPermitted (call : Text × Json) : Type 0 where
    pub tool : ToolDefinition
    pub chosen : find_tool call.0 tools ≡ some tool
    pub named : tool.name ≡ call.0
    pub implemented : host.has_tool call.0 ≡ true
    pub valid : validate_against_schema call.1 tool.input_schema ≡ true

  abbrev call_of : CapturedToolCall → Text × Json
  call_of c = (c.tool, c.input)

  abbrev pub IsGiven : Type 0
  IsGiven = all (λ t. host.has_tool t.name) tools ≡ true

  -- A run from `s`, with so many turns taken and so many left: what it executed is permitted, the
  -- provider was asked at most once a turn, and a result lists what was executed, and its turns.
  abbrev pub Ran : ℕ → ℕ → Run W → Outcome RunLoopResult × Run W → Type 0
  Ran turns left s x =
      (calls : List (Text × Json)) × (x.1.executed ≡ s.executed ++ calls)
      × All IsPermitted calls
      × (x.1.asked ≤ s.asked + left)
      × ((r : RunLoopResult)
          → x.0 ≡ ok r
          → (map call_of r.tools_used ≡ map call_of s.tools_used ++ calls)
            × (r.turns ≡ turns + length calls + 1)
            × (r.turns ≤ turns + left))

  module _ (turns : ℕ) (s : Run W) where
    -- A run that ends with an error before it calls a tool.
    ends :
        (left : ℕ) (o : Outcome RunLoopResult) (t : Run W)
        → t.executed ≡ s.executed
        → t.asked ≤ s.asked + left
        → ((r : RunLoopResult) → o ≢ ok r)
        → Ran turns left s (o, t)
    ends left o t h k none_given =
        ([], h ∙ sym (append-nil _), tt, k, λ r e. absurd (none_given r e))

  use_tool-Ran :
      (turns left : ℕ) (call : ToolCall) (s t : Run W) (x : Outcome RunLoopResult × Run W)
      → t.executed ≡ s.executed
      → t.asked ≡ s.asked + 1
      → t.tools_used ≡ s.tools_used
      → IsPermitted (call.name, call.arguments)
      → Ran (turns + 1) left (use_tool host call t).1 x
      → Ran turns (suc left) s x
  unfolding use_tool
  use_tool-Ran turns left call s t x executed asked used permitted (calls, h, all, few, result) = (
    (call.name, call.arguments) ∷ calls,
    h ∙ append_assoc t.executed (c ∷ []) calls ∙ ap (λ ds. ds ++ c ∷ calls) executed,
    (permitted, all),
    omega (arith, few, asked),
    λ r e. (
      (result r e).0
          ∙ ap (λ ds. ds ++ calls) (map-append call_of t.tools_used (captured host call _ ∷ []))
          ∙ append_assoc (map call_of t.tools_used) (c ∷ []) calls
          ∙ ap (λ ds. map call_of ds ++ c ∷ calls) used,
      omega (arith, (result r e).1),
      omega (arith, (result r e).2),
    ),
  )
    where
      c : Text × Json
      c = (call.name, call.arguments)

  answered-state : (r : ProviderResponse ⊎ ProviderError) (t : Run W) → (answered host r t).1 ≡ t
  unfolding answered fail
  answered-state (inl response) t = refl
  answered-state (inr e) t = refl

  ask-asked : (s : Run W) → (ask host s).1.asked ≡ s.asked + 1
  unfolding ask
  ask-asked s = ap (λ t. t.asked) (answered-state _ _)

  ask-executed : (s : Run W) → (ask host s).1.executed ≡ s.executed
  unfolding ask
  ask-executed s = ap (λ t. t.executed) (answered-state _ _)

  ask-tools_used : (s : Run W) → (ask host s).1.tools_used ≡ s.tools_used
  unfolding ask
  ask-tools_used s = ap (λ t. t.tools_used) (answered-state _ _)

  no_result : {c : ErrorCode} (r : RunLoopResult) → failure c ≢ ok r
  no_result r e = cc

  same_result : {q r : RunLoopResult} → ok q ≡ ok r → q ≡ r
  same_result e = cc

  no_result_thrown : {c : Fault} (r : RunLoopResult) → threw c ≢ ok r
  no_result_thrown r e = cc

  permitted :
      (call : ToolCall) (tool : ToolDefinition)
      → IsGiven
      → find_tool call.name tools ≡ some tool
      → validate_against_schema call.arguments tool.input_schema ≡ true
      → IsPermitted (call.name, call.arguments)
  unfolding find_tool
  permitted call tool given found valid = record {
    tool = tool;
    chosen = found;
    named = named;
    implemented = rw named at (all-find_last (λ t. host.has_tool t.name) _ tools given found);
    valid = valid;
  }
    where
      named : tool.name ≡ call.name
      named =
          (text_eq_iff tool.name call.name).0
            (find_holds (λ t. text_eq t.name call.name) (reverse tools) found)

  call-Ran :
      (turns left : ℕ) (call : ToolCall) (s t : Run W) (again : Flow (Run W) RunLoopResult)
      → t.executed ≡ s.executed
      → t.asked ≡ s.asked + 1
      → t.tools_used ≡ s.tools_used
      → IsGiven
      → ((u : Run W) → Ran (turns + 1) left u (again u))
      → Ran turns (suc left) s (after_response host tools (turns + 1) again (tool_call call) t)
  unfolding after_response ◌>>=◌ use_tool
  call-Ran turns left call s t again executed asked used given h =
      some_rule (Ran turns (suc left) s) (find_tool call.name tools) _ _ t
        (λ tool found.
          require_rule (Ran turns (suc left) s) _ _ _ t
            (λ valid.
              use_tool-Ran turns left call s t (again (use_tool host call t).1) executed asked used
                (permitted call tool given found valid) (h (use_tool host call t).1))
            (λ invalid. ends turns s (suc left) _ t executed (omega (arith, asked)) no_result))
        (λ unknown. ends turns s (suc left) _ t executed (omega (arith, asked)) no_result)

  after_response-Ran :
      (turns left : ℕ) (response : ProviderResponse) (s t : Run W)
      (again : Flow (Run W) RunLoopResult)
      → t.executed ≡ s.executed
      → t.asked ≡ s.asked + 1
      → t.tools_used ≡ s.tools_used
      → IsGiven
      → ((u : Run W) → Ran (turns + 1) left u (again u))
      → Ran turns (suc left) s (after_response host tools (turns + 1) again response t)
  unfolding after_response finish pure
  after_response-Ran turns left (final_text output) s t again executed asked used given h = (
    [],
    executed ∙ sym (append-nil _),
    tt,
    omega (arith, asked),
    λ r e. (
      ap (λ q. map call_of q.tools_used) (sym (same_result e))
          ∙ ap (map call_of) used
          ∙ sym (append-nil _),
      omega (arith, ap (λ q. q.turns) (same_result e)),
      omega (arith, ap (λ q. q.turns) (same_result e)),
    ),
  )
  after_response-Ran turns left (tool_call call) s t again executed asked used given h =
      call-Ran turns left call s t again executed asked used given h

  loop-Ran :
      (left turns : ℕ) (s : Run W) → IsGiven → Ran turns left s (loop host tools left turns s)
  unfolding loop check_time fail ◌>>=◌
  loop-Ran zero turns s given = ends turns s 0 _ s refl (omega arith) no_result
  loop-Ran (suc left) turns s given =
      require_rule (Ran turns (suc left) s) (not (host.is_aborted s.world)) _ _ s
        (λ in_time.
          bind_rule (Ran turns (suc left) s) (ask host) _ s
            (λ response e.
              after_response-Ran turns left response s (ask host s).1
                (loop host tools left (turns + 1)) (ask-executed s) (ask-asked s) (ask-tools_used s)
                given (λ u. loop-Ran left (turns + 1) u given))
            (λ c e.
              ends turns s (suc left) _ (ask host s).1 (ask-executed s) (omega (arith, ask-asked s))
                no_result)
            (λ c e.
              ends turns s (suc left) _ (ask host s).1 (ask-executed s) (omega (arith, ask-asked s))
                no_result_thrown))
        (λ late. ends turns s (suc left) _ s refl (omega arith) no_result)

  -- Whatever the model answers, a run of the loop calls only tools that the configuration names and
  -- that have an implementation, with arguments that pass the schema; it asks the provider at most
  -- maxTurns times; and when it ends with a result, the tool calls that the result lists are exactly
  -- those that ran, in their order, and its turns are one more than these and at most maxTurns.
  pub run_agent_loop-Ran :
      (task : Text) (history : List ProviderMessage) (limit : ℕ) (w : W)
      → Ran 0 limit (fresh_run w) (run_agent_loop host tools task history limit (fresh_run w))
  unfolding run_agent_loop
  run_agent_loop-Ran task history limit w =
      require_rule (Ran 0 limit (fresh_run w)) (all (λ t. host.has_tool t.name) tools) _ _ _
        (λ given.
          loop-Ran limit 0 (record (fresh_run w) { messages = history ++ user task ∷ [] }) given)
        (λ missing.
          ends 0 (fresh_run w) limit _
            (record (fresh_run w) { messages = history ++ user task ∷ [] }) refl (omega arith)
            no_result)
