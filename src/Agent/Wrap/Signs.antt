-- ===== src/Agent/Wrap/Signs.antt =====
-- What `wrapAgent` attests.
use openrep.RunLoop.{Run}
use openrep.Prelude.{
  ◌∙◌, text, or_else, sym, false, none, Bool, length, ltb, not, true, refl, map, ◌⊎◌, ◌≢◌, ◌≡◌,
  Text, List, Option, some, inl, inr,
}
use openrep.Platform.{Platform}
use openrep.Storage.{StorageAdapter}
use openrep.RunLoop.{
  fresh_run, max_turns, run_agent_loop, Run, RunLoopResult, CapturedToolCall, Host,
}
use openrep.Agent.Wrap.{
  is_text, wrapped, message_of, history_of, run_loop, WrappedRunResult, wrap_agent, attest_run,
  WrapAgentParams, Captures,
}
use openrep.RunLoop.History.{Turn}
use openrep.Result.{
  continue, ok, invalid_input, ◌>>=◌, failure, pure, threw, Outcome, ErrorCode, Fault,
}
use openrep.Records.{Attestation}
use openrep.Result.Rules.{missing_rule, bind_rule, require_rule, some_rule}
use openrep.RunLoop.Permitted.{run_agent_loop-Ran, Ran}
use openrep.Hex.{is_lowercase_hex_of_length}
use openrep.Attestation.Content.{max_task_length}
use openrep.Attestation.Native.{attest}

module _ {S W : Type 0} (p : Platform) (storage : StorageAdapter S) (host : Option (Host W))
    (embed : List CapturedToolCall → Captures) (id now : Text) (params : WrapAgentParams) (s : S)
    (w : W) where
  abbrev run_of : Host W → Text → List Turn → Outcome RunLoopResult × Run W
  run_of h task turns =
      run_agent_loop h params.tools task (map message_of turns) max_turns (fresh_run w)

  -- The parameters are in order, and the run of the loop ends with an output.
  pub record Converges : Type 0 where
    pub client : Host W
    pub task : Text
    pub key : Text
    pub turns : List Turn
    pub result : RunLoopResult
    pub provider : host ≡ some client
    pub asked : params.task ≡ some task
    pub signed_by : params.signing_key ≡ some key
    pub shape : is_lowercase_hex_of_length key 32 ≡ true
    pub has_api_key : is_text params.api_key ≡ true
    pub has_model : is_text params.model ≡ true
    pub short : not (ltb max_task_length (length task)) ≡ true
    pub context : history_of params.history ≡ some turns
    pub converged : (run_of client task turns).0 ≡ ok result

  -- What `attest` does on the task, the output and the tool calls of the run.
  abbrev pub attested : Text → Text → RunLoopResult → Outcome Attestation × S
  attested task key result =
      attest p storage (embed result.tools_used).heap (embed result.tools_used).fresh id now
        (record {
          agent_id = params.agent_id;
          task = some task;
          output = some result.output;
          tools_used = (embed result.tools_used).value;
          source = some (or_else params.source (text "native"));
          idempotency_key = params.idempotency_key;
        })
        key s

  -- A result is of the run, with the attestation; any other end of the attestation is passed on.
  abbrev pub Passes : RunLoopResult → Outcome Attestation → Outcome WrappedRunResult → Type 0
  Passes result (ok a) o =
      o
      ≡ ok (record {
        output = result.output;
        tools_used = result.tools_used;
        turns = result.turns;
        attestation = a;
      })
  Passes result (failure c) o = o ≡ failure c
  Passes result (threw e) o = o ≡ threw e

  -- The run converged, and the call ends as the attestation of it.
  pub record IsAttested (x : Outcome WrappedRunResult × (S × W)) : Type 0 where
    pub run : Converges
    pub ran :
        Ran run.client params.tools 0 max_turns (fresh_run w) (run_of run.client run.task run.turns)
    pub stored : x.1.0 ≡ (attested run.task run.key run.result).1
    pub answer : Passes run.result (attested run.task run.key run.result).0 x.0

  abbrev pub Signs : Outcome WrappedRunResult × (S × W) → Type 0
  Signs x = IsAttested x ⊎ (¬ Converges × (x.1.0 ≡ s) × ((r : WrappedRunResult) → x.0 ≢ ok r))

  refused : (c : ErrorCode) (v : W) → ¬ Converges → Signs (failure c, (s, v))
  refused c v h = inr (h, refl, λ r e. no_value r e)
    where
      no_value : (r : WrappedRunResult) → failure c ≢ ok r
      no_value r e = cc

  thrown : (e : Fault) (v : W) → ¬ Converges → Signs (threw e, (s, v))
  thrown e v h = inr (h, refl, λ r k. no_value r k)
    where
      no_value : (r : WrappedRunResult) → threw e ≢ ok r
      no_value r k = cc

  signed :
      (run : Converges)
      → Signs (
          (attest_run p storage host embed id now params run.task run.key run.result
              >>= λ attestation. pure (wrapped p storage host embed run.result attestation))
            (s, (run_of run.client run.task run.turns).1.world))
  unfolding attest_run pure ◌>>=◌
  signed run = go (attested run.task run.key run.result).0 refl
    where
      built :
          (o : Outcome WrappedRunResult)
          → Passes run.result (attested run.task run.key run.result).0 o
          → Signs (
            o,
            (
              (attested run.task run.key run.result).1,
              (run_of run.client run.task run.turns).1.world,
            ),
          )
      built o answer = inl (record {
        run = run;
        ran =
            run_agent_loop-Ran run.client params.tools run.task (map message_of run.turns) max_turns
              w;
        stored = refl;
        answer = answer;
      })

      go :
          (o : Outcome Attestation)
          → (attested run.task run.key run.result).0 ≡ o
          → Signs (
              continue o
                (λ a. pure (wrapped p storage host embed run.result a))
                (
                  (attested run.task run.key run.result).1,
                  (run_of run.client run.task run.turns).1.world,
                ))
      go (ok a) e = built (ok (wrapped p storage host embed run.result a)) (rw e refl)
      go (failure c) e = built (failure c) (rw e refl)
      go (threw c) e = built (threw c) (rw e refl)

  same_text : {a b : Text} {o : Option Text} → o ≡ some a → o ≡ some b → a ≡ b
  same_text h k = cc

  same_host : {a b : Host W} {o : Option (Host W)} → o ≡ some a → o ≡ some b → a ≡ b
  same_host h k = cc

  same_turns : {a b : List Turn} {o : Option (List Turn)} → o ≡ some a → o ≡ some b → a ≡ b
  same_turns h k = cc

  is_false : {b : Bool} → b ≡ false → ¬ (b ≡ true)
  is_false h k = cc

  fails :
      (client : Host W) (task : Text) (turns : List Turn)
      → host ≡ some client
      → params.task ≡ some task
      → history_of params.history ≡ some turns
      → ((r : RunLoopResult) → (run_of client task turns).0 ≢ ok r)
      → ¬ Converges
  fails client task turns g g' context fail r =
      fail r.result (
        rw (same_host g r.provider, same_text g' r.asked, same_turns context r.context) r.converged)

  no_absent : {A : Type 0} {a : A} → ¬ (none ≡ some a)
  no_absent h = cc

  failed_no_value : {c : ErrorCode} {r : RunLoopResult} → ¬ (failure c ≡ ok r)
  failed_no_value e = cc

  threw_no_value : {c : Fault} {r : RunLoopResult} → ¬ (threw c ≡ ok r)
  threw_no_value e = cc

  -- When the parameters are in order and the run converges, the call ends as attest does on exactly
  -- the task, the output and the tool calls of the run, those that ran and were permitted: a result
  -- is of that run with that attestation, any other end is passed on, and the store is as attest
  -- left it. Otherwise the store is left as it was and there is no result.
  pub wrap_agent-Signs : Signs (wrap_agent p storage host embed id now params (s, w))
  unfolding wrap_agent run_loop
  wrap_agent-Signs =
      some_rule Signs params.task invalid_input _ _
        (λ task g.
          some_rule Signs params.signing_key invalid_input _ _
            (λ key g'.
              require_rule Signs _ _ _ _
                (λ shaped.
                  require_rule Signs _ _ _ _
                    (λ api_key.
                      require_rule Signs _ _ _ _
                        (λ model.
                          require_rule Signs _ _ _ _
                            (λ short.
                              some_rule Signs (history_of params.history) invalid_input _ _
                                (λ turns context.
                                  missing_rule Signs host _ _
                                    (λ client g''.
                                      bind_rule Signs
                                        (run_loop p storage host embed client params.tools task
                                          turns)
                                        _ _
                                        (λ result converged. signed (record {
                                          client = client;
                                          task = task;
                                          key = key;
                                          turns = turns;
                                          result = result;
                                          provider = g'';
                                          asked = g;
                                          signed_by = g';
                                          shape = shaped;
                                          has_api_key = api_key;
                                          has_model = model;
                                          short = short;
                                          context = context;
                                          converged = converged;
                                        }))
                                        (λ c e. refused c _ (
                                          fails client task turns g'' g context
                                            (λ r k. failed_no_value (sym e ∙ k))))
                                        (λ c e. thrown c _ (
                                          fails client task turns g'' g context
                                            (λ r k. threw_no_value (sym e ∙ k)))))
                                    (λ missing.
                                      thrown _ w (λ r. no_absent (sym missing ∙ r.provider))))
                                (λ missing. refused _ w (λ r. no_absent (sym missing ∙ r.context))))
                            (λ long.
                              refused _ w
                                (λ r. is_false (rw (same_text g r.asked) at long) r.short)))
                        (λ model. refused _ w (λ r. is_false model r.has_model)))
                    (λ api_key. refused _ w (λ r. is_false api_key r.has_api_key)))
                (λ shaped.
                  refused _ w (λ r. is_false (rw (same_text g' r.signed_by) at shaped) r.shape)))
            (λ missing. refused _ w (λ r. no_absent (sym missing ∙ r.signed_by))))
        (λ missing. refused _ w (λ r. no_absent (sym missing ∙ r.asked)))
