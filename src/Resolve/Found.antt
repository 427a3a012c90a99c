-- ===== src/Resolve/Found.antt =====
-- What `resolve` gives.
use openrep.Platform.{Platform}
use openrep.Prelude.{some, ◌≢◌, ◌≡◌, none, Option, Bool, Text}
use openrep.Storage.{StorageAdapter}
use openrep.Resolve.{response, ResolveResponse, resolve}
use openrep.Result.{agent_not_found, returned, ok, threw, failure, pure, Fault, ErrorCode, Outcome}
use openrep.Score.{Arithmetic, get_score, AgentScore, GetScoreOptions}
use openrep.Records.{AgentRecord}
use openrep.Score.Composite.{get_score-EndsScored, IsScored}
use openrep.Result.Rules.{bind_rule, some_rule, await_rule}

module _ {S : Type 0} (p : Platform) (before : Text → Text → Bool) (doubles : Arithmetic)
    (storage : StorageAdapter S) (name now : Text) (s : S) where
  abbrev defaults : GetScoreOptions
  defaults = record { page_size = none; max_attestations = none }

  abbrev looked_up : S
  looked_up = (storage.get_agent_by_name name s).1

  -- The agent is the one that the store has under the name, and the score is of that agent.
  pub record IsResolved (r : ResolveResponse) : Type 0 where
    pub found : (storage.get_agent_by_name name s).0 ≡ returned (some r.manifest)
    pub scored :
        IsScored p before doubles storage r.manifest.public_key defaults now looked_up r.score

  abbrev pub EndsResolved : Outcome (Option ResolveResponse) × S → Type 0
  EndsResolved x = (x.0 ≢ ok none) × ((r : ResolveResponse) → x.0 ≡ ok (some r) → IsResolved r)

  abbrev counted : AgentRecord → Outcome (Option AgentScore) × S
  counted agent = get_score p before doubles storage agent.public_key defaults now looked_up

  failed-EndsResolved : (c : ErrorCode) (t : S) → EndsResolved (failure c, t)
  failed-EndsResolved c t = (λ h. cc, λ r h. absurd (no_value h))
    where
      no_value : {v : Option ResolveResponse} → ¬ (failure c ≡ ok v)
      no_value h = cc

  threw-EndsResolved : (e : Fault) (t : S) → EndsResolved (threw e, t)
  threw-EndsResolved e t = (λ h. cc, λ r h. absurd (no_value h))
    where
      no_value : {v : Option ResolveResponse} → ¬ (threw e ≡ ok v)
      no_value h = cc

  -- Over any store: the call never runs out of pages to read before the cap on the records ends it,
  -- and it gives an answer only with the agent that the store has under the name, and with a score
  -- of the whole history of that agent's key: the sum, over the sources in the order of their first
  -- records, of the number of their records times their weight, as the doubles give it.
  pub resolve-EndsResolved : EndsResolved (resolve p before doubles storage name now s)
  unfolding resolve pure
  resolve-EndsResolved =
      await_rule EndsResolved (storage.get_agent_by_name name) _ s
        (λ found e.
          some_rule EndsResolved found agent_not_found _ looked_up
            (λ agent present.
              bind_rule EndsResolved
                (get_score p before doubles storage agent.public_key defaults now) _ looked_up
                (λ score got. answered agent (rw present at e) score got)
                (λ c e. failed-EndsResolved c (counted agent).1)
                (λ c e. threw-EndsResolved c (counted agent).1))
            (λ missing. failed-EndsResolved _ looked_up))
        (λ c failed. threw-EndsResolved c looked_up)
    where
      answered :
          (agent : AgentRecord)
          → (storage.get_agent_by_name name s).0 ≡ returned (some agent)
          → (score : Option AgentScore) → (counted agent).0 ≡ ok score
          → EndsResolved (pure (response agent score) (counted agent).1)
      answered agent found none got = absurd (
          (get_score-EndsScored p before doubles storage agent.public_key defaults now looked_up).0
            got)
      answered agent found (some score) got = (
        λ h. absurd (some_value h),
        λ r h. rw (← same_answer h) (record {
          found = found;
          scored =
              (get_score-EndsScored p before doubles storage agent.public_key defaults now
                  looked_up).1
                score got;
        }),
      )
        where
          some_value : {v : ResolveResponse} → ¬ (ok (some v) ≡ ok none)
          some_value h = cc

          same_answer : {a b : ResolveResponse} → ok (some a) ≡ ok (some b) → a ≡ b
          same_answer h = cc
