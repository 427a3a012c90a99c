-- ===== src/Resolve.antt =====
-- packages/sdk/src/resolve.ts: `resolve`.
pub mod Found
use openrep.Prelude.{Bool, Option, Text, none, some}
use openrep.Records.{AgentRecord}
use openrep.Platform.{Platform}
use openrep.Score.{get_score, AgentScore, Arithmetic}
use openrep.Storage.{StorageAdapter}
use openrep.Result.{pure, agent_not_found, require_some, await, ◌>>=◌, Flow}

pub record ResolveResponse : Type 0 where
  pub manifest : AgentRecord
  pub score : AgentScore

abbrev pub response : AgentRecord → Option AgentScore → Option ResolveResponse
response r none = none
response r (some score) = some (record { manifest = r; score = score })

-- `getScore` with its defaults. The row id that the code strips is none of the fields here.
module _ {S : Type 0} (p : Platform) (before : Text → Text → Bool) (doubles : Arithmetic)
    (storage : StorageAdapter S) where
  unfoldable pub resolve : Text → Text → Flow S (Option ResolveResponse)
  resolve name now = do
    found ← await (storage.get_agent_by_name name)
    agent ← require_some found agent_not_found
    score ←
        get_score p before doubles storage agent.public_key
          (record { page_size = none; max_attestations = none }) now
    pure (response agent score)
