-- ===== src/Names.antt =====
-- The loop over generated names in `createAgent` of packages/sdk/src/agent.ts and `rotateAgent` of
-- packages/sdk/src/rotation.ts.
pub mod Loop
pub mod Words
use openrep.Prelude.{ℕ, zero, suc, Option, some, none, is_some, Text, if◌then◌else◌}
use openrep.Records.{AgentRecord, AgentManifest}
use openrep.Storage.{StorageAdapter}
use openrep.Result.{
  Fault, coded, uncoded, Call, Flow, duplicate_name, storage_write_failed,
  name_generation_exhausted, try_call, fail, pure, ◌>>=◌,
}

abbrev pub name_generation_max_attempts : ℕ
name_generation_max_attempts = 10

-- The unique name arbitrates: its violation is a reason to retry, any other error is not.
unfoldable pub conflict : {S B : Type 0} → Fault → Flow S B → Flow S B
conflict (coded duplicate_name) rest = rest
conflict (coded c) rest = fail storage_write_failed
conflict uncoded rest = fail storage_write_failed

-- `names i` is what `generateName` gives in round `i`; `build` signs a manifest of a name, `save`
-- writes it, and `done` is what the caller gets.
module _ {S B : Type 0} (storage : StorageAdapter S) (names : ℕ → Text)
    (build : Text → Flow S AgentManifest) (save : AgentManifest → Call S (Unit {0}))
    (done : AgentManifest → B) where
  unfoldable pub write_manifest : Flow S B → AgentManifest → Flow S B
  write_manifest rest manifest =
      try_call (save manifest) (λ _. pure (done manifest)) (λ e. conflict e rest)

  unfoldable pub claim_name : Text → Flow S B → Flow S B
  claim_name name rest = do manifest ← build name; write_manifest rest manifest

  unfoldable pub unless_taken : Text → Flow S B → Option AgentRecord → Flow S B
  unless_taken name rest none = claim_name name rest
  unless_taken name rest (some existing) = rest

  -- The optimistic skip of a taken name; a failed lookup skips nothing.
  unfoldable pub try_names : ℕ → ℕ → Flow S B
  try_names zero i = fail name_generation_exhausted
  try_names (suc left) i =
      let rest = try_names left (suc i) in
      try_call (storage.get_agent_by_name (names i)) (unless_taken (names i) rest)
        (λ _. claim_name (names i) rest)
