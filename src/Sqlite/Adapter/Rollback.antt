-- ===== src/Sqlite/Adapter/Rollback.antt =====
-- How `rotateAgent` of packages/sdk/src/storage/sqlite.ts ends when other calls come in between.
use openrep.Records.{KeyRotationRecord, AgentRecord}
use openrep.Sqlite.Tables.{has_key, Db}
use openrep.Sqlite.Agents.{
  settle_transaction, insert_rotation, save_agent, then_insert, begin_rotation, end_rotation,
}
use openrep.Result.{uncoded, rejected, Fault, returned, Settled}
use openrep.Prelude.{refl, inl, ◌&&◌, find, is_some, Bool-cases, inr, ◌⊎◌, [], ◌∷◌, ◌++◌, ◌≡◌}

module _ (r : AgentRecord) (rotation : KeyRotationRecord) (before now : Db) where
  -- Committed on the tables as they are by then, or back to those at `BEGIN`.
  abbrev pub Settles : Settled (Unit {0}) × Db → Type 0
  Settles x =
      ((x.0 ≡ returned tt)
        × ((save_agent r before).0 ≡ returned tt)
        × (x.1 ≡ record now { key_rotations = now.key_rotations ++ rotation ∷ [] }))
      ⊎ ((e : Fault) × (x ≡ (rejected e, before)))

  -- Whatever other callers have made of the tables since `BEGIN`: the rotation commits, and then its
  -- save was accepted, and its record is added to the tables as they are by then, with all that was
  -- written in between; or it is refused, and then the tables are those at `BEGIN` again, and all
  -- that was written in between is lost.
  pub end_rotation-Settles : Settles (end_rotation (begin_rotation r rotation before).0 now)
  unfolding end_rotation begin_rotation then_insert insert_rotation
  end_rotation-Settles = go (save_agent r before).0 refl
    where
      go :
          (saved : Settled (Unit {0}))
          → (save_agent r before).0 ≡ saved
          → Settles (
              settle_transaction
                (then_insert rotation saved now).0
                (then_insert rotation saved now).1
                before)
      go (rejected e) h = inr (e, refl)
      go (returned u) h =
          elim (Bool-cases (
            is_some (find (has_key rotation.old_public_key) now.agents)
            && is_some (find (has_key rotation.new_public_key) now.agents))) [
              | inl known ↦ rw known (inl (refl, h, refl))
              | inr missing ↦ rw missing (inr (uncoded, refl))
            ]
