-- ===== src/Sqlite/Agents/Ledger.antt =====
-- Writes of the agents leave the attestations alone, and reads leave everything alone.
use openrep.Sqlite.Agents.{
  settle_transaction, set_agent_visibility, update_agent, revoke_agent, save_agent, Rotating,
  end_rotation, insert_rotation, then_insert, get_agent, get_agent_by_name,
}
use openrep.Sqlite.Tables.{Db}
use openrep.Prelude.{inr, inl, ◌⊎◌, refl, arith, ◌≡◌, Text}
use openrep.Records.{AgentVisibility, AgentRecord, KeyRotationRecord}
use openrep.Result.{Fault, rejected, returned, Settled}

update_agent_ledger :
    (f : AgentRecord → AgentRecord) (k : Text) (db : Db)
    → (update_agent f k db).1.attestations ≡ db.attestations
unfolding update_agent
update_agent_ledger f k db = ground arith

pub revoke_agent_ledger :
    (k t : Text) (db : Db) → (revoke_agent k t db).1.attestations ≡ db.attestations
unfolding revoke_agent
revoke_agent_ledger k t db = update_agent_ledger _ k db

pub set_agent_visibility_ledger :
    (k : Text) (v : AgentVisibility) (db : Db)
    → (set_agent_visibility k v db).1.attestations ≡ db.attestations
unfolding set_agent_visibility
set_agent_visibility_ledger k v db = update_agent_ledger _ k db

pub save_agent_ledger :
    (r : AgentRecord) (db : Db) → (save_agent r db).1.attestations ≡ db.attestations
unfolding save_agent
save_agent_ledger r db = ground arith

insert_ledger :
    (rot : KeyRotationRecord) (saved : Settled (Unit {0})) (db : Db)
    → (then_insert rot saved db).1.attestations ≡ db.attestations
unfolding then_insert insert_rotation
insert_ledger rot (returned _) db = ground arith
insert_ledger rot (rejected e) db = refl

pub end_rotation_ledger :
    (t : Rotating) (db : Db)
    → ((end_rotation t db).1.attestations ≡ db.attestations)
      ⊎ ((end_rotation t db).1.attestations ≡ t.before.attestations)
unfolding end_rotation
end_rotation_ledger t db =
    go (then_insert t.rotation t.saved db).0 (insert_ledger t.rotation t.saved db)
  where
    after : Db
    after = (then_insert t.rotation t.saved db).1

    go :
        (r : Settled (Unit {0}))
        → after.attestations ≡ db.attestations
        → ((settle_transaction r after t.before).1.attestations ≡ db.attestations)
          ⊎ ((settle_transaction r after t.before).1.attestations ≡ t.before.attestations)
    go (returned _) h = inl h
    go (rejected e) h = inr refl

pub get_agent_keeps : (k : Text) (db : Db) → (get_agent k db).1 ≡ db
unfolding get_agent
get_agent_keeps k db = refl

pub get_agent_by_name_keeps : (k : Text) (db : Db) → (get_agent_by_name k db).1 ≡ db
unfolding get_agent_by_name
get_agent_by_name_keeps k db = refl

pub save_agent_refusal :
    (r : AgentRecord) (db : Db) (e : Fault)
    → (save_agent r db).0 ≡ rejected e
    → (save_agent r db).1 ≡ db
unfolding save_agent
save_agent_refusal r db e h = ground (arith, h)
