-- ===== src/Sqlite/Agents.antt =====
-- The agents and key_rotations tables of packages/sdk/src/storage/sqlite.ts.
pub mod Integrity
pub mod Revoked
pub mod Ledger
use openrep.Sqlite.Tables.{Db, has_key, has_name}
use openrep.Records.{private, public, AgentVisibility, KeyRotationRecord, AgentRecord}
use openrep.Result.{
  uncoded, duplicate_public_key, duplicate_name, agent_not_found, coded, rejected, returned,
  Settled, Call,
}
use openrep.Prelude.{
  [], ◌++◌, ◌||◌, not, ◌&&◌, text_eq, false, is_some, true, keep, find, reverse, ◌∷◌, List, Bool,
  if◌then◌else◌, some, Option, Text,
}

-- `SELECT … WHERE public_key = ?`
unfoldable pub get_agent : Text → Call Db (Option AgentRecord)
get_agent agent_id db = (returned (find (has_key agent_id) db.agents), db)

unfoldable pub get_agent_by_name : Text → Call Db (Option AgentRecord)
get_agent_by_name name db = (returned (find (has_name name) db.agents), db)

-- `UPDATE … WHERE public_key = ?`
unfoldable pub update_where :
    (AgentRecord → AgentRecord) → Text → List AgentRecord → List AgentRecord
update_where f k [] = []
update_where f k (r ∷ rows) = (if has_key k r then f r else r) ∷ update_where f k rows

-- An update that changes no row is an unknown agent.
unfoldable pub update_agent : (AgentRecord → AgentRecord) → Text → Call Db (Unit {0})
update_agent f k db =
    if is_some (find (has_key k) db.agents)
    then (returned tt, record db { agents = update_where f k db.agents })
    else (rejected (coded agent_not_found), db)

unfoldable pub revoke_agent : Text → Text → Call Db (Unit {0})
revoke_agent agent_id revoked_at =
    update_agent (λ r. record r { revoked_at = some revoked_at }) agent_id

unfoldable pub set_agent_visibility : Text → AgentVisibility → Call Db (Unit {0})
set_agent_visibility agent_id visibility =
    update_agent (λ r. record r { visibility = visibility }) agent_id

-- The unique constraints on `name` and `public_key` arbitrate; SQLite reports the first.
unfoldable pub save_agent : AgentRecord → Call Db (Unit {0})
save_agent r db =
    if is_some (find (has_name r.name) db.agents)
    then (rejected (coded duplicate_name), db)
    else if is_some (find (has_key r.public_key) db.agents)
    then (rejected (coded duplicate_public_key), db)
    else (returned tt, record db { agents = db.agents ++ r ∷ [] })

-- The insert into `key_rotations`, with its foreign keys.
unfoldable pub insert_rotation : KeyRotationRecord → Call Db (Unit {0})
insert_rotation rotation db =
    if is_some (find (has_key rotation.old_public_key) db.agents)
      && is_some (find (has_key rotation.new_public_key) db.agents)
    then (returned tt, record db { key_rotations = db.key_rotations ++ rotation ∷ [] })
    else (rejected uncoded, db)

-- `COMMIT` keeps what the body wrote; an error rolls back to the state at `BEGIN`.
abbrev pub settle_transaction : Settled (Unit {0}) → Db → Db → Settled (Unit {0}) × Db
settle_transaction (returned _) after before = (returned tt, after)
settle_transaction (rejected e) after before = (rejected e, before)

unfoldable pub then_insert : KeyRotationRecord → Settled (Unit {0}) → Call Db (Unit {0})
then_insert rotation (returned _) db = insert_rotation rotation db
then_insert rotation (rejected e) db = (rejected e, db)

-- A transaction that is open while `rotateAgent` awaits `saveAgent`: the tables at `BEGIN`, how the
-- save has ended, and the record that is still to be written.
pub record Rotating : Type 0 where
  pub before : Db
  pub saved : Settled (Unit {0})
  pub rotation : KeyRotationRecord

-- `BEGIN` and the save, up to the `await`.
unfoldable pub begin_rotation : AgentRecord → KeyRotationRecord → Db → Rotating × Db
begin_rotation r rotation db =
    (record { before = db; saved = (save_agent r db).0; rotation = rotation }, (save_agent r db).1)

-- After the `await`: the insert and `COMMIT`, or `ROLLBACK`, on the tables as they are by then.
unfoldable pub end_rotation : Rotating → Call Db (Unit {0})
end_rotation t db =
    settle_transaction (then_insert t.rotation t.saved db).0 (then_insert t.rotation t.saved db).1
      t.before

-- The whole call, where no other call comes in between.
unfoldable pub rotate_agent : AgentRecord → KeyRotationRecord → Call Db (Unit {0})
rotate_agent r rotation db =
    end_rotation (begin_rotation r rotation db).0 (begin_rotation r rotation db).1

-- `WHERE old_public_key = ? OR new_public_key = ? ORDER BY row_id DESC`
pub get_key_rotations : Text → Call Db (List KeyRotationRecord)
get_key_rotations agent_id db = (
  returned (
      reverse (
        keep (λ r. text_eq r.old_public_key agent_id || text_eq r.new_public_key agent_id)
          db.key_rotations)),
  db,
)

abbrev is_public : AgentVisibility → Bool
is_public public = true
is_public private = false

-- `WHERE revoked_at IS NULL AND visibility = 'public' ORDER BY row_id ASC`
pub list_public_agents : Call Db (List AgentRecord)
list_public_agents db =
    (returned (keep (λ r. not (is_some r.revoked_at) && is_public r.visibility) db.agents), db)

pub list_all_agents : Call Db (List AgentRecord)
list_all_agents db = (returned (keep (λ r. not (is_some r.revoked_at)) db.agents), db)
