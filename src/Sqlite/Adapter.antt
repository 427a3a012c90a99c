-- ===== src/Sqlite/Adapter.antt =====
-- The adapter as the rest of the SDK sees it, and the sequences of its writes.
pub mod Runs
pub mod Rollback
use openrep.Storage.{StorageAdapter, ReadsKeepState}
use openrep.Sqlite.Agents.{
  begin_rotation, end_rotation, Rotating, get_agent, get_agent_by_name, save_agent, revoke_agent,
  rotate_agent, set_agent_visibility,
}
use openrep.Sqlite.Attestations.{
  get_attestations, get_attestation_by_idempotency_key, save_attestation, get_registered_sources,
  save_registered_source,
}
use openrep.Sqlite.Tables.{Db}
use openrep.Records.{
  SessionKeyRow, RegisteredSource, AttestationRecord, KeyRotationRecord, AgentVisibility,
  AgentRecord,
}
use openrep.Prelude.{none, some, ◌≡◌, Option, ℕ, Text}
use openrep.Sqlite.SessionKeys.{
  sweep_expired_session_keys, delete_session_key, touch_session_key, set_session_key,
}

-- `class SqliteAdapter implements StorageAdapter`
unfoldable pub sqlite : StorageAdapter Db
sqlite = record {
  get_agent = get_agent;
  get_agent_by_name = get_agent_by_name;
  save_agent = save_agent;
  revoke_agent = revoke_agent;
  rotate_agent = rotate_agent;
  get_attestations = get_attestations;
  get_attestation_by_idempotency_key = get_attestation_by_idempotency_key;
  save_attestation = save_attestation;
  get_registered_sources = get_registered_sources;
}

-- One call, accepted or refused, of a method that writes with no `await` inside.
pub data Step (db : Db) : Db → Type 0 where
  saving_agent : (r : AgentRecord) → Step db (save_agent r db).1
  revoking : (agent_id revoked_at : Text) → Step db (revoke_agent agent_id revoked_at db).1
  showing : (agent_id : Text) (v : AgentVisibility) → Step db (set_agent_visibility agent_id v db).1
  attesting : (r : AttestationRecord) → Step db (save_attestation r db).1
  registering : (r : RegisteredSource) → Step db (save_registered_source r db).1
  setting_key : (row : SessionKeyRow) → Step db (set_session_key row db).1
  touching_key : (a o : Text) (e : ℕ) → Step db (touch_session_key a o e db).1
  deleting_key : (a o : Text) → Step db (delete_session_key a o db).1
  sweeping : (before : ℕ) → Step db (sweep_expired_session_keys before db).1

-- The connection that all callers share, with the transaction that is open on it.
pub record Connection : Type 0 where
  pub db : Db
  pub rotating : Option Rotating

-- A second `BEGIN` throws, outside of the `try`, and changes nothing.
abbrev pub begin_on : AgentRecord → KeyRotationRecord → Option Rotating → Db → Connection
begin_on r rotation (some t) db = record { db = db; rotating = some t }
begin_on r rotation none db = record {
  db = (begin_rotation r rotation db).1;
  rotating = some (begin_rotation r rotation db).0;
}

-- What callers do to the connection, in any order: writes, inside of an open rotation too, and the
-- two halves of `rotateAgent`.
pub data Move (c : Connection) : Connection → Type 0 where
  writing : {e : Db} → Step c.db e → Move c (record { db = e; rotating = c.rotating })
  beginning :
      (r : AgentRecord) (rotation : KeyRotationRecord)
      → Move c (begin_on r rotation c.rotating c.db)
  ending :
      (t : Rotating)
      → c.rotating ≡ some t
      → Move c (record { db = (end_rotation t c.db).1; rotating = none })

-- Any number of moves.
pub data Run (c : Connection) : Connection → Type 0 where
  start : Run c c
  then_move : {d e : Connection} → Run c d → Move d e → Run c e
