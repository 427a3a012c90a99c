-- ===== src/Tests/Storing.antt =====
-- A store that grows by a few writes, and sessions on it.
use openrep.DurableSessions.Window.{get_cases, get-set, live, after_read}
use openrep.Sqlite.Tables.{Db, empty, IsIntact}
use openrep.Sqlite.Agents.{Rotating, begin_rotation, end_rotation, save_agent, revoke_agent}
use openrep.Sqlite.Adapter.{
  ending, beginning, writing, then_move, Connection, Run, start, saving_agent, revoking, attesting,
}
use openrep.Tests.Signing.{agent, agent_id, db, made}
use openrep.Prelude.{
  append-nil, sym, none, ◌+◌, ltb, if◌then◌else◌, refl, [], some, ◌≡◌, ◌∷◌, text_eq, text,
}
use openrep.Records.{
  KeyRotationRecord, SessionKeyRow, EncryptedKeyRecord, AttestationRecord, AgentRecord,
}
use openrep.Sqlite.Attestations.{save_attestation}
use openrep.Sqlite.Agents.Revoked.{IsRevoked}
use openrep.Sqlite.SessionKeys.{session_keys, set_session_key}
use openrep.Sqlite.SessionKeys.Laws.{set_session_key-Stores, Stores, sqlite_keeps}
use openrep.Sqlite.Adapter.Runs.{
  StartsWith, Revoked, fresh_connection, Stands, ledger_is_append_only, revocation_is_permanent,
  schema_holds,
}
use openrep.DurableSessions.{set, get, row_for}
use openrep.Hex.{hex_digit, bytes_to_hex}
use openrep.Result.{ok, await}
use openrep.Storage.{same_pair}
use openrep.Sqlite.Adapter.Rollback.{end_rotation-Settles, Settles}

abbrev row : AttestationRecord
row = record { attestation = made; row_id = 0; idempotency_key = some (text "k1") }

abbrev registered : Db
registered = (save_agent agent empty).1

abbrev attested : Db
attested = (save_attestation row registered).1

abbrev revoked : Db
revoked = (revoke_agent agent_id (text "later") attested).1

abbrev connected : Db → Connection
connected d = record { db = d; rotating = none }

-- A rotation under the name of a stored agent, which is refused, with an attestation in between.
abbrev rotation : KeyRotationRecord
rotation = record {
  old_public_key = agent_id;
  new_public_key = agent_id;
  signed_by = agent_id;
  timestamp = text "now";
  signature = text "s";
}

abbrev under_way : Rotating
under_way = (begin_rotation agent rotation registered).0

abbrev rolled_back : Db
rolled_back = (end_rotation under_way attested).1

abbrev interleaved : Connection
interleaved = connected (revoke_agent agent_id (text "later") rolled_back).1

whole-Run : Run fresh_connection interleaved
unfolding begin_rotation save_agent text_eq
whole-Run =
    then_move
      (then_move
        (then_move
          (then_move (then_move start (writing (saving_agent agent))) (beginning agent rotation))
          (writing (attesting row)))
        (ending under_way refl))
      (writing (revoking agent_id (text "later")))

schema_example : Stands IsIntact interleaved
schema_example = schema_holds interleaved whole-Run

abbrev revoked_agent : AgentRecord
revoked_agent = record agent { revoked_at = some (text "then") }

abbrev revoked_db : Db
revoked_db = record empty { agents = revoked_agent ∷ [] }

is_revoked : IsRevoked agent_id revoked_db.agents
unfolding text_eq bytes_to_hex hex_digit
is_revoked = (revoked_agent, refl, refl)

permanent_example : Stands (Revoked agent_id) (connected (save_agent agent revoked_db).1)
permanent_example =
    revocation_is_permanent agent_id (connected revoked_db)
      (connected (save_agent agent revoked_db).1) (then_move start (writing (saving_agent agent)))
      (is_revoked, tt)

abbrev rotating_ledger : Rotating
rotating_ledger = (begin_rotation agent rotation attested).0

abbrev revoked_meanwhile : Db
revoked_meanwhile =
    (revoke_agent agent_id (text "later") (begin_rotation agent rotation attested).1).1

ledger_run : Run (connected attested) (connected (end_rotation rotating_ledger revoked_meanwhile).1)
ledger_run =
    then_move
      (then_move (then_move start (beginning agent rotation))
        (writing (revoking agent_id (text "later"))))
      (ending rotating_ledger refl)

ledger_example :
    Stands
      (StartsWith attested.attestations)
      (connected (end_rotation rotating_ledger revoked_meanwhile).1)
ledger_example =
    ledger_is_append_only attested.attestations (connected attested)
      (connected (end_rotation rotating_ledger revoked_meanwhile).1) ledger_run
      (([], sym (append-nil attested.attestations)), tt)

abbrev envelope_record : EncryptedKeyRecord
envelope_record = record {
  agent_id = agent_id;
  encrypted_private_key = text "c";
  iv = text "i";
  algorithm = text "aes";
  created_at = text "now";
}

get_cases_example :
    ((get session_keys 60 5 6 agent_id (text "u") db).0
      ≡ ok (live session_keys sqlite_keeps 60 5 (sqlite_keeps.view db agent_id (text "u"))))
    × (sqlite_keeps.view (get session_keys 60 5 6 agent_id (text "u") db).1 agent_id (text "w") ≡ (
        if same_pair agent_id (text "u") agent_id (text "w")
        then after_read session_keys sqlite_keeps 60 5 6 (sqlite_keeps.view db agent_id (text "w"))
        else sqlite_keeps.view db agent_id (text "w")))
get_cases_example =
    get_cases session_keys sqlite_keeps 60 5 6 agent_id (text "u") agent_id (text "w") db

session_set : (set session_keys 60 0 agent_id (text "u") envelope_record db).0 ≡ ok tt
unfolding set await session_keys set_session_key text_eq bytes_to_hex hex_digit
session_set = refl

get-set_example :
    (get session_keys 60 5 6 agent_id
      (text "u")
      (set session_keys 60 0 agent_id (text "u") envelope_record db).1).0
    ≡ ok (
        if text_eq (text "u") (text "u")
        then (if ltb 5 (0 + 60) then some envelope_record else none)
        else live session_keys sqlite_keeps 60 5 (sqlite_keeps.view db agent_id (text "u")))
get-set_example =
    get-set session_keys sqlite_keeps 60 0 agent_id (text "u") envelope_record db session_set 5 6
      (text "u")

abbrev session : SessionKeyRow
session = row_for agent_id (text "u") envelope_record 60

set_example : Stores db agent_id (text "u") session (set_session_key session db)
set_example = set_session_key-Stores db agent_id (text "u") session

-- The attestation that came in between is lost.
rollback_example :
    Settles agent rotation registered attested
      (end_rotation (begin_rotation agent rotation registered).0 attested)
rollback_example = end_rotation-Settles agent rotation registered attested
