-- ===== src/Sqlite/SessionKeys.antt =====
-- The session_keys table of packages/sdk/src/storage/sqlite.ts.
pub mod Laws
pub mod Custody
use openrep.Records.{SessionKeyRow}
use openrep.Storage.{SessionKeyBackend}
use openrep.Prelude.{
  ◌++◌, leb, not, ◌&&◌, find, [], is_some, keep, Option, if◌then◌else◌, ◌∷◌, text_eq, List, Bool,
  Text, ℕ,
}
use openrep.Result.{uncoded, rejected, returned, Call}
use openrep.Sqlite.Tables.{has_key, Db}

abbrev pub has_pair : Text → Text → SessionKeyRow → Bool
has_pair agent_id owner_user_id r =
    text_eq r.agent_id agent_id && text_eq r.owner_user_id owner_user_id

abbrev pub row_of : Text → Text → Db → Option SessionKeyRow
row_of agent_id owner_user_id db = find (has_pair agent_id owner_user_id) db.session_keys

pub get_session_key : Text → Text → Call Db (Option SessionKeyRow)
get_session_key agent_id owner_user_id db = (returned (row_of agent_id owner_user_id db), db)

-- `UPDATE session_keys … WHERE agent_id = ? AND owner_user_id = ?`
update_pair :
    (SessionKeyRow → SessionKeyRow) → Text → Text → List SessionKeyRow → List SessionKeyRow
update_pair f agent_id owner_user_id [] = []
update_pair f agent_id owner_user_id (r ∷ rows) =
    (if has_pair agent_id owner_user_id r then f r else r)
    ∷ update_pair f agent_id owner_user_id rows

-- The upsert: `ON CONFLICT (agent_id, owner_user_id) DO UPDATE` rewrites the row where it stands;
-- an insert is checked against the foreign key.
unfoldable pub set_session_key : SessionKeyRow → Call Db (Unit {0})
unfolding update_pair
set_session_key row db =
    if is_some (row_of row.agent_id row.owner_user_id db)
    then (
      returned tt,
      record db {
        session_keys = update_pair (λ _. row) row.agent_id row.owner_user_id db.session_keys;
      },
    )
    else if is_some (find (has_key row.agent_id) db.agents)
    then (returned tt, record db { session_keys = db.session_keys ++ row ∷ [] })
    else (rejected uncoded, db)

pub touch_session_key : Text → Text → ℕ → Call Db (Unit {0})
unfolding update_pair
touch_session_key agent_id owner_user_id expires db = (
  returned tt,
  record db {
    session_keys =
        update_pair (λ r. record r { expires_at_epoch_ms = expires }) agent_id owner_user_id
          db.session_keys;
  },
)

pub delete_session_key : Text → Text → Call Db (Unit {0})
delete_session_key agent_id owner_user_id db = (
  returned tt,
  record db { session_keys = keep (λ r. not (has_pair agent_id owner_user_id r)) db.session_keys },
)

-- `WHERE expires_at_epoch_ms <= ?`
pub sweep_expired_session_keys : ℕ → Call Db (Unit {0})
sweep_expired_session_keys before db = (
  returned tt,
  record db { session_keys = keep (λ r. not (leb r.expires_at_epoch_ms before)) db.session_keys },
)

unfoldable pub session_keys : SessionKeyBackend Db
session_keys = record {
  get_session_key = get_session_key;
  set_session_key = set_session_key;
  touch_session_key = touch_session_key;
  delete_session_key = delete_session_key;
  sweep_expired_session_keys = sweep_expired_session_keys;
}
