-- ===== src/Agent/Visibility/Stored.antt =====
-- `setVisibility` over the tables of storage/sqlite.ts.
use openrep.Result.{failure}
use openrep.Prelude.{◌⊎◌, text_eq, if◌then◌else◌, true, find, is_some, ◌≡◌, Text, some}
use openrep.Agent.Visibility.{visibility_of}
use openrep.Records.{AgentRecord, AgentVisibility}
use openrep.Result.{ErrorCode, returned, ok, Outcome}
use openrep.Sqlite.Tables.{has_key, Db}
use openrep.Sqlite.Agents.{get_agent}
use openrep.Sqlite.Agents.Revoked.{updated}

abbrev shown : AgentVisibility → AgentRecord → AgentRecord
shown v r = record r { visibility = v }

abbrev pub Shows : Text → Text → Db → Outcome (Unit {0}) × Db → Type 0
Shows agent_id visibility db x =
    ((x.0 ≡ ok tt)
      × ((v : AgentVisibility) × (visibility_of visibility ≡ some v)
          × (is_some (find (has_key agent_id) db.agents) ≡ true)
          × ((j : Text)
              → (get_agent j x.1).0
                ≡ returned (
                    if text_eq agent_id j
                    then updated (shown v) (find (has_key j) db.agents)
                    else find (has_key j) db.agents))))
    ⊎ ((c : ErrorCode) × (x.0 ≡ failure c) × (x.1 ≡ db))
