-- ===== src/Tests/Showing.antt =====
-- An agent that is made private.
use openrep.Sqlite.Tables.{empty}
use openrep.Prelude.{[], ◌≡◌, ◌∷◌, text, Text, refl, none}
use openrep.Sqlite.Tables.{Db}
use openrep.Agent.Visibility.{set_visibility}
use openrep.Records.{public, AgentRecord}
use openrep.Sqlite.Agents.{set_agent_visibility}
use openrep.Hex.{bytes_to_hex}
use openrep.Tests.Toy.{repeated}
use openrep.Result.{ok}

abbrev agent_id : Text
agent_id = bytes_to_hex (repeated 7 32)

abbrev listed : AgentRecord
listed = record {
  name = text "a";
  public_key = agent_id;
  owner_public_key = none;
  memory_pointer = none;
  permissions = [];
  created_at = text "now";
  manifest_version = 2;
  signature = text "s";
  revoked_at = none;
  visibility = public;
}

abbrev listed_db : Db
listed_db = record empty { agents = listed ∷ [] }

hidden : (set_visibility set_agent_visibility agent_id (text "private") listed_db).0 ≡ ok tt
unfolding set_visibility openrep.Result.◌>>=◌ openrep.Result.require_some openrep.Prelude.text_eq
    openrep.Result.require openrep.Hex.is_lowercase_hex_of_length bytes_to_hex openrep.Hex.hex_digit
    openrep.Result.attempt set_agent_visibility openrep.Sqlite.Agents.update_agent
hidden = refl
