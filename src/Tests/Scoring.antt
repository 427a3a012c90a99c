-- ===== src/Tests/Scoring.antt =====
-- The score of an agent with one native record and one of a registered source.
use openrep.Score.Paging.{Ends, read_pages-Ends}
use openrep.Prelude.{false, arith, []}
use openrep.Result.{ok, pure}
use openrep.Sqlite.Attestations.{page_of}
use openrep.Hex.{bytes_to_hex, hex_digit}
use openrep.Sqlite.Agents.{get_agent_by_name, get_agent}
use openrep.Sqlite.Attestations.{get_attestations, get_registered_sources, normalize_limit}
use openrep.Canonical.{text_le}
use openrep.Tests.Toy.{toy}
use openrep.Tests.Signing.{agent, agent_id, made}
use openrep.Score.{
  double_one, insert_row, sort_rows, registered_weight, weight_of, composite_of, sources_for,
  scored, tally, tally_page, after_page, AgentScore, read_pages, get_score, GetScoreOptions,
}
use openrep.Sqlite.Adapter.{sqlite}
use openrep.Sqlite.Tables.{empty, Db}
use openrep.Canonical.{text_le}
use openrep.Prelude.{refl, ◌≡◌, text_eq, [], ◌∷◌, none, some, text}
use openrep.Records.{Double, AttestationRecord}
use openrep.Score.Doubles.{units, digits, pack, rounded, ieee}
use openrep.Result.{require, await, ◌>>=◌}
use openrep.Resolve.{resolve}
use openrep.Resolve.Found.{resolve-EndsResolved, EndsResolved}

abbrev options : GetScoreOptions
options = record { page_size = some 1; max_attestations = some 9 }

abbrev first : AttestationRecord
first = record { attestation = made; row_id = 1; idempotency_key = none }

abbrev second : AttestationRecord
second = record {
  attestation = record made { id = text "id-2"; source = text "github" };
  row_id = 2;
  idempotency_key = none;
}

abbrev half : Double
half = record { is_negative = false; exponent = 1022; fraction = 0 }

abbrev a_tenth : Double
a_tenth = record { is_negative = false; exponent = 1019; fraction = 2702159776422298 }

half_more :
    ieee.plus double_one half
    ≡ record { is_negative = false; exponent = 1023; fraction = 2251799813685248 }
unfolding rounded pack digits units
half_more = refl

six_tenths :
    ieee.times (ieee.of_count 6) a_tenth
    ≡ record { is_negative = false; exponent = 1022; fraction = 900719925474100 }
unfolding rounded pack digits units
six_tenths = refl

abbrev db : Db
db = record empty {
  agents = agent ∷ [];
  attestations = first ∷ second ∷ [];
  next_attestation = 3;
  registered_sources =
      record { source_name = text "github"; registered_at = text "now"; trust_weight = half } ∷ [];
}

abbrev score : AgentScore
score = record {
  agent_id = agent_id;
  composite = record { is_negative = false; exponent = 1023; fraction = 2251799813685248 };
  breakdown =
      record { source = text "github"; value = 1; count = 1; last_updated = text "now" }
      ∷ record { source = text "native"; value = 1; count = 1; last_updated = text "now" }
      ∷ [];
  computed_at = text "later";
}

score_lem :
    (get_score toy text_le ieee sqlite agent_id options (text "later") db).0 ≡ ok (some score)
unfolding get_score read_pages after_page tally_page tally scored sources_for composite_of weight_of
    registered_weight sort_rows insert_row sqlite get_agent get_attestations page_of normalize_limit
    get_registered_sources text_le text_eq bytes_to_hex hex_digit ◌>>=◌ await require pure rounded
    pack digits units
score_lem = refl

read_pages-Ends_example :
    Ends toy sqlite agent_id 1 9 none 0 [] db (read_pages toy sqlite agent_id 1 9 10 none 0 [] db)
read_pages-Ends_example =
    read_pages-Ends toy sqlite agent_id 1 9 10 none 0 [] db (omega arith) (omega arith)

resolve-EndsResolved_example :
    EndsResolved toy text_le ieee sqlite agent.name
      (text "later")
      db
      (resolve toy text_le ieee sqlite agent.name (text "later") db)
resolve-EndsResolved_example =
    resolve-EndsResolved toy text_le ieee sqlite agent.name (text "later") db

resolve_lem :
    (resolve toy text_le ieee sqlite agent.name (text "later") db).0
    ≡ ok (some (record { manifest = agent; score = score }))
unfolding resolve get_score read_pages after_page tally_page tally scored sources_for composite_of
    weight_of registered_weight sort_rows insert_row sqlite get_agent get_agent_by_name
    get_attestations page_of normalize_limit get_registered_sources text_le text_eq bytes_to_hex
    hex_digit ◌>>=◌ await require pure openrep.Result.require_some rounded pack digits units
resolve_lem = refl
