-- ===== src/Tests/Wrapping.antt =====
-- A run of an agent with one tool, attested.
use openrep.Canonical.{Node, Value}
use openrep.Prelude.{[], ◌∷◌, text, List, none, some}
use openrep.Agent.Wrap.Signs.{wrap_agent-Signs, Signs}
use openrep.Agent.Wrap.{wrap_agent, Captures, WrapAgentParams}
use openrep.RunLoop.{CapturedToolCall}
use openrep.Tests.Toy.{toy}
use openrep.Tests.Signing.{db, key, agent_id}
use openrep.Sqlite.Adapter.{sqlite}
use openrep.Tests.Running.{echo, echo_host}

-- The captured calls as an empty array: `attest` is given the object 0.
abbrev no_captures : List CapturedToolCall → Captures
no_captures calls = record { heap = λ i. Node.array []; fresh = 1; value = Value.ref 0 }

abbrev run_params : WrapAgentParams
run_params = record {
  agent_id = agent_id;
  signing_key = some key;
  model = some (text "m");
  tools = echo ∷ [];
  api_key = some (text "k");
  task = some (text "t");
  history = none;
  source = none;
  idempotency_key = none;
}

wrap_agent-Signs_example :
    Signs toy sqlite (some echo_host) no_captures (text "id-1") (text "now") run_params db 0 (
      wrap_agent toy sqlite
        (some echo_host)
        no_captures
        (text "id-1")
        (text "now")
        run_params
        (db, 0))
wrap_agent-Signs_example =
    wrap_agent-Signs toy sqlite (some echo_host) no_captures (text "id-1") (text "now") run_params
      db 0
