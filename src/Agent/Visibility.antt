-- ===== src/Agent/Visibility.antt =====
-- `setVisibility` of packages/sdk/src/agent.ts.
pub mod Stored
use openrep.Result.{agent_not_found}
use openrep.Prelude.{text, text_eq, if◌then◌else◌, Option, Text, ℕ, none, some}
use openrep.Result.{
  attempt, require, ◌>>◌, invalid_input, storage_write_failed, require_some, ◌>>=◌, fail, Call,
  coded, Flow, Fault,
}
use openrep.Records.{private, public, AgentVisibility}
use openrep.Hex.{is_lowercase_hex_of_length}

-- `isValidVisibility`, with the value that it stands for.
abbrev pub visibility_of : Text → Option AgentVisibility
visibility_of t =
    if text_eq t (text "public")
    then some public
    else if text_eq t (text "private")
    then some private
    else none

-- The `catch` of the write.
abbrev pub visibility_failed : {S : Type 0} → Fault → Flow S (Unit {0})
visibility_failed (coded agent_not_found) = fail agent_not_found
visibility_failed e = fail storage_write_failed

module _ {S : Type 0} (set_agent_visibility : Text → AgentVisibility → Call S (Unit {0})) where
  unfoldable pub set_visibility : Text → Text → Flow S (Unit {0})
  set_visibility agent_id visibility = do
    v ← require_some (visibility_of visibility) invalid_input
    require (is_lowercase_hex_of_length agent_id 32) invalid_input
    attempt (set_agent_visibility agent_id v) visibility_failed
