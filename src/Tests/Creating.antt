-- ===== src/Tests/Creating.antt =====
-- An agent is created, verified and rotated.
use openrep.Result.{pure}
use openrep.Canonical.{
  map_attempt, text_le, insert_field, sort_fields, field_text, object_text, node_text, leaf_text,
}
use openrep.Hex.{digit_value, parse_byte, hex_to_bytes, bytes_to_hex, hex_digit}
use openrep.Rotation.{rotate_agent}
use openrep.Sqlite.Agents.{get_agent, get_agent_by_name, save_agent}
use openrep.Tests.Toy.{repeated-IsByte, toy, toy_laws, repeated}
use openrep.Tests.Signing.{request, db}
use openrep.Agent.Create.{
  identity_with, new_manifest, create_with, create_agent, CreateAgentOptions,
}
use openrep.Sqlite.Adapter.{sqlite}
use openrep.Sqlite.Tables.{empty, Db}
use openrep.Sqlite.Adapter.Runs.{sqlite_reads, sqlite_refusals}
use openrep.Agent.Create.Claims.{create_agent-IsAllOrNothing, IsAllOrNothing}
use openrep.Records.{is_valid, public, AgentIdentity, AgentRecord, AgentManifest}
use openrep.Agent.Manifest.Verdicts.{verify_manifest_complete, verify_manifest_sound, IsGenuine}
use openrep.Prelude.{refl, true, arith, ◌<◌, text, some, ◌≡◌, Text, [], ◌∷◌, none, text_eq, ℕ}
use openrep.Agent.Manifest.{
  is_valid_permissions, is_valid_memory_pointer, manifest_text, sign_manifest, matches_name,
  to_agent_record, is_valid_name, verify_manifest,
}
use openrep.Result.{unguarded, try_call, require_some, require, ◌>>=◌, returned, ok}
use openrep.Platform.{IsKeyPair, KeyPair}
use openrep.Rotation.Authorization.{rotate_agent-IsSucceeded, IsSucceeded}
use openrep.Names.{write_manifest, claim_name, unless_taken, try_names}
use openrep.Agent.Create.RoundTrip.{create_agent-verify_manifest}
use openrep.Revocation.{serialized}
use openrep.Canonical.{canonicalize_inner, canonicalize_literal}
use openrep.Canonical.Json.{hex4, encode_unit, encode_units, quote}

abbrev identity : KeyPair
identity = record { secret = repeated 1 32; public = repeated 32 32 }

abbrev owner : KeyPair
owner = record { secret = repeated 2 31; public = repeated 31 32 }

abbrev names : ℕ → Text
names k = text "busy-red-bee.agent"

abbrev options : CreateAgentOptions
options = record {
  name = none;
  memory_pointer = some (text "ipfs://a");
  permissions = none;
  visibility = none;
}

IsAllOrNothing-example :
    IsAllOrNothing toy sqlite sqlite_reads sqlite_refusals names
      (some identity)
      (some owner)
      (text "now")
      options
      empty
      (create_agent toy sqlite names (some identity) (some owner) (text "now") options empty)
IsAllOrNothing-example =
    create_agent-IsAllOrNothing toy sqlite sqlite_reads sqlite_refusals names (some identity)
      (some owner) (text "now") options empty

identity_pair : IsKeyPair toy identity
identity_pair = record { bytes = (repeated-IsByte 1 32 (omega arith)).0; derived = refl }

owner_pair : IsKeyPair toy owner
owner_pair = record { bytes = (repeated-IsByte 2 31 (omega arith)).0; derived = refl }

names_valid : (k : ℕ) → k < 10 → is_valid_name (names k) ≡ true
unfolding is_valid_name matches_name text_eq
names_valid k h = refl

abbrev unsigned : AgentManifest
unsigned =
    new_manifest options (bytes_to_hex identity.public) (bytes_to_hex owner.public) (text "now")
      (text "busy-red-bee.agent")

abbrev created : AgentIdentity
created =
    identity_with toy sqlite identity owner
      (record unsigned { signature = bytes_to_hex (repeated 105 64) })

created_lem :
    (create_agent toy sqlite names (some identity) (some owner) (text "now") options empty).0
    ≡ ok created
unfolding create_agent create_with try_names unless_taken claim_name write_manifest sign_manifest
    manifest_text is_valid_memory_pointer is_valid_permissions is_valid_name matches_name serialized
    hex_to_bytes parse_byte digit_value bytes_to_hex hex_digit canonicalize_literal
    canonicalize_inner leaf_text node_text object_text field_text sort_fields insert_field text_le
    map_attempt quote encode_units encode_unit hex4 sqlite get_agent_by_name save_agent text_eq
    ◌>>=◌ require require_some try_call unguarded pure
created_lem = refl

abbrev stored_agent : AgentRecord
stored_agent = to_agent_record created.manifest public

abbrev created_db : Db
created_db = record empty { agents = stored_agent ∷ [] }

created_stored :
    (sqlite.get_agent created.manifest.public_key created_db).0 ≡ returned (some stored_agent)
unfolding sqlite get_agent text_eq bytes_to_hex hex_digit
created_stored = refl

created_verified_example : (verify_manifest toy sqlite created.manifest created_db).0 ≡ ok is_valid
created_verified_example =
    create_agent-verify_manifest toy toy_laws sqlite sqlite_reads sqlite_refusals names identity
      owner identity_pair owner_pair (text "now") refl options empty names_valid created created_lem
      stored_agent created_db created_stored refl

genuine_example : IsGenuine toy sqlite created.manifest created_db
genuine_example =
    verify_manifest_sound toy sqlite created.manifest created_db created_verified_example

manifest_accepted_example : (verify_manifest toy sqlite created.manifest created_db).0 ≡ ok is_valid
manifest_accepted_example =
    verify_manifest_complete toy sqlite created.manifest created_db genuine_example

successor_example :
    IsSucceeded toy sqlite sqlite_reads 10 names
      (some identity)
      (text "now")
      request
      db
      (rotate_agent toy sqlite 10 names (some identity) (text "now") request db)
successor_example =
    rotate_agent-IsSucceeded toy sqlite sqlite_reads 10 names (some identity) (text "now") request
      db
