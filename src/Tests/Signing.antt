-- ===== src/Tests/Signing.antt =====
-- One agent that signs, verifies, is revoked and is attested to from outside.
use openrep.Revocation.{authorization_text, revoke_agent}
use openrep.Sqlite.Agents.{get_agent}
use openrep.Hex.{hex_digit}
use openrep.Tests.Toy.{toy_laws, toy, repeated}
use openrep.Canonical.{
  map_attempt, text_le, insert_field, sort_fields, field_text, object_text, node_text, leaf_text,
  canonicalize_inner, canonicalize_literal, Value,
}
use openrep.Prelude.{
  arith, false, is_some, ◌⊎◌, refl, text_eq, some, none, text, ◌≡◌, Text, [], ◌∷◌,
}
use openrep.Records.{is_valid, OwnerRequest, AgentRecord, Attestation, public}
use openrep.Sqlite.Tables.{Db, empty}
use openrep.Sqlite.Adapter.{sqlite}
use openrep.Attestation.Signing.{
  canonical_or_fail, existing_for, sign_new, sign_unless_existing, sign_with_key, SigningParams,
  sign_and_persist_attestation, new_record,
}
use openrep.Hex.{
  hex_digit, digit_value, parse_byte, hex_to_bytes, is_hex_code, is_lowercase_hex_of_length,
  bytes_to_hex,
}
use openrep.Attestation.Content.{
  content_text, check_entries, check_items, tool_entries_valid, check_texts, check_strings,
  validate_attestation_content,
}
use openrep.Canonical.Json.{hex4, encode_unit, encode_units, quote}
use openrep.Sqlite.Attestations.{get_attestation_by_idempotency_key, save_attestation}
use openrep.Result.{returned, ok, pure, unguarded, try_call, attempt, require_some, require, ◌>>=◌}
use openrep.Revocation.{no_objects}
use openrep.Attestation.Verify.{signature_check, content_check, agent_check, verify_attestation}
use openrep.Attestation.Verify.RoundTrip.{
  sign_and_persist_attestation-verify_attestation, verify_attestation_complete, IsRepeat,
}
use openrep.Attestation.Verify.Sound.{verify_attestation_sound, IsVerified}
use openrep.Revocation.Authorization.{
  Concludes, revoke_agent-IsGated, revoke_agent_complete, IsGated, IsAuthorized,
}
use openrep.Attestation.Signing.Gates.{sign_and_persist_attestation_gated, Ends}
use openrep.Sqlite.Adapter.Runs.{sqlite_reads}

abbrev pub key : Text
key = bytes_to_hex (repeated 1 32)

abbrev owner : Text
owner = bytes_to_hex (repeated 5 32)

abbrev pub agent_id : Text
agent_id = bytes_to_hex (repeated 32 32)

abbrev pub agent : AgentRecord
agent = record {
  name = text "scout-1";
  public_key = agent_id;
  owner_public_key = some owner;
  memory_pointer = none;
  permissions = [];
  created_at = text "now";
  manifest_version = 2;
  signature = [];
  revoked_at = none;
  visibility = public;
}

abbrev pub db : Db
db = record empty { agents = agent ∷ [] }

abbrev pub params : SigningParams
params = record {
  agent_id = agent_id;
  task = text "t";
  output = text "o";
  tools_used = Value.ref 9;
  source = text "native";
  timestamp = text "now";
  idempotency_key = some (text "k1");
  external_verification = none;
}

abbrev signed_text : Text
signed_text = text "{\"output\":\"o\",\"task\":\"t\",\"toolsUsed\":[]}"

abbrev pub made : Attestation
made =
    (new_record params (text "id-1") (bytes_to_hex (repeated 40 32)) (bytes_to_hex (repeated 32 64))
      agent_id).attestation

made_lem :
    (sign_and_persist_attestation toy sqlite no_objects 9 (text "id-1") params key db).0 ≡ ok made
unfolding sign_and_persist_attestation sign_with_key sign_unless_existing sign_new existing_for
    canonical_or_fail validate_attestation_content check_strings check_texts tool_entries_valid
    check_items check_entries content_text is_lowercase_hex_of_length is_hex_code hex_to_bytes
    parse_byte digit_value bytes_to_hex hex_digit canonicalize_literal canonicalize_inner leaf_text
    node_text object_text field_text sort_fields insert_field text_le map_attempt quote encode_units
    encode_unit hex4 sqlite get_agent save_attestation get_attestation_by_idempotency_key text_eq
    ◌>>=◌ require require_some attempt try_call unguarded pure
made_lem = refl

admitted_example :
    Ends toy sqlite no_objects 9 sqlite_reads
      (text "id-1")
      params
      key
      db
      (sign_and_persist_attestation toy sqlite no_objects 9 (text "id-1") params key db)
admitted_example =
    sign_and_persist_attestation_gated toy sqlite no_objects 9 sqlite_reads (text "id-1") params key
      db

verified_after_example :
    IsRepeat toy toy_laws sqlite no_objects 9 sqlite_reads (text "id-1") params key db made
    ⊎ ((a : AgentRecord) (t : Db)
        → (sqlite.get_agent agent_id t).0 ≡ returned (some a)
        → is_some a.revoked_at ≡ false
        → (verify_attestation toy sqlite no_objects made t).0 ≡ ok is_valid)
verified_after_example =
    sign_and_persist_attestation-verify_attestation toy toy_laws sqlite no_objects 9 sqlite_reads
      (text "id-1") params key db made made_lem

made_valid : (verify_attestation toy sqlite no_objects made db).0 ≡ ok is_valid
unfolding verify_attestation agent_check content_check signature_check sign_and_persist_attestation
    sign_with_key sign_unless_existing sign_new existing_for canonical_or_fail
    validate_attestation_content check_strings check_texts tool_entries_valid check_items
    check_entries content_text is_lowercase_hex_of_length is_hex_code hex_to_bytes parse_byte
    digit_value bytes_to_hex hex_digit canonicalize_literal canonicalize_inner leaf_text node_text
    object_text field_text sort_fields insert_field text_le map_attempt quote encode_units
    encode_unit hex4 sqlite get_agent save_attestation get_attestation_by_idempotency_key text_eq
    ◌>>=◌ require require_some attempt try_call unguarded pure
made_valid = refl

sound_example : IsVerified toy sqlite no_objects made db
sound_example = verify_attestation_sound toy sqlite no_objects made db made_valid

complete_example : (verify_attestation toy sqlite no_objects made db).0 ≡ ok is_valid
complete_example = verify_attestation_complete toy sqlite no_objects made db sound_example

abbrev pub request : OwnerRequest
request = record {
  agent_id = agent_id;
  timestamp = text "now";
  signature = bytes_to_hex (repeated 209 64);
}

authorized : IsAuthorized toy sqlite 10 request db
unfolding authorization_text sign_and_persist_attestation sign_with_key sign_unless_existing
    sign_new existing_for canonical_or_fail validate_attestation_content check_strings check_texts
    tool_entries_valid check_items check_entries content_text is_lowercase_hex_of_length is_hex_code
    hex_to_bytes parse_byte digit_value bytes_to_hex hex_digit canonicalize_literal
    canonicalize_inner leaf_text node_text object_text field_text sort_fields insert_field text_le
    map_attempt quote encode_units encode_unit hex4 sqlite get_agent save_attestation
    get_attestation_by_idempotency_key text_eq ◌>>=◌ require require_some attempt try_call unguarded
    pure
authorized = record {
  agent = agent;
  owner_key = owner;
  canonical =
      text
        "{\"agentId\":\"2020202020202020202020202020202020202020202020202020202020202020\",\"timestamp\":\"now\"}";
  stored = refl;
  owned = refl;
  text_of = refl;
  agent_shape = refl;
  signature_shape = refl;
  signed = refl;
  requested_at = 3;
  dated = refl;
  not_old = omega arith;
  not_early = omega arith;
}

IsGated-example :
    IsGated toy sqlite sqlite_reads 10
      (text "later")
      request
      db
      (revoke_agent toy sqlite 10 (text "later") request db)
IsGated-example = revoke_agent-IsGated toy sqlite sqlite_reads 10 (text "later") request db

revoked_example :
    Concludes toy sqlite sqlite_reads 10
      (text "later")
      request
      db
      authorized.agent.revoked_at
      (revoke_agent toy sqlite 10 (text "later") request db)
revoked_example =
    revoke_agent_complete toy sqlite sqlite_reads 10 (text "later") request db authorized
