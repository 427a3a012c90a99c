-- ===== src/Tests/Boundaries.antt =====
-- A native attestation, and one of another platform.
use openrep.Canonical.{map_attempt, text_le, insert_field, sort_fields, field_text}
use openrep.Tests.Signing.{key, db, agent_id}
use openrep.Attestation.Native.{input_content, AttestationInput, attest, native_source}
use openrep.Attestation.Ingest.{verdict, ExternalAttestation, SourceAdapter}
use openrep.Attestation.Content.{
  valid, content_text, check_entries, check_items, tool_entries_valid, check_texts, check_strings,
  validate_attestation_content,
}
use openrep.Attestation.Native.Boundary.{attest_boundary, IsNative}
use openrep.Prelude.{refl, ◌≡◌, text_eq, true, none, text, some, Text}
use openrep.Attestation.Content.Bounds.{validate_attestation_content_sound, IsBounded}
use openrep.Revocation.{no_objects}
use openrep.Tests.Toy.{toy}
use openrep.Sqlite.Adapter.{sqlite}
use openrep.Hex.{hex_digit, bytes_to_hex, is_hex_code, is_lowercase_hex_of_length}
use openrep.Canonical.{
  object_text, node_text, leaf_text, canonicalize_inner, Value, canonicalize_literal,
}
use openrep.Canonical.Json.{hex4, encode_unit, encode_units, quote}

abbrev input : AttestationInput
input = record {
  agent_id = agent_id;
  task = some (text "t");
  output = some (text "o");
  tools_used = Value.undefined;
  source = some native_source;
  idempotency_key = none;
}

IsNative-example :
    IsNative toy sqlite no_objects 9
      (text "id-1")
      (text "now")
      input
      key
      db
      (attest toy sqlite no_objects 9 (text "id-1") (text "now") input key db)
IsNative-example = attest_boundary toy sqlite no_objects 9 (text "id-1") (text "now") input key db

abbrev external : ExternalAttestation Text
external = record { source_name = some (text "github"); raw = text "pull 7" }

abbrev github : SourceAdapter Text
github = record {
  source_name = some (text "github");
  normalize = some (λ e. some (record {
    agent_id = agent_id;
    task = some e.raw;
    output = some (text "merged");
    tools_used = Value.null;
    timestamp = some (text "now");
  }));
  validate = some (λ e. verdict true);
}

content_valid :
    validate_attestation_content no_objects 9 (input_content input key) ≡ valid (Value.ref 9)
unfolding validate_attestation_content check_strings check_texts tool_entries_valid check_items
    check_entries content_text is_lowercase_hex_of_length is_hex_code bytes_to_hex hex_digit
    canonicalize_literal canonicalize_inner leaf_text node_text object_text field_text sort_fields
    insert_field text_le map_attempt quote encode_units encode_unit hex4 text_eq
content_valid = refl

bounded_example : IsBounded no_objects 9 (input_content input key) (Value.ref 9)
bounded_example =
    validate_attestation_content_sound no_objects 9 (input_content input key) (Value.ref 9)
      content_valid
