-- ===== src/Attestation/Ingest.antt =====
-- `ingest` of packages/sdk/src/attestation.ts: an external platform's record through its adapter.
pub mod FailClosed
use openrep.Prelude.{
  is_some, text_eq, not, ltb, ◌==◌, length, [], if◌then◌else◌, or_else, false, none, true, some,
  Text, ℕ, Bool, Option,
}
use openrep.Canonical.{Heap, Value}
use openrep.Attestation.Content.{
  validate_attestation_content, too_large, invalid, ContentToValidate, valid, Check,
}
use openrep.Platform.{Platform}
use openrep.Records.{Attestation, ExternalVerification}
use openrep.Storage.{StorageAdapter}
use openrep.Attestation.Signing.{sign_and_persist_attestation, SigningParams}
use openrep.Result.{
  external_attestation_invalid, malformed_external_attestation, invalid_input, require, ◌>>◌,
  invalid_source, require_some, ◌>>=◌, Flow,
}
use openrep.Hex.{is_lowercase_hex_of_length}
use openrep.Attestation.Native.{source_is, native_source}

abbrev pub max_source_name_length : ℕ
max_source_name_length = 64

-- What a call of the adapter's `validate` gives: it throws, its result is no verdict, or a verdict.
pub data Verdict : Type 0 where
  threw_verdict malformed_verdict : Verdict
  verdict : Bool → Verdict

pub record NormalizedExternalAttestation : Type 0 where
  pub agent_id : Text
  pub task : Option Text
  pub output : Option Text
  pub tools_used : Value
  pub timestamp : Option Text

-- A raw record with its declared source; `Raw` is the rest, which only the adapter reads.
pub record ExternalAttestation (Raw : Type 0) : Type 0 where
  pub source_name : Option Text
  pub raw : Raw

-- `normalize` gives `none` where it throws or returns no object; a missing method is `none`.
pub record SourceAdapter (Raw : Type 0) : Type 0 where
  pub source_name : Option Text
  pub normalize : Option (ExternalAttestation Raw → Option NormalizedExternalAttestation)
  pub validate : Option (ExternalAttestation Raw → Verdict)

-- Phase 1: a name of 1 to 64 characters.
abbrev pub usable_name : Option Text → Option Text
usable_name none = none
usable_name (some name) =
    if length name == 0
    then none
    else if ltb max_source_name_length (length name)
    then none
    else some name

abbrev pub unchecked : ExternalVerification
unchecked = record { checked = false; valid = none; reason = none }

abbrev pub checked_valid : ExternalVerification
checked_valid = record { checked = true; valid = some true; reason = none }

-- Phase 3: only a well-formed positive verdict goes on.
abbrev pub provenance : Verdict → Option ExternalVerification
provenance threw_verdict = none
provenance malformed_verdict = none
provenance (verdict false) = none
provenance (verdict true) = some checked_valid

abbrev pub external_check :
    {Raw : Type 0}
    → Option (ExternalAttestation Raw → Verdict)
    → ExternalAttestation Raw
    → Option ExternalVerification
external_check none raw = some unchecked
external_check (some validate) raw = provenance (validate raw)

abbrev pub normalized_content : NormalizedExternalAttestation → Text → ContentToValidate
normalized_content n signing_key = record {
  agent_id = n.agent_id;
  signing_key = signing_key;
  task = n.task;
  output = n.output;
  tools_used = n.tools_used;
}

abbrev pub checked_tools : Check → Option Value
checked_tools (valid tools) = some tools
checked_tools invalid = none
checked_tools too_large = none

abbrev pub ingest_params :
    NormalizedExternalAttestation
    → Value
    → Text
    → Text
    → Option Text
    → ExternalVerification
    → SigningParams
ingest_params n tools source timestamp key verification = record {
  agent_id = n.agent_id;
  task = or_else n.task [];
  output = or_else n.output [];
  tools_used = tools;
  source = source;
  timestamp = timestamp;
  idempotency_key = key;
  external_verification = some verification;
}

module _ {S Raw : Type 0} (p : Platform) (storage : StorageAdapter S) (heap : Heap)
    (fresh : ℕ) where
  pub ingest :
      Text → ExternalAttestation Raw → SourceAdapter Raw → Text → Option Text → Flow S Attestation
  ingest id external adapter signing_key idempotency_key = do
    source ← require_some (usable_name adapter.source_name) invalid_source
    normalize ← require_some adapter.normalize invalid_source
    require (is_lowercase_hex_of_length signing_key 32) invalid_input
    require (not (text_eq source native_source)) invalid_source
    require (source_is external.source_name source) malformed_external_attestation
    verification ←
        require_some (external_check adapter.validate external) external_attestation_invalid
    normalized ← require_some (normalize external) malformed_external_attestation
    tools ←
        require_some
          (checked_tools
            (validate_attestation_content heap fresh (normalized_content normalized signing_key)))
          malformed_external_attestation
    timestamp ← require_some normalized.timestamp malformed_external_attestation
    require (is_some (p.parse_date timestamp)) malformed_external_attestation
    sign_and_persist_attestation p storage heap fresh id
        (ingest_params normalized tools source timestamp idempotency_key verification) signing_key
