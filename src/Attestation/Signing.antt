-- ===== src/Attestation/Signing.antt =====
-- `signAndPersistAttestation` of packages/sdk/src/attestation.ts: the one place that signs and saves.
pub mod Rules
pub mod Gates
use openrep.Platform.{Platform}
use openrep.Prelude.{true, Bool, text_eq, is_some, ◌==◌, length, not, none, Option, some, Text, ℕ}
use openrep.Attestation.Content.{
  too_large, invalid, valid, content_text, validate_attestation_content, ContentToValidate, Check,
}
use openrep.Records.{ExternalVerification, ExternalVerification, Attestation, AttestationRecord}
use openrep.Result.{
  unguarded, key_mismatch, agent_revoked, require_some, attempt, agent_not_found, uncoded,
  input_too_large, storage_write_failed, try_call, invalid_input, threw, failure, coded,
  duplicate_idempotency_key, require, fail, Fault, ◌>>=◌, pure, ok, ◌>>◌, Flow,
}
use openrep.Storage.{StorageAdapter}
use openrep.Canonical.{error, value, Attempt, Heap, Value}
use openrep.Hex.{bytes_to_hex, hex_to_bytes}

pub record SigningParams : Type 0 where
  pub agent_id : Text
  pub task : Text
  pub output : Text
  pub tools_used : Value
  pub source : Text
  pub timestamp : Text
  pub idempotency_key : Option Text
  pub external_verification : Option ExternalVerification

abbrev pub attestation_schema_version : ℕ
attestation_schema_version = 1

-- `{ kind: "invalid" }` and `{ kind: "too-large" }` end the call.
abbrev pub require_content : {S : Type 0} → Check → Flow S Value
require_content (valid tools) s = (ok tools, s)
require_content invalid s = (failure invalid_input, s)
require_content too_large s = (failure input_too_large, s)

-- `toPortable`: the storage internals are left off.
abbrev pub to_portable : AttestationRecord → Attestation
to_portable r = r.attestation

abbrev pub content_of : SigningParams → Text → ContentToValidate
content_of params signing_key = record {
  agent_id = params.agent_id;
  signing_key = signing_key;
  task = some params.task;
  output = some params.output;
  tools_used = params.tools_used;
}

-- An idempotency key that is given is not empty.
abbrev pub key_is_usable : Option Text → Bool
key_is_usable none = true
key_is_usable (some key) = not (length key == 0)

-- The store assigns the row id.
abbrev pub new_record : SigningParams → Text → Text → Text → Text → AttestationRecord
new_record params id content_hash signature signed_by = record {
  attestation = record {
    id = id;
    agent_id = params.agent_id;
    task = params.task;
    output = params.output;
    tools_used = params.tools_used;
    source = params.source;
    content_hash = content_hash;
    signature = signature;
    signed_by = signed_by;
    timestamp = params.timestamp;
    schema_version = attestation_schema_version;
    external_verification = params.external_verification;
  };
  row_id = 0;
  idempotency_key = params.idempotency_key;
}

module _ {S : Type 0} (p : Platform) (storage : StorageAdapter S) (heap : Heap) (fresh : ℕ) where
  -- The optimistic read: one that fails counts as a miss.
  unfoldable pub existing_for : Text → Option Text → Flow S (Option AttestationRecord)
  existing_for agent_id none = pure none
  existing_for agent_id (some key) =
      attempt (storage.get_attestation_by_idempotency_key agent_id key) (λ _. pure none)

  -- The lost race: a concurrent call with the same key saved first.
  unfoldable pub fetch_winner : Text → Option Text → Flow S Attestation
  fetch_winner agent_id none = fail duplicate_idempotency_key
  fetch_winner agent_id (some key) =
      try_call (storage.get_attestation_by_idempotency_key agent_id key)
        (λ found. elim found [
          | none ↦ fail duplicate_idempotency_key
          | some existing ↦ pure (to_portable existing)
        ])
        (λ _. fail duplicate_idempotency_key)

  unfoldable pub save_failed : SigningParams → Fault → Flow S Attestation
  save_failed params (coded duplicate_idempotency_key) =
      fetch_winner params.agent_id params.idempotency_key
  save_failed params (coded agent_not_found) = fail agent_not_found
  save_failed params _ = fail storage_write_failed

  unfoldable pub canonical_or_fail : Attempt Text → Flow S Text
  canonical_or_fail (value t) = pure t
  canonical_or_fail (error e) = fail invalid_input

  -- Phase 5, where no attestation has the key: hash, sign and save. `id` is `randomUUID()`.
  unfoldable pub sign_new : Text → SigningParams → Text → Text → Flow S Attestation
  sign_new id params signing_key signed_by = do
    canonical ← canonical_or_fail (content_text heap params.task params.output params.tools_used)
    signature ←
        unguarded (p.sign (hex_to_bytes (p.sha256_hex canonical)) (hex_to_bytes signing_key))
    let r = new_record params id (p.sha256_hex canonical) (bytes_to_hex signature) signed_by
    try_call (storage.save_attestation r) (λ _. pure (to_portable r)) (save_failed params)

  unfoldable pub sign_unless_existing :
      Text → SigningParams → Text → Text → Option AttestationRecord → Flow S Attestation
  sign_unless_existing id params signing_key signed_by none =
      sign_new id params signing_key signed_by
  sign_unless_existing id params signing_key signed_by (some existing) = pure (to_portable existing)

  -- Phase 4 and on, for a live agent: key correspondence and the idempotency read come first.
  unfoldable pub sign_with_key : Text → SigningParams → Text → Flow S Attestation
  sign_with_key id params signing_key = do
    public_key ← require_some (p.get_public_key (hex_to_bytes signing_key)) key_mismatch
    let signed_by = bytes_to_hex public_key
    require (text_eq signed_by params.agent_id) key_mismatch
    require (key_is_usable params.idempotency_key) invalid_input
    existing ← existing_for params.agent_id params.idempotency_key
    sign_unless_existing id params signing_key signed_by existing

  unfoldable pub sign_and_persist_attestation : Text → SigningParams → Text → Flow S Attestation
  sign_and_persist_attestation id params signing_key = do
    require_content (validate_attestation_content heap fresh (content_of params signing_key))
    require (not (length params.source == 0)) invalid_input
    require (is_some (p.parse_date params.timestamp)) invalid_input
    found ← attempt (storage.get_agent params.agent_id) (λ _. fail storage_write_failed)
    agent ← require_some found agent_not_found
    require (not (is_some agent.revoked_at)) agent_revoked
    sign_with_key id params signing_key
