-- ===== src/Rotation.antt =====
-- packages/sdk/src/rotation.ts: the owner-signed rotation of an agent's identity key.
pub mod Authorization
use openrep.Platform.{KeyPair, Platform}
use openrep.Storage.{StorageAdapter}
use openrep.Revocation.{shape_is_valid, owner_signed, is_fresh, authorization_text, serialized}
use openrep.Prelude.{is_some, not, [], Option, Text, ℕ}
use openrep.Records.{
  RotatedAgentIdentity, KeyRotationRecord, AgentManifest, OwnerRequest, AgentRecord,
}
use openrep.Agent.Manifest.{sign_manifest, to_agent_record, manifest_version}
use openrep.Result.{
  agent_revoked, stale_rotation_request, unauthorized_rotation, owner_key_missing, agent_not_found,
  storage_write_failed, fail, attempt, key_generation_failed, invalid_input, require, require_some,
  ◌>>=◌, ◌>>◌, Flow, Call,
}
use openrep.Hex.{bytes_to_hex}
use openrep.Names.{name_generation_max_attempts, try_names}

module _ {S : Type 0} (p : Platform) (storage : StorageAdapter S) where
  -- The link from the old identity to the new one keeps the owner's own authorization.
  abbrev pub rotation_record : OwnerRequest → Text → Text → KeyRotationRecord
  rotation_record request owner_key new_key = record {
    old_public_key = request.agent_id;
    new_public_key = new_key;
    signed_by = owner_key;
    timestamp = request.timestamp;
    signature = request.signature;
  }

  -- The manifest of the successor but for its signature: a new name and key, and all else of the
  -- old record.
  abbrev pub successor : AgentRecord → Text → Text → Text → Text → AgentManifest
  successor agent owner_key new_key created_at name = record {
    name = name;
    public_key = new_key;
    owner_public_key = owner_key;
    memory_pointer = agent.memory_pointer;
    permissions = agent.permissions;
    created_at = created_at;
    manifest_version = manifest_version;
    signature = [];
  }

  abbrev pub save_successor : AgentRecord → OwnerRequest → Text → AgentManifest → Call S (Unit {0})
  save_successor agent request owner_key manifest =
      storage.rotate_agent (to_agent_record manifest agent.visibility)
        (rotation_record request owner_key manifest.public_key)

  abbrev pub rotated : Text → AgentManifest → RotatedAgentIdentity
  rotated private_key manifest = record { manifest = manifest; private_key = private_key }

  -- The keypair is generated, and then a name is claimed for it.
  unfoldable pub issue_successor :
      (ℕ → Text)
      → Option KeyPair
      → Text
      → OwnerRequest
      → AgentRecord
      → Text
      → Flow S RotatedAgentIdentity
  issue_successor names generated created_at request agent owner_key = do
    pair ← require_some generated key_generation_failed
    let private_key = bytes_to_hex pair.secret
    let new_key = bytes_to_hex pair.public
    try_names storage names
        (λ name. sign_manifest p (successor agent owner_key new_key created_at name) private_key)
        (save_successor agent request owner_key) (rotated private_key) name_generation_max_attempts
        0

  -- `received_at` is `Date.now()`, `generated` what `keygenAsync` gives, and `created_at` the time
  -- of the successor.
  pub rotate_agent :
      ℕ → (ℕ → Text) → Option KeyPair → Text → OwnerRequest → Flow S RotatedAgentIdentity
  rotate_agent received_at names generated created_at request = do
    require (shape_is_valid p request) invalid_input
    found ← attempt (storage.get_agent request.agent_id) (λ _. fail storage_write_failed)
    agent ← require_some found agent_not_found
    owner_key ← require_some agent.owner_public_key owner_key_missing
    canonical ← serialized (authorization_text request)
    require (owner_signed p canonical request owner_key) unauthorized_rotation
    require (is_fresh p received_at request) stale_rotation_request
    require (not (is_some agent.revoked_at)) agent_revoked
    issue_successor names generated created_at request agent owner_key
