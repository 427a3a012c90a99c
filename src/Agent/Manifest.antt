-- ===== src/Agent/Manifest.antt =====
-- Manifests of packages/sdk/src/agent.ts: the rules for their fields, and their signature.
pub mod Verdicts
use openrep.Platform.{Platform}
use openrep.Storage.{StorageAdapter}
use openrep.Records.{
  AgentManifest, AgentRecord, AgentPermission, attest_self, ingest_external, AgentVisibility,
  is_valid, is_invalid, VerificationResult,
}
use openrep.Result.{try_call, unguarded, pure, ◌>>=◌, Flow}
use openrep.Prelude.{
  starts_with, map, text_eq, any, ◌||◌, not, length, is_some, ◌==◌, [], ◌&&◌, true, false, leb,
  if◌then◌else◌, ◌∷◌, none, ltb, text, some, List, Bool, Text, Option, ℕ,
}
use openrep.Canonical.{array, finite, value, Value, Heap, error, canonicalize_literal, Attempt}
use openrep.Revocation.{serialized}
use openrep.Hex.{bytes_to_hex, is_lowercase_hex_of_length, hex_to_bytes}

abbrev pub manifest_version : ℕ
manifest_version = 2

abbrev pub max_name_length : ℕ
max_name_length = 100

abbrev pub default_permissions : List AgentPermission
default_permissions = attest_self ∷ []

abbrev pub is_name_char : ℕ → Bool
is_name_char c = (leb 97 c && leb c 122) || (leb 48 c && leb c 57)

-- `/^[a-z0-9]+(?:-[a-z0-9]+)*\.agent$/`; the flag says whether the present word has a character.
unfoldable pub matches_name : Bool → Text → Bool
matches_name started [] = false
matches_name started (c ∷ t) =
    let rest = matches_name (is_name_char c) t in
    if is_name_char c
    then rest
    else if c == 45
    then started && rest
    else (c == 46) && started && text_eq t (text "agent")

unfoldable pub is_valid_name : Text → Bool
is_valid_name name =
    ltb 0 (length name) && leb (length name) max_name_length && matches_name false name

unfoldable pub is_valid_memory_pointer : Option Text → Bool
is_valid_memory_pointer none = true
is_valid_memory_pointer (some pointer) =
    starts_with (text "ipfs://") pointer || starts_with (text "https://") pointer

abbrev pub same_permission : AgentPermission → AgentPermission → Bool
same_permission attest_self attest_self = true
same_permission attest_self ingest_external = false
same_permission ingest_external attest_self = false
same_permission ingest_external ingest_external = true

-- The scopes are of the closed set by their type; none occurs twice.
unfoldable pub is_valid_permissions : List AgentPermission → Bool
is_valid_permissions [] = true
is_valid_permissions (scope ∷ scopes) =
    not (any (same_permission scope) scopes) && is_valid_permissions scopes

abbrev pub permission_text : AgentPermission → Text
permission_text attest_self = text "attest:self"
permission_text ingest_external = text "ingest:external"

abbrev pub to_agent_record : AgentManifest → AgentVisibility → AgentRecord
to_agent_record manifest visibility = record {
  name = manifest.name;
  public_key = manifest.public_key;
  owner_public_key = some manifest.owner_public_key;
  memory_pointer = manifest.memory_pointer;
  permissions = manifest.permissions;
  created_at = manifest.created_at;
  manifest_version = manifest.manifest_version;
  signature = manifest.signature;
  revoked_at = none;
  visibility = visibility;
}

-- The array of permissions is the one object that the fields of a manifest refer to.
abbrev pub permissions_heap : List AgentPermission → Heap
permissions_heap scopes _ = array (map (λ scope. Value.str (permission_text scope)) scopes)

abbrev pub pointer_value : Option Text → Value
pointer_value none = Value.null
pointer_value (some pointer) = Value.str pointer

-- The fields that both versions have, the version's number given as its text.
abbrev pub common_fields : AgentManifest → Text → List (Text × Value)
common_fields m version =
    (text "memoryPointer", pointer_value m.memory_pointer)
    ∷ (text "permissions", Value.ref 0)
    ∷ (text "createdAt", Value.str m.created_at)
    ∷ (text "manifestVersion", Value.num (finite version))
    ∷ []

-- `canonicalize` of the fields of a manifest of version 2, which name the owner.
unfoldable pub manifest_text : AgentManifest → Attempt Text
manifest_text m = canonicalize_literal (permissions_heap m.permissions) (
    (text "name", Value.str m.name)
    ∷ (text "publicKey", Value.str m.public_key)
    ∷ (text "ownerPublicKey", Value.str m.owner_public_key)
    ∷ common_fields m (text "2"))

-- Those of version 1 do not.
unfoldable pub legacy_text : AgentManifest → Attempt Text
legacy_text m = canonicalize_literal (permissions_heap m.permissions) (
    (text "name", Value.str m.name)
    ∷ (text "publicKey", Value.str m.public_key)
    ∷ common_fields m (text "1"))

abbrev pub signed_text : AgentManifest → Attempt Text
signed_text m = if m.manifest_version == 1 then legacy_text m else manifest_text m

module _ (p : Platform) where
  -- `signManifestFields`, of fields of version 2
  unfoldable pub sign_manifest : {S : Type 0} → AgentManifest → Text → Flow S AgentManifest
  sign_manifest fields private_key = do
    canonical ← serialized (manifest_text fields)
    signature ← unguarded (p.sign (p.encode canonical) (hex_to_bytes private_key))
    pure (record fields { signature = bytes_to_hex signature })

  -- A signature of which `verifyAsync` rejects is caught by the `try` around the whole.
  unfoldable pub check_signature : AgentManifest → Attempt Text → VerificationResult
  check_signature m (error e) = is_invalid "manifest could not be verified"
  check_signature m (value canonical) =
      elim (p.verify (hex_to_bytes m.signature) (p.encode canonical) (hex_to_bytes m.public_key)) [
        | none ↦ is_invalid "manifest could not be verified"
        | some true ↦ is_valid
        | some false ↦ is_invalid "signature does not match the manifest fields"
      ]

  unfoldable pub check_agent : AgentManifest → Option AgentRecord → VerificationResult
  check_agent m none = is_invalid "agent not found"
  check_agent m (some agent) =
      if is_some agent.revoked_at
      then is_invalid "key revoked"
      else check_signature m (signed_text m)

  -- The store is asked about an agent only when the shape of the manifest is right.
  pub verify_manifest : {S : Type 0} → StorageAdapter S → AgentManifest → Flow S VerificationResult
  verify_manifest storage m =
      if not (is_valid_name m.name)
      then pure (is_invalid "name is not a valid agent name")
      else if not (is_lowercase_hex_of_length m.public_key 32)
      then pure (is_invalid "publicKey is not a 32-byte lowercase hex ed25519 key")
      else if not (is_lowercase_hex_of_length m.signature 64)
      then pure (is_invalid "signature is not a 64-byte lowercase hex ed25519 signature")
      else if not (is_valid_memory_pointer m.memory_pointer)
      then pure (is_invalid "memoryPointer must be null or an ipfs:// or https:// uri")
      else if not (is_valid_permissions m.permissions)
      then pure (is_invalid "permissions contains a scope outside the closed set or a duplicate")
      else if not (is_some (p.parse_date m.created_at))
      then pure (is_invalid "createdAt is not a valid date")
      else if ltb m.manifest_version 1
      then pure (is_invalid "manifestVersion must be a positive integer")
      else if not (m.manifest_version == 1) && not (m.manifest_version == 2)
      then pure (is_invalid "manifestVersion is not a supported schema version")
      else if (m.manifest_version == 2) && not (is_lowercase_hex_of_length m.owner_public_key 32)
      then pure (is_invalid "ownerPublicKey is not a 32-byte lowercase hex ed25519 key")
      else try_call (storage.get_agent m.public_key) (λ found. pure (check_agent m found))
          (λ _. pure (is_invalid "agent revocation status could not be checked"))
