-- ===== src/Records.antt =====
-- The data of packages/sdk/src/types: identity.ts, attestation.ts, storage.ts, sources.ts,
-- security.ts and score.ts. Instants are kept as the texts that the program stores.
use openrep.Prelude.{ℕ, Bool, Option, List, Text, String}
use openrep.Canonical.{Value}

pub data AgentPermission : Type 0 where
  attest_self ingest_external : AgentPermission

pub data AgentVisibility : Type 0 where
  public private : AgentVisibility

-- The portable identity card. A manifest of version 1 has no owner key.
pub record AgentManifest : Type 0 where
  pub name : Text
  pub public_key : Text
  pub owner_public_key : Text
  pub memory_pointer : Option Text
  pub permissions : List AgentPermission
  pub created_at : Text
  pub manifest_version : ℕ
  pub signature : Text

pub record AgentRecord : Type 0 where
  pub name : Text
  pub public_key : Text
  pub owner_public_key : Option Text
  pub memory_pointer : Option Text
  pub permissions : List AgentPermission
  pub created_at : Text
  pub manifest_version : ℕ
  pub signature : Text
  pub revoked_at : Option Text
  pub visibility : AgentVisibility

-- `AgentIdentity` and `RotatedAgentIdentity`: a manifest with private keys beside it.
pub record AgentIdentity : Type 0 where
  pub manifest : AgentManifest
  pub private_key : Text
  pub owner_private_key : Text

pub record RotatedAgentIdentity : Type 0 where
  pub manifest : AgentManifest
  pub private_key : Text

pub record KeyRotationRecord : Type 0 where
  pub old_public_key : Text
  pub new_public_key : Text
  pub signed_by : Text
  pub timestamp : Text
  pub signature : Text

-- `RevocationRequest` and `RotateRequest` have the same shape.
pub record OwnerRequest : Type 0 where
  pub agent_id : Text
  pub timestamp : Text
  pub signature : Text

pub record ExternalVerification : Type 0 where
  pub checked : Bool
  pub valid : Option Bool
  pub reason : Option Text

-- `tools_used` refers to the array of tool calls; a stored row keeps the values themselves, the JSON
-- text of the column is not modelled.
pub record Attestation : Type 0 where
  pub id : Text
  pub agent_id : Text
  pub task : Text
  pub output : Text
  pub tools_used : Value
  pub source : Text
  pub content_hash : Text
  pub signature : Text
  pub signed_by : Text
  pub timestamp : Text
  pub schema_version : ℕ
  pub external_verification : Option ExternalVerification

pub record AttestationRecord : Type 0 where
  pub attestation : Attestation
  pub open attestation use *
  pub row_id : ℕ
  pub idempotency_key : Option Text

-- `cursor` and `next_cursor` are row ids; their decimal texts are not modelled.
pub record Page : Type 0 where
  pub items : List AttestationRecord
  pub next_cursor : Option ℕ

-- A double: its sign, its exponent as it is stored, and its fraction.
pub record Double : Type 0 where
  pub is_negative : Bool
  pub exponent : ℕ
  pub fraction : ℕ

pub record RegisteredSource : Type 0 where
  pub source_name : Text
  pub registered_at : Text
  pub trust_weight : Double

pub record EncryptedKeyRecord : Type 0 where
  pub agent_id : Text
  pub encrypted_private_key : Text
  pub iv : Text
  pub algorithm : Text
  pub created_at : Text

pub record SessionKeyRow : Type 0 where
  pub agent_id : Text
  pub owner_user_id : Text
  pub encrypted_private_key : Text
  pub iv : Text
  pub algorithm : Text
  pub created_at : Text
  pub expires_at_epoch_ms : ℕ

pub data VerificationResult : Type 0 where
  is_valid : VerificationResult
  is_invalid : String → VerificationResult
