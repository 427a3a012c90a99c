-- ===== src/Attestation/Verify.antt =====
-- `verifyAttestation` of packages/sdk/src/attestation.ts.
pub mod Sound
pub mod RoundTrip
use openrep.Platform.{Platform}
use openrep.Storage.{StorageAdapter}
use openrep.Canonical.{value, error, Attempt, Heap}
use openrep.Records.{is_valid, is_invalid, AgentRecord, VerificationResult, Attestation}
use openrep.Prelude.{true, false, none, text_eq, is_some, some, not, if◌then◌else◌, Text, Option}
use openrep.Result.{ok, uncoded, threw, try_call, pure, Flow}
use openrep.Hex.{is_lowercase_hex_of_length, hex_to_bytes}
use openrep.Attestation.Content.{content_text}

module _ {S : Type 0} (p : Platform) (storage : StorageAdapter S) (heap : Heap) where
  -- A rejection of `verifyAsync` is caught by nobody.
  unfoldable pub signature_check : Attestation → Flow S VerificationResult
  signature_check a s =
      elim (p.verify (hex_to_bytes a.signature) (hex_to_bytes a.content_hash)
        (hex_to_bytes a.signed_by)) [
          | none ↦ (threw uncoded, s)
          | some true ↦ (ok is_valid, s)
          | some false ↦ (ok (is_invalid "signature verification failed"), s)
        ]

  unfoldable pub content_check : Attestation → Attempt Text → Flow S VerificationResult
  content_check a (error e) = pure (is_invalid "attestation content could not be canonicalized")
  content_check a (value canonical) =
      if text_eq (p.sha256_hex canonical) a.content_hash
      then signature_check a
      else pure (is_invalid "content hash mismatch")

  unfoldable pub agent_check : Attestation → Option AgentRecord → Flow S VerificationResult
  agent_check a none = pure (is_invalid "agent not found")
  agent_check a (some agent) =
      if is_some agent.revoked_at
      then pure (is_invalid "key revoked")
      else content_check a (content_text heap a.task a.output a.tools_used)

  unfoldable pub verify_attestation : Attestation → Flow S VerificationResult
  verify_attestation a =
      if not (is_lowercase_hex_of_length a.content_hash 32)
      then pure (is_invalid "contentHash is not a 32-byte lowercase hex sha-256")
      else if not (is_lowercase_hex_of_length a.signature 64)
      then pure (is_invalid "signature is not a 64-byte lowercase hex ed25519 signature")
      else if not (is_lowercase_hex_of_length a.signed_by 32)
      then pure (is_invalid "signedBy is not a 32-byte lowercase hex public key")
      else try_call (storage.get_agent a.signed_by) (agent_check a)
          (λ _. pure (is_invalid "revocation status could not be checked"))
