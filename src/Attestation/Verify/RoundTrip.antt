-- ===== src/Attestation/Verify/RoundTrip.antt =====
-- What the signing core signs, `verifyAttestation` accepts.
use openrep.Platform.{CryptoLaws, Platform}
use openrep.Storage.{ReadsKeepState, StorageAdapter}
use openrep.Canonical.{Heap}
use openrep.Records.{AgentRecord, AttestationRecord, is_valid, Attestation}
use openrep.Attestation.Verify.{signature_check, content_check, agent_check, verify_attestation}
use openrep.Result.{returned, ok, try_call}
use openrep.Attestation.Verify.Sound.{IsVerified}
use openrep.Prelude.{inr, inl, refl, false, is_some, some, ◌⊎◌, Text, ℕ, text_eq_iff, arith, ◌≡◌}
use openrep.Attestation.Signing.{to_portable, sign_and_persist_attestation, SigningParams}
use openrep.Attestation.Signing.Gates.{
  sign_and_persist_attestation_gated, IsSigned, IsKnown, IsQualified,
}
use openrep.Hex.RoundTrip.{hex_to_bytes-bytes_to_hex, is_lowercase_hex_of_length-bytes_to_hex}

module _ {S : Type 0} (p : Platform) (storage : StorageAdapter S) (heap : Heap) (a : Attestation)
    (s : S) where
  -- Whatever the conditions of a valid verdict hold of is accepted.
  pub verify_attestation_complete :
      IsVerified p storage heap a s → (verify_attestation p storage heap a s).0 ≡ ok is_valid
  unfolding verify_attestation agent_check content_check signature_check try_call
  verify_attestation_complete h = ground (
    arith,
    h.hash_shape,
    h.signature_shape,
    h.signer_shape,
    h.stored,
    h.live,
    h.text_of,
    h.hash,
    h.signed,
    text_eq_iff (p.sha256_hex h.canonical) a.content_hash,
  )

module _ {S : Type 0} (p : Platform) (laws : CryptoLaws p) (storage : StorageAdapter S)
    (heap : Heap) (fresh : ℕ) (reads : ReadsKeepState storage) (id : Text) (params : SigningParams)
    (signing_key : Text) (s : S) where
  signed_record_verified :
      (q : IsQualified p storage heap fresh reads id params signing_key s) (r : AttestationRecord)
      → IsSigned p storage heap fresh reads id params signing_key s r
      → (agent : AgentRecord) (t : S)
      → (storage.get_agent params.agent_id t).0 ≡ returned (some agent)
      → is_some agent.revoked_at ≡ false
      → IsVerified p storage heap (to_portable r) t
  signed_record_verified q r h agent t stored live =
      let (bytes, count) = laws.signature_size _ _ _ h.signed in
      let (key_bytes, key_count) = laws.public_key_size _ _ q.derived in
      rw h.is (record {
        agent = agent;
        canonical = h.canonical;
        hash_shape = laws.digest h.canonical;
        signature_shape = rw count at (is_lowercase_hex_of_length-bytes_to_hex h.signature bytes);
        signer_shape =
            rw (key_count, q.corresponds) at
              (is_lowercase_hex_of_length-bytes_to_hex q.public_key key_bytes);
        stored = stored;
        live = live;
        text_of = h.text_of;
        hash = refl;
        signed =
            rw
              (
                hex_to_bytes-bytes_to_hex h.signature bytes,
                ← q.corresponds,
                hex_to_bytes-bytes_to_hex q.public_key key_bytes,
              )
              (laws.sign_verify _ _ _ _ q.derived h.signed);
      })

  -- The store had the attestation under the same key, before the call or after a save.
  abbrev pub IsRepeat : Attestation → Type 0
  IsRepeat a =
      IsKnown p storage heap fresh reads id params signing_key s s a
      ⊎ ((r : AttestationRecord) × IsKnown p storage heap fresh reads id params signing_key s
            (storage.save_attestation r s).1 a)

  -- What the signing core returns is verified from then on, over any store whose reads leave it as
  -- it is and with a hash and signatures that behave as documented: it is an attestation that the
  -- store had under the same idempotency key, before the call or after some save; or its
  -- verification is valid in every state in which the store has the agent, not revoked.
  pub sign_and_persist_attestation-verify_attestation :
      (a : Attestation)
      → (sign_and_persist_attestation p storage heap fresh id params signing_key s).0 ≡ ok a
      → IsRepeat a
        ⊎ ((agent : AgentRecord) (t : S)
            → (storage.get_agent params.agent_id t).0 ≡ returned (some agent)
            → is_some agent.revoked_at ≡ false
            → (verify_attestation p storage heap a t).0 ≡ ok is_valid)
  sign_and_persist_attestation-verify_attestation a h =
      elim (sign_and_persist_attestation_gated p storage heap fresh reads id params signing_key s) [
        | inl known ↦ inl (inl (known.1 a h))
        | inr (q, (r, signed, _, result, _)) ↦ elim (result a h) [
          | inr winner ↦ inl (inr (r, winner))
          | inl same ↦ inr (λ agent t stored live. rw same (
              verify_attestation_complete p storage heap (to_portable r) t
                (signed_record_verified q r signed agent t stored live)))
        ]
      ]
