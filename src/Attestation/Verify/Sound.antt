-- ===== src/Attestation/Verify/Sound.antt =====
-- What a valid verdict of `verifyAttestation` establishes.
use openrep.Platform.{Platform}
use openrep.Storage.{StorageAdapter}
use openrep.Canonical.{value, error, Attempt, Heap}
use openrep.Records.{is_valid, is_invalid, VerificationResult, AgentRecord, Attestation}
use openrep.Result.{ok, returned, pure, Outcome}
use openrep.Attestation.Verify.{signature_check, verify_attestation, content_check, agent_check}
use openrep.Prelude.{
  refl, none, text_eq_iff, text_eq, arith, false, not, Bool, is_some, some, true, Option, ◌≡◌, Text,
}
use openrep.Hex.{hex_to_bytes, is_lowercase_hex_of_length}
use openrep.Attestation.Content.{content_text}
use openrep.Result.Rules.{try_rule, if_rule}

module _ {S : Type 0} (p : Platform) (storage : StorageAdapter S) (heap : Heap) (a : Attestation)
    (s : S) where
  -- The signer is stored and live, the hash is that of the canonical content, and the signature is
  -- one over the hash under the signer's key.
  pub record IsVerified : Type 0 where
    pub agent : AgentRecord
    pub canonical : Text
    pub hash_shape : is_lowercase_hex_of_length a.content_hash 32 ≡ true
    pub signature_shape : is_lowercase_hex_of_length a.signature 64 ≡ true
    pub signer_shape : is_lowercase_hex_of_length a.signed_by 32 ≡ true
    pub stored : (storage.get_agent a.signed_by s).0 ≡ returned (some agent)
    pub live : is_some agent.revoked_at ≡ false
    pub text_of : content_text heap a.task a.output a.tools_used ≡ value canonical
    pub hash : p.sha256_hex canonical ≡ a.content_hash
    pub signed :
        p.verify (hex_to_bytes a.signature) (hex_to_bytes a.content_hash) (hex_to_bytes a.signed_by)
        ≡ some true

  abbrev IsRight : Outcome VerificationResult × S → Type 0
  IsRight r = r.0 ≡ ok is_valid → IsVerified

  signature_right :
      (t : S)
      → (signature_check p storage heap a t).0 ≡ ok is_valid
      → p.verify (hex_to_bytes a.signature) (hex_to_bytes a.content_hash) (hex_to_bytes a.signed_by)
        ≡ some true
  unfolding signature_check
  signature_right t x = ground (arith, x)

  content-IsRight :
      (agent : AgentRecord) (t : S) (o : Attempt Text)
      → content_text heap a.task a.output a.tools_used ≡ o
      → is_lowercase_hex_of_length a.content_hash 32 ≡ true
      → is_lowercase_hex_of_length a.signature 64 ≡ true
      → is_lowercase_hex_of_length a.signed_by 32 ≡ true
      → (storage.get_agent a.signed_by s).0 ≡ returned (some agent)
      → is_some agent.revoked_at ≡ false
      → IsRight (content_check p storage heap a o t)
  unfolding content_check pure
  content-IsRight agent t (error e) c h i j stored live = λ x. cc
  content-IsRight agent t (value canonical) c h i j stored live =
      if_rule IsRight (text_eq (p.sha256_hex canonical) a.content_hash)
        (signature_check p storage heap a) (pure (is_invalid "content hash mismatch")) t
        (λ hash x. record {
          agent = agent;
          canonical = canonical;
          hash_shape = h;
          signature_shape = i;
          signer_shape = j;
          stored = stored;
          live = live;
          text_of = c;
          hash = (text_eq_iff _ _).0 hash;
          signed = signature_right t x;
        })
        (λ _ x. cc)

  agent-IsRight :
      (found : Option AgentRecord) (t : S)
      → (storage.get_agent a.signed_by s).0 ≡ returned found
      → is_lowercase_hex_of_length a.content_hash 32 ≡ true
      → is_lowercase_hex_of_length a.signature 64 ≡ true
      → is_lowercase_hex_of_length a.signed_by 32 ≡ true
      → IsRight (agent_check p storage heap a found t)
  unfolding agent_check pure
  agent-IsRight none t e h i j = λ x. cc
  agent-IsRight (some agent) t e h i j =
      if_rule IsRight _ _ _ t (λ _ x. cc) (λ live. content-IsRight agent t _ refl h i j e live)

  -- A valid verdict is given only for an attestation whose signer is stored and not revoked, whose
  -- content hash is the hash of its own canonical content, and whose signature over that hash
  -- verifies under the signer's key.
  pub verify_attestation_sound :
      (verify_attestation p storage heap a s).0 ≡ ok is_valid → IsVerified
  unfolding verify_attestation pure
  verify_attestation_sound =
      if_rule IsRight _ _ _ s (λ _ x. cc)
        (λ h.
          if_rule IsRight _ _ _ s (λ _ x. cc)
            (λ i.
              if_rule IsRight _ _ _ s (λ _ x. cc)
                (λ j.
                  try_rule IsRight _ _ _ s
                    (λ found e. agent-IsRight found _ e (not_false h) (not_false i) (not_false j))
                    (λ _ _ x. cc))))
    where
      not_false : {b : Bool} → not b ≡ false → b ≡ true
      not_false {b} h = ground arith
