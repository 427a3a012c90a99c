-- ===== src/Agent/Manifest/Verdicts.antt =====
-- The verdicts of `verifyManifest`.
use openrep.Agent.Manifest.{
  verify_manifest, check_agent, check_signature, signed_text, is_valid_name, is_valid_permissions,
  is_valid_memory_pointer,
}
use openrep.Storage.{StorageAdapter}
use openrep.Prelude.{
  ◌&&◌, ◌==◌, ltb, ltb, refl, ◌⊎◌, is_some, arith, Option, ◌≡◌, Text, not, Bool, true, false, none,
  some,
}
use openrep.Platform.{Platform}
use openrep.Records.{is_invalid, VerificationResult, is_valid, AgentRecord, AgentManifest}
use openrep.Canonical.{error, value, Attempt}
use openrep.Result.{returned, try_call, ok, pure, Outcome}
use openrep.Hex.{hex_to_bytes, is_lowercase_hex_of_length}
use openrep.Result.Rules.{try_rule, if_rule}

not-true : {b : Bool} → not b ≡ false → b ≡ true
not-true {b} h = ground arith

module _ {S : Type 0} (p : Platform) (storage : StorageAdapter S) (m : AgentManifest) (s : S) where
  -- What a valid verdict asks of a manifest: fields of the right shape, a supported version, with
  -- an owner's key from version 2 on, a stored agent that is live, and its own key's signature over
  -- the fields of its version.
  pub record IsGenuine : Type 0 where
    pub agent : AgentRecord
    pub canonical : Text
    pub named : is_valid_name m.name ≡ true
    pub key_shape : is_lowercase_hex_of_length m.public_key 32 ≡ true
    pub signature_shape : is_lowercase_hex_of_length m.signature 64 ≡ true
    pub pointer : is_valid_memory_pointer m.memory_pointer ≡ true
    pub scopes : is_valid_permissions m.permissions ≡ true
    pub dated : is_some (p.parse_date m.created_at) ≡ true
    pub supported :
        (m.manifest_version ≡ 1)
        ⊎ ((m.manifest_version ≡ 2) × (is_lowercase_hex_of_length m.owner_public_key 32 ≡ true))
    pub stored : (storage.get_agent m.public_key s).0 ≡ returned (some agent)
    pub live : is_some agent.revoked_at ≡ false
    pub text_of : signed_text m ≡ value canonical
    pub signed :
        p.verify (hex_to_bytes m.signature) (p.encode canonical) (hex_to_bytes m.public_key)
        ≡ some true

  abbrev IsRight : Outcome VerificationResult × S → Type 0
  IsRight x = x.0 ≡ ok is_valid → IsGenuine

  signature_right :
      (canonical : Text)
      → check_signature p m (value canonical) ≡ is_valid
      → p.verify (hex_to_bytes m.signature) (p.encode canonical) (hex_to_bytes m.public_key)
        ≡ some true
  unfolding check_signature
  signature_right canonical h = ground (arith, h)

  text_right :
      (a : Attempt Text)
      → check_signature p m a ≡ is_valid
      → (canonical : Text) × (a ≡ value canonical)
        × (p.verify (hex_to_bytes m.signature) (p.encode canonical) (hex_to_bytes m.public_key)
            ≡ some true)
  text_right (error e) h = absurd (unfold check_signature in ground (arith, h))
  text_right (value canonical) h = (canonical, refl, signature_right canonical h)

  agent_right :
      (found : Option AgentRecord)
      → check_agent p m found ≡ is_valid
      → (agent : AgentRecord) × (found ≡ some agent)
        × (is_some agent.revoked_at ≡ false)
        × (check_signature p m (signed_text m) ≡ is_valid)
  unfolding check_agent
  agent_right none h = absurd (ground (arith, h))
  agent_right (some agent) h = (agent, refl, ground (arith, h), ground (arith, h))

  -- A valid verdict is given only for a manifest of the right shape and a supported version, whose
  -- agent is stored and not revoked, and whose signature over the fields of its version verifies
  -- under its own key.
  pub verify_manifest_sound : (verify_manifest p storage m s).0 ≡ ok is_valid → IsGenuine
  unfolding verify_manifest pure
  verify_manifest_sound =
      if_rule IsRight _ _ _ s (λ _ x. cc)
        (λ named.
          if_rule IsRight _ _ _ s (λ _ x. cc)
            (λ key_shape.
              if_rule IsRight _ _ _ s (λ _ x. cc)
                (λ signature_shape.
                  if_rule IsRight _ _ _ s (λ _ x. cc)
                    (λ pointer.
                      if_rule IsRight _ _ _ s (λ _ x. cc)
                        (λ scopes.
                          if_rule IsRight _ _ _ s (λ _ x. cc)
                            (λ dated.
                              if_rule IsRight (ltb m.manifest_version 1)
                                (pure (is_invalid "manifestVersion must be a positive integer")) _ s
                                (λ _ x. cc)
                                (λ positive.
                                  if_rule IsRight
                                    (not (m.manifest_version == 1) && not (m.manifest_version == 2))
                                    (pure (
                                      is_invalid
                                        "manifestVersion is not a supported schema version"))
                                    _ s (λ _ x. cc)
                                    (λ version.
                                      if_rule IsRight
                                        ((m.manifest_version == 2)
                                          && not (is_lowercase_hex_of_length m.owner_public_key 32))
                                        (pure (
                                          is_invalid
                                            "ownerPublicKey is not a 32-byte lowercase hex ed25519 key"))
                                        _ s (λ _ x. cc)
                                        (λ owner.
                                          try_rule IsRight _ _ _ s
                                            (λ found stored valid.
                                              let (agent, present, live, rest) =
                                                agent_right found (ok_right valid) in
                                              let (canonical, text_of, signed) =
                                                text_right (signed_text m) rest in
                                              record {
                                                agent = agent;
                                                canonical = canonical;
                                                named = not-true named;
                                                key_shape = not-true key_shape;
                                                signature_shape = not-true signature_shape;
                                                pointer = not-true pointer;
                                                scopes = not-true scopes;
                                                dated = not-true dated;
                                                supported = ground (arith, version, owner);
                                                stored = rw present at stored;
                                                live = live;
                                                text_of = text_of;
                                                signed = signed;
                                              })
                                            (λ _ _ x. cc))))))))))
    where
      ok_right : {v w : VerificationResult} → ok v ≡ ok w → v ≡ w
      ok_right h = cc

  -- Whatever the conditions of a valid verdict hold of is accepted.
  pub verify_manifest_complete : IsGenuine → (verify_manifest p storage m s).0 ≡ ok is_valid
  unfolding verify_manifest pure try_call check_agent check_signature
  verify_manifest_complete h = ground (
    arith, h.named, h.key_shape, h.signature_shape, h.pointer, h.scopes, h.dated, h.supported,
    h.stored, h.live, h.text_of, h.signed,
  )
