-- ===== src/Attestation/Signing/Gates.antt =====
-- Nothing is saved that has not passed every gate of the signing core.
use openrep.Platform.{Platform}
use openrep.Storage.{ReadsKeepState, StorageAdapter}
use openrep.Canonical.{value, Value, Heap}
use openrep.Prelude.{
  ◌∙◌, sym, text_eq_iff, true, inr, is_some, false, ◌==◌, length, refl, none, arith, Option, ◌⊎◌,
  some, inl, ◌≡◌, List, Text, ℕ,
}
use openrep.Attestation.Signing.{
  sign_with_key, sign_unless_existing, existing_for, sign_and_persist_attestation, sign_new,
  new_record, content_of, to_portable, save_failed, fetch_winner, SigningParams,
}
use openrep.Records.{Attestation, AgentRecord, AttestationRecord}
use openrep.Result.{
  rejected, Settled, invalid_input, ◌>>=◌, duplicate_idempotency_key, coded, Fault, ok, pure,
  returned, try_call, failure, uncoded, fail, threw, ErrorCode, Outcome,
}
use openrep.Attestation.Content.{valid, validate_attestation_content, content_text}
use openrep.Hex.{bytes_to_hex, hex_to_bytes}
use openrep.Result.Rules.{unguarded_rule, some_rule, read_rule, require_rule, try_rule}
use openrep.Attestation.Signing.Rules.{not-true, content_rule, canonical_rule, existing_rule}

module _ {S : Type 0} (p : Platform) (storage : StorageAdapter S) (heap : Heap) (fresh : ℕ)
    (reads : ReadsKeepState storage) (id : Text) (params : SigningParams) (signing_key : Text)
    (s : S) where
  -- The content is within the limits, and the agent is stored and live.
  pub record IsAdmitted : Type 0 where
    pub agent : AgentRecord
    pub tools : Value
    pub content :
        validate_attestation_content heap fresh (content_of params signing_key) ≡ valid tools
    pub named : (length params.source == 0) ≡ false
    pub dated : is_some (p.parse_date params.timestamp) ≡ true
    pub stored : (storage.get_agent params.agent_id s).0 ≡ returned (some agent)
    pub live : is_some agent.revoked_at ≡ false

  -- The signing key is the agent's own besides.
  pub record IsQualified : Type 0 where
    pub admitted : IsAdmitted
    pub public_key : List ℕ
    pub derived : p.get_public_key (hex_to_bytes signing_key) ≡ some public_key
    pub corresponds : bytes_to_hex public_key ≡ params.agent_id

  -- An attestation that the store has under the same key, as it is at `t`.
  pub record IsKnown (t : S) (a : Attestation) : Type 0 where
    pub key : Text
    pub existing : AttestationRecord
    pub given : params.idempotency_key ≡ some key
    pub found :
        (storage.get_attestation_by_idempotency_key params.agent_id key t).0
        ≡ returned (some existing)
    pub same : a ≡ to_portable existing

  -- The record that is saved carries the hash of the canonical content, and a signature over it.
  pub record IsSigned (r : AttestationRecord) : Type 0 where
    pub canonical : Text
    pub signature : List ℕ
    pub text_of : content_text heap params.task params.output params.tools_used ≡ value canonical
    pub signed :
        p.sign (hex_to_bytes (p.sha256_hex canonical)) (hex_to_bytes signing_key) ≡ some signature
    pub is :
        r ≡ new_record params id (p.sha256_hex canonical) (bytes_to_hex signature) params.agent_id

  abbrev Saved : Outcome Attestation × S → Type 0
  Saved x =
      (r : AttestationRecord) × IsSigned r
      × (x.1 ≡ (storage.save_attestation r s).1)
      × ((a : Attestation)
          → x.0 ≡ ok a
          → (a ≡ to_portable r) ⊎ IsKnown (storage.save_attestation r s).1 a)
      × ((storage.save_attestation r s).0 ≡ returned tt → x.0 ≡ ok (to_portable r))

  -- The store is as it was, and a success is an attestation that it had; or a signed record of a
  -- qualified call went to the store, once.
  abbrev pub Ends : Outcome Attestation × S → Type 0
  Ends x = ((x.1 ≡ s) × ((a : Attestation) → x.0 ≡ ok a → IsKnown s a)) ⊎ (IsQualified × Saved x)

  refusal : (c : ErrorCode) → Ends (failure c, s)
  refusal c = inl (refl, λ a e. cc)

  rejection : Ends (threw uncoded, s)
  rejection = inl (refl, λ a e. cc)

  ok_not_failure : {c : ErrorCode} {a : Attestation} → ¬ (failure c ≡ ok a)
  ok_not_failure h = cc

  abbrev winner : Settled (Option AttestationRecord) → Outcome Attestation
  winner (returned none) = failure duplicate_idempotency_key
  winner (returned (some x)) = ok (to_portable x)
  winner (rejected e) = failure duplicate_idempotency_key

  fetched :
      (key : Text) (t : S)
      → (fetch_winner p storage heap fresh params.agent_id (some key) t).0
        ≡ winner (storage.get_attestation_by_idempotency_key params.agent_id key t).0
  unfolding fetch_winner try_call pure fail
  fetched key t = ground arith

  fetch_winner_keeps :
      (key : Option Text) (t : S) → (fetch_winner p storage heap fresh params.agent_id key t).1 ≡ t
  unfolding fetch_winner try_call pure fail
  fetch_winner_keeps none t = refl
  fetch_winner_keeps (some key) t = ground (arith, reads.key params.agent_id key t)

  save_failed_keeps : (e : Fault) (t : S) → (save_failed p storage heap fresh params e t).1 ≡ t
  unfolding save_failed fail
  save_failed_keeps (coded duplicate_idempotency_key) t =
      fetch_winner_keeps params.idempotency_key t
  save_failed_keeps (coded c) t = refl
  save_failed_keeps (uncoded) t = refl

  winner-IsKnown :
      (key : Text) (found : Settled (Option AttestationRecord)) (t : S) (a : Attestation)
      → params.idempotency_key ≡ some key
      → (storage.get_attestation_by_idempotency_key params.agent_id key t).0 ≡ found
      → winner found ≡ ok a
      → IsKnown t a
  winner-IsKnown key (returned none) t a given found h = absurd (ok_not_failure h)
  winner-IsKnown key (returned (some x)) t a given found h = record {
    key = key;
    existing = x;
    given = given;
    found = found;
    same = cc;
  }
  winner-IsKnown key (rejected e) t a given found h = absurd (ok_not_failure h)

  fetch_winner-IsKnown :
      (key : Option Text) (t : S) (a : Attestation)
      → params.idempotency_key ≡ key
      → (fetch_winner p storage heap fresh params.agent_id key t).0 ≡ ok a
      → IsKnown t a
  unfolding fetch_winner fail
  fetch_winner-IsKnown none t a given h = absurd (ok_not_failure h)
  fetch_winner-IsKnown (some key) t a given h =
      winner-IsKnown key _ t a given refl (sym (fetched key t) ∙ h)

  save_failed-IsKnown :
      (e : Fault) (t : S) (a : Attestation)
      → (save_failed p storage heap fresh params e t).0 ≡ ok a
      → IsKnown t a
  unfolding save_failed fail
  save_failed-IsKnown (coded duplicate_idempotency_key) t a h =
      fetch_winner-IsKnown params.idempotency_key t a refl h
  save_failed-IsKnown (coded c) t a h = absurd (ok_not_failure h)
  save_failed-IsKnown (uncoded) t a h = absurd (ok_not_failure h)

  -- After `storage.saveAttestation`, whatever it answers.
  saved-Ends :
      (q : IsQualified) (r : AttestationRecord)
      → IsSigned r
      → Ends (
          try_call
            (storage.save_attestation r)
            (λ _. pure (to_portable r))
            (save_failed p storage heap fresh params)
            s)
  unfolding pure
  saved-Ends q r signed =
      try_rule Ends (storage.save_attestation r) _ _ s
        (λ _ done. inr (q, (r, signed, refl, λ a e. inl cc, λ _. refl)))
        (λ e failed. inr (
          q,
          (
            r,
            signed,
            save_failed_keeps e _,
            λ a h. inr (save_failed-IsKnown e _ a h),
            λ done. cc (failed, done),
          ),
        ))

  sign_new-Ends :
      (q : IsQualified)
      → Ends (sign_new p storage heap fresh id params signing_key params.agent_id s)
  unfolding sign_new
  sign_new-Ends q =
      canonical_rule p storage heap fresh Ends _ _ s
        (λ canonical text_of.
          unguarded_rule Ends _ _ s
            (λ signature signed. saved-Ends q _ (record {
              canonical = canonical;
              signature = signature;
              text_of = text_of;
              signed = signed;
              is = refl;
            }))
            rejection)
        (refusal invalid_input)

  unless_existing-Ends :
      (q : IsQualified) (signed_by : Text)
      → signed_by ≡ params.agent_id
      → Ends (
          (existing_for p storage heap fresh params.agent_id params.idempotency_key
              >>= sign_unless_existing p storage heap fresh id params signing_key signed_by)
            s)
  unless_existing-Ends q signed_by own =
      existing_rule p storage heap fresh Ends params.agent_id params.idempotency_key _ s reads
        (unfold sign_unless_existing in rw own (sign_new-Ends q))
        (λ key x given found.
          unfold sign_unless_existing pure in
          inl (
            refl,
            λ a e. record { key = key; existing = x; given = given; found = found; same = cc (e) },
          ))

  sign_with_key-Ends :
      IsAdmitted → Ends (sign_with_key p storage heap fresh id params signing_key s)
  unfolding sign_with_key
  sign_with_key-Ends admitted =
      some_rule Ends _ _ _ s
        (λ public_key derived.
          require_rule Ends _ _ _ s
            (λ corresponds.
              let own : bytes_to_hex public_key ≡ params.agent_id =
                (text_eq_iff _ _).0 corresponds in
              let q : IsQualified = record {
                admitted = admitted;
                public_key = public_key;
                derived = derived;
                corresponds = own;
              } in
              require_rule Ends _ _ _ s (λ _. unless_existing-Ends q (bytes_to_hex public_key) own)
                (λ _. refusal _))
            (λ _. refusal _))
        (λ _. refusal _)

  -- Over any store whose reads leave it as it is, failing ones included: the signing core leaves
  -- the store alone, succeeding only with an attestation that the store has under the same key; or
  -- the agent is stored and not revoked, its key is the signing key's, the content has passed
  -- validation, and the store has been given one record, with the hash of the canonical content and
  -- a signature over that hash; the call returns that record if the store accepts it, and succeeds
  -- otherwise only with an attestation that the store has under the same key by then.
  pub sign_and_persist_attestation_gated :
      Ends (sign_and_persist_attestation p storage heap fresh id params signing_key s)
  unfolding sign_and_persist_attestation
  sign_and_persist_attestation_gated =
      content_rule Ends _ _ s
        (λ tools content.
          require_rule Ends _ _ _ s
            (λ named.
              require_rule Ends _ _ _ s
                (λ dated.
                  read_rule Ends _ _ _ s (reads.agent params.agent_id s)
                    (λ found stored.
                      some_rule Ends _ _ _ s
                        (λ agent present.
                          require_rule Ends _ _ _ s
                            (λ live. sign_with_key-Ends (record {
                              agent = agent;
                              tools = tools;
                              content = content;
                              named = not-true named;
                              dated = dated;
                              stored = rw present at stored;
                              live = not-true live;
                            }))
                            (λ _. refusal _))
                        (λ _. refusal _))
                    (refusal _))
                (λ _. refusal _))
            (λ _. refusal _))
        (refusal _) (refusal _)
