-- ===== src/Revocation/Authorization.antt =====
-- Nothing is revoked without the owner's fresh signature.
use openrep.Prelude.{
  none, ◌+◌, ◌≤◌, is_some, Option, arith, ◌≢◌, refl, inr, inl, ℕ, Text, true, ◌≡◌, ◌⊎◌, some,
}
use openrep.Records.{AgentRecord, OwnerRequest}
use openrep.Storage.{StorageAdapter, ReadsKeepState}
use openrep.Platform.{Platform}
use openrep.Revocation.{
  write_failed, revocation_request_max_age_ms, serialized, serialized_rule, persist_revocation,
  revoke_agent, shape_is_valid, owner_signed, is_fresh, authorization_text,
}
use openrep.Result.{
  agent_not_found, storage_write_failed, coded, fail, rejected, Fault, pure, attempt, require_some,
  ok, require, failure, ErrorCode, ◌>>=◌, Outcome, returned,
}
use openrep.Canonical.{value}
use openrep.Result.Rules.{attempt_last_rule, some_rule, read_rule, require_rule}
use openrep.Hex.{hex_to_bytes, is_lowercase_hex_of_length}

-- What the store holds about the agent of a request, and that its owner signed the request lately.
pub record IsAuthorized {S : Type 0} (p : Platform) (storage : StorageAdapter S) (received_at : ℕ)
    (request : OwnerRequest) (s : S) : Type 0 where
  pub agent : AgentRecord
  pub owner_key : Text
  pub canonical : Text
  pub stored : (storage.get_agent request.agent_id s).0 ≡ returned (some agent)
  pub owned : agent.owner_public_key ≡ some owner_key
  pub text_of : authorization_text request ≡ value canonical
  pub agent_shape : is_lowercase_hex_of_length request.agent_id 32 ≡ true
  pub signature_shape : is_lowercase_hex_of_length request.signature 64 ≡ true
  pub signed :
      p.verify (hex_to_bytes request.signature) (p.encode canonical) (hex_to_bytes owner_key)
      ≡ some true
  pub requested_at : ℕ
  pub dated : p.parse_date request.timestamp ≡ some requested_at
  pub not_old : received_at ≤ requested_at + revocation_request_max_age_ms
  pub not_early : requested_at ≤ received_at + revocation_request_max_age_ms

module _ {S : Type 0} (p : Platform) (storage : StorageAdapter S) (received_at : ℕ)
    (request : OwnerRequest) (s : S) where
  pub authorized :
      (agent : AgentRecord) (owner_key canonical : Text)
      → (storage.get_agent request.agent_id s).0 ≡ returned (some agent)
      → agent.owner_public_key ≡ some owner_key
      → authorization_text request ≡ value canonical
      → shape_is_valid p request ≡ true
      → owner_signed p canonical request owner_key ≡ true
      → is_fresh p received_at request ≡ true
      → (h : IsAuthorized p storage received_at request s) × (h.agent ≡ agent)
        × (h.owner_key ≡ owner_key)
  authorized agent owner_key canonical stored owned text_of shape signed fresh =
      let (requested_at, dated) = dated_of shape in
      (
        record {
          agent = agent;
          owner_key = owner_key;
          canonical = canonical;
          stored = stored;
          owned = owned;
          text_of = text_of;
          agent_shape = unfold shape_is_valid in ground (arith, shape);
          signature_shape = unfold shape_is_valid in ground (arith, shape);
          signed = unfold owner_signed in ground (arith, signed);
          requested_at = requested_at;
          dated = dated;
          not_old = unfold is_fresh in ground (arith, dated, fresh);
          not_early = unfold is_fresh in ground (arith, dated, fresh);
        },
        refl,
        refl,
      )
    where
      some_of : (o : Option ℕ) → is_some o ≡ true → (t : ℕ) × (o ≡ some t)
      some_of none h = cc
      some_of (some t) h = (t, refl)

      dated_of :
          shape_is_valid p request ≡ true → (t : ℕ) × (p.parse_date request.timestamp ≡ some t)
      dated_of h = some_of _ (unfold shape_is_valid in ground (arith, h))

module _ {S : Type 0} (p : Platform) (storage : StorageAdapter S) (reads : ReadsKeepState storage)
    (received_at : ℕ) (revoked_at : Text) (request : OwnerRequest) (s : S) where
  -- A refusal is no success and writes nothing; what is not refused has passed every gate, and
  -- ends as the last step does.
  abbrev pub IsGated : Outcome (Unit {0}) × S → Type 0
  IsGated r =
      ((r.0 ≢ ok tt) × (r.1 ≡ s))
      ⊎ ((h : IsAuthorized p storage received_at request s) × (r
            ≡ persist_revocation p storage revoked_at request h.agent.revoked_at s))

  refusal : (c : ErrorCode) → IsGated (failure c, s)
  refusal c = inl (λ e. cc, refl)

  -- Over any store whose reads leave it as it is, failing ones included: a revocation is refused
  -- with nothing written, or the stored agent has an owner key under which the request's signature
  -- over its canonical text is valid, the request is well formed and dated within five minutes of
  -- its receipt, and the call ends as the write step for that agent does.
  pub revoke_agent-IsGated : IsGated (revoke_agent p storage received_at revoked_at request s)
  unfolding revoke_agent
  revoke_agent-IsGated =
      require_rule IsGated _ _ _ s
        (λ shape.
          read_rule IsGated _ _ _ s (reads.agent request.agent_id s)
            (λ found stored.
              some_rule IsGated _ _ _ s
                (λ agent present.
                  some_rule IsGated _ _ _ s
                    (λ owner_key owned.
                      serialized_rule IsGated _ _ s
                        (λ canonical text_of.
                          require_rule IsGated _ _ _ s
                            (λ signed.
                              require_rule IsGated _ _ _ s
                                (λ fresh.
                                  let (h, same, _) =
                                    authorized p storage received_at request s agent owner_key
                                      canonical (rw present at stored) owned text_of shape signed
                                      fresh in
                                  inr (h, rw same refl))
                                (λ _. refusal _))
                            (λ _. refusal _))
                        (inl (λ e. cc, refl)))
                    (λ _. refusal _))
                (λ _. refusal _))
            (refusal _))
        (λ _. refusal _)

  gates_pass :
      (h : IsAuthorized p storage received_at request s)
      → revoke_agent p storage received_at revoked_at request s
        ≡ persist_revocation p storage revoked_at request h.agent.revoked_at s
  unfolding revoke_agent ◌>>=◌ require require_some attempt serialized shape_is_valid owner_signed
      is_fresh
  gates_pass h = ground (
    arith,
    h.stored,
    h.owned,
    h.text_of,
    h.agent_shape,
    h.signature_shape,
    h.signed,
    h.dated,
    h.not_old,
    h.not_early,
    reads.agent request.agent_id s,
  )

  -- Revoked already, and nothing is written; or the store has accepted the revocation, or refused it.
  abbrev pub Concludes : Option Text → Outcome (Unit {0}) × S → Type 0
  Concludes revoked x =
      ((earlier : Text) × (revoked ≡ some earlier) × (x ≡ (ok tt, s)))
      ⊎ ((revoked ≡ none)
          × (((storage.revoke_agent request.agent_id revoked_at s).0 ≡ returned tt)
              × (x ≡ (ok tt, (storage.revoke_agent request.agent_id revoked_at s).1))))
      ⊎ ((revoked ≡ none)
          × (e : Fault) × (c : ErrorCode) × ((storage.revoke_agent request.agent_id revoked_at s).0
              ≡ rejected e)
          × (x ≡ (failure c, (storage.revoke_agent request.agent_id revoked_at s).1)))

  failed : (e : Fault) → (c : ErrorCode) × ((t : S) → write_failed e t ≡ (failure c, t))
  unfolding fail
  failed (coded ErrorCode.agent_not_found) = (agent_not_found, λ t. refl)
  failed _ = (storage_write_failed, λ t. refl)

  persist_revocation-Concludes :
      (revoked : Option Text)
      → Concludes revoked (persist_revocation p storage revoked_at request revoked s)
  unfolding persist_revocation pure
  persist_revocation-Concludes (some earlier) = inl (earlier, refl, refl)
  persist_revocation-Concludes none =
      attempt_last_rule (Concludes none) (storage.revoke_agent request.agent_id revoked_at)
        write_failed s (λ a accepted. inr (inl (refl, (accepted, refl))))
        (λ e refused. let (c, k) = failed e in rw (k _) (inr (inr (refl, e, c, refused, refl))))

  -- A request that passes every gate succeeds with nothing written when the agent is revoked
  -- already; when it is not, the store is given the revocation of that agent at the given time, and
  -- the call succeeds with the store as it left it when the store accepts it, and fails when not.
  pub revoke_agent_complete :
      (h : IsAuthorized p storage received_at request s)
      → Concludes h.agent.revoked_at (revoke_agent p storage received_at revoked_at request s)
  revoke_agent_complete h = rw (gates_pass h) (persist_revocation-Concludes h.agent.revoked_at)
