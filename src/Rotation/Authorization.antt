-- ===== src/Rotation/Authorization.antt =====
-- No successor is issued without the owner's fresh signature, or for a revoked agent.
use openrep.Rotation.{rotate_agent, issue_successor}
use openrep.Revocation.Authorization.{IsAuthorized, authorized}
use openrep.Prelude.{
  arith, refl, inr, ◌⊎◌, is_some, inl, not, ◌≡◌, Option, Text, ℕ, true, false, ◌≢◌,
}
use openrep.Platform.{KeyPair, Platform}
use openrep.Storage.{ReadsKeepState, StorageAdapter}
use openrep.Records.{RotatedAgentIdentity, AgentRecord, OwnerRequest}
use openrep.Result.{ok, failure, Outcome, ErrorCode}
use openrep.Result.Rules.{some_rule, read_rule, require_rule}
use openrep.Revocation.{serialized_rule}

module _ {S : Type 0} (p : Platform) (storage : StorageAdapter S) (reads : ReadsKeepState storage)
    (received_at : ℕ) (names : ℕ → Text) (generated : Option KeyPair) (created_at : Text)
    (request : OwnerRequest) (s : S) where
  -- A refusal is no success and writes nothing; what is not refused has passed every gate, for a
  -- live agent, and ends as the issue of a successor does.
  abbrev pub IsSucceeded : Outcome RotatedAgentIdentity × S → Type 0
  IsSucceeded x =
      (((i : RotatedAgentIdentity) → x.0 ≢ ok i) × (x.1 ≡ s))
      ⊎ ((h : IsAuthorized p storage received_at request s) × (is_some h.agent.revoked_at ≡ false)
          × (x
              ≡ issue_successor p storage names generated created_at request h.agent h.owner_key s))

  refusal : (c : ErrorCode) → IsSucceeded (failure c, s)
  refusal c = inl (λ i e. cc, refl)

  issued :
      (agent : AgentRecord) (owner_key : Text)
      → (h : IsAuthorized p storage received_at request s) × (h.agent ≡ agent)
        × (h.owner_key ≡ owner_key)
      → not (is_some agent.revoked_at) ≡ true
      → IsSucceeded (issue_successor p storage names generated created_at request agent owner_key s)
  issued agent owner_key (h, same, same_key) live =
      inr (h, rw same (ground (arith, live)), rw (same, same_key) refl)

  -- Over any store whose reads leave it as it is, failing ones included: a rotation is refused with
  -- nothing written, or the stored agent is not revoked and has an owner key under which the
  -- request's signature over its canonical text is valid, the request is well formed and dated
  -- within five minutes of its receipt, and the call ends as the issue of a successor does.
  pub rotate_agent-IsSucceeded :
      IsSucceeded (rotate_agent p storage received_at names generated created_at request s)
  unfolding rotate_agent
  rotate_agent-IsSucceeded =
      require_rule IsSucceeded _ _ _ s
        (λ shape.
          read_rule IsSucceeded _ _ _ s (reads.agent request.agent_id s)
            (λ found stored.
              some_rule IsSucceeded _ _ _ s
                (λ agent present.
                  some_rule IsSucceeded _ _ _ s
                    (λ owner_key owned.
                      serialized_rule IsSucceeded _ _ s
                        (λ canonical text_of.
                          require_rule IsSucceeded _ _ _ s
                            (λ signed.
                              require_rule IsSucceeded _ _ _ s
                                (λ fresh.
                                  require_rule IsSucceeded _ _ _ s
                                    (λ live.
                                      issued agent owner_key
                                        (authorized p storage received_at request s agent owner_key
                                          canonical (rw present at stored) owned text_of shape
                                          signed fresh)
                                        live)
                                    (λ _. refusal _))
                                (λ _. refusal _))
                            (λ _. refusal _))
                        (inl (λ i e. cc, refl)))
                    (λ _. refusal _))
                (λ _. refusal _))
            (refusal _))
        (λ _. refusal _)
