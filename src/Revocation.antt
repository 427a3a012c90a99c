-- ===== src/Revocation.antt =====
-- packages/sdk/src/revocation.ts: the owner-signed revocation of an agent.
pub mod Authorization
use openrep.Prelude.{
  refl, ◌≡◌, ℕ, ◌-◌, Bool, true, false, not, ◌&&◌, Option, none, some, List, [], ◌∷◌, Text, text,
  ltb, if◌then◌else◌, is_some,
}
use openrep.Result.{
  ErrorCode, agent_not_found, storage_write_failed, invalid_input, owner_key_missing,
  unauthorized_revocation, stale_revocation_request, Fault, coded, uncoded, Outcome, ok, failure,
  threw, Flow, ◌>>=◌, ◌>>◌, pure, fail, attempt, require, require_some, settle, handled, continue,
}
use openrep.Hex.{is_lowercase_hex_of_length, hex_to_bytes}
use openrep.Canonical.{Attempt, value, error, Value, Node, array, Heap, canonicalize_literal}
use openrep.Records.{AgentRecord, OwnerRequest}
use openrep.Storage.{StorageAdapter}
use openrep.Platform.{Platform}

abbrev pub revocation_request_max_age_ms : ℕ
revocation_request_max_age_ms = 300_000

-- The values of the literals below refer to no object.
abbrev pub no_objects : Heap
no_objects _ = array []

-- An error that `canonicalize` throws is a plain `Error`.
unfoldable pub serialized : {S : Type 0} → Attempt Text → Flow S Text
serialized (value t) s = (ok t, s)
serialized (error e) s = (threw uncoded, s)

module _ {S B : Type 0} (P : Outcome B × S → Type 0) where
  pub serialized_rule :
      (a : Attempt Text) (k : Text → Flow S B) (s : S)
      → ((t : Text) → a ≡ value t → P (k t s))
      → P (threw uncoded, s)
      → P ((serialized a >>= k) s)
  unfolding ◌>>=◌ serialized
  serialized_rule (value t) k s h h' = h t refl
  serialized_rule (error e) k s h h' = h'

-- `canonicalize({ agentId: request.agentId, timestamp: request.timestamp })`
unfoldable pub authorization_text : OwnerRequest → Attempt Text
authorization_text request = canonicalize_literal no_objects (
    (text "agentId", Value.str request.agent_id)
    ∷ (text "timestamp", Value.str request.timestamp)
    ∷ [])

abbrev pub distance : ℕ → ℕ → ℕ
distance a b = if ltb a b then b - a else a - b

module _ (p : Platform) where
  -- `shapeInvalid(request) === null`
  unfoldable pub shape_is_valid : OwnerRequest → Bool
  shape_is_valid request =
      is_lowercase_hex_of_length request.agent_id 32
      && is_lowercase_hex_of_length request.signature 64
      && is_some (p.parse_date request.timestamp)

  -- The result of `verifyAsync` against the stored owner key; a rejection is a denial.
  unfoldable pub owner_signed : Text → OwnerRequest → Text → Bool
  owner_signed canonical request owner_key =
      elim (p.verify (hex_to_bytes request.signature) (p.encode canonical)
        (hex_to_bytes owner_key)) [ none ↦ false | some valid ↦ valid ]

  -- `Math.abs(receivedAt - requestedAt) <= REVOCATION_REQUEST_MAX_AGE_MS`; with NaN the test of
  -- the source, `delta > …`, fails.
  unfoldable pub is_fresh : ℕ → OwnerRequest → Bool
  is_fresh received_at request = elim (p.parse_date request.timestamp) [
    | none ↦ true
    | some requested_at ↦
        not (ltb revocation_request_max_age_ms (distance received_at requested_at))
  ]

-- The `catch` of the write.
abbrev pub write_failed : {S : Type 0} → Fault → Flow S (Unit {0})
write_failed (coded agent_not_found) = fail agent_not_found
write_failed e = fail storage_write_failed

module _ {S : Type 0} (p : Platform) (storage : StorageAdapter S) where
  -- Step 7: an agent that is revoked already is a success with no write.
  unfoldable pub persist_revocation : Text → OwnerRequest → Option Text → Flow S (Unit {0})
  persist_revocation revoked_at request (some _) = pure tt
  persist_revocation revoked_at request none =
      attempt (storage.revoke_agent request.agent_id revoked_at) write_failed

  -- `received_at` is `Date.now()`, and `revoked_at` the time of the write.
  pub revoke_agent : ℕ → Text → OwnerRequest → Flow S (Unit {0})
  revoke_agent received_at revoked_at request = do
    require (shape_is_valid p request) invalid_input
    found ← attempt (storage.get_agent request.agent_id) (λ _. fail storage_write_failed)
    agent ← require_some found agent_not_found
    owner_key ← require_some agent.owner_public_key owner_key_missing
    canonical ← serialized (authorization_text request)
    require (owner_signed p canonical request owner_key) unauthorized_revocation
    require (is_fresh p received_at request) stale_revocation_request
    persist_revocation revoked_at request agent.revoked_at
