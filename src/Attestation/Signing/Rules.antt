-- ===== src/Attestation/Signing/Rules.antt =====
-- One proof rule for each step of the signing core of attestation.ts that Result/Rules has not.
use openrep.Platform.{Platform}
use openrep.Storage.{ReadsKeepState, StorageAdapter}
use openrep.Canonical.{error, Attempt, value, Value, Heap}
use openrep.Prelude.{true, not, Bool, false, refl, none, arith, Option, some, ◌≡◌, Text, ℕ}
use openrep.Attestation.Signing.{require_content, canonical_or_fail, existing_for}
use openrep.Records.{AttestationRecord}
use openrep.Result.{
  input_too_large, Flow, invalid_input, ◌>>=◌, pure, returned, failure, fail, Outcome,
}
use openrep.Attestation.Content.{too_large, invalid, Check, valid}
use openrep.Result.Rules.{attempt_rule}

pub not-true : {b : Bool} → not b ≡ true → b ≡ false
not-true {b} h = ground arith

module _ {S B : Type 0} (P : Outcome B × S → Type 0) where
  pub content_rule :
      (c : Check) (k : Value → Flow S B) (s : S)
      → ((tools : Value) → c ≡ valid tools → P (k tools s))
      → P (failure invalid_input, s)
      → P (failure input_too_large, s)
      → P ((require_content c >>= k) s)
  unfolding ◌>>=◌
  content_rule (valid tools) k s h h' h'' = h tools refl
  content_rule invalid k s h h' h'' = h'
  content_rule too_large k s h h' h'' = h''

module _ {S B : Type 0} (p : Platform) (storage : StorageAdapter S) (heap : Heap) (fresh : ℕ)
    (P : Outcome B × S → Type 0) where
  pub canonical_rule :
      (a : Attempt Text) (k : Text → Flow S B) (s : S)
      → ((t : Text) → a ≡ value t → P (k t s))
      → P (failure invalid_input, s)
      → P ((canonical_or_fail p storage heap fresh a >>= k) s)
  unfolding ◌>>=◌ canonical_or_fail pure fail
  canonical_rule (value t) k s h h' = h t refl
  canonical_rule (error e) k s h h' = h'

  pub existing_rule :
      (agent_id : Text) (key : Option Text) (k : Option AttestationRecord → Flow S B) (s : S)
      → ReadsKeepState storage
      → P (k none s)
      → ((j : Text) (x : AttestationRecord)
          → key ≡ some j
          → (storage.get_attestation_by_idempotency_key agent_id j s).0 ≡ returned (some x)
          → P (k (some x) s))
      → P ((existing_for p storage heap fresh agent_id key >>= k) s)
  unfolding ◌>>=◌ existing_for pure
  existing_rule agent_id none k s reads h h' = h
  existing_rule agent_id (some j) k s reads h h' =
      attempt_rule P (storage.get_attestation_by_idempotency_key agent_id j) (λ _. pure none) k s
        (λ found e. rw (reads.key agent_id j s) (go found e)) (λ e _. rw (reads.key agent_id j s) h)
    where
      go :
          (found : Option AttestationRecord)
          → (storage.get_attestation_by_idempotency_key agent_id j s).0 ≡ returned found
          → P (k found s)
      go none e = h
      go (some x) e = h' j x refl e
