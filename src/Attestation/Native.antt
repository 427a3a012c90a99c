-- ===== src/Attestation/Native.antt =====
-- `attest` of packages/sdk/src/attestation.ts.
pub mod Boundary
use openrep.Prelude.{
  text_eq_iff, ap, true, ◌≡◌, text_eq, none, ℕ, some, [], false, or_else, Bool, text, Text, Option,
}
use openrep.Platform.{Platform}
use openrep.Canonical.{Heap, Value}
use openrep.Attestation.Content.{validate_attestation_content, ContentToValidate}
use openrep.Storage.{StorageAdapter}
use openrep.Attestation.Signing.{sign_and_persist_attestation, require_content, SigningParams}
use openrep.Result.{invalid_source, require, ◌>>◌, ◌>>=◌, Flow}
use openrep.Records.{Attestation}

-- `typeof` tests are by `Option`: a value that is no string is `none`.
pub record AttestationInput : Type 0 where
  pub agent_id : Text
  pub task : Option Text
  pub output : Option Text
  pub tools_used : Value
  pub source : Option Text
  pub idempotency_key : Option Text

abbrev pub native_source : Text
native_source = text "native"

abbrev pub source_is : Option Text → Text → Bool
source_is none s = false
source_is (some t) s = text_eq t s

pub source_is-some : (o : Option Text) (t : Text) → source_is o t ≡ true → o ≡ some t
source_is-some none t h = cc
source_is-some (some x) t h = ap some ((text_eq_iff x t).0 h)

abbrev pub input_content : AttestationInput → Text → ContentToValidate
input_content input signing_key = record {
  agent_id = input.agent_id;
  signing_key = signing_key;
  task = input.task;
  output = input.output;
  tools_used = input.tools_used;
}

-- The validated content is of strings, so that the defaults are never taken.
abbrev pub native_params : AttestationInput → Value → Text → SigningParams
native_params input tools timestamp = record {
  agent_id = input.agent_id;
  task = or_else input.task [];
  output = or_else input.output [];
  tools_used = tools;
  source = native_source;
  timestamp = timestamp;
  idempotency_key = input.idempotency_key;
  external_verification = none;
}

module _ {S : Type 0} (p : Platform) (storage : StorageAdapter S) (heap : Heap) (fresh : ℕ) where
  -- `now` is `new Date().toISOString()`.
  pub attest : Text → Text → AttestationInput → Text → Flow S Attestation
  attest id now input signing_key = do
    tools ←
        require_content (validate_attestation_content heap fresh (input_content input signing_key))
    require (source_is input.source native_source) invalid_source
    sign_and_persist_attestation p storage heap fresh id (native_params input tools now) signing_key
