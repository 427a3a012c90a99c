-- ===== src/Attestation/Ingest/FailClosed.antt =====
-- What reaches the signing core from `ingest`.
use openrep.Attestation.Ingest.{
  verdict, Verdict, ingest_params, external_check, checked_tools, usable_name,
  NormalizedExternalAttestation, SourceAdapter, ExternalAttestation,
}
use openrep.Platform.{Platform}
use openrep.Storage.{StorageAdapter}
use openrep.Canonical.{Value, Heap}
use openrep.Prelude.{
  ◌≤◌, length, none, ◌<◌, is_some, text_eq, ◌⊎◌, false, true, some, ◌≡◌, ◌≢◌, Option, Text, ℕ,
}
use openrep.Result.{ok, Outcome}
use openrep.Attestation.Content.{validate_attestation_content, valid}
use openrep.Records.{ExternalVerification, Attestation}
use openrep.Attestation.Native.{native_source, source_is-some}
use openrep.Attestation.Signing.{sign_and_persist_attestation}
use openrep.Prelude.{some, ◌≢◌}
use openrep.Attestation.Native.{source_is-some}
use openrep.Attestation.Ingest.{usable_name, external_check, ingest_params, checked_tools}

module _ {S Raw : Type 0} (p : Platform) (storage : StorageAdapter S) (heap : Heap) (fresh : ℕ)
    (id : Text) (external : ExternalAttestation Raw) (adapter : SourceAdapter Raw)
    (signing_key : Text) (idempotency_key : Option Text) (s : S) where
  -- The adapter has no validator, and the record is marked as unchecked; or its validator returned a
  -- positive verdict, and the record is marked as checked and valid.
  abbrev pub IsVerdict : ExternalVerification → Type 0
  IsVerdict v =
      ((adapter.validate ≡ none) × (v ≡ record { checked = false; valid = none; reason = none }))
      ⊎ ((validate : ExternalAttestation Raw → Verdict) × (adapter.validate ≡ some validate)
          × (validate external ≡ verdict true)
          × (v ≡ record { checked = true; valid = some true; reason = none }))

  -- What an external record has passed, and what of it is signed.
  pub record IsVouched : Type 0 where
    pub source : Text
    pub normalize : ExternalAttestation Raw → Option NormalizedExternalAttestation
    pub verification : ExternalVerification
    pub normalized : NormalizedExternalAttestation
    pub tools : Value
    pub timestamp : Text
    pub task : Text
    pub output : Text
    pub named : adapter.source_name ≡ some source
    pub not_empty : 0 < length source
    pub not_long : length source ≤ 64
    pub foreign : text_eq source native_source ≡ false
    pub declared : external.source_name ≡ some source
    pub checked : IsVerdict verification
    pub normalizer : adapter.normalize ≡ some normalize
    pub normal : normalize external ≡ some normalized
    pub given : normalized.task ≡ some task
    pub said : normalized.output ≡ some output
    pub content :
        validate_attestation_content heap fresh (record {
          agent_id = normalized.agent_id;
          signing_key = signing_key;
          task = some task;
          output = some output;
          tools_used = normalized.tools_used;
        })
        ≡ valid tools
    pub dated : normalized.timestamp ≡ some timestamp
    pub parsed : is_some (p.parse_date timestamp) ≡ true

  abbrev pub IsIngested : Outcome Attestation × S → Type 0
  IsIngested x =
      (((a : Attestation) → x.0 ≢ ok a) × (x.1 ≡ s))
      ⊎ ((h : IsVouched) × (x
            ≡ sign_and_persist_attestation p storage heap fresh id
                (record {
                  agent_id = h.normalized.agent_id;
                  task = h.task;
                  output = h.output;
                  tools_used = h.tools;
                  source = h.source;
                  timestamp = h.timestamp;
                  idempotency_key = idempotency_key;
                  external_verification = some h.verification;
                })
                signing_key s))
