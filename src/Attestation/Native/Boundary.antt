-- ===== src/Attestation/Native/Boundary.antt =====
-- What reaches the signing core from `attest`.
use openrep.Attestation.Native.{
  native_params, native_source, input_content, source_is-some, AttestationInput, attest,
}
use openrep.Platform.{Platform}
use openrep.Storage.{StorageAdapter}
use openrep.Canonical.{Value, Heap}
use openrep.Prelude.{none, text, refl, ◌⊎◌, ◌≡◌, inr, ◌≢◌, inl, Text, ℕ}
use openrep.Result.{ok, failure, ErrorCode, Outcome}
use openrep.Attestation.Signing.Rules.{content_rule}
use openrep.Result.Rules.{require_rule}
use openrep.Records.{Attestation}
use openrep.Attestation.Content.{valid, validate_attestation_content}
use openrep.Prelude.{some, ◌≢◌}
use openrep.Attestation.Native.{source_is-some}
use openrep.Attestation.Signing.{sign_and_persist_attestation}
use openrep.Attestation.Content.Bounds.{validate_attestation_content_sound}

module _ {S : Type 0} (p : Platform) (storage : StorageAdapter S) (heap : Heap) (fresh : ℕ)
    (id now : Text) (input : AttestationInput) (signing_key : Text) (s : S) where
  -- Refused with the store as it was; or the content is valid, the source is the native one, and
  -- the call ends as the signing core does.
  abbrev pub IsNative : Outcome Attestation × S → Type 0
  IsNative x =
      (((a : Attestation) → x.0 ≢ ok a) × (x.1 ≡ s))
      ⊎ ((task output : Text) × (tools : Value) × (input.task ≡ some task)
          × (input.output ≡ some output)
          × (validate_attestation_content heap fresh (record {
            agent_id = input.agent_id;
            signing_key = signing_key;
            task = some task;
            output = some output;
            tools_used = input.tools_used;
          })
              ≡ valid tools)
          × (input.source ≡ some (text "native"))
          × (x
              ≡ sign_and_persist_attestation p storage heap fresh id
                  (record {
                    agent_id = input.agent_id;
                    task = task;
                    output = output;
                    tools_used = tools;
                    source = text "native";
                    timestamp = now;
                    idempotency_key = input.idempotency_key;
                    external_verification = none;
                  })
                  signing_key s))

  refusal : (c : ErrorCode) → IsNative (failure c, s)
  refusal c = inl (λ a e. cc, refl)

  accepted :
      (task output : Text) (tools : Value)
      → input.task ≡ some task
      → input.output ≡ some output
      → validate_attestation_content heap fresh (input_content input signing_key) ≡ valid tools
      → input.source ≡ some native_source
      → IsNative (
          sign_and_persist_attestation p storage heap fresh id
            (native_params input tools now)
            signing_key
            s)
  accepted task output tools given said content native =
      inr (
        task,
        output,
        tools,
        given,
        said,
        rw (given, said) at content,
        native,
        rw (given, said) refl,
      )

  -- `attest` refuses its input with the store as it was, or the content has passed validation, the
  -- declared source is the native one, and the call ends as the signing core does on the given task,
  -- output and validated tool calls, under the native source, the present time and no external
  -- verification.
  pub attest_boundary : IsNative (attest p storage heap fresh id now input signing_key s)
  unfolding attest
  attest_boundary =
      content_rule IsNative _ _ s
        (λ tools content.
          require_rule IsNative _ _ _ s
            (λ native.
              let bounds = validate_attestation_content_sound heap fresh _ tools content in
              accepted bounds.task bounds.output tools bounds.has_task bounds.has_output content
                (source_is-some _ _ native))
            (λ _. refusal _))
        (refusal _) (refusal _)
