-- ===== src/Agent/Create/Claims.antt =====
-- What creation does to the store, and what it returns.
use openrep.Agent.Create.{
  name_is_usable, CreateAgentOptions, create_agent, create_with, create_named, build_new, save_new,
  identity_with, refused,
}
use openrep.Agent.Manifest.{
  default_permissions, is_valid_permissions, is_valid_memory_pointer, sign_manifest,
}
use openrep.Names.Loop.{try_names-Claims}
use openrep.Names.{try_names, name_generation_max_attempts}
use openrep.Agent.Create.{new_manifest, name_is_usable}
use openrep.Result.{threw, duplicate_name, storage_write_failed, try_call, coded, continue, uncoded}
use openrep.Prelude.{inr, ◌⊎◌, inl, or_else, ◌<◌, Option, refl, ℕ, ◌≡◌, Text, true, some, none, ◌≢◌}
use openrep.Platform.{KeyPair, Platform}
use openrep.Storage.{ReadsKeepState, StorageAdapter}
use openrep.Records.{AgentIdentity, AgentRecord, AgentManifest}
use openrep.Result.{returned, fail, ◌>>=◌, ok, failure, ErrorCode, Outcome, pure, rejected, Fault}
use openrep.Revocation.{serialized_rule}
use openrep.Result.Rules.{try_rule, some_rule, require_rule, unguarded_rule}
use openrep.Hex.{bytes_to_hex}

module _ {S : Type 0} (p : Platform) (fields : AgentManifest) (key : Text) (s : S) where
  pub sign_manifest_keeps : (sign_manifest p fields key s).1 ≡ s
  unfolding sign_manifest pure
  sign_manifest_keeps =
      serialized_rule (λ x. x.1 ≡ s) _ _ s
        (λ canonical _. unguarded_rule (λ x. x.1 ≡ s) _ _ s (λ signature _. refl) refl) refl

module _ {S : Type 0} (p : Platform) (storage : StorageAdapter S) (reads : ReadsKeepState storage)
    (refusals : (r : AgentRecord) (s : S) (e : Fault)
      → (storage.save_agent r s).0 ≡ rejected e
      → (storage.save_agent r s).1 ≡ s)
    (names : ℕ → Text) (first second : Option KeyPair) (created_at : Text)
    (options : CreateAgentOptions) (s : S) where
  -- The name that was chosen, or one of the generated ones.
  abbrev pub IsOffered : Option Text → Text → Type 0
  IsOffered (some chosen) name = chosen ≡ name
  IsOffered none name = (i : ℕ) × (i < name_generation_max_attempts) × (names i ≡ name)

  -- The choices are valid, two key pairs have been generated, and one manifest that the new
  -- identity key signed is what the store has accepted, and the only write.
  pub record IsCreated (x : Outcome AgentIdentity × S) : Type 0 where
    pub identity : KeyPair
    pub owner : KeyPair
    pub name : Text
    pub manifest : AgentManifest
    pub pointer : is_valid_memory_pointer options.memory_pointer ≡ true
    pub scopes : is_valid_permissions (or_else options.permissions default_permissions) ≡ true
    pub usable : name_is_usable options.name ≡ true
    pub offered : IsOffered options.name name
    pub made : first ≡ some identity
    pub owned : second ≡ some owner
    pub signed : (build_new p storage created_at options identity owner name s).0 ≡ ok manifest
    pub accepted : (save_new p storage options manifest s).0 ≡ returned tt
    pub is : x ≡ (
      ok (identity_with p storage identity owner manifest),
      (save_new p storage options manifest s).1,
    )

  abbrev pub IsAllOrNothing : Outcome AgentIdentity × S → Type 0
  IsAllOrNothing x = (((i : AgentIdentity) → x.0 ≢ ok i) × (x.1 ≡ s)) ⊎ IsCreated x

  refusal : (c : ErrorCode) → IsAllOrNothing (failure c, s)
  refusal c = inl (λ i e. cc, refl)

  module _ (identity owner : KeyPair)
      (pointer : is_valid_memory_pointer options.memory_pointer ≡ true)
      (scopes : is_valid_permissions (or_else options.permissions default_permissions) ≡ true)
      (usable : name_is_usable options.name ≡ true) (made : first ≡ some identity)
      (owned : second ≡ some owner) where
    refused-IsAllOrNothing : (e : Fault) → IsAllOrNothing (refused p storage e s)
    unfolding refused fail
    refused-IsAllOrNothing (coded duplicate_name) = refusal duplicate_name
    refused-IsAllOrNothing (coded c) = refusal storage_write_failed
    refused-IsAllOrNothing uncoded = refusal storage_write_failed

    named-IsAllOrNothing :
        (name : Text)
        → options.name ≡ some name
        → IsAllOrNothing (
            create_named p storage
              (build_new p storage created_at options identity owner)
              (save_new p storage options)
              (identity_with p storage identity owner)
              name
              s)
    unfolding create_named ◌>>=◌
    named-IsAllOrNothing name chosen =
        rw
          (sign_manifest_keeps p
            (new_manifest options (bytes_to_hex identity.public) (bytes_to_hex owner.public)
              created_at name)
            (bytes_to_hex identity.secret) s)
          (go (build_new p storage created_at options identity owner name s).0 refl)
      where
        go :
            (o : Outcome AgentManifest)
            → (build_new p storage created_at options identity owner name s).0 ≡ o
            → IsAllOrNothing (
                continue o
                  (λ manifest.
                    try_call
                      (save_new p storage options manifest)
                      (λ _. pure (identity_with p storage identity owner manifest))
                      (refused p storage))
                  s)
        go (ok manifest) signed =
            try_rule IsAllOrNothing (save_new p storage options manifest) _ _ s
              (λ _ accepted.
                unfold pure in
                inr (record {
                  identity = identity;
                  owner = owner;
                  name = name;
                  manifest = manifest;
                  pointer = pointer;
                  scopes = scopes;
                  usable = usable;
                  offered = rw chosen refl;
                  made = made;
                  owned = owned;
                  signed = signed;
                  accepted = accepted;
                  is = refl;
                }))
              (λ e failed. rw (refusals _ s e failed) (refused-IsAllOrNothing e))
        go (failure c) signed = refusal c
        go (threw e) signed = inl (λ i e. cc, refl)

    generated-IsAllOrNothing :
        options.name ≡ none
        → IsAllOrNothing (
            try_names storage names
              (build_new p storage created_at options identity owner)
              (save_new p storage options)
              (identity_with p storage identity owner)
              name_generation_max_attempts
              0
              s)
    generated-IsAllOrNothing chosen =
        elim (try_names-Claims storage reads names
          (build_new p storage created_at options identity owner) (save_new p storage options)
          (identity_with p storage identity owner)
          (λ name t.
            sign_manifest_keeps p
              (new_manifest options (bytes_to_hex identity.public) (bytes_to_hex owner.public)
                created_at name)
              (bytes_to_hex identity.secret) t)
          (λ m t e. refusals _ t e) s name_generation_max_attempts 0) [
            | inl nothing ↦ inl nothing
            | inr (i, manifest, low, high, signed, accepted, is) ↦ inr (record {
              identity = identity;
              owner = owner;
              name = names i;
              manifest = manifest;
              pointer = pointer;
              scopes = scopes;
              usable = usable;
              offered = rw chosen (i, high, refl);
              made = made;
              owned = owned;
              signed = signed;
              accepted = accepted;
              is = is;
            })
          ]

    with-IsAllOrNothing :
        (chosen : Option Text)
        → options.name ≡ chosen
        → IsAllOrNothing (create_with p storage names created_at options identity owner chosen s)
    unfolding create_with
    with-IsAllOrNothing (some name) = named-IsAllOrNothing name
    with-IsAllOrNothing none = generated-IsAllOrNothing

  -- Over a store whose reads and refused saves leave it as it is: creation gives no identity and
  -- leaves the store as it was; or the options are valid, one manifest of the chosen name, or of one
  -- of the ten generated ones, has been signed with the new identity key and saved, that is the only
  -- write, and it is returned with the private keys.
  pub create_agent-IsAllOrNothing :
      IsAllOrNothing (create_agent p storage names first second created_at options s)
  unfolding create_agent
  create_agent-IsAllOrNothing =
      require_rule IsAllOrNothing _ _ _ s
        (λ usable.
          require_rule IsAllOrNothing _ _ _ s
            (λ pointer.
              require_rule IsAllOrNothing _ _ _ s
                (λ scopes.
                  some_rule IsAllOrNothing _ _ _ s
                    (λ identity made.
                      some_rule IsAllOrNothing _ _ _ s
                        (λ owner owned.
                          require_rule IsAllOrNothing _ _ _ s
                            (λ distinct.
                              with-IsAllOrNothing identity owner pointer scopes usable made owned
                                options.name refl)
                            (λ _. refusal _))
                        (λ _. refusal _))
                    (λ _. refusal _))
                (λ _. refusal _))
            (λ _. refusal _))
        (λ _. refusal _)
