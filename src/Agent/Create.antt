-- ===== src/Agent/Create.antt =====
-- `createAgent` of packages/sdk/src/agent.ts.
pub mod Claims
pub mod RoundTrip
use openrep.Platform.{KeyPair, Platform}
use openrep.Storage.{StorageAdapter}
use openrep.Records.{AgentManifest, AgentIdentity, AgentPermission, AgentVisibility, public}
use openrep.Agent.Manifest.{
  is_valid_permissions, is_valid_memory_pointer, manifest_version, default_permissions,
  sign_manifest, to_agent_record, is_valid_name,
}
use openrep.Names.{name_generation_max_attempts, try_names}
use openrep.Prelude.{text_eq, not, [], none, some, true, List, or_else, Bool, Text, ℕ, Option}
use openrep.Result.{
  key_generation_failed, require_some, uncoded, duplicate_name, storage_write_failed, invalid_input,
  pure, fail, try_call, require, ◌>>◌, coded, ◌>>=◌, Flow, Fault, Call,
}
use openrep.Hex.{bytes_to_hex}

-- `none` is `undefined`; a memory pointer may also be given as `null`.
pub record CreateAgentOptions : Type 0 where
  pub name : Option Text
  pub memory_pointer : Option Text
  pub permissions : Option (List AgentPermission)
  pub visibility : Option AgentVisibility

-- A name that is left out is a valid choice.
abbrev pub name_is_usable : Option Text → Bool
name_is_usable none = true
name_is_usable (some name) = is_valid_name name

-- The manifest of a name but for its signature.
abbrev pub new_manifest : CreateAgentOptions → Text → Text → Text → Text → AgentManifest
new_manifest options public_key owner_key created_at name = record {
  name = name;
  public_key = public_key;
  owner_public_key = owner_key;
  memory_pointer = options.memory_pointer;
  permissions = or_else options.permissions default_permissions;
  created_at = created_at;
  manifest_version = manifest_version;
  signature = [];
}

abbrev pub identity_of : Text → Text → AgentManifest → AgentIdentity
identity_of private_key owner_private_key manifest = record {
  manifest = manifest;
  private_key = private_key;
  owner_private_key = owner_private_key;
}

module _ {S : Type 0} (p : Platform) (storage : StorageAdapter S) where
  abbrev pub save_new : CreateAgentOptions → AgentManifest → Call S (Unit {0})
  save_new options manifest =
      storage.save_agent (to_agent_record manifest (or_else options.visibility public))

  -- `saveAgentWithConflictHandling` of a name that the caller chose: no retry.
  unfoldable pub refused : {B : Type 0} → Fault → Flow S B
  refused (coded duplicate_name) = fail duplicate_name
  refused (coded c) = fail storage_write_failed
  refused uncoded = fail storage_write_failed

  unfoldable pub create_named :
      (Text → Flow S AgentManifest)
      → (AgentManifest → Call S (Unit {0}))
      → (AgentManifest → AgentIdentity)
      → Text
      → Flow S AgentIdentity
  create_named build save done name = do
    manifest ← build name
    try_call (save manifest) (λ _. pure (done manifest)) refused

  abbrev pub build_new : Text → CreateAgentOptions → KeyPair → KeyPair → Text → Flow S AgentManifest
  build_new created_at options identity owner name =
      sign_manifest p
        (new_manifest options (bytes_to_hex identity.public) (bytes_to_hex owner.public) created_at
          name)
        (bytes_to_hex identity.secret)

  abbrev pub identity_with : KeyPair → KeyPair → AgentManifest → AgentIdentity
  identity_with identity owner =
      identity_of (bytes_to_hex identity.secret) (bytes_to_hex owner.secret)

  unfoldable pub create_with :
      (ℕ → Text)
      → Text
      → CreateAgentOptions
      → KeyPair
      → KeyPair
      → Option Text
      → Flow S AgentIdentity
  create_with names created_at options identity owner (some name) =
      create_named (build_new created_at options identity owner) (save_new options)
        (identity_with identity owner) name
  create_with names created_at options identity owner none =
      try_names storage names (build_new created_at options identity owner) (save_new options)
        (identity_with identity owner) name_generation_max_attempts 0

  -- `first` and `second` are what `keygenAsync` gives, `created_at` is the time, and `names` are
  -- what `generateName` gives.
  unfoldable pub create_agent :
      (ℕ → Text)
      → Option KeyPair
      → Option KeyPair
      → Text
      → CreateAgentOptions
      → Flow S AgentIdentity
  create_agent names first second created_at options = do
    require (name_is_usable options.name) invalid_input
    require (is_valid_memory_pointer options.memory_pointer) invalid_input
    require (is_valid_permissions (or_else options.permissions default_permissions)) invalid_input
    identity ← require_some first key_generation_failed
    owner ← require_some second key_generation_failed
    require (not (text_eq (bytes_to_hex identity.secret) (bytes_to_hex owner.secret)))
        key_generation_failed
    create_with names created_at options identity owner options.name
