-- ===== src/Agent/Create/RoundTrip.antt =====
-- The manifest of a created agent verifies.
use openrep.Agent.Create.{
  identity_of, new_manifest, name_is_usable, CreateAgentOptions, create_agent,
}
use openrep.Agent.Create.Claims.{create_agent-IsAllOrNothing, IsCreated, IsOffered}
use openrep.Agent.Manifest.{
  default_permissions, is_valid_permissions, is_valid_memory_pointer, is_valid_name, sign_manifest,
  manifest_text, verify_manifest,
}
use openrep.Agent.Manifest.Verdicts.{IsGenuine, verify_manifest_complete}
use openrep.Platform.{Platform, CryptoLaws, KeyPair, IsKeyPair}
use openrep.Prelude.{
  sym, ap, ◌∙◌, refl, length, All, or_else, inr, inl, Option, ◌<◌, is_some, ◌≡◌, ℕ, List, Text,
  true, false, some, none,
}
use openrep.Records.{is_valid, AgentIdentity, AgentRecord, AgentManifest}
use openrep.Storage.{ReadsKeepState, StorageAdapter}
use openrep.Result.{returned, rejected, ok, Fault, pure, Outcome}
use openrep.Revocation.{serialized_rule}
use openrep.Result.Rules.{unguarded_rule}
use openrep.Canonical.{value}
use openrep.Hex.{is_lowercase_hex_of_length, IsByte, bytes_to_hex, hex_to_bytes}
use openrep.Names.{name_generation_max_attempts}
use openrep.Hex.RoundTrip.{is_lowercase_hex_of_length-bytes_to_hex, hex_to_bytes-bytes_to_hex}

same_value : {a b : AgentIdentity} → ok a ≡ ok b → a ≡ b
same_value h = cc

manifest_of :
    {S : Type 0} {x : Outcome AgentIdentity × S} {i : AgentIdentity} {a b : Text}
    {m : AgentManifest} {d : S}
    → x.0 ≡ ok i
    → x ≡ (ok (identity_of a b m), d)
    → m ≡ i.manifest
manifest_of {S} h e =
    ap (λ (j : AgentIdentity). j.manifest)
      (same_value (sym (ap (λ (y : Outcome AgentIdentity × S). y.0) e) ∙ h))

-- The text that is signed leaves the signature out.
unsigned_text :
    (m : AgentManifest) (signature : Text)
    → manifest_text (record m { signature = signature }) ≡ manifest_text m
unfolding manifest_text
unsigned_text m signature = refl

module _ {S : Type 0} (p : Platform) (fields : AgentManifest) (key : Text) (s : S) where
  -- A manifest that is the fields with a signature over their text.
  pub record IsSignedBy (m : AgentManifest) : Type 0 where
    pub canonical : Text
    pub signature : List ℕ
    pub text_of : manifest_text fields ≡ value canonical
    pub signed : p.sign (p.encode canonical) (hex_to_bytes key) ≡ some signature
    pub is : record fields { signature = bytes_to_hex signature } ≡ m

  abbrev Signs : Outcome AgentManifest × S → Type 0
  Signs x = (m : AgentManifest) → x.0 ≡ ok m → IsSignedBy m

  sign_manifest-Signs : Signs (sign_manifest p fields key s)
  unfolding sign_manifest pure
  sign_manifest-Signs =
      serialized_rule Signs _ _ s
        (λ canonical text_of.
          unguarded_rule Signs _ _ s
            (λ signature signed m e. record {
              canonical = canonical;
              signature = signature;
              text_of = text_of;
              signed = signed;
              is = cc;
            })
            (λ m e. cc))
        (λ m e. cc)

module _ {S : Type 0} (p : Platform) (laws : CryptoLaws p) (storage : StorageAdapter S)
    (options : CreateAgentOptions) (identity owner : KeyPair) (is_pair : IsKeyPair p identity)
    (is_owner : IsKeyPair p owner) (created_at name : Text)
    (dated : is_some (p.parse_date created_at) ≡ true) (named : is_valid_name name ≡ true)
    (pointer : is_valid_memory_pointer options.memory_pointer ≡ true)
    (scopes : is_valid_permissions (or_else options.permissions default_permissions) ≡ true)
    (s : S) where
  hex_shape :
      (bytes : List ℕ) (n : ℕ)
      → All IsByte bytes × (length bytes ≡ n)
      → is_lowercase_hex_of_length (bytes_to_hex bytes) n ≡ true
  hex_shape bytes n h = rw h.1 at (is_lowercase_hex_of_length-bytes_to_hex bytes h.0)

  abbrev fields_of : AgentManifest
  fields_of =
      new_manifest options (bytes_to_hex identity.public) (bytes_to_hex owner.public) created_at
        name

  signed-IsGenuine :
      (m : AgentManifest)
      → IsSignedBy p fields_of (bytes_to_hex identity.secret) s m
      → (agent : AgentRecord) (t : S) → (storage.get_agent m.public_key t).0 ≡ returned (some agent)
      → is_some agent.revoked_at ≡ false
      → IsGenuine p storage m t
  signed-IsGenuine m h agent t stored live =
      let size = laws.public_key_size _ _ is_pair.derived in
      let sig_size = laws.signature_size _ _ _ h.signed in
      let found : (storage.get_agent (bytes_to_hex identity.public) t).0 ≡ returned (some agent) =
        rw (← h.is) at stored in
      let signed = rw (hex_to_bytes-bytes_to_hex identity.secret is_pair.bytes) at h.signed in
      rw (← h.is) (record {
        agent = agent;
        canonical = h.canonical;
        named = named;
        key_shape = hex_shape identity.public 32 size;
        signature_shape = hex_shape h.signature 64 sig_size;
        pointer = pointer;
        scopes = scopes;
        dated = dated;
        supported =
            inr (refl, hex_shape owner.public 32 (laws.public_key_size _ _ is_owner.derived));
        stored = found;
        live = live;
        text_of = unsigned_text fields_of _ ∙ h.text_of;
        signed =
            rw
              (
                hex_to_bytes-bytes_to_hex h.signature sig_size.0,
                hex_to_bytes-bytes_to_hex identity.public size.0,
              )
              (laws.sign_verify _ _ _ _ is_pair.derived signed);
      })

module _ {S : Type 0} (p : Platform) (laws : CryptoLaws p) (storage : StorageAdapter S)
    (reads : ReadsKeepState storage)
    (refusals : (r : AgentRecord) (s : S) (e : Fault)
      → (storage.save_agent r s).0 ≡ rejected e
      → (storage.save_agent r s).1 ≡ s)
    (names : ℕ → Text) (identity owner : KeyPair) (is_pair : IsKeyPair p identity)
    (is_owner : IsKeyPair p owner) (created_at : Text)
    (dated : is_some (p.parse_date created_at) ≡ true) (options : CreateAgentOptions) (s : S)
    (valid_names : (k : ℕ)
      → k < name_generation_max_attempts
      → is_valid_name (names k) ≡ true) where
  offered_valid :
      (chosen : Option Text) (name : Text)
      → name_is_usable chosen ≡ true
      → IsOffered p storage reads refusals names
          (some identity)
          (some owner)
          created_at
          options
          s
          chosen
          name
      → is_valid_name name ≡ true
  offered_valid (some chosen) name usable same = rw same at usable
  offered_valid none name usable (i, low, same) = rw same at (valid_names i low)

  -- An agent that was created is verified in every later state that has it stored and live: over a
  -- store whose reads and refused saves leave it as it is, with keys that belong together, a hash
  -- and signatures that behave as documented, and generated names of the right form.
  pub create_agent-verify_manifest :
      (i : AgentIdentity)
      → (create_agent p storage names (some identity) (some owner) created_at options s).0 ≡ ok i
      → (agent : AgentRecord) (t : S)
      → (storage.get_agent i.manifest.public_key t).0 ≡ returned (some agent)
      → is_some agent.revoked_at ≡ false
      → (verify_manifest p storage i.manifest t).0 ≡ ok is_valid
  create_agent-verify_manifest i made agent t stored live =
      elim (create_agent-IsAllOrNothing p storage reads refusals names (some identity) (some owner)
        created_at options s) [
          | inl nothing ↦ absurd (nothing.0 i made)
          | inr h ↦ verify_manifest_complete p storage i.manifest t (genuine h)
        ]
    where
      genuine :
          IsCreated p storage reads refusals names
            (some identity)
            (some owner)
            created_at
            options
            s
            (create_agent p storage names (some identity) (some owner) created_at options s)
          → IsGenuine p storage i.manifest t
      genuine h =
          let same : identity ≡ h.identity = cc (h.made) in
          let same_owner : owner ≡ h.owner = cc (h.owned) in
          let m : h.manifest ≡ i.manifest = manifest_of made h.is in
          rw m at (
            signed-IsGenuine p laws storage options h.identity h.owner (rw same at is_pair)
              (rw same_owner at is_owner) created_at h.name dated
              (offered_valid options.name h.name h.usable h.offered) h.pointer h.scopes s h.manifest
              (sign_manifest-Signs p _ _ s h.manifest h.signed) agent t (rw m stored) live)
