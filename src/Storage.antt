-- ===== src/Storage.antt =====
-- The interface `StorageAdapter` of packages/sdk/src/types/storage.ts, with the session-key backend of
-- types/security.ts: what the SDK asks of a store. `S` is what the store keeps. A call may reject
-- at any time, so that a theorem over every adapter also covers a failing one.
use openrep.Prelude.{◌&&◌, if◌then◌else◌, none, text_eq, Bool, some, ℕ, Option, List, Text, ◌≡◌}
use openrep.Result.{returned, Call}
use openrep.Records.{
  AgentRecord, KeyRotationRecord, AttestationRecord, Page, RegisteredSource, SessionKeyRow,
}

pub record StorageAdapter (S : Type 0) : Type 0 where
  pub get_agent : Text → Call S (Option AgentRecord)
  pub get_agent_by_name : Text → Call S (Option AgentRecord)
  pub save_agent : AgentRecord → Call S (Unit {0})
  pub revoke_agent : Text → Text → Call S (Unit {0})
  pub rotate_agent : AgentRecord → KeyRotationRecord → Call S (Unit {0})
  pub get_attestations : Text → Option ℕ → Option ℕ → Call S Page
  pub get_attestation_by_idempotency_key : Text → Text → Call S (Option AttestationRecord)
  pub save_attestation : AttestationRecord → Call S (Unit {0})
  pub get_registered_sources : Call S (List RegisteredSource)

-- A read leaves the store as it was, also when it rejects.
pub record ReadsKeepState {S : Type 0} (storage : StorageAdapter S) : Type 0 where
  pub agent : (k : Text) (s : S) → (storage.get_agent k s).1 ≡ s
  pub name : (k : Text) (s : S) → (storage.get_agent_by_name k s).1 ≡ s
  pub history : (k : Text) (c l : Option ℕ) (s : S) → (storage.get_attestations k c l s).1 ≡ s
  pub key : (k i : Text) (s : S) → (storage.get_attestation_by_idempotency_key k i s).1 ≡ s
  pub sources : (s : S) → (storage.get_registered_sources s).1 ≡ s

-- The session-key backend.
pub record SessionKeyBackend (S : Type 0) : Type 0 where
  pub get_session_key : Text → Text → Call S (Option SessionKeyRow)
  pub set_session_key : SessionKeyRow → Call S (Unit {0})
  pub touch_session_key : Text → Text → ℕ → Call S (Unit {0})
  pub delete_session_key : Text → Text → Call S (Unit {0})
  pub sweep_expired_session_keys : ℕ → Call S (Unit {0})

abbrev pub same_pair : Text → Text → Text → Text → Bool
same_pair a o b w = text_eq a b && text_eq o w

abbrev pub extended : ℕ → Option SessionKeyRow → Option SessionKeyRow
extended expires none = none
extended expires (some r) = some (record r { expires_at_epoch_ms = expires })

-- The contract of the session-key backend: a map from (agent, owner) pairs to rows.
pub record KeepsSessionKeys {S : Type 0} (backend : SessionKeyBackend S) : Type 0 where
  pub view : S → Text → Text → Option SessionKeyRow
  pub get_lem : (a o : Text) (s : S) → backend.get_session_key a o s ≡ (returned (view s a o), s)
  pub set_lem :
      (row : SessionKeyRow) (s : S) (b w : Text)
      → (backend.set_session_key row s).0 ≡ returned tt
      → view (backend.set_session_key row s).1 b w
        ≡ (if same_pair row.agent_id row.owner_user_id b w then some row else view s b w)
  pub touch_done :
      (a o : Text) (e : ℕ) (s : S) → (backend.touch_session_key a o e s).0 ≡ returned tt
  pub touch_lem :
      (a o : Text) (e : ℕ) (s : S) (b w : Text)
      → view (backend.touch_session_key a o e s).1 b w
        ≡ (if same_pair a o b w then extended e (view s b w) else view s b w)
  pub delete_done : (a o : Text) (s : S) → (backend.delete_session_key a o s).0 ≡ returned tt
  pub delete_lem :
      (a o : Text) (s : S) (b w : Text)
      → view (backend.delete_session_key a o s).1 b w
        ≡ (if same_pair a o b w then none else view s b w)
