-- ===== src/Sqlite/Attestations/Integrity.antt =====
-- Saving an attestation keeps the promises of the schema, and never changes a stored row.
use openrep.Records.{RegisteredSource, AgentRecord, AttestationRecord}
use openrep.Prelude.{
  text_eq, Option, Bool-cases, Text, append-nil, sym, All-append, ◌∙◌, refl, ◌⊎◌, ap, false, inr,
  ◌∷◌, [], inl, ◌+◌, is_some-find, ◌≢◌, ◌++◌, arith, any, ◌≡◌, List, ℕ,
}
use openrep.Sqlite.Attestations.{
  get_registered_sources, get_attestation_by_idempotency_key, save_registered_source,
  get_attestations, stored, save_attestation,
}
use openrep.Sqlite.Tables.{SameRecords, Known, collides, Ascending, IsIntact, Db, KeysOnce}
use openrep.Result.{returned, Settled}

KeysOnce-append :
    (rows : List AttestationRecord) (r : AttestationRecord)
    → KeysOnce rows
    → any (λ a. collides a r) rows ≡ false
    → KeysOnce (rows ++ r ∷ [])
KeysOnce-append [] r h e = (refl, tt)
KeysOnce-append (a ∷ rows) r h e = (
  any-append a rows (ground (arith, h.0)) (ground arith),
  KeysOnce-append rows r h.1 (ground arith),
)
  where
    any-append :
        (b : AttestationRecord) (xs : List AttestationRecord)
        → any (λ x. collides b x) xs ≡ false
        → collides b r ≡ false
        → any (λ x. collides b x) (xs ++ r ∷ []) ≡ false
    any-append b [] p q = ground arith
    any-append b (x ∷ xs) p q = ground (arith, any-append b xs)

Ascending-append :
    (low next : ℕ) (rows : List AttestationRecord) (r : AttestationRecord)
    → r.row_id ≡ next
    → Ascending low next rows
    → Ascending low (next + 1) (rows ++ r ∷ [])
Ascending-append low next [] r e h = (omega arith, omega arith)
Ascending-append low next (a ∷ rows) r e h =
    (h.0, Ascending-append (a.row_id + 1) next rows r e h.1)

appended-IsIntact :
    (r : AttestationRecord) (db : Db)
    → IsIntact db
    → any (λ a. collides a r) db.attestations ≡ false
    → Known db r.agent_id
    → IsIntact (record db {
      attestations = db.attestations ++ stored r db ∷ [];
      next_attestation = db.next_attestation + 1;
    })
appended-IsIntact r db h once known = record {
  unique_keys = h.unique_keys;
  unique_names = h.unique_names;
  lineage = h.lineage;
  authors = All-append _ db.attestations (stored r db ∷ []) h.authors (known, tt);
  keys_once = KeysOnce-append db.attestations (stored r db) h.keys_once once;
  row_ids = Ascending-append 0 db.next_attestation db.attestations (stored r db) refl h.row_ids;
  custody = h.custody;
}

-- How `save_attestation` ends: refused with the tables as they were, or with one row more.
abbrev SavedOrKept : AttestationRecord → Db → Settled (Unit {0}) × Db → Type 0
SavedOrKept r db x =
    ((x.0 ≢ returned tt) × (x.1 ≡ db))
    ⊎ ((x.0 ≡ returned tt)
        × (any (λ a. collides a r) db.attestations ≡ false)
        × Known db r.agent_id
        × (x.1 ≡ record db {
          attestations = db.attestations ++ stored r db ∷ [];
          next_attestation = db.next_attestation + 1;
        }))

pub save_attestation_cases :
    (r : AttestationRecord) (db : Db) → SavedOrKept r db (save_attestation r db)
unfolding save_attestation
save_attestation_cases r db =
    ground (arith, is_some-find (λ (x : AgentRecord). x.public_key) r.agent_id db.agents)

pub save_attestation-IsIntact :
    (r : AttestationRecord) (db : Db) → IsIntact db → IsIntact (save_attestation r db).1
save_attestation-IsIntact r db h = elim (save_attestation_cases r db) [
  | inl kept ↦ rw kept.1 h
  | inr saved ↦ rw saved.3 (appended-IsIntact r db h saved.1 saved.2)
]

-- The ledger is append-only: whatever is saved, the rows before it stay, in place and unchanged.
pub save_attestation_appends :
    (r : AttestationRecord) (db : Db)
    → (new : List AttestationRecord) × ((save_attestation r db).1.attestations
        ≡ db.attestations ++ new)
save_attestation_appends r db = elim (save_attestation_cases r db) [
  | inl kept ↦ ([], ap (λ (d : Db). d.attestations) kept.1 ∙ sym (append-nil _))
  | inr saved ↦ (stored r db ∷ [], ap (λ (d : Db). d.attestations) saved.3)
]

pub save_registered_source-IsIntact :
    (x : RegisteredSource) (db : Db) → IsIntact db → IsIntact (save_registered_source x db).1
unfolding save_registered_source
save_registered_source-IsIntact x db h =
    elim (Bool-cases
      (any (λ (y : RegisteredSource). text_eq y.source_name x.source_name) db.registered_sources)) [
        | inl taken ↦ rw taken h
        | inr new ↦ rw new (record {
          unique_keys = h.unique_keys;
          unique_names = h.unique_names;
          lineage = h.lineage;
          authors = h.authors;
          keys_once = h.keys_once;
          row_ids = h.row_ids;
          custody = h.custody;
        })
      ]

pub save_registered_source_elsewhere :
    (x : RegisteredSource) (db : Db) → SameRecords db (save_registered_source x db).1
unfolding save_registered_source
save_registered_source_elsewhere x db =
    elim (Bool-cases
      (any (λ (y : RegisteredSource). text_eq y.source_name x.source_name) db.registered_sources)) [
        | inl taken ↦ rw taken (refl, refl)
        | inr new ↦ rw new (refl, refl)
      ]

pub save_attestation_agents :
    (r : AttestationRecord) (db : Db) → (save_attestation r db).1.agents ≡ db.agents
save_attestation_agents r db = elim (save_attestation_cases r db) [
  | inl kept ↦ ap (λ (d : Db). d.agents) kept.1
  | inr saved ↦ ap (λ (d : Db). d.agents) saved.3
]

pub get_attestations_keeps :
    (k : Text) (c l : Option ℕ) (db : Db) → (get_attestations k c l db).1 ≡ db
unfolding get_attestations
get_attestations_keeps k c l db = ground arith

pub get_attestation_by_idempotency_key_keeps :
    (k i : Text) (db : Db) → (get_attestation_by_idempotency_key k i db).1 ≡ db
unfolding get_attestation_by_idempotency_key
get_attestation_by_idempotency_key_keeps k i db = refl

pub get_registered_sources_keeps : (db : Db) → (get_registered_sources db).1 ≡ db
unfolding get_registered_sources
get_registered_sources_keeps db = refl
