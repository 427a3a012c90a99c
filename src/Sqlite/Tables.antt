-- ===== src/Sqlite/Tables.antt =====
-- The tables of packages/sdk/src/storage/sqlite.ts that the modelled methods use.
use openrep.Prelude.{
  All-weaken, member-append, arith, Distinct-append, map-append, none, some, true, false, ◌≡◌, any,
  All, ◌+◌, Distinct, Option, ◌≤◌, ◌++◌, ◌&&◌, map, ◌∷◌, member, ℕ, Bool, List, [], Text, text_eq,
}
use openrep.Records.{
  AgentRecord, AttestationRecord, RegisteredSource, KeyRotationRecord, SessionKeyRow,
}

-- `next_attestation` is the row id that AUTOINCREMENT gives next.
pub record Db : Type 0 where
  pub agents : List AgentRecord
  pub attestations : List AttestationRecord
  pub next_attestation : ℕ
  pub registered_sources : List RegisteredSource
  pub key_rotations : List KeyRotationRecord
  pub session_keys : List SessionKeyRow

abbrev pub empty : Db
empty = record {
  agents = [];
  attestations = [];
  next_attestation = 1;
  registered_sources = [];
  key_rotations = [];
  session_keys = [];
}

abbrev pub has_key : Text → AgentRecord → Bool
has_key k r = text_eq r.public_key k

abbrev pub has_name : Text → AgentRecord → Bool
has_name n r = text_eq r.name n

abbrev pub keys : List AgentRecord → List Text
keys = map (λ r. r.public_key)

abbrev pub names : List AgentRecord → List Text
names = map (λ r. r.name)

-- The foreign keys to `agents(public_key)`.
abbrev pub Known : Db → Text → Type 0
Known db k = member k (keys db.agents) ≡ true

-- `(agent_id, idempotency_key)` of one row equals that of another; SQL NULLs are never equal.
abbrev pub same_key : Option Text → Option Text → Bool
same_key none b = false
same_key (some k) none = false
same_key (some k) (some j) = text_eq k j

abbrev pub collides : AttestationRecord → AttestationRecord → Bool
collides a b = text_eq a.agent_id b.agent_id && same_key a.idempotency_key b.idempotency_key

abbrev pub KeysOnce : List AttestationRecord → Type 0
KeysOnce [] = Unit
KeysOnce (a ∷ rows) = (any (λ b. collides a b) rows ≡ false) × KeysOnce rows

-- Row ids ascend from `low` and lie below `next`.
abbrev pub Ascending : ℕ → ℕ → List AttestationRecord → Type 0
Ascending low next [] = low ≤ next
Ascending low next (a ∷ rows) = (low ≤ a.row_id) × Ascending (a.row_id + 1) next rows

-- What the constraints of the schema promise about the tables.
pub record IsIntact (db : Db) : Type 0 where
  pub unique_keys : Distinct (keys db.agents)
  pub unique_names : Distinct (names db.agents)
  pub lineage : All (λ r. Known db r.old_public_key × Known db r.new_public_key) db.key_rotations
  pub authors : All (λ a. Known db a.agent_id) db.attestations
  pub keys_once : KeysOnce db.attestations
  pub row_ids : Ascending 0 db.next_attestation db.attestations
  pub custody : All (λ r. Known db r.agent_id) db.session_keys

-- A write of other tables than these two.
abbrev pub SameRecords : Db → Db → Type 0
SameRecords d e = (e.agents ≡ d.agents) × (e.attestations ≡ d.attestations)

module _ (db : Db) (r : AgentRecord) where
  abbrev grown : Db
  grown = record db { agents = db.agents ++ r ∷ [] }

  pub Known-grow : (k : Text) → Known db k → Known grown k
  Known-grow k h =
      rw map-append (ground (arith, h, member-append k (keys db.agents) (r.public_key ∷ [])))

  pub grown-IsIntact :
      IsIntact db
      → member r.public_key (keys db.agents) ≡ false
      → member r.name (names db.agents) ≡ false
      → IsIntact grown
  grown-IsIntact h new_key new_name = record {
    unique_keys =
        rw map-append (Distinct-append (keys db.agents) r.public_key h.unique_keys new_key);
    unique_names = rw map-append (Distinct-append (names db.agents) r.name h.unique_names new_name);
    lineage = All-weaken (λ _ p. (Known-grow _ p.0, Known-grow _ p.1)) db.key_rotations h.lineage;
    authors = All-weaken (λ _. Known-grow _) db.attestations h.authors;
    keys_once = h.keys_once;
    row_ids = h.row_ids;
    custody = All-weaken (λ _. Known-grow _) db.session_keys h.custody;
  }
