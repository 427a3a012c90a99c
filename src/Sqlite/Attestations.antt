-- ===== src/Sqlite/Attestations.antt =====
-- The attestations and registered_sources tables of packages/sdk/src/storage/sqlite.ts.
pub mod Integrity
use openrep.Prelude.{
  ◌+◌, ◌++◌, is_some, not, ◌==◌, ltb, find, ◌&&◌, reverse, any, length, text_eq, if◌then◌else◌,
  keep, [], take, Bool, ◌∷◌, some, none, List, Text, Option, ℕ,
}
use openrep.Records.{Page, RegisteredSource, AttestationRecord}
use openrep.Result.{
  agent_not_found, duplicate_source_name, duplicate_idempotency_key, coded, uncoded, returned,
  rejected, Call,
}
use openrep.Sqlite.Tables.{has_key, collides, same_key, Db}
use openrep.Canonical.{text_le}

abbrev pub default_page_limit : ℕ
default_page_limit = 50

abbrev pub max_page_limit : ℕ
max_page_limit = 1000

-- `none` is the `RangeError` of a limit that is no positive integer of at most 1000.
unfoldable pub normalize_limit : Option ℕ → Option ℕ
normalize_limit none = some default_page_limit
normalize_limit (some limit) =
    if ltb limit 1 then none else if ltb max_page_limit limit then none else some limit

-- `WHERE agent_id = ? … ORDER BY row_id DESC`
abbrev pub history : Text → Db → List AttestationRecord
history agent_id db = keep (λ a. text_eq a.agent_id agent_id) (reverse db.attestations)

-- `AND row_id < ?`
abbrev pub before_cursor : Option ℕ → List AttestationRecord → List AttestationRecord
before_cursor none rows = rows
before_cursor (some cursor) rows = keep (λ a. ltb a.row_id cursor) rows

abbrev pub last_row_id : List AttestationRecord → Option ℕ
last_row_id [] = none
last_row_id (a ∷ []) = some a.row_id
last_row_id (a ∷ b ∷ rows) = last_row_id (b ∷ rows)

-- A full page points to its last row.
unfoldable pub page_of : ℕ → List AttestationRecord → Page
page_of limit rows = record {
  items = take limit rows;
  next_cursor = if length (take limit rows) == limit then last_row_id (take limit rows) else none;
}

unfoldable pub get_attestations : Text → Option ℕ → Option ℕ → Call Db Page
get_attestations agent_id cursor limit db = elim (normalize_limit limit) [
  | none ↦ (rejected uncoded, db)
  | some n ↦ (returned (page_of n (before_cursor cursor (history agent_id db))), db)
]

-- `agent_id = ? AND idempotency_key = ?`
abbrev pub has_idempotency_key : Text → Text → AttestationRecord → Bool
has_idempotency_key agent_id key a =
    text_eq a.agent_id agent_id && same_key a.idempotency_key (some key)

unfoldable pub get_attestation_by_idempotency_key : Text → Text → Call Db (Option AttestationRecord)
get_attestation_by_idempotency_key agent_id key db =
    (returned (find (has_idempotency_key agent_id key) db.attestations), db)

abbrev stored : AttestationRecord → Db → AttestationRecord
stored r db = record r { row_id = db.next_attestation }

-- The unique constraints are checked as the row is inserted, the foreign key at the statement's
-- end. The store assigns the row id. A taken `id` is an error without a code.
unfoldable pub save_attestation : AttestationRecord → Call Db (Unit {0})
save_attestation r db =
    if any (λ a. text_eq a.id r.id) db.attestations
    then (rejected uncoded, db)
    else if any (λ a. collides a r) db.attestations
    then (rejected (coded duplicate_idempotency_key), db)
    else if not (is_some (find (has_key r.agent_id) db.agents))
    then (rejected (coded agent_not_found), db)
    else (
      returned tt,
      record db {
        attestations = db.attestations ++ stored r db ∷ [];
        next_attestation = db.next_attestation + 1;
      },
    )

unfoldable pub get_registered_sources : Call Db (List RegisteredSource)
get_registered_sources db = (returned db.registered_sources, db)

-- The table is kept in the order of its primary key, which `ORDER BY source_name ASC` reads.
insert_source : RegisteredSource → List RegisteredSource → List RegisteredSource
insert_source x [] = x ∷ []
insert_source x (y ∷ rows) =
    if text_le x.source_name y.source_name then x ∷ y ∷ rows else y ∷ insert_source x rows

pub save_registered_source : RegisteredSource → Call Db (Unit {0})
unfolding insert_source
save_registered_source source db =
    if any (λ x. text_eq x.source_name source.source_name) db.registered_sources
    then (rejected (coded duplicate_source_name), db)
    else (
      returned tt,
      record db { registered_sources = insert_source source db.registered_sources },
    )
