-- ===== src/Sqlite.antt =====
-- packages/sdk/src/storage/sqlite.ts: the adapter over SQLite tables. A table is the list of its rows in the
-- order of `row_id`; SQL runs as the statement says, constraints included. Prepared text, the JSON
-- in columns and the schema bootstrap are not modelled.
pub mod Tables
pub mod Agents
pub mod Attestations
pub mod SessionKeys
pub mod Adapter
