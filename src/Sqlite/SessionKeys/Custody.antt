-- ===== src/Sqlite/SessionKeys/Custody.antt =====
-- Session keys are kept for stored agents only.
use openrep.Sqlite.SessionKeys.{
  row_of, has_pair, delete_session_key, touch_session_key, sweep_expired_session_keys,
  set_session_key, update_pair,
}
use openrep.Sqlite.Tables.{SameRecords, has_key, Db, IsIntact, Known}
use openrep.Prelude.{
  refl, ◌∙◌, is_some-find, sym, All-append, find, [], arith, inr, text_eq_iff, inl, ◌∷◌, true, keep,
  is_some, ◌≡◌, Bool, All, Bool-cases, ℕ, List, Text,
}
use openrep.Records.{AgentRecord, SessionKeyRow}

module _ (P : Text → Type 0) where
  abbrev Owned : List SessionKeyRow → Type 0
  Owned rows = All (λ r. P r.agent_id) rows

  keep-Owned :
      (p : SessionKeyRow → Bool) (rows : List SessionKeyRow) → Owned rows → Owned (keep p rows)
  keep-Owned p [] h = tt
  keep-Owned p (r ∷ rows) h = elim (Bool-cases (p r)) [
    | inl kept ↦ rw kept (h.0, keep-Owned p rows h.1)
    | inr dropped ↦ rw dropped (keep-Owned p rows h.1)
  ]

  update-Owned :
      (f : SessionKeyRow → SessionKeyRow) (a o : Text)
      → ((r : SessionKeyRow) → has_pair a o r ≡ true → P r.agent_id → P (f r).agent_id)
      → (rows : List SessionKeyRow) → Owned rows
      → Owned (update_pair f a o rows)
  unfolding update_pair
  update-Owned f a o same [] h = tt
  update-Owned f a o same (r ∷ rows) h = elim (Bool-cases (has_pair a o r)) [
    | inl hit ↦ rw hit (same r hit h.0, update-Owned f a o same rows h.1)
    | inr miss ↦ rw miss (h.0, update-Owned f a o same rows h.1)
  ]

with_sessions :
    (db : Db) (rows : List SessionKeyRow)
    → IsIntact db
    → All (λ r. Known db r.agent_id) rows
    → IsIntact (record db { session_keys = rows })
with_sessions db rows h owned = record {
  unique_keys = h.unique_keys;
  unique_names = h.unique_names;
  lineage = h.lineage;
  authors = h.authors;
  keys_once = h.keys_once;
  row_ids = h.row_ids;
  custody = owned;
}

pub set_session_key-IsIntact :
    (row : SessionKeyRow) (db : Db) → IsIntact db → IsIntact (set_session_key row db).1
unfolding set_session_key
set_session_key-IsIntact row db h =
    elim (Bool-cases (is_some (row_of row.agent_id row.owner_user_id db))) [
      | inl old ↦ rw old (
          with_sessions db _ h (
            update-Owned (Known db) (λ _. row) row.agent_id row.owner_user_id
              (λ r hit known.
                let same : r.agent_id ≡ row.agent_id =
                  (text_eq_iff r.agent_id row.agent_id).0 (ground arith) in
                rw same at known)
              db.session_keys h.custody))
      | inr new ↦ rw new (elim (Bool-cases (is_some (find (has_key row.agent_id) db.agents))) [
        | inl known ↦ rw known (
            with_sessions db _ h (
              All-append _ db.session_keys (row ∷ []) h.custody (
                sym (is_some-find (λ (x : AgentRecord). x.public_key) row.agent_id db.agents)
                    ∙ known,
                tt,
              )))
        | inr missing ↦ rw missing h
      ])
    ]

pub touch_session_key-IsIntact :
    (a o : Text) (e : ℕ) (db : Db) → IsIntact db → IsIntact (touch_session_key a o e db).1
unfolding touch_session_key
touch_session_key-IsIntact a o e db h = with_sessions db _ h (
    update-Owned (Known db) (λ r. record r { expires_at_epoch_ms = e }) a o (λ r _ k. k)
      db.session_keys h.custody)

pub delete_session_key-IsIntact :
    (a o : Text) (db : Db) → IsIntact db → IsIntact (delete_session_key a o db).1
unfolding delete_session_key
delete_session_key-IsIntact a o db h =
    with_sessions db _ h (keep-Owned (Known db) _ db.session_keys h.custody)

pub sweep_expired_session_keys-IsIntact :
    (before : ℕ) (db : Db) → IsIntact db → IsIntact (sweep_expired_session_keys before db).1
unfolding sweep_expired_session_keys
sweep_expired_session_keys-IsIntact before db h =
    with_sessions db _ h (keep-Owned (Known db) _ db.session_keys h.custody)

pub set_session_key_elsewhere :
    (row : SessionKeyRow) (db : Db) → SameRecords db (set_session_key row db).1
unfolding set_session_key
set_session_key_elsewhere row db = (ground arith, ground arith)

pub touch_session_key_elsewhere :
    (a o : Text) (e : ℕ) (db : Db) → SameRecords db (touch_session_key a o e db).1
unfolding touch_session_key
touch_session_key_elsewhere a o e db = (refl, refl)

pub delete_session_key_elsewhere :
    (a o : Text) (db : Db) → SameRecords db (delete_session_key a o db).1
unfolding delete_session_key
delete_session_key_elsewhere a o db = (refl, refl)

pub sweep_expired_session_keys_elsewhere :
    (before : ℕ) (db : Db) → SameRecords db (sweep_expired_session_keys before db).1
unfolding sweep_expired_session_keys
sweep_expired_session_keys_elsewhere before db = (refl, refl)
