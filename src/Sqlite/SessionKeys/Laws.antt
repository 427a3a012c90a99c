-- ===== src/Sqlite/SessionKeys/Laws.antt =====
-- The session_keys table as a map from (agent, owner) pairs to rows.
use openrep.Sqlite.Tables.{Db}
use openrep.Prelude.{
  ◌⊎◌, refl, inr, ◌∙◌, text_eq_refl, inl, is_some, ◌++◌, Bool-cases, [], text_eq_iff, ◌∷◌, arith,
  not, keep, none, true, if◌then◌else◌, some, find, ◌≡◌, ℕ, List, Bool, Text,
}
use openrep.Records.{SessionKeyRow}
use openrep.Sqlite.SessionKeys.{
  get_session_key, session_keys, row_of, has_pair, touch_session_key, delete_session_key,
  set_session_key, update_pair,
}
use openrep.Result.{Settled, rejected, Fault, returned}
use mathlib.Core.Option
use openrep.Storage.{KeepsSessionKeys, extended, same_pair}

module _ (f : SessionKeyRow → SessionKeyRow) (a o b w : Text) where
  find-update_pair :
      ((r : SessionKeyRow) → has_pair a o r ≡ true → has_pair a o (f r) ≡ true)
      → (rows : List SessionKeyRow)
      → find (has_pair b w) (update_pair f a o rows) ≡ (
          if same_pair a o b w
          then Option.map f (find (has_pair b w) rows)
          else find (has_pair b w) rows)
  unfolding update_pair
  find-update_pair h [] = ground arith
  find-update_pair h (r ∷ rows) = ground (
    arith,
    h r,
    find-update_pair h rows,
    text_eq_iff a b,
    text_eq_iff o w,
    text_eq_iff r.agent_id a,
    text_eq_iff r.owner_user_id o,
    text_eq_iff r.agent_id b,
    text_eq_iff r.owner_user_id w,
    text_eq_iff (f r).agent_id a,
    text_eq_iff (f r).owner_user_id o,
    text_eq_iff (f r).agent_id b,
    text_eq_iff (f r).owner_user_id w,
  )

module _ (a o b w : Text) where
  find-remove_pair :
      (rows : List SessionKeyRow)
      → find (has_pair b w) (keep (λ r. not (has_pair a o r)) rows)
        ≡ (if same_pair a o b w then none else find (has_pair b w) rows)
  find-remove_pair [] = ground arith
  find-remove_pair (r ∷ rows) = ground (
    arith,
    find-remove_pair rows,
    text_eq_iff a b,
    text_eq_iff o w,
    text_eq_iff r.agent_id a,
    text_eq_iff r.owner_user_id o,
    text_eq_iff r.agent_id b,
    text_eq_iff r.owner_user_id w,
  )

  -- Two names of one pair find the same row.
  find-same_pair :
      (rows : List SessionKeyRow)
      → same_pair a o b w ≡ true
      → find (has_pair b w) rows ≡ find (has_pair a o) rows
  find-same_pair rows h =
      let p : a ≡ b = (text_eq_iff a b).0 (ground arith) in
      let q : o ≡ w = (text_eq_iff o w).0 (ground arith) in rw (p, q)

find-snoc :
    (p : SessionKeyRow → Bool) (rows : List SessionKeyRow) (row : SessionKeyRow)
    → find p (rows ++ row ∷ [])
      ≡ (if is_some (find p rows) then find p rows else if p row then some row else none)
find-snoc p [] row = ground arith
find-snoc p (r ∷ rows) row = ground (arith, find-snoc p rows row)

module _ (db : Db) (b w : Text) where
  pub row_of-set_session_key :
      (row : SessionKeyRow)
      → (set_session_key row db).0 ≡ returned tt
      → row_of b w (set_session_key row db).1
        ≡ (if same_pair row.agent_id row.owner_user_id b w then some row else row_of b w db)
  unfolding set_session_key
  row_of-set_session_key row h =
      elim (Bool-cases (is_some (row_of row.agent_id row.owner_user_id db))) [
        | inl old ↦ rw old (
            find-update_pair (λ _. row) row.agent_id row.owner_user_id b w
              (λ _ _. rw (text_eq_refl row.agent_id, text_eq_refl row.owner_user_id))
              db.session_keys
            ∙ ground
                (arith, find-same_pair row.agent_id row.owner_user_id b w db.session_keys, old))
        | inr new ↦ ground (
          arith,
          new,
          find-snoc (has_pair b w) db.session_keys row,
          find-same_pair row.agent_id row.owner_user_id b w db.session_keys,
        )
      ]

  refusal :
      (row : SessionKeyRow) (e : Fault)
      → (set_session_key row db).0 ≡ rejected e
      → set_session_key row db ≡ (rejected e, db)
  unfolding set_session_key
  refusal row e h = ground arith

  abbrev pub Stores : SessionKeyRow → Settled (Unit {0}) × Db → Type 0
  Stores row x =
      ((x.0 ≡ returned tt)
        × (row_of b w x.1
            ≡ (if same_pair row.agent_id row.owner_user_id b w then some row else row_of b w db)))
      ⊎ ((e : Fault) × (x ≡ (rejected e, db)))

  -- A row that is accepted is what its own pair reads back, and no other pair reads it, whether the
  -- upsert inserts or rewrites; a refused write leaves the tables as they were.
  pub set_session_key-Stores : (row : SessionKeyRow) → Stores row (set_session_key row db)
  set_session_key-Stores row = go (set_session_key row db).0 refl
    where
      go :
          (x : Settled (Unit {0}))
          → (set_session_key row db).0 ≡ x
          → Stores row (set_session_key row db)
      go (returned _) h = inl (h, row_of-set_session_key row h)
      go (rejected e) h = inr (e, refusal row e h)

  pub row_of-touch_session_key :
      (a o : Text) (expires : ℕ)
      → row_of b w (touch_session_key a o expires db).1
        ≡ (if same_pair a o b w then extended expires (row_of b w db) else row_of b w db)
  unfolding touch_session_key
  row_of-touch_session_key a o expires =
      find-update_pair (λ r. record r { expires_at_epoch_ms = expires }) a o b w (λ r h. h)
        db.session_keys

  pub row_of-delete_session_key :
      (a o : Text)
      → row_of b w (delete_session_key a o db).1
        ≡ (if same_pair a o b w then none else row_of b w db)
  unfolding delete_session_key
  row_of-delete_session_key a o = find-remove_pair a o b w db.session_keys

-- The table keeps the contract of the session-key backend.
pub sqlite_keeps : KeepsSessionKeys session_keys
unfolding session_keys get_session_key touch_session_key delete_session_key
sqlite_keeps = record {
  view = λ db a o. row_of a o db;
  get_lem = λ a o db. refl;
  set_lem = λ row db b w. row_of-set_session_key db b w row;
  touch_done = λ a o e db. refl;
  touch_lem = λ a o e db b w. row_of-touch_session_key db b w a o e;
  delete_done = λ a o db. refl;
  delete_lem = λ a o db b w. row_of-delete_session_key db b w a o;
}
