-- ===== src/Sqlite/Agents/Integrity.antt =====
-- The agents and key_rotations tables of packages/sdk/src/storage/sqlite.ts keep the schema's promises.
use openrep.Sqlite.Agents.{
  Rotating, end_rotation, settle_transaction, then_insert, insert_rotation, save_agent,
  revoke_agent, update_where, update_agent, set_agent_visibility,
}
use openrep.Records.{KeyRotationRecord, AgentVisibility, AgentRecord}
use openrep.Sqlite.Tables.{grown-IsIntact, has_key, has_name, keys, names, IsIntact, Db}
use openrep.Prelude.{
  All-append, ◌&&◌, ◌∙◌, is_some-find, sym, [], inr, inl, arith, ◌∷◌, find, refl, is_some, List,
  Bool-cases, ◌≡◌, Text,
}
use openrep.Result.{rejected, returned, Settled}

module _ (f : AgentRecord → AgentRecord) (k : Text) where
  module _ (same_key : (r : AgentRecord) → (f r).public_key ≡ r.public_key)
      (same_name : (r : AgentRecord) → (f r).name ≡ r.name) where
    update_where-keys : (rows : List AgentRecord) → keys (update_where f k rows) ≡ keys rows
    unfolding update_where
    update_where-keys [] = refl
    update_where-keys (r ∷ rows) = ground (arith, same_key r, update_where-keys rows)

    update_where-names : (rows : List AgentRecord) → names (update_where f k rows) ≡ names rows
    unfolding update_where
    update_where-names [] = refl
    update_where-names (r ∷ rows) = ground (arith, same_name r, update_where-names rows)

    updated-IsIntact :
        (db : Db) → IsIntact db → IsIntact (record db { agents = update_where f k db.agents })
    updated-IsIntact db h = record {
      unique_keys = rw (update_where-keys db.agents) h.unique_keys;
      unique_names = rw (update_where-names db.agents) h.unique_names;
      lineage = rw (update_where-keys db.agents) h.lineage;
      authors = rw (update_where-keys db.agents) h.authors;
      keys_once = h.keys_once;
      row_ids = h.row_ids;
      custody = rw (update_where-keys db.agents) h.custody;
    }

    update_agent-IsIntact : (db : Db) → IsIntact db → IsIntact (update_agent f k db).1
    unfolding update_agent
    update_agent-IsIntact db h = elim (Bool-cases (is_some (find (has_key k) db.agents))) [
      | inl found ↦ rw found (updated-IsIntact db h)
      | inr missing ↦ rw missing h
    ]

pub revoke_agent-IsIntact :
    (agent_id revoked_at : Text) (db : Db)
    → IsIntact db
    → IsIntact (revoke_agent agent_id revoked_at db).1
unfolding revoke_agent
revoke_agent-IsIntact agent_id revoked_at db h =
    update_agent-IsIntact _ agent_id (λ r. refl) (λ r. refl) db h

pub set_agent_visibility-IsIntact :
    (agent_id : Text) (v : AgentVisibility) (db : Db)
    → IsIntact db
    → IsIntact (set_agent_visibility agent_id v db).1
unfolding set_agent_visibility
set_agent_visibility-IsIntact agent_id v db h =
    update_agent-IsIntact _ agent_id (λ r. refl) (λ r. refl) db h

pub save_agent-IsIntact : (r : AgentRecord) (db : Db) → IsIntact db → IsIntact (save_agent r db).1
unfolding save_agent
save_agent-IsIntact r db h = elim (Bool-cases (is_some (find (has_name r.name) db.agents))) [
  | inl taken ↦ rw taken h
  | inr free ↦ rw free (elim (Bool-cases (is_some (find (has_key r.public_key) db.agents))) [
    | inl taken ↦ rw taken h
    | inr new ↦ rw new (
        grown-IsIntact db r h
          (sym (is_some-find (λ (x : AgentRecord). x.public_key) r.public_key db.agents) ∙ new)
          (sym (is_some-find (λ (x : AgentRecord). x.name) r.name db.agents) ∙ free))
  ])
]

insert_rotation-IsIntact :
    (rot : KeyRotationRecord) (db : Db) → IsIntact db → IsIntact (insert_rotation rot db).1
unfolding insert_rotation
insert_rotation-IsIntact rot db h =
    elim (Bool-cases (
      is_some (find (has_key rot.old_public_key) db.agents)
      && is_some (find (has_key rot.new_public_key) db.agents))) [
        | inr missing ↦ rw missing h
        | inl known ↦ rw known (record {
          unique_keys = h.unique_keys;
          unique_names = h.unique_names;
          lineage = All-append _ db.key_rotations (rot ∷ []) h.lineage (
            (
              ground (
                arith,
                is_some-find (λ (x : AgentRecord). x.public_key) rot.old_public_key db.agents,
              ),
              ground (
                arith,
                is_some-find (λ (x : AgentRecord). x.public_key) rot.new_public_key db.agents,
              ),
            ),
            tt,
          );
          authors = h.authors;
          keys_once = h.keys_once;
          row_ids = h.row_ids;
          custody = h.custody;
        })
      ]

then_insert-IsIntact :
    (rot : KeyRotationRecord) (saved : Settled (Unit {0})) (db : Db)
    → IsIntact db
    → IsIntact (then_insert rot saved db).1
unfolding then_insert
then_insert-IsIntact rot (returned _) db h = insert_rotation-IsIntact rot db h
then_insert-IsIntact rot (rejected e) db h = h

pub end_rotation-IsIntact :
    (t : Rotating) (db : Db) → IsIntact t.before → IsIntact db → IsIntact (end_rotation t db).1
unfolding end_rotation
end_rotation-IsIntact t db h h' =
    go (then_insert t.rotation t.saved db).0 (then_insert-IsIntact t.rotation t.saved db h')
  where
    go :
        (r : Settled (Unit {0}))
        → IsIntact (then_insert t.rotation t.saved db).1
        → IsIntact (settle_transaction r (then_insert t.rotation t.saved db).1 t.before).1
    go (returned _) k = k
    go (rejected e) k = h
