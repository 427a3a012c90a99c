-- ===== src/Sqlite/Agents/Revoked.antt =====
-- Revocation and rotation on the tables of packages/sdk/src/storage/sqlite.ts.
use openrep.Prelude.{
  ◌&&◌, find-append_hit, ◌∙◌, refl, inr, inl, [], text_eq_iff, Bool-cases, ◌∷◌, arith, text_eq,
  if◌then◌else◌, true, is_some, none, some, find, ◌≡◌, Option, List, Text,
}
use openrep.Records.{AgentVisibility, AgentRecord}
use openrep.Sqlite.Tables.{Db, has_key}
use openrep.Sqlite.Agents.{
  settle_transaction, insert_rotation, then_insert, Rotating, end_rotation, set_agent_visibility,
  save_agent, update_agent, revoke_agent, update_where,
}
use openrep.Result.{rejected, Settled, returned}

abbrev pub IsRevoked : Text → List AgentRecord → Type 0
IsRevoked k rows =
    (r : AgentRecord) × (find (has_key k) rows ≡ some r) × (is_some r.revoked_at ≡ true)

abbrev pub updated : (AgentRecord → AgentRecord) → Option AgentRecord → Option AgentRecord
updated f none = none
updated f (some r) = some (f r)

module _ (f : AgentRecord → AgentRecord)
    (same_key : (r : AgentRecord) → (f r).public_key ≡ r.public_key) (k : Text) where
  -- A lookup after an update: of the updated key the new row, of another key the old one.
  pub find-update_where :
      (j : Text) (rows : List AgentRecord)
      → find (has_key j) (update_where f k rows)
        ≡ (if text_eq k j then updated f (find (has_key j) rows) else find (has_key j) rows)
  unfolding update_where
  find-update_where j [] = ground arith
  find-update_where j (r ∷ rows) = ground (
    arith,
    same_key r,
    find-update_where j rows,
    text_eq_iff k j,
    text_eq_iff r.public_key j,
    text_eq_iff r.public_key k,
  )

module _ (f : AgentRecord → AgentRecord)
    (same_key : (r : AgentRecord) → (f r).public_key ≡ r.public_key)
    (keeps : (r : AgentRecord) → is_some r.revoked_at ≡ true → is_some (f r).revoked_at ≡ true)
    (k j : Text) where
  updated-IsRevoked :
      (rows : List AgentRecord) → IsRevoked j rows → IsRevoked j (update_where f k rows)
  updated-IsRevoked rows (r, found, revoked) = elim (Bool-cases (text_eq k j)) [
    | inl same ↦
        (f r, find-update_where f same_key k j rows ∙ rw (same, found) refl, keeps r revoked)
    | inr other ↦ (r, find-update_where f same_key k j rows ∙ rw other found, revoked)
  ]

  update_agent-IsRevoked :
      (db : Db) → IsRevoked j db.agents → IsRevoked j (update_agent f k db).1.agents
  unfolding update_agent
  update_agent-IsRevoked db h = elim (Bool-cases (is_some (find (has_key k) db.agents))) [
    | inl found ↦ rw found (updated-IsRevoked db.agents h)
    | inr missing ↦ rw missing h
  ]

pub revoke_agent-IsRevoked :
    (agent_id revoked_at j : Text) (db : Db)
    → IsRevoked j db.agents
    → IsRevoked j (revoke_agent agent_id revoked_at db).1.agents
unfolding revoke_agent
revoke_agent-IsRevoked agent_id revoked_at j db =
    update_agent-IsRevoked _ (λ r. refl) (λ r h. refl) agent_id j db

pub set_agent_visibility-IsRevoked :
    (agent_id : Text) (v : AgentVisibility) (j : Text) (db : Db)
    → IsRevoked j db.agents
    → IsRevoked j (set_agent_visibility agent_id v db).1.agents
unfolding set_agent_visibility
set_agent_visibility-IsRevoked agent_id v j db =
    update_agent-IsRevoked _ (λ r. refl) (λ r h. h) agent_id j db

pub save_agent-IsRevoked :
    (r : AgentRecord) (j : Text) (db : Db)
    → IsRevoked j db.agents
    → IsRevoked j (save_agent r db).1.agents
unfolding save_agent
save_agent-IsRevoked r j db (a, found, revoked) =
    (a, ground (arith, found, find-append_hit (has_key j) db.agents (r ∷ []) {a = a}), revoked)

pub end_rotation-IsRevoked :
    (t : Rotating) (j : Text) (db : Db)
    → IsRevoked j t.before.agents
    → IsRevoked j db.agents
    → IsRevoked j (end_rotation t db).1.agents
unfolding end_rotation then_insert insert_rotation
end_rotation-IsRevoked t j db h h' =
    go (then_insert t.rotation t.saved db).0 _ (inserted t.saved db h')
  where
    go :
        (x : Settled (Unit {0})) (e : Db)
        → IsRevoked j e.agents
        → IsRevoked j (settle_transaction x e t.before).1.agents
    go (returned _) e k = k
    go (rejected c) e k = h

    inserted :
        (saved : Settled (Unit {0})) (e : Db)
        → IsRevoked j e.agents
        → IsRevoked j (then_insert t.rotation saved e).1.agents
    inserted (returned _) e k =
        elim (Bool-cases (
          is_some (find (has_key t.rotation.old_public_key) e.agents)
          && is_some (find (has_key t.rotation.new_public_key) e.agents))) [
            | inl known ↦ rw known k
            | inr missing ↦ rw missing k
          ]
    inserted (rejected c) e k = k
