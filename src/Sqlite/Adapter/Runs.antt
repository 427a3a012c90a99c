-- ===== src/Sqlite/Adapter/Runs.antt =====
-- What holds of the tables after any sequence of writes.
use openrep.Sqlite.Adapter.{
  ending, begin_on, beginning, writing, Move, then_move, Connection, sweeping, deleting_key,
  touching_key, setting_key, registering, attesting, showing, revoking, start, saving_agent, Step,
  Run, sqlite,
}
use openrep.Sqlite.Tables.{empty, Db, IsIntact}
use openrep.Prelude.{
  inr, inl, some, none, Option, append_assoc, append-nil, ap, sym, [], ◌++◌, ◌≡◌, Text, List, arith,
  ◌∙◌,
}
use openrep.Sqlite.Agents.Integrity.{
  end_rotation-IsIntact, set_agent_visibility-IsIntact, revoke_agent-IsIntact, save_agent-IsIntact,
}
use openrep.Sqlite.Attestations.Integrity.{
  save_attestation_agents, get_registered_sources_keeps, save_registered_source_elsewhere,
  save_attestation_appends, get_attestation_by_idempotency_key_keeps, get_attestations_keeps,
  save_registered_source-IsIntact, save_attestation-IsIntact,
}
use openrep.Sqlite.SessionKeys.Custody.{
  sweep_expired_session_keys_elsewhere, delete_session_key_elsewhere, touch_session_key_elsewhere,
  set_session_key_elsewhere, sweep_expired_session_keys-IsIntact, delete_session_key-IsIntact,
  touch_session_key-IsIntact, set_session_key-IsIntact,
}
use openrep.Storage.{ReadsKeepState}
use openrep.Sqlite.Agents.Ledger.{
  end_rotation_ledger, save_agent_refusal, set_agent_visibility_ledger, get_agent_by_name_keeps,
  revoke_agent_ledger, get_agent_keeps, save_agent_ledger,
}
use openrep.Sqlite.Agents.Revoked.{
  end_rotation-IsRevoked, set_agent_visibility-IsRevoked, revoke_agent-IsRevoked,
  save_agent-IsRevoked, IsRevoked,
}
use openrep.Records.{KeyRotationRecord, AgentRecord, AttestationRecord}
use openrep.Result.{rejected, Fault}
use openrep.Sqlite.Agents.{begin_rotation, end_rotation, Rotating}

empty-IsIntact : IsIntact empty
empty-IsIntact = record {
  unique_keys = tt;
  unique_names = tt;
  lineage = tt;
  authors = tt;
  keys_once = tt;
  row_ids = omega arith;
  custody = tt;
}

Step-IsIntact : (d e : Db) → Step d e → IsIntact d → IsIntact e
Step-IsIntact d _ (saving_agent r) = save_agent-IsIntact r d
Step-IsIntact d _ (revoking k t) = revoke_agent-IsIntact k t d
Step-IsIntact d _ (showing k v) = set_agent_visibility-IsIntact k v d
Step-IsIntact d _ (attesting r) = save_attestation-IsIntact r d
Step-IsIntact d _ (registering r) = save_registered_source-IsIntact r d
Step-IsIntact d _ (setting_key row) = set_session_key-IsIntact row d
Step-IsIntact d _ (touching_key a o e) = touch_session_key-IsIntact a o e d
Step-IsIntact d _ (deleting_key a o) = delete_session_key-IsIntact a o d
Step-IsIntact d _ (sweeping b) = sweep_expired_session_keys-IsIntact b d

-- A fact about the tables, and about those that a roll back would bring back.
abbrev pub Stands : (Db → Type 0) → Connection → Type 0
Stands P c = P c.db × Restores P c.rotating
  where
    Restores : (Db → Type 0) → Option Rotating → Type 0
    Restores P none = Unit
    Restores P (some t) = P t.before

-- What every write keeps, and a save, and an end of a rotation, every run keeps.
module _ (P : Db → Type 0) (step : (d e : Db) → Step d e → P d → P e)
    (finish : (t : Rotating) (db : Db) → P t.before → P db → P (end_rotation t db).1) where
  begin_on-Stands :
      (r : AgentRecord) (x : KeyRotationRecord) (o : Option Rotating) (db : Db)
      → Stands P (record { db = db; rotating = o })
      → Stands P (begin_on r x o db)
  unfolding begin_rotation
  begin_on-Stands r x (some t) db h = h
  begin_on-Stands r x none db (h, _) = (step db _ (saving_agent r) h, h)

  end-Stands :
      (t : Rotating) (o : Option Rotating) (db : Db)
      → o ≡ some t
      → Stands P (record { db = db; rotating = o })
      → P (end_rotation t db).1
  end-Stands t none db e h = absurd cc
  end-Stands t (some u) db e h = let same : u ≡ t = cc in finish t db (rw same at h.1) h.0

  Move-Stands : (c d : Connection) → Move c d → Stands P c → Stands P d
  Move-Stands c _ (writing {e = e} w) h = (step c.db e w h.0, h.1)
  Move-Stands c _ (beginning r x) h = begin_on-Stands r x c.rotating c.db h
  Move-Stands c _ (ending t e) h = (end-Stands t c.rotating c.db e h, tt)

  Run-Stands : (c d : Connection) → Run c d → Stands P c → Stands P d
  Run-Stands c _ start h = h
  Run-Stands c _ (then_move {d = d} {e = e} run move) h =
      Move-Stands d e move (Run-Stands c d run h)

abbrev pub fresh_connection : Connection
fresh_connection = record { db = empty; rotating = none }

-- After any writes on an empty store, accepted or refused, sessions included, and before, inside of
-- and after rotations that commit or roll back: no two agents have the same key or the same name,
-- rotations, attestations and session keys refer to stored agents, no idempotency key is used twice
-- for one agent, and the row ids of the attestations ascend; and so it is of the tables that a roll
-- back would bring back.
pub schema_holds : (c : Connection) → Run fresh_connection c → Stands IsIntact c
schema_holds c run =
    Run-Stands IsIntact Step-IsIntact end_rotation-IsIntact fresh_connection c run
      (empty-IsIntact, tt)

Step-IsRevoked : (k : Text) (d e : Db) → Step d e → IsRevoked k d.agents → IsRevoked k e.agents
Step-IsRevoked k d _ (saving_agent r) = save_agent-IsRevoked r k d
Step-IsRevoked k d _ (revoking j t) = revoke_agent-IsRevoked j t k d
Step-IsRevoked k d _ (showing j v) = set_agent_visibility-IsRevoked j v k d
Step-IsRevoked k d _ (attesting r) = λ h. rw (save_attestation_agents r d) h
Step-IsRevoked k d _ (registering r) = λ h. rw (save_registered_source_elsewhere r d).0 h
Step-IsRevoked k d _ (setting_key row) = λ h. rw (set_session_key_elsewhere row d).0 h
Step-IsRevoked k d _ (touching_key a o e) = λ h. rw (touch_session_key_elsewhere a o e d).0 h
Step-IsRevoked k d _ (deleting_key a o) = λ h. rw (delete_session_key_elsewhere a o d).0 h
Step-IsRevoked k d _ (sweeping b) = λ h. rw (sweep_expired_session_keys_elsewhere b d).0 h

abbrev pub Revoked : Text → Db → Type 0
Revoked k db = IsRevoked k db.agents

-- An agent that is stored as revoked, and would be after a roll back of a rotation that is under way,
-- stays so for good: whatever is written afterwards, also while rotations are under way that commit
-- or roll back, no write brings a revoked key back.
pub revocation_is_permanent :
    (k : Text) (c d : Connection) → Run c d → Stands (Revoked k) c → Stands (Revoked k) d
revocation_is_permanent k c d run h =
    Run-Stands (Revoked k) (Step-IsRevoked k) (λ t db h h'. end_rotation-IsRevoked t k db h h') c d
      run h

abbrev pub Grows : List AttestationRecord → List AttestationRecord → Type 0
Grows old new = (added : List AttestationRecord) × (new ≡ old ++ added)

same_rows : {old new : List AttestationRecord} → new ≡ old → Grows old new
same_rows {old} h = ([], h ∙ sym (append-nil old))

Step-Grows : (d e : Db) → Step d e → Grows d.attestations e.attestations
Step-Grows d _ (saving_agent r) = same_rows (save_agent_ledger r d)
Step-Grows d _ (revoking j t) = same_rows (revoke_agent_ledger j t d)
Step-Grows d _ (showing j v) = same_rows (set_agent_visibility_ledger j v d)
Step-Grows d _ (attesting r) = save_attestation_appends r d
Step-Grows d _ (registering r) = same_rows (save_registered_source_elsewhere r d).1
Step-Grows d _ (setting_key row) = same_rows (set_session_key_elsewhere row d).1
Step-Grows d _ (touching_key a o e) = same_rows (touch_session_key_elsewhere a o e d).1
Step-Grows d _ (deleting_key a o) = same_rows (delete_session_key_elsewhere a o d).1
Step-Grows d _ (sweeping b) = same_rows (sweep_expired_session_keys_elsewhere b d).1

-- The ledger starts with these attestations, in this order.
abbrev pub StartsWith : List AttestationRecord → Db → Type 0
StartsWith old db = Grows old db.attestations

Step-StartsWith :
    (old : List AttestationRecord) (d e : Db) → Step d e → StartsWith old d → StartsWith old e
Step-StartsWith old d e step (first, h) =
    let (second, h') = Step-Grows d e step in
    (first ++ second, h' ∙ ap (λ xs. xs ++ second) h ∙ append_assoc old first second)

end_rotation-StartsWith :
    (old : List AttestationRecord) (t : Rotating) (db : Db)
    → StartsWith old t.before
    → StartsWith old db
    → StartsWith old (end_rotation t db).1
end_rotation-StartsWith old t db (a, h) (b, k) = elim (end_rotation_ledger t db) [
  | inl kept ↦ (b, kept ∙ k)
  | inr back ↦ (a, back ∙ h)
]

-- The ledger is append-only: attestations that are stored, and would be after a roll back of a
-- rotation that is under way, stay stored, in their place and unchanged, whatever is written
-- afterwards, also while rotations are under way that commit or roll back.
pub ledger_is_append_only :
    (old : List AttestationRecord) (c d : Connection)
    → Run c d
    → Stands (StartsWith old) c
    → Stands (StartsWith old) d
ledger_is_append_only old c d run h =
    Run-Stands (StartsWith old) (Step-StartsWith old) (end_rotation-StartsWith old) c d run h

-- A read of the adapter leaves the tables as they are.
pub sqlite_reads : ReadsKeepState sqlite
unfolding sqlite
sqlite_reads = record {
  agent = λ k s. get_agent_keeps k s;
  name = λ k s. get_agent_by_name_keeps k s;
  history = λ k c l s. get_attestations_keeps k c l s;
  key = λ k i s. get_attestation_by_idempotency_key_keeps k i s;
  sources = λ s. get_registered_sources_keeps s;
}

-- A refused save leaves the tables as they are.
pub sqlite_refusals :
    (r : AgentRecord) (db : Db) (e : Fault)
    → (sqlite.save_agent r db).0 ≡ rejected e
    → (sqlite.save_agent r db).1 ≡ db
unfolding sqlite
sqlite_refusals = save_agent_refusal
