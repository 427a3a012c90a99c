-- ===== src/DurableSessions.antt =====
-- packages/sdk/src/session-store-durable.ts: owner-scoped sessions over a session-key backend.
pub mod Window
use openrep.Records.{EncryptedKeyRecord, SessionKeyRow}
use openrep.Prelude.{
  none, ◌+◌, leb, ◌&&◌, ltb, some, text_eq, if◌then◌else◌, or_else, ℕ, Text, Option,
}
use openrep.Storage.{SessionKeyBackend}
use openrep.Result.{◌>>◌, ◌>>=◌, uncoded, threw, await, pure, Flow}

abbrev pub default_session_window_ms : ℕ
default_session_window_ms = 1_800_000

-- The constructor refuses a window that is no positive safe integer.
pub make_window : Option ℕ → Option ℕ
make_window window_ms =
    let w = or_else window_ms default_session_window_ms in
    if ltb 0 w && leb w 9_007_199_254_740_991 then some w else none

abbrev pub envelope : SessionKeyRow → EncryptedKeyRecord
envelope row = record {
  agent_id = row.agent_id;
  encrypted_private_key = row.encrypted_private_key;
  iv = row.iv;
  algorithm = row.algorithm;
  created_at = row.created_at;
}

abbrev pub row_for : Text → Text → EncryptedKeyRecord → ℕ → SessionKeyRow
row_for agent_id owner_user_id r expires = record {
  agent_id = agent_id;
  owner_user_id = owner_user_id;
  encrypted_private_key = r.encrypted_private_key;
  iv = r.iv;
  algorithm = r.algorithm;
  created_at = r.created_at;
  expires_at_epoch_ms = expires;
}

module _ {S : Type 0} (backend : SessionKeyBackend S) (window_ms : ℕ) where
  -- `now` is the clock at the expiry test, and `later` at the slide.
  get_row : ℕ → ℕ → Text → Text → Option SessionKeyRow → Flow S (Option EncryptedKeyRecord)
  get_row now later agent_id owner_user_id none = pure none
  get_row now later agent_id owner_user_id (some row) =
      if leb row.expires_at_epoch_ms now
      then (do await (backend.delete_session_key agent_id owner_user_id); pure none)
      else do
        await (backend.touch_session_key agent_id owner_user_id (later + window_ms))
        pure (some (envelope row))

  pub get : ℕ → ℕ → Text → Text → Flow S (Option EncryptedKeyRecord)
  get now later agent_id owner_user_id = do
    row ← await (backend.get_session_key agent_id owner_user_id)
    get_row now later agent_id owner_user_id row

  -- A record of another agent is refused with an error.
  unfoldable pub set : ℕ → Text → Text → EncryptedKeyRecord → Flow S (Unit {0})
  set now agent_id owner_user_id r =
      if text_eq r.agent_id agent_id
      then await (backend.set_session_key (row_for agent_id owner_user_id r (now + window_ms)))
      else λ s. (threw uncoded, s)

  pub delete : Text → Text → Flow S (Unit {0})
  delete agent_id owner_user_id = await (backend.delete_session_key agent_id owner_user_id)

  pub clear_expired : ℕ → Flow S (Unit {0})
  clear_expired now = await (backend.sweep_expired_session_keys now)
