-- ===== src/Sessions.antt =====
-- packages/sdk/src/session-store.ts: the class `InMemorySessionKeyStore`.
pub mod Alone
use openrep.Prelude.{
  ◌∷◌, ◌&&◌, ltb, ◌+◌, or_else, set_entry, get_entry, leb, if◌then◌else◌, not, [], delete_entry,
  keep_entries, Bool, Text, List, Option, ℕ, none, some,
}
use openrep.Records.{EncryptedKeyRecord}
use openrep.DurableSessions.{default_session_window_ms}

pub record SessionEntry : Type 0 where
  pub key_record : EncryptedKeyRecord
  pub expires_at : ℕ

pub record InMemorySessionKeyStore : Type 0 where
  pub entries : List (Text × SessionEntry)
  pub window_ms : ℕ

-- The constructor refuses a window that is no positive safe integer.
pub make_store : Option ℕ → Option InMemorySessionKeyStore
make_store window_ms =
    let w = or_else window_ms default_session_window_ms in
    if ltb 0 w && leb w 9_007_199_254_740_991
    then some (record { entries = []; window_ms = w })
    else none

abbrev pub is_expired : ℕ → SessionEntry → Bool
is_expired now e = leb e.expires_at now

abbrev pub is_alive : ℕ → SessionEntry → Bool
is_alive now e = not (is_expired now e)

abbrev pub put_entry : Text → SessionEntry → InMemorySessionKeyStore → InMemorySessionKeyStore
put_entry agent_id e s = record s { entries = set_entry agent_id e s.entries }

unfoldable pub delete : Text → InMemorySessionKeyStore → InMemorySessionKeyStore
delete agent_id s = record s { entries = delete_entry agent_id s.entries }

-- `now` is the clock at the expiry test, and `later` at the slide.
unfoldable pub get_with :
    ℕ
    → ℕ
    → Text
    → InMemorySessionKeyStore
    → Option SessionEntry
    → Option EncryptedKeyRecord × InMemorySessionKeyStore
get_with now later agent_id s none = (none, s)
get_with now later agent_id s (some e) =
    if is_expired now e
    then (none, delete agent_id s)
    else (some e.key_record, put_entry agent_id (record e { expires_at = later + s.window_ms }) s)

unfoldable pub get :
    ℕ → ℕ → Text → InMemorySessionKeyStore → Option EncryptedKeyRecord × InMemorySessionKeyStore
get now later agent_id s = get_with now later agent_id s (get_entry agent_id s.entries)

unfoldable pub set :
    ℕ → Text → EncryptedKeyRecord → InMemorySessionKeyStore → InMemorySessionKeyStore
set now agent_id r s =
    put_entry agent_id (record { key_record = r; expires_at = now + s.window_ms }) s

unfoldable pub clear_expired : ℕ → InMemorySessionKeyStore → InMemorySessionKeyStore
clear_expired now s = record s { entries = keep_entries (is_alive now) s.entries }

-- The calls, with the clock that each reads.
pub data SessionCall : Type 0 where
  gets : (now : ℕ) → (later : ℕ) → SessionCall
  sets : (now : ℕ) → EncryptedKeyRecord → SessionCall
  deletes : SessionCall

-- A call for an agent, or a sweep.
pub data StoreCall : Type 0 where
  for_agent : Text → SessionCall → StoreCall
  sweeps : ℕ → StoreCall

unfoldable pub call :
    Text
    → SessionCall
    → InMemorySessionKeyStore
    → Option EncryptedKeyRecord × InMemorySessionKeyStore
call agent_id (gets now later) s = get now later agent_id s
call agent_id (sets now r) s = (none, set now agent_id r s)
call agent_id deletes s = (none, delete agent_id s)

-- What the calls for agents return.
unfoldable pub answers :
    InMemorySessionKeyStore → List StoreCall → List (Text × Option EncryptedKeyRecord)
answers s [] = []
answers s (for_agent agent_id c ∷ calls) =
    let r = call agent_id c s in (agent_id, r.0) ∷ answers r.1 calls
answers s (sweeps now ∷ calls) = answers (clear_expired now s) calls
