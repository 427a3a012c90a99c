-- ===== src/Sessions/Alone.antt =====
-- The session of one agent alone, of which nothing is ever pruned, and why the store answers like it.
use openrep.Prelude.{
  keys, get_entry, false, Distinct, ◌≡◌, text_eq, if◌then◌else◌, sift, ◌+◌, ◌≤◌, Text, Option, List,
  ℕ, none, some, [], ◌∷◌,
}
use openrep.Sessions.{
  answers, sweeps, deletes, is_alive, sets, for_agent, InMemorySessionKeyStore, gets, SessionEntry,
  StoreCall, SessionCall,
}
use openrep.Records.{EncryptedKeyRecord}

-- The calls for an agent.
abbrev pub of_agent : Text → List StoreCall → List SessionCall
of_agent k [] = []
of_agent k (for_agent j c ∷ calls) = if text_eq j k then c ∷ of_agent k calls else of_agent k calls
of_agent k (sweeps now ∷ calls) = of_agent k calls

abbrev pub answers_of :
    Text → List (Text × Option EncryptedKeyRecord) → List (Option EncryptedKeyRecord)
answers_of k [] = []
answers_of k ((j, a) ∷ rest) = if text_eq j k then a ∷ answers_of k rest else answers_of k rest

-- The clock does not go back from a time, through the calls.
abbrev pub FromTime : ℕ → List StoreCall → Type 0
FromTime t [] = Unit
FromTime t (for_agent j (gets now later) ∷ calls) = (t ≤ now) × (now ≤ later) × FromTime later calls
FromTime t (for_agent j (sets now r) ∷ calls) = (t ≤ now) × FromTime now calls
FromTime t (for_agent j deletes ∷ calls) = FromTime t calls
FromTime t (sweeps now ∷ calls) = (t ≤ now) × FromTime now calls

module _ (window_ms : ℕ) where
  abbrev pub alive : ℕ → Option SessionEntry → Option SessionEntry
  alive now o = sift (is_alive now) o

  abbrev pub read : ℕ → Option SessionEntry → Option EncryptedKeyRecord × Option SessionEntry
  read later none = (none, none)
  read later (some e) = (some e.key_record, some (record e { expires_at = later + window_ms }))

  abbrev pub call_alone :
      SessionCall → Option SessionEntry → Option EncryptedKeyRecord × Option SessionEntry
  call_alone (gets now later) o = read later (alive now o)
  call_alone (sets now r) o = (none, some (record { key_record = r; expires_at = now + window_ms }))
  call_alone deletes o = (none, none)

  abbrev pub alone : Option SessionEntry → List SessionCall → List (Option EncryptedKeyRecord)
  alone o [] = []
  alone o (c ∷ calls) = let r = call_alone c o in r.0 ∷ alone r.1 calls

  unfoldable store : List (Text × SessionEntry) → InMemorySessionKeyStore
  store entries = record { entries = entries; window_ms = window_ms }

  -- What a call for an agent comes to, up to a time, if it is to answer and to leave `y`.
  record Does (t : ℕ) (j : Text) (m : List (Text × SessionEntry))
      (y : Option EncryptedKeyRecord × Option SessionEntry)
      (x : Option EncryptedKeyRecord × InMemorySessionKeyStore) : Type 0 where
    same : x.1 ≡ store x.1.entries
    distinct : Distinct (keys x.1.entries)
    answer : x.0 ≡ y.0
    own : alive t (get_entry j x.1.entries) ≡ alive t y.1
    other : (k : Text) → text_eq j k ≡ false → get_entry k x.1.entries ≡ get_entry k m

  -- What is to show of the calls that follow, for an agent, from a time.
  abbrev Follows : Text → ℕ → List StoreCall → Type 0
  Follows k t calls =
      (o : Option SessionEntry) (m : List (Text × SessionEntry))
      → Distinct (keys m)
      → alive t (get_entry k m) ≡ alive t o
      → answers_of k (answers (store m) calls) ≡ alone o (of_agent k calls)
