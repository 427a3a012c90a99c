-- ===== src/Tests/Limiting.antt =====
-- Requests to a limiter of two in a window of ten, and sessions that last as long.
use openrep.Prelude.{String, false, true, ◌≡◌, [], ◌∷◌, text, Text, List, ℕ, arith}
use openrep.RateLimit.Alone.{serve-of_key, of_key}
use openrep.RateLimit.{serve}
use openrep.Sessions.{sweeps, gets, sets, for_agent, StoreCall}
use openrep.Records.{EncryptedKeyRecord}

abbrev requests : List (Text × ℕ)
requests =
    (text "a", 0)
    ∷ (text "b", 1)
    ∷ (text "a", 2)
    ∷ (text "a", 9)
    ∷ (text "b", 9)
    ∷ (text "a", 10)
    ∷ []

serve-of_key_example :
    of_key (text "a") (serve (record { window_ms = 10; max_requests = 2; buckets = [] }) requests)
    ≡ true ∷ true ∷ false ∷ true ∷ []
unfolding openrep.Prelude.text_eq
serve-of_key_example =
    serve-of_key 10 2 (text "a") requests
      (omega arith, (omega arith, (omega arith, (omega arith, (omega arith, (omega arith, tt))))))

abbrev key_of : String → EncryptedKeyRecord
key_of s = record {
  agent_id = text "a";
  encrypted_private_key = text s;
  iv = text "iv";
  algorithm = text "aes-256-gcm";
  created_at = text "now";
}

-- A session that is used in time, and one that is not, with a sweep in between.
abbrev session_calls : List StoreCall
session_calls =
    for_agent (text "a") (sets 0 (key_of "one"))
    ∷ for_agent (text "a") (gets 5 6)
    ∷ sweeps 12
    ∷ for_agent (text "b") (gets 13 13)
    ∷ for_agent (text "a") (gets 15 15)
    ∷ for_agent (text "a") (gets 30 30)
    ∷ []
