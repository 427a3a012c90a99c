-- ===== src/DurableSessions/Window.antt =====
-- What a session is, over every backend that keeps the contract.
use openrep.Storage.{same_pair, KeepsSessionKeys, SessionKeyBackend}
use openrep.Prelude.{
  text_eq_refl, ap, ◌∙◌, text_eq_iff, true, refl, arith, ◌+◌, ltb, text_eq, none, leb,
  if◌then◌else◌, ◌≡◌, some, Option, Text, ℕ,
}
use openrep.DurableSessions.{row_for, envelope, set, get_row, get}
use openrep.Records.{SessionKeyRow, EncryptedKeyRecord}
use openrep.Result.{pure, ok, await, ◌>>=◌}

module _ {S : Type 0} (backend : SessionKeyBackend S) (contract : KeepsSessionKeys backend)
    (window_ms : ℕ) where
  open contract use {view}

  -- The envelope of a row that has not expired at `now`.
  abbrev pub live : ℕ → Option SessionKeyRow → Option EncryptedKeyRecord
  live now none = none
  live now (some row) = if leb row.expires_at_epoch_ms now then none else some (envelope row)

  -- The row after a read: gone when it has expired, and extended otherwise.
  abbrev pub after_read : ℕ → ℕ → Option SessionKeyRow → Option SessionKeyRow
  after_read now later none = none
  after_read now later (some row) =
      if leb row.expires_at_epoch_ms now
      then none
      else some (record row { expires_at_epoch_ms = later + window_ms })

  same_row : (a o b w : Text) (s : S) → same_pair a o b w ≡ true → view s b w ≡ view s a o
  same_row a o b w s h =
      let p : a ≡ b = (text_eq_iff a b).0 (ground arith) in
      let q : o ≡ w = (text_eq_iff o w).0 (ground arith) in rw (p, q)

  get_row_cases :
      (now later : ℕ) (a o b w : Text) (s : S) (found : Option SessionKeyRow)
      → view s a o ≡ found
      → ((get_row backend window_ms now later a o found s).0 ≡ ok (live now found))
        × (view (get_row backend window_ms now later a o found s).1 b w
            ≡ (if same_pair a o b w then after_read now later (view s b w) else view s b w))
  unfolding get_row ◌>>=◌ await pure
  get_row_cases now later a o b w s none e = (refl, ground (arith, same_row a o b w s))
  get_row_cases now later a o b w s (some row) e = (
    ground (arith, contract.delete_done a o s, contract.touch_done a o (later + window_ms) s),
    ground (
      arith,
      same_row a o b w s,
      contract.delete_done a o s,
      contract.delete_lem a o s b w,
      contract.touch_done a o (later + window_ms) s,
      contract.touch_lem a o (later + window_ms) s b w,
    ),
  )

  -- Over a backend that keeps its contract, so that none of its reads, extensions and deletions is
  -- refused: a read returns the envelope of the pair's own row exactly when that row has not expired;
  -- it extends that row to a whole window from now, or deletes it when it has expired; and it leaves
  -- the row of every other pair as it was.
  pub get_cases :
      (now later : ℕ) (a o b w : Text) (s : S)
      → ((get backend window_ms now later a o s).0 ≡ ok (live now (view s a o)))
        × (view (get backend window_ms now later a o s).1 b w
            ≡ (if same_pair a o b w then after_read now later (view s b w) else view s b w))
  unfolding get ◌>>=◌ await
  get_cases now later a o b w s =
      rw (contract.get_lem a o s) (get_row_cases now later a o b w s (view s a o) refl)

  module _ (set_at : ℕ) (a o : Text) (r : EncryptedKeyRecord) (s : S)
      (done : (set backend window_ms set_at a o r s).0 ≡ ok tt) where
    own_record : text_eq r.agent_id a ≡ true
    unfolding set
    own_record = ground (arith, done)

    view_after_set :
        (w : Text)
        → view (set backend window_ms set_at a o r s).1 a w
          ≡ (if same_pair a o a w then some (row_for a o r (set_at + window_ms)) else view s a w)
    unfolding set await
    view_after_set w = rw own_record (
        contract.set_lem (row_for a o r (set_at + window_ms)) s a w
          (ground (arith, own_record, done)))

    live_after_set :
        (now : ℕ) (w : Text) (old : Option SessionKeyRow)
        → live now (if same_pair a o a w then some (row_for a o r (set_at + window_ms)) else old)
          ≡ (if text_eq o w
              then (if ltb now (set_at + window_ms) then some r else none)
              else live now old)
    live_after_set now w old =
        let p : r.agent_id ≡ a = (text_eq_iff r.agent_id a).0 own_record in
        rw (text_eq_refl a) (rw (← p) (ground arith))

    -- A session that was set is read back until the window has passed, and not from then on; what
    -- another owner reads for the agent is what its own session held before.
    pub get-set :
        (now later : ℕ) (w : Text)
        → (get backend window_ms now later a w (set backend window_ms set_at a o r s).1).0
          ≡ ok (
              if text_eq o w
              then (if ltb now (set_at + window_ms) then some r else none)
              else live now (view s a w))
    get-set now later w =
        (get_cases now later a w a w (set backend window_ms set_at a o r s).1).0
        ∙ ap ok (rw (view_after_set w) (live_after_set now w (view s a w)))
