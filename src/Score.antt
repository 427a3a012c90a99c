-- ===== src/Score.antt =====
-- packages/sdk/src/score.ts: the score of an agent over its whole history.
pub mod Doubles
pub mod Paging
pub mod Composite
use openrep.Platform.{Platform}
use openrep.Storage.{StorageAdapter}
use openrep.Records.{AttestationRecord, Page, RegisteredSource, Double}
use openrep.Attestation.Native.{native_source}
use openrep.Prelude.{
  ◌&&◌, ◌==◌, length, zero, ◌||◌, false, suc, ◌*◌, ltb, is_some, none, any, text_eq, some,
  if◌then◌else◌, not, ◌+◌, [], ◌∷◌, map, Option, Bool, Text, or_else, List, ℕ,
}
use openrep.Result.{
  agent_not_found, require, ◌>>◌, await, score_computation_limit_exceeded, ◌>>=◌, pure, fail, Flow,
}

abbrev pub score_max_attestations : ℕ
score_max_attestations = 50_000

abbrev pub score_page_limit : ℕ
score_page_limit = 1000

-- An entry of `perSource`, the map in the order of insertion.
pub record SourceEntry : Type 0 where
  pub source : Text
  pub count : ℕ
  pub latest : Option Text

-- What `+` and `*` give on doubles, each rounded, and the double of a count.
pub record Arithmetic : Type 0 where
  pub plus : Double → Double → Double
  pub times : Double → Double → Double
  pub of_count : ℕ → Double

abbrev pub double_zero : Double
double_zero = record { is_negative = false; exponent = 0; fraction = 0 }

abbrev pub double_one : Double
double_one = record { is_negative = false; exponent = 1023; fraction = 0 }

pub record ScoreBreakdown : Type 0 where
  pub source : Text
  pub value : ℕ
  pub count : ℕ
  pub last_updated : Text

pub record AgentScore : Type 0 where
  pub agent_id : Text
  pub composite : Double
  pub breakdown : List ScoreBreakdown
  pub computed_at : Text

pub record GetScoreOptions : Type 0 where
  pub page_size : Option ℕ
  pub max_attestations : Option ℕ

-- `Number.isFinite(w)`
abbrev pub is_finite : Double → Bool
is_finite w = not (w.exponent == 2047)

-- `w >= 0` of a finite double; a negative zero is not below zero.
abbrev pub at_least_zero : Double → Bool
at_least_zero w = not w.is_negative || ((w.exponent == 0) && (w.fraction == 0))

abbrev pub usable_weight : Double → Double
usable_weight w = if is_finite w && at_least_zero w then w else double_zero

-- `weightBySource.get(source) ?? 0`: of two entries for one name the later counts.
unfoldable pub registered_weight : Text → Double → List RegisteredSource → Double
registered_weight source w [] = w
registered_weight source w (r ∷ registered) =
    registered_weight source
      (if text_eq r.source_name source then usable_weight r.trust_weight else w) registered

unfoldable pub weight_of : List RegisteredSource → Text → Double
weight_of registered source =
    if text_eq source native_source
    then double_one
    else registered_weight source double_zero registered

-- The sum, from the left.
unfoldable pub composite_of :
    Arithmetic → List RegisteredSource → Double → List SourceEntry → Double
composite_of doubles registered composite [] = composite
composite_of doubles registered composite (e ∷ entries) =
    composite_of doubles registered
      (doubles.plus composite
        (doubles.times (doubles.of_count e.count) (weight_of registered e.source)))
      entries

abbrev pub row_of : SourceEntry → ScoreBreakdown
row_of e = record {
  source = e.source;
  value = e.count;
  count = e.count;
  last_updated = or_else e.latest [];
}

module _ (p : Platform) where
  -- `Date.parse(a) > Date.parse(b)`; a comparison with NaN is false.
  abbrev pub is_later : Text → Text → Bool
  is_later a b = elim (p.parse_date a) [
    | none ↦ false
    | some t ↦ elim (p.parse_date b) [ none ↦ false | some u ↦ ltb u t ]
  ]

  abbrev pub newest : Text → Option Text → Option Text
  newest timestamp none = some timestamp
  newest timestamp (some latest) = if is_later timestamp latest then some timestamp else some latest

  unfoldable pub tally : AttestationRecord → List SourceEntry → List SourceEntry
  tally r [] = record { source = r.source; count = 1; latest = some r.timestamp } ∷ []
  tally r (e ∷ entries) =
      if text_eq e.source r.source
      then record e { count = e.count + 1; latest = newest r.timestamp e.latest } ∷ entries
      else e ∷ tally r entries

  -- The records of a page; `none` is the cap that is exceeded.
  unfoldable pub tally_page :
      ℕ → ℕ → List SourceEntry → List AttestationRecord → Option (ℕ × List SourceEntry)
  tally_page cap processed entries [] = some (processed, entries)
  tally_page cap processed entries (r ∷ items) =
      if ltb cap (processed + 1)
      then none
      else tally_page cap (processed + 1) (tally r entries) items

  abbrev pub is_last : Page → Bool
  is_last page = not (is_some page.next_cursor) || (length page.items == 0)

  module _ {S : Type 0} (storage : StorageAdapter S) (agent_id : Text) (limit cap : ℕ) where
    -- After a page: the cap, the last page, or the next one, which `rest` reads.
    unfoldable pub after_page :
        Page
        → (ℕ → List SourceEntry → Flow S (Option (List SourceEntry)))
        → Option (ℕ × List SourceEntry)
        → Flow S (Option (List SourceEntry))
    after_page page rest none = fail score_computation_limit_exceeded
    after_page page rest (some (processed, entries)) =
        if is_last page then pure (some entries) else rest processed entries

    -- The `while` loop, on fuel; `ok none` is fuel that has run out.
    unfoldable pub read_pages :
        ℕ → Option ℕ → ℕ → List SourceEntry → Flow S (Option (List SourceEntry))
    read_pages zero cursor processed entries = pure none
    read_pages (suc fuel) cursor processed entries = do
      page ← await (storage.get_attestations agent_id cursor (some limit))
      after_page page (read_pages fuel page.next_cursor)
          (tally_page cap processed entries page.items)

  -- Sources are asked for only when a source is not the native one.
  unfoldable pub sources_for :
      {S : Type 0} → StorageAdapter S → List SourceEntry → Flow S (List RegisteredSource)
  sources_for storage entries =
      if any (λ e. not (text_eq e.source native_source)) entries
      then await storage.get_registered_sources
      else pure []

  -- `before` is the order of `localeCompare`, by which the stable sort goes.
  module _ (before : Text → Text → Bool) (doubles : Arithmetic) where
    unfoldable pub insert_row : ScoreBreakdown → List ScoreBreakdown → List ScoreBreakdown
    insert_row x [] = x ∷ []
    insert_row x (y ∷ rows) =
        let rest = insert_row x rows in if before x.source y.source then x ∷ y ∷ rows else y ∷ rest

    unfoldable pub sort_rows : List ScoreBreakdown → List ScoreBreakdown
    sort_rows [] = []
    sort_rows (x ∷ rows) = insert_row x (sort_rows rows)

    abbrev pub score_of : Text → Text → List SourceEntry → List RegisteredSource → AgentScore
    score_of agent_id now entries registered = record {
      agent_id = agent_id;
      composite = composite_of doubles registered double_zero entries;
      breakdown = sort_rows (map row_of entries);
      computed_at = now;
    }

    unfoldable pub scored :
        {S : Type 0}
        → StorageAdapter S
        → Text
        → Text
        → Option (List SourceEntry)
        → Flow S (Option AgentScore)
    scored storage agent_id now none = pure none
    scored storage agent_id now (some entries) = do
      registered ← sources_for storage entries
      pure (some (score_of agent_id now entries registered))

    -- A page that is not the last has a record, so that the cap bounds the pages.
    abbrev pub enough_fuel : ℕ → ℕ
    enough_fuel cap = cap + 2

    unfoldable pub get_score :
        {S : Type 0} → StorageAdapter S → Text → GetScoreOptions → Text → Flow S (Option AgentScore)
    get_score storage agent_id options now = do
      agent ← await (storage.get_agent agent_id)
      require (is_some agent) agent_not_found
      let cap = or_else options.max_attestations score_max_attestations
      pages ←
          read_pages storage agent_id (or_else options.page_size score_page_limit) cap
            (enough_fuel cap) none 0 []
      scored storage agent_id now pages
