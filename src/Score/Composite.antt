-- ===== src/Score/Composite.antt =====
-- What a score is the sum of.
use openrep.Score.{
  double_zero, Arithmetic, read_pages, score_page_limit, score_max_attestations, get_score, scored,
  sources_for, composite_of, weight_of, SourceEntry, AgentScore, GetScoreOptions, score_of,
  enough_fuel,
}
use openrep.Score.Paging.{
  occurrences, record_sources, firsts, count_in, sources, History, IsRead, read_pages-Ends,
}
use openrep.Platform.{Platform}
use openrep.Storage.{StorageAdapter}
use openrep.Records.{Double, AttestationRecord, RegisteredSource, AgentRecord}
use openrep.Result.{pure, ◌>>=◌, Outcome, Fault, ErrorCode, continue, returned, ok, failure, threw}
use openrep.Prelude.{
  Distinct-append, ◌++◌, text_eq_refl, ◌+◌, text_eq_iff, ◌⊎◌, member, Distinct, All, ap, sym, refl,
  Bool-cases, ◌∷◌, is_some, ◌≤◌, ◌∙◌, Option, or_else, arith, length, text_eq, ◌≡◌, not, ℕ, Bool,
  any, List, Text, true, false, none, some, [], inl, inr, ◌≢◌,
}
use openrep.Attestation.Native.{native_source}
use openrep.Result.Rules.{require_rule, await_rule}

-- From the left, for each text in turn, the product of its number and its weight.
unfoldable pub sum_of :
    Arithmetic → List RegisteredSource → (Text → ℕ) → Double → List Text → Double
sum_of doubles registered n sum [] = sum
sum_of doubles registered n sum (x ∷ xs) =
    sum_of doubles registered n
      (doubles.plus sum (doubles.times (doubles.of_count (n x)) (weight_of registered x))) xs

abbrev Agrees : (Text → ℕ) → List SourceEntry → Type 0
Agrees n entries = All (λ (e : SourceEntry). n e.source ≡ e.count) entries

composite_of-sum_of :
    (doubles : Arithmetic) (registered : List RegisteredSource) (n : Text → ℕ)
    (entries : List SourceEntry) (sum : Double)
    → Agrees n entries
    → composite_of doubles registered sum entries
      ≡ sum_of doubles registered n sum (sources entries)
unfolding composite_of sum_of
composite_of-sum_of doubles registered n [] sum h = refl
composite_of-sum_of doubles registered n (e ∷ entries) sum (same, h) =
    composite_of-sum_of doubles registered n entries (added e.count) h
    ∙ ap (λ k. sum_of doubles registered n (added k) (sources entries)) (sym same)
  where
    added : ℕ → Double
    added k = doubles.plus sum (doubles.times (doubles.of_count k) (weight_of registered e.source))

sum_of-cong :
    (doubles : Arithmetic) (registered : List RegisteredSource) (n m : Text → ℕ) (xs : List Text)
    (sum : Double)
    → ((x : Text) → n x ≡ m x)
    → sum_of doubles registered n sum xs ≡ sum_of doubles registered m sum xs
unfolding sum_of
sum_of-cong doubles registered n m [] sum h = refl
sum_of-cong doubles registered n m (x ∷ xs) sum h =
    ap (λ k. sum_of doubles registered n (added k) xs) (h x)
    ∙ sum_of-cong doubles registered n m xs (added (m x)) h
  where
    added : ℕ → Double
    added k = doubles.plus sum (doubles.times (doubles.of_count k) (weight_of registered x))

Agrees-cons :
    (e : SourceEntry) (all entries : List SourceEntry)
    → member e.source (sources entries) ≡ false
    → Agrees (count_in all) entries
    → Agrees (count_in (e ∷ all)) entries
unfolding count_in
Agrees-cons e all [] h k = tt
Agrees-cons e all (x ∷ entries) h (same, k) = (
  ground (arith, h, same, text_eq_iff e.source x.source, text_eq_iff x.source e.source),
  Agrees-cons e all entries (ground (arith, h)) k,
)

Distinct-Agrees :
    (entries : List SourceEntry) → Distinct (sources entries) → Agrees (count_in entries) entries
unfolding count_in
Distinct-Agrees [] h = tt
Distinct-Agrees (e ∷ entries) (new, h) =
    (rw (text_eq_refl e.source) refl, Agrees-cons e entries entries new (Distinct-Agrees entries h))

firsts-Distinct : (seen xs : List Text) → Distinct seen → Distinct (firsts seen xs)
unfolding firsts
firsts-Distinct seen [] h = h
firsts-Distinct seen (x ∷ xs) h = elim (Bool-cases (member x seen)) [
  | inl old ↦ rw old (firsts-Distinct seen xs h)
  | inr new ↦ rw new (firsts-Distinct (seen ++ x ∷ []) xs (Distinct-append seen x h new))
]

-- A source that is not the native one.
abbrev pub has_foreign : List Text → Bool
has_foreign xs = any (λ x. not (text_eq x native_source)) xs

has_foreign-sources :
    (entries : List SourceEntry)
    → any (λ (e : SourceEntry). not (text_eq e.source native_source)) entries
      ≡ has_foreign (sources entries)
has_foreign-sources [] = refl
has_foreign-sources (e ∷ entries) = ground (arith, has_foreign-sources entries)

-- The sum, over the sources in the order of their first records, of the number of the records of
-- the source times its weight.
abbrev pub sum_over : Arithmetic → List RegisteredSource → List AttestationRecord → Double
sum_over doubles registered items =
    sum_of doubles registered (λ x. occurrences x (record_sources items)) double_zero
      (firsts [] (record_sources items))

module _ {S : Type 0} (p : Platform) (before : Text → Text → Bool) (doubles : Arithmetic)
    (storage : StorageAdapter S) (agent_id : Text) (options : GetScoreOptions) (now : Text)
    (s : S) where
  abbrev cap : ℕ
  cap = or_else options.max_attestations score_max_attestations

  abbrev limit : ℕ
  limit = or_else options.page_size score_page_limit

  -- The weights are those of the registered sources, as they are read after the history; with only
  -- native records they are not read, and of no use.
  abbrev pub IsSum : AgentScore → List AttestationRecord → S → Type 0
  IsSum score items after =
      ((has_foreign (firsts [] (record_sources items)) ≡ true)
        × (registered : List RegisteredSource) × ((storage.get_registered_sources after).0
            ≡ returned registered)
        × (score.composite ≡ sum_over doubles registered items))
      ⊎ ((has_foreign (firsts [] (record_sources items)) ≡ false)
          × (score.composite ≡ sum_over doubles [] items))

  -- The agent is stored, its whole history has been read, within the cap, and the composite is the
  -- sum.
  pub record IsScored (score : AgentScore) : Type 0 where
    pub agent : AgentRecord
    pub items : List AttestationRecord
    pub after : S
    pub stored : (storage.get_agent agent_id s).0 ≡ returned (some agent)
    pub history : History p storage agent_id limit none (storage.get_agent agent_id s).1 items after
    pub bound : length items ≤ cap
    pub weight : IsSum score items after

  abbrev pub EndsScored : Outcome (Option AgentScore) × S → Type 0
  EndsScored x = (x.0 ≢ ok none) × ((score : AgentScore) → x.0 ≡ ok (some score) → IsScored score)

  same_score : {a b : AgentScore} → ok (some a) ≡ ok (some b) → a ≡ b
  same_score h = cc

  failed-EndsScored : (c : ErrorCode) (t : S) → EndsScored (failure c, t)
  failed-EndsScored c t = (λ h. cc, λ score h. absurd (no_value h))
    where
      no_value : {v : Option AgentScore} → ¬ (failure c ≡ ok v)
      no_value h = cc

  threw-EndsScored : (e : Fault) (t : S) → EndsScored (threw e, t)
  threw-EndsScored e t = (λ h. cc, λ score h. absurd (no_value h))
    where
      no_value : {v : Option AgentScore} → ¬ (threw e ≡ ok v)
      no_value h = cc

  module _ (agent : AgentRecord)
      (stored : (storage.get_agent agent_id s).0 ≡ returned (some agent)) where
    summed :
        (entries : List SourceEntry) (t u : S) (found : List RegisteredSource)
        (h : IsRead p storage agent_id limit cap none 0 [] entries
          (storage.get_agent agent_id s).1
          t)
        → IsSum (score_of p before doubles agent_id now entries found) h.items t
        → EndsScored (ok (some (score_of p before doubles agent_id now entries found)), u)
    summed entries t u found h sum = (
      λ e. cc,
      λ score e.
          let is : score_of p before doubles agent_id now entries found ≡ score = same_score e in
          let summary : IsScored (score_of p before doubles agent_id now entries found) = record {
            agent = agent;
            items = h.items;
            after = t;
            stored = stored;
            history = h.history;
            bound = omega (arith, h.number);
            weight = sum;
          } in
          rw is at summary,
    )

    composite_of-sum_over :
        (entries : List SourceEntry) (t : S) (registered : List RegisteredSource)
        (h : IsRead p storage agent_id limit cap none 0 [] entries
          (storage.get_agent agent_id s).1
          t)
        → composite_of doubles registered double_zero entries ≡ sum_over doubles registered h.items
    composite_of-sum_over entries t registered h =
        composite_of-sum_of doubles registered (count_in entries) entries double_zero
          (Distinct-Agrees entries (rw h.order (firsts-Distinct [] (record_sources h.items) tt)))
        ∙ ap (sum_of doubles registered (count_in entries) double_zero) h.order
        ∙ sum_of-cong doubles registered (count_in entries) _ _ double_zero
            (λ x. h.counts x ∙ none_before x)
      where
        none_before : (x : Text) {n : ℕ} → count_in [] x + n ≡ n
        none_before x = unfold count_in in omega arith

    foreign_of :
        (entries : List SourceEntry) (t : S) (b : Bool)
        (h : IsRead p storage agent_id limit cap none 0 [] entries
          (storage.get_agent agent_id s).1
          t)
        → any (λ (e : SourceEntry). not (text_eq e.source native_source)) entries ≡ b
        → has_foreign (firsts [] (record_sources h.items)) ≡ b
    foreign_of entries t b h e =
        ap has_foreign (sym h.order) ∙ sym (has_foreign-sources entries) ∙ e

    scored-EndsScored :
        (entries : List SourceEntry) (t : S)
        → IsRead p storage agent_id limit cap none 0 [] entries (storage.get_agent agent_id s).1 t
        → EndsScored (scored p before doubles storage agent_id now (some entries) t)
    unfolding scored sources_for ◌>>=◌ pure
    scored-EndsScored entries t h =
        elim (Bool-cases
          (any (λ (e : SourceEntry). not (text_eq e.source native_source)) entries)) [
            | inl foreign ↦ rw foreign (
                await_rule EndsScored storage.get_registered_sources
                  (λ registered.
                    pure (some (score_of p before doubles agent_id now entries registered)))
                  t
                  (λ found got. summed entries t (storage.get_registered_sources t).1 found h (
                    inl (
                      foreign_of entries t true h foreign,
                      found,
                      got,
                      composite_of-sum_over entries t found h,
                    )))
                  (λ e failed. threw-EndsScored e (storage.get_registered_sources t).1))
            | inr native ↦ rw native (
                summed entries t t [] h
                  (inr (foreign_of entries t false h native, composite_of-sum_over entries t [] h)))
          ]

  pub get_score-EndsScored : EndsScored (get_score p before doubles storage agent_id options now s)
  unfolding get_score
  get_score-EndsScored =
      await_rule EndsScored (storage.get_agent agent_id) _ s
        (λ found stored.
          require_rule EndsScored _ _ _ _ (λ present. present_agent found stored present)
            (λ _. failed-EndsScored _ (storage.get_agent agent_id s).1))
        (λ e failed. threw-EndsScored e (storage.get_agent agent_id s).1)
    where
      pages_scored :
          (agent : AgentRecord)
          → (storage.get_agent agent_id s).0 ≡ returned (some agent)
          → (x : Outcome (Option (List SourceEntry)) × S)
          → (x.0 ≢ ok none)
            × ((after : List SourceEntry)
                → x.0 ≡ ok (some after)
                → IsRead p storage agent_id limit cap none 0 [] after
                    (storage.get_agent agent_id s).1
                    x.1)
          → EndsScored (continue x.0 (scored p before doubles storage agent_id now) x.1)
      pages_scored agent stored (ok none, t) h = absurd (h.0 refl)
      pages_scored agent stored (ok (some entries), t) h =
          scored-EndsScored agent stored entries t (h.1 entries refl)
      pages_scored agent stored (failure c, t) h = failed-EndsScored c t
      pages_scored agent stored (threw e, t) h = threw-EndsScored e t

      present_agent :
          (found : Option AgentRecord)
          → (storage.get_agent agent_id s).0 ≡ returned found
          → is_some found ≡ true
          → EndsScored (
              (read_pages p storage agent_id limit cap (enough_fuel p before doubles cap) none 0 []
                  >>= scored p before doubles storage agent_id now)
                (storage.get_agent agent_id s).1)
      present_agent none stored h = absurd (ground (arith, h))
      present_agent (some agent) stored h =
          unfold ◌>>=◌ in
          pages_scored agent stored _ (
            read_pages-Ends p storage agent_id limit cap (enough_fuel p before doubles cap) none 0
              [] _ (omega arith) (omega arith))
