-- ===== src/Score/Paging.antt =====
-- The loop over the pages of a history ends, and counts each record of it once.
use openrep.Score.{tally, tally_page, after_page, read_pages, is_last, SourceEntry}
use openrep.Platform.{Platform}
use openrep.Storage.{StorageAdapter}
use openrep.Records.{AttestationRecord, Page}
use openrep.Prelude.{
  Bool, map-append, sym, map, if◌then◌else◌, member, ◌∙◌, zero, length-append, text_eq_iff, ltb,
  text_eq, suc, Bool-cases, refl, ◌<◌, length, arith, ◌+◌, ◌≤◌, ap, ◌∷◌, ◌≡◌, ◌++◌, Option, ℕ, List,
  Text, true, false, inl, inr, none, some, [], ◌≢◌,
}
use openrep.Result.{threw, failure, ErrorCode, Fault, Flow, ok, returned, fail, Outcome, pure}
use openrep.Result.Rules.{await_rule}

-- The sources of the entries, and of the records.
abbrev pub sources : List SourceEntry → List Text
sources entries = map (λ (e : SourceEntry). e.source) entries

abbrev pub record_sources : List AttestationRecord → List Text
record_sources items = map (λ (r : AttestationRecord). r.source) items

-- The texts that were seen, and then each new one, in the order of its first place.
unfoldable pub firsts : List Text → List Text → List Text
firsts seen [] = seen
firsts seen (x ∷ xs) = if member x seen then firsts seen xs else firsts (seen ++ x ∷ []) xs

-- How often a text occurs.
unfoldable pub occurrences : Text → List Text → ℕ
occurrences x [] = 0
occurrences x (y ∷ ys) = (if text_eq y x then 1 else 0) + occurrences x ys

-- The count of a source; none is 0.
unfoldable pub count_in : List SourceEntry → Text → ℕ
count_in [] x = 0
count_in (e ∷ entries) x = if text_eq e.source x then e.count else count_in entries x

firsts-append : (seen xs ys : List Text) → firsts seen (xs ++ ys) ≡ firsts (firsts seen xs) ys
unfolding firsts
firsts-append seen [] ys = refl
firsts-append seen (x ∷ xs) ys = elim (Bool-cases (member x seen)) [
  | inl old ↦ rw old (firsts-append seen xs ys)
  | inr new ↦ rw new (firsts-append (seen ++ x ∷ []) xs ys)
]

occurrences-append :
    (x : Text) (ys zs : List Text) → occurrences x (ys ++ zs) ≡ occurrences x ys + occurrences x zs
unfolding occurrences
occurrences-append x [] zs = omega arith
occurrences-append x (y ∷ ys) zs = omega (arith, occurrences-append x ys zs)

same_value : {x y : ℕ × List SourceEntry} → some x ≡ some y → x ≡ y
same_value h = cc

module _ (p : Platform) where
  sources-tally :
      (r : AttestationRecord) (entries : List SourceEntry)
      → sources (tally p r entries) ≡ (
          if member r.source (sources entries)
          then sources entries
          else sources entries ++ r.source ∷ [])
  unfolding tally
  sources-tally r [] = refl
  sources-tally r (e ∷ entries) = ground (arith, sources-tally r entries)

  count_in-tally :
      (r : AttestationRecord) (entries : List SourceEntry) (x : Text)
      → count_in (tally p r entries) x ≡ count_in entries x + (if text_eq r.source x then 1 else 0)
  unfolding count_in tally
  count_in-tally r [] x = ground arith
  count_in-tally r (e ∷ entries) x = ground (
    arith,
    count_in-tally r entries x,
    text_eq_iff e.source r.source,
    text_eq_iff e.source x,
    text_eq_iff r.source x,
  )

  firsts-tally :
      (r : AttestationRecord) (entries : List SourceEntry) (xs : List Text)
      → firsts (sources (tally p r entries)) xs ≡ firsts (sources entries) (r.source ∷ xs)
  unfolding firsts
  firsts-tally r entries xs =
      ap (λ seen. firsts seen xs) (sources-tally r entries)
      ∙ either (member r.source (sources entries)) _ _
    where
      either :
          (b : Bool) (old new : List Text)
          → firsts (if b then old else new) xs ≡ (if b then firsts old xs else firsts new xs)
      either true old new = refl
      either false old new = refl

  -- A page that the cap lets pass has been counted whole.
  record Counted (cap processed n : ℕ) (entries after : List SourceEntry)
      (items : List AttestationRecord) : Type 0 where
    pub number : n ≡ processed + length items
    pub bound : processed ≤ cap → n ≤ cap
    pub order : sources after ≡ firsts (sources entries) (record_sources items)
    pub counts :
        (x : Text) → count_in after x ≡ count_in entries x + occurrences x (record_sources items)

  tally_page-Counted :
      (cap processed n : ℕ) (entries after : List SourceEntry) (items : List AttestationRecord)
      → tally_page p cap processed entries items ≡ some (n, after)
      → Counted cap processed n entries after items
  unfolding tally_page firsts occurrences
  tally_page-Counted cap processed n entries after [] h =
      let e = same_value h in
      let a : processed ≡ n = ap (λ (x : ℕ × List SourceEntry). x.0) e in
      let b : entries ≡ after = ap (λ (x : ℕ × List SourceEntry). x.1) e in
      record {
        number = omega (arith, a);
        bound = λ k. omega (arith, a, k);
        order = ap sources (sym b);
        counts = λ x. rw b (omega arith);
      }
  tally_page-Counted cap processed n entries after (r ∷ items) h =
      elim (Bool-cases (ltb cap (processed + 1))) [
        | inl over ↦ absurd (ground (arith, over, h))
        | inr below ↦
            let c =
              tally_page-Counted cap (processed + 1) n (tally p r entries) after items
                (rw below at h) in
            record {
              number = omega (arith, c.number);
              bound = λ k. c.bound (ground (arith, below));
              order = c.order ∙ firsts-tally r entries (record_sources items);
              counts = λ x. omega (arith, c.counts x, count_in-tally r entries x);
            }
      ]

  module _ {S : Type 0} (storage : StorageAdapter S) (agent_id : Text) (limit : ℕ) where
    -- The records of a history, page by page, each page asked for with the cursor of the one before.
    pub data History : Option ℕ → S → List AttestationRecord → S → Type 0 where
      last_page :
          {cursor : Option ℕ} {s : S} (page : Page)
          → (storage.get_attestations agent_id cursor (some limit) s).0 ≡ returned page
          → is_last p page ≡ true
          → History cursor s page.items (storage.get_attestations agent_id cursor (some limit) s).1
      next_page :
          {cursor : Option ℕ} {s t : S} {items : List AttestationRecord} (page : Page)
          → (storage.get_attestations agent_id cursor (some limit) s).0 ≡ returned page
          → is_last p page ≡ false
          → History page.next_cursor
              (storage.get_attestations agent_id cursor (some limit) s).1
              items
              t
          → History cursor s (page.items ++ items) t

    module _ (cap : ℕ) where
      -- The whole history has been read, within the cap, and every record of it counted once.
      pub record IsRead (cursor : Option ℕ) (processed : ℕ) (before after : List SourceEntry)
          (s t : S) : Type 0 where
        pub items : List AttestationRecord
        pub history : History cursor s items t
        pub number : processed + length items ≤ cap
        pub order : sources after ≡ firsts (sources before) (record_sources items)
        pub counts :
            (x : Text) → count_in after x ≡ count_in before x + occurrences x (record_sources items)

      abbrev pub Ends :
          Option ℕ → ℕ → List SourceEntry → S → Outcome (Option (List SourceEntry)) × S → Type 0
      Ends cursor processed before s x =
          (x.0 ≢ ok none)
          × ((after : List SourceEntry)
              → x.0 ≡ ok (some after)
              → IsRead cursor processed before after s x.1)

      page-Ends :
          (cursor : Option ℕ) (processed : ℕ) (before : List SourceEntry) (s : S) (page : Page)
          (rest : ℕ → List SourceEntry → Flow S (Option (List SourceEntry)))
          → processed ≤ cap
          → (storage.get_attestations agent_id cursor (some limit) s).0 ≡ returned page
          → ((n : ℕ) (entries : List SourceEntry)
              → processed < n
              → n ≤ cap
              → Ends page.next_cursor n entries
                  (storage.get_attestations agent_id cursor (some limit) s).1
                  (rest n entries (storage.get_attestations agent_id cursor (some limit) s).1))
          → (o : Option (ℕ × List SourceEntry)) → tally_page p cap processed before page.items ≡ o
          → Ends cursor processed before s (
              after_page p storage agent_id limit cap page rest o
                (storage.get_attestations agent_id cursor (some limit) s).1)
      unfolding after_page pure fail
      page-Ends cursor processed before s page rest low got more none e =
          (λ h. cc, λ after h. absurd (no_value h))
        where
          no_value : {c : ErrorCode} {v : Option (List SourceEntry)} → ¬ (failure c ≡ ok v)
          no_value h = cc
      page-Ends cursor processed before s page rest low got more (some (n, entries)) e =
          let c = tally_page-Counted cap processed n before entries page.items e in
          elim (Bool-cases (is_last p page)) [
            | inl last ↦ rw last (
              λ h. cc,
              λ after h.
                  let same : entries ≡ after = cc (h) in
                  record {
                    items = page.items;
                    history = last_page page got last;
                    number = omega (arith, c.number, c.bound low);
                    order = rw same at c.order;
                    counts = rw same at c.counts;
                  },
            )
            | inr not_last ↦
                let r = more n entries (positive not_last c.number) (c.bound low) in
                rw not_last (
                  r.0,
                  λ after h.
                      let d = r.1 after h in
                      record {
                        items = page.items ++ d.items;
                        history = next_page page got not_last d.history;
                        number =
                            omega (arith, c.number, d.number, length-append page.items d.items);
                        order =
                            d.order
                            ∙ ap (λ seen. firsts seen (record_sources d.items)) c.order
                            ∙ sym (
                                firsts-append (sources before) (record_sources page.items)
                                  (record_sources d.items))
                            ∙ ap (firsts (sources before)) (sym (map-append _ page.items d.items));
                        counts = λ x. omega (
                          arith,
                          c.counts x,
                          d.counts x,
                          occurrences-append x (record_sources page.items) (record_sources d.items),
                          ap (occurrences x)
                              (map-append (λ (r : AttestationRecord). r.source) page.items d.items),
                        );
                      },
                )
          ]
        where
          positive : is_last p page ≡ false → n ≡ processed + length page.items → processed < n
          positive h k = ground (arith, h, k)

      -- Over any store, with as much fuel as the cap leaves, the loop does not run out of fuel; and
      -- if it ends well it has read the whole history, page after page, not more records than the
      -- cap allows, and counted each record of it once: the sources are in the order of their first
      -- records, and the count of each has grown by the number of its records.
      pub read_pages-Ends :
          (fuel : ℕ) (cursor : Option ℕ) (processed : ℕ) (before : List SourceEntry) (s : S)
          → processed ≤ cap
          → cap + 1 ≤ fuel + processed
          → Ends cursor processed before s
              (read_pages p storage agent_id limit cap fuel cursor processed before s)
      unfolding read_pages
      read_pages-Ends zero cursor processed before s low high = absurd (omega arith)
      read_pages-Ends (suc fuel) cursor processed before s low high =
          await_rule (Ends cursor processed before s)
            (storage.get_attestations agent_id cursor (some limit)) _ s
            (λ page got.
              page-Ends cursor processed before s page _ low got
                (λ n entries more within.
                  read_pages-Ends fuel page.next_cursor n entries _ within (omega arith))
                _ refl)
            (λ e failed. (λ h. cc, λ after h. absurd (threw_no_value h)))
        where
          threw_no_value : {e : Fault} {v : Option (List SourceEntry)} → ¬ (threw e ≡ ok v)
          threw_no_value h = cc
