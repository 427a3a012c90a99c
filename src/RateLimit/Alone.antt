-- ===== src/RateLimit/Alone.antt =====
-- A limiter for one key alone, which forgets nothing, and why the shared one answers like it.
use openrep.Prelude.{
  text_eq_iff, ap₂, sym, get_entry-set_entry_other, get_entry-set_entry, get_entry-keep_entries, ap,
  keep_entries-Distinct, ◌∙◌, set_entry-Distinct, length, inr, inl, set_entry, ltb, Bool-cases, ◌+◌,
  false, get_entry, leb, refl, keys, arith, true, sift, ◌≡◌, Bool, Distinct, text_eq, ◌≤◌,
  if◌then◌else◌, List, Text, Option, ℕ, none, some, [], ◌∷◌,
}
use openrep.RateLimit.{
  is_over, allow_with, serve, sweep_threshold, begin_window, count_request, is_live,
  FixedWindowRateLimiter, Bucket, allow, sweep,
}

abbrev pub of_key : {A : Type 0} → Text → List (Text × A) → List A
of_key k [] = []
of_key k ((j, a) ∷ rest) = if text_eq j k then a ∷ of_key k rest else of_key k rest

-- The times do not go back.
abbrev pub InOrder : ℕ → List (Text × ℕ) → Type 0
InOrder t [] = Unit
InOrder t ((key, now) ∷ rest) = (t ≤ now) × InOrder now rest

module _ (window_ms max_requests : ℕ) where
  -- One request, in the window that is open, if there is one.
  abbrev pub tick : ℕ → Option Bucket → Bool × Bucket
  tick now none = (true, record { window_start = now; count = 1 })
  tick now (some b) =
      if leb max_requests b.count then (false, b) else (true, record b { count = b.count + 1 })

  abbrev pub open_window : ℕ → Option Bucket → Option Bucket
  open_window now o = sift (is_live window_ms now) o

  abbrev pub alone : Option Bucket → List ℕ → List Bool
  alone o [] = []
  alone o (now ∷ times) = let r = tick now (open_window now o) in r.0 ∷ alone (some r.1) times

  open_window-later :
      (t t' : ℕ) (o : Option Bucket) → t ≤ t' → open_window t' (open_window t o) ≡ open_window t' o
  open_window-later t t' none h = refl
  open_window-later t t' (some b) h = ground (arith, h)

  limiter : List (Text × Bucket) → FixedWindowRateLimiter
  limiter buckets = record { window_ms = window_ms; max_requests = max_requests; buckets = buckets }

  open_window-twice :
      (now : ℕ) (o : Option Bucket) → open_window now (open_window now o) ≡ open_window now o
  open_window-twice now o = open_window-later now now o (omega arith)

  sweep-open_window :
      (now : ℕ) (m : List (Text × Bucket))
      → Distinct (keys m)
      → (sweep now (limiter m) ≡ limiter (sweep now (limiter m)).buckets)
        × Distinct (keys (sweep now (limiter m)).buckets)
        × ((k : Text)
            → open_window now (get_entry k (sweep now (limiter m)).buckets)
              ≡ open_window now (get_entry k m))
  unfolding sweep limiter
  sweep-open_window now m d = elim (Bool-cases (ltb (length m) sweep_threshold)) [
    | inl few ↦ rw few (refl, d, λ k. refl)
    | inr many ↦ rw many (
      refl,
      keep_entries-Distinct (is_live window_ms now) m d,
      λ k.
          ap (open_window now) (get_entry-keep_entries (is_live window_ms now) k m d)
          ∙ open_window-twice now (get_entry k m),
    )
  ]

  -- What a request of `j` comes to, by the window that is open for it.
  record Answers (now : ℕ) (j : Text) (m : List (Text × Bucket)) (r : Bool × FixedWindowRateLimiter)
      : Type 0 where
    same : r.1 ≡ limiter r.1.buckets
    distinct : Distinct (keys r.1.buckets)
    answer : r.0 ≡ (tick now (open_window now (get_entry j m))).0
    own :
        open_window now (get_entry j r.1.buckets)
        ≡ open_window now (some (tick now (open_window now (get_entry j m))).1)
    other :
        (k : Text)
        → text_eq j k ≡ false
        → open_window now (get_entry k r.1.buckets) ≡ open_window now (get_entry k m)

  begin_window-Answers :
      (now : ℕ) (j : Text) (m : List (Text × Bucket))
      → Distinct (keys m)
      → open_window now (get_entry j m) ≡ none
      → Answers now j m (begin_window j now (limiter m))
  unfolding begin_window limiter
  begin_window-Answers now j m d closed = record {
    same = swept.0;
    distinct = swept.1;
    answer = rw closed refl;
    own = rw closed (swept.2 j ∙ ap (open_window now) (get_entry-set_entry j fresh m));
    other = λ k h. swept.2 k ∙ ap (open_window now) (get_entry-set_entry_other k j fresh m h);
  }
    where
      fresh : Bucket
      fresh = record { window_start = now; count = 1 }

      swept :
          (sweep now (limiter (set_entry j fresh m))
            ≡ limiter (sweep now (limiter (set_entry j fresh m))).buckets)
          × Distinct (keys (sweep now (limiter (set_entry j fresh m))).buckets)
          × ((k : Text)
              → open_window now (get_entry k (sweep now (limiter (set_entry j fresh m))).buckets)
                ≡ open_window now (get_entry k (set_entry j fresh m)))
      swept = sweep-open_window now (set_entry j fresh m) (set_entry-Distinct j fresh m d)

  tick_full :
      (now : ℕ) (b : Bucket) → leb max_requests b.count ≡ true → tick now (some b) ≡ (false, b)
  tick_full now b full = rw full refl

  tick_free :
      (now : ℕ) (b : Bucket)
      → leb max_requests b.count ≡ false
      → tick now (some b) ≡ (true, record b { count = b.count + 1 })
  tick_free now b free = rw free refl

  -- The answer and the bucket that are left when the window of a bucket is open.
  module _ (now : ℕ) {o : Option Bucket} {b : Bucket} {x : Bool × Bucket} (opened : o ≡ some b)
      (t : tick now (some b) ≡ x) where
    ticked : tick now o ≡ x
    ticked = ap (tick now) opened ∙ t

    left_over : open_window now (some (tick now o).1) ≡ open_window now (some x.1)
    left_over = ap (λ r. open_window now (some r.1)) ticked

  count_request-Answers :
      (now : ℕ) (j : Text) (b : Bucket) (m : List (Text × Bucket))
      → Distinct (keys m)
      → get_entry j m ≡ some b
      → open_window now (get_entry j m) ≡ some b
      → Answers now j m (count_request j b (limiter m))
  unfolding count_request limiter
  count_request-Answers now j b m d found opened = elim (Bool-cases (leb max_requests b.count)) [
    | inl full ↦ rw full (record {
      same = refl;
      distinct = d;
      answer = sym (ap (λ r. r.0) (ticked now opened (tick_full now b full)));
      own = ap (open_window now) found ∙ sym (left_over now opened (tick_full now b full));
      other = λ k h. refl;
    })
    | inr free ↦ rw free (record {
      same = refl;
      distinct = set_entry-Distinct j counted m d;
      answer = sym (ap (λ r. r.0) (ticked now opened (tick_free now b free)));
      own =
          ap (open_window now) (get_entry-set_entry j counted m)
          ∙ sym (left_over now opened (tick_free now b free));
      other = λ k h. ap (open_window now) (get_entry-set_entry_other k j counted m h);
    })
  ]
    where
      counted : Bucket
      counted = record b { count = b.count + 1 }

  closed : (now : ℕ) (b : Bucket) → is_over window_ms now b ≡ true → open_window now (some b) ≡ none
  closed now b h = rw h refl

  opened :
      (now : ℕ) (b : Bucket) → is_over window_ms now b ≡ false → open_window now (some b) ≡ some b
  opened now b h = rw h refl

  allow-Answers :
      (now : ℕ) (j : Text) (m : List (Text × Bucket))
      → Distinct (keys m)
      → Answers now j m (allow j now (limiter m))
  unfolding allow allow_with limiter
  allow-Answers now j m d = go (get_entry j m) refl
    where
      go :
          (o : Option Bucket) → get_entry j m ≡ o → Answers now j m (allow_with j now (limiter m) o)
      go none e = begin_window-Answers now j m d (ap (open_window now) e)
      go (some b) e = elim (Bool-cases (is_over window_ms now b)) [
        | inl over ↦
            rw over (begin_window-Answers now j m d (ap (open_window now) e ∙ closed now b over))
        | inr live ↦
            rw live
              (count_request-Answers now j b m d e (ap (open_window now) e ∙ opened now b live))
      ]

  -- What is to show of the requests that follow, for a key, at a time.
  abbrev Follows : Text → ℕ → List (Text × ℕ) → Type 0
  Follows k now requests =
      (o : Option Bucket) (m : List (Text × Bucket))
      → Distinct (keys m)
      → open_window now (get_entry k m) ≡ open_window now o
      → of_key k (serve (limiter m) requests) ≡ alone o (of_key k requests)

  module _ (k : Text) (o : Option Bucket) (now : ℕ) (m : List (Text × Bucket))
      (requests : List (Text × ℕ)) (follows : Follows k now requests)
      (at_now : open_window now (get_entry k m) ≡ open_window now o) where
    own_request :
        Answers now k m (allow k now (limiter m))
        → ((allow k now (limiter m)).0 ∷ of_key k (serve (allow k now (limiter m)).1 requests))
          ≡ alone o (now ∷ of_key k requests)
    own_request a =
        ap₂ (λ b bs. b ∷ bs) (a.answer ∙ ap (λ w. (tick now w).0) at_now)
          (ap (λ l. of_key k (serve l requests)) a.same
            ∙ follows (some (tick now (open_window now o)).1) (allow k now (limiter m)).1.buckets
                a.distinct (a.own ∙ ap (λ w. open_window now (some (tick now w).1)) at_now))

    other_request :
        (j : Text)
        → text_eq j k ≡ false
        → Answers now j m (allow j now (limiter m))
        → of_key k (serve (allow j now (limiter m)).1 requests) ≡ alone o (of_key k requests)
    other_request j other a =
        ap (λ l. of_key k (serve l requests)) a.same
        ∙ follows o (allow j now (limiter m)).1.buckets a.distinct (a.other k other ∙ at_now)

  -- From any state of the shared limiter, on the window of a key.
  serve-alone :
      (k : Text) (t : ℕ) (requests : List (Text × ℕ)) → InOrder t requests → Follows k t requests
  unfolding serve
  serve-alone k t [] h o m d e = refl
  serve-alone k t ((j, now) ∷ requests) (later, h) o m d e = elim (Bool-cases (text_eq j k)) [
    | inl own ↦
        rw (own, (text_eq_iff j k).0 own)
          (own_request k o now m requests (serve-alone k now requests h) at_now
            (allow-Answers now k m d))
    | inr other ↦ rw other (
        other_request k o now m requests (serve-alone k now requests h) at_now j other
          (allow-Answers now j m d))
  ]
    where
      at_now : open_window now (get_entry k m) ≡ open_window now o
      at_now =
          sym (open_window-later t now (get_entry k m) later)
          ∙ ap (open_window now) e
          ∙ open_window-later t now o later

-- On requests whose times do not go back, the answers of a new limiter to the requests of a key are
-- those of a limiter for that key alone that never forgets a bucket: neither the other keys nor the
-- sweep, whenever it runs, changes an answer.
pub serve-of_key :
    (window_ms max_requests : ℕ) (k : Text) (requests : List (Text × ℕ))
    → InOrder 0 requests
    → of_key k (
        serve
          (record { window_ms = window_ms; max_requests = max_requests; buckets = [] })
          requests)
      ≡ alone window_ms max_requests none (of_key k requests)
unfolding limiter
serve-of_key window_ms max_requests k requests h =
    serve-alone window_ms max_requests k 0 requests h none [] tt refl
