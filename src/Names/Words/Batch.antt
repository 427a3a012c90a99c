-- ===== src/Names/Words/Batch.antt =====
-- The names of `generateNameBatch` of packages/sdk/src/names.ts.
use openrep.Prelude.{
  if◌then◌else◌, false, Bool, true, ◌≢◌, refl, zero, [], inr, ◌∙◌, inl, arith, suc, ap, ◌+◌, ◌&&◌,
  none, leb, length-take, ◌⊎◌, ◌∷◌, ◌≡◌, length, some, ◌<◌, Text, ◌≤◌, List, Option, ℕ,
}
use openrep.Names.Words.{
  colors, nouns, adjectives, shuffle, name_of, names_from, batch, max_batch, generate_name_batch,
  FourBytes, word_at,
}
use openrep.Names.Words.Shuffle.{take-IsDrawn, shuffle-IsDrawn, IsDrawn}
use openrep.Names.Words.Apart.{
  colors-distinct, nouns-distinct, word_at-injective, is_distinct, adjectives-distinct,
}

-- Three words of the lists for each name, and none of its words in the same part of another.
pub record IsBatch (count : ℕ) (names : List Text) : Type 0 where
  pub adjective : ℕ → ℕ
  pub noun : ℕ → ℕ
  pub color : ℕ → ℕ
  pub many : length names ≡ count
  pub named :
      (k : ℕ)
      → k < count
      → word_at names k
        ≡ name_of
            (word_at adjectives (adjective k))
            (word_at nouns (noun k))
            (word_at colors (color k))
  pub inside :
      (k : ℕ)
      → k < count
      → (adjective k < length adjectives) × (noun k < length nouns) × (color k < length colors)
  pub apart :
      (j k : ℕ)
      → j < count
      → k < count
      → j ≢ k
      → (word_at adjectives (adjective j) ≢ word_at adjectives (adjective k))
        × (word_at nouns (noun j) ≢ word_at nouns (noun k))
        × (word_at colors (color j) ≢ word_at colors (color k))

length-names_from : (i : ℕ) (ws ns cs : List Text) → length (names_from i ws ns cs) ≡ length ws
length-names_from i [] ns cs = refl
length-names_from i (a ∷ ws) ns cs = ap (λ n. suc n) (length-names_from (suc i) ws ns cs)

word_at-names_from :
    (i : ℕ) (ws ns cs : List Text) (k : ℕ)
    → k < length ws
    → word_at (names_from i ws ns cs) k
      ≡ name_of (word_at ws k) (word_at ns (i + k)) (word_at cs (i + k))
unfolding word_at
word_at-names_from i [] ns cs k h = absurd (omega (arith, h))
word_at-names_from i (a ∷ ws) ns cs zero h =
    ap (λ n. name_of a (word_at ns n) (word_at cs n)) (omega arith)
word_at-names_from i (a ∷ ws) ns cs (suc k) h =
    word_at-names_from (suc i) ws ns cs k (omega (arith, h))
    ∙ ap (λ n. name_of (word_at ws k) (word_at ns n) (word_at cs n)) (omega arith)

word_at-names_of :
    (ws ns cs : List Text) (k : ℕ)
    → k < length ws
    → word_at (names_from 0 ws ns cs) k ≡ name_of (word_at ws k) (word_at ns k) (word_at cs k)
word_at-names_of ws ns cs k h =
    word_at-names_from 0 ws ns cs k h
    ∙ ap (λ n. name_of (word_at ws k) (word_at ns n) (word_at cs n)) (omega arith)

same_name : {a n c a' n' c' : Text} → a ≡ a' → n ≡ n' → c ≡ c' → name_of a n c ≡ name_of a' n' c'
same_name e e' e'' = cc

other_word :
    (l s : List Text) (n : ℕ)
    → is_distinct l ≡ true
    → (d : IsDrawn l s n) → (j k : ℕ) → j < n
    → k < n
    → j ≢ k
    → word_at l (d.place j) ≢ word_at l (d.place k)
other_word l s n e d j k b b' differ same = differ (
    d.once j k b b'
      (word_at-injective l e (d.place j) (d.place k) (d.inside j b) (d.inside k b') same))

joined :
    (count : ℕ) (ws ns cs : List Text)
    → length ws ≡ count
    → IsDrawn adjectives ws count
    → IsDrawn nouns ns count
    → IsDrawn colors cs count
    → IsBatch count (names_from 0 ws ns cs)
joined count ws ns cs e a n c = record {
  adjective = a.place;
  noun = n.place;
  color = c.place;
  many = length-names_from 0 ws ns cs ∙ e;
  named = λ k b.
      word_at-names_of ws ns cs k (omega (arith, e, b))
      ∙ same_name (a.drawn k b) (n.drawn k b) (c.drawn k b);
  inside = λ k b. (a.inside k b, n.inside k b, c.inside k b);
  apart = λ j k b b' d. (
    other_word adjectives ws count adjectives-distinct a j k b b' d,
    other_word nouns ns count nouns-distinct n j k b b' d,
    other_word colors cs count colors-distinct c j k b b' d,
  );
}

in_range : (n m : ℕ) → (leb 1 n && leb n m) ≡ true → (1 ≤ n) × (n ≤ m)
in_range n m h = ground arith

out_of_range : (n m : ℕ) → (leb 1 n && leb n m) ≡ false → ¬ ((1 ≤ n) × (n ≤ m))
out_of_range n m h = ground arith

abbrev pub Batched : ℕ → Option (List Text) → Type 0
Batched count x =
    (((1 ≤ count) × (count ≤ max_batch))
      × (names : List Text) × (x ≡ some names)
      × IsBatch count names)
    ⊎ (¬ ((1 ≤ count) × (count ≤ max_batch)) × (x ≡ none))

module _ (draws : ℕ → FourBytes) where
  batch-IsBatch : (t count : ℕ) → count ≤ max_batch → IsBatch count (batch draws t count)
  batch-IsBatch t count h =
      joined count _ _ _
        (length-take count (shuffle draws t adjectives).0
          (omega (arith, h, (shuffle-IsDrawn draws adjectives t).1)))
        (take-IsDrawn count adjectives _ h (shuffle-IsDrawn draws adjectives t).0)
        (take-IsDrawn count nouns _ h (shuffle-IsDrawn draws nouns _).0)
        (take-IsDrawn count colors _ h (shuffle-IsDrawn draws colors _).0)

  -- A count from 1 to the length of the shortest list gives that many names, each of an adjective, a
  -- noun and a color of the lists, and no two names have the same adjective,
  -- noun or color; any other count is an error.
  pub generate_name_batch-Batched :
      (t count : ℕ) → Batched count (generate_name_batch draws t (some count))
  unfolding generate_name_batch
  generate_name_batch-Batched t count = go (leb 1 count && leb count max_batch) refl
    where
      go :
          (b : Bool)
          → (leb 1 count && leb count max_batch) ≡ b
          → Batched count (if b then some (batch draws t count) else none)
      go true e = inl (
        in_range count max_batch e,
        batch draws t count,
        refl,
        batch-IsBatch t count (in_range count max_batch e).1,
      )
      go false e = inr (out_of_range count max_batch e, refl)
