-- ===== src/Names/Words/Shuffle.antt =====
-- What the swaps of `shuffle` do, as a map of places.
use openrep.Prelude.{
  inl, inr, ◌⊎◌, ℕ, zero, suc, ◌+◌, ◌-◌, ◌<◌, ◌≡◌, ◌==◌, refl, ap, ◌∙◌, List, [], ◌∷◌, Text, length,
  if◌then◌else◌, take, arith, ◌≤◌,
}
use openrep.Names.Words.{
  FourBytes, pick_index, unsigned, word_at, set_elem, swap, shuffle_down, shuffle,
}
use native.Mathlib.Nat.{mod-lt}

length-set_elem : (l : List Text) (i : ℕ) (w : Text) → length (set_elem l i w) ≡ length l
unfolding set_elem
length-set_elem [] i w = refl
length-set_elem (v ∷ l) zero w = refl
length-set_elem (v ∷ l) (suc i) w = ap (λ n. suc n) (length-set_elem l i w)

word_at-set_elem :
    (l : List Text) (i : ℕ) (w : Text) (k : ℕ)
    → i < length l
    → word_at (set_elem l i w) k ≡ (if k == i then w else word_at l k)
unfolding set_elem word_at
word_at-set_elem [] i w k h = absurd (omega (arith, h))
word_at-set_elem (v ∷ l) zero w zero h = refl
word_at-set_elem (v ∷ l) zero w (suc k) h = ground arith
word_at-set_elem (v ∷ l) (suc i) w zero h = ground arith
word_at-set_elem (v ∷ l) (suc i) w (suc k) h =
    ground (arith, word_at-set_elem l i w k (omega (arith, h)))

-- Where a swap of `i` and `j` takes the element at `k` from.
abbrev pub traded : ℕ → ℕ → ℕ → ℕ
traded i j k = if k == j then i else if k == i then j else k

word_at-swap :
    (l : List Text) (i j k : ℕ)
    → i < length l
    → j < length l
    → word_at (swap l i j) k ≡ word_at l (traded i j k)
word_at-swap l i j k h h' =
    word_at-set_elem (set_elem l i (word_at l j)) j (word_at l i) k
      (omega (arith, h', length-set_elem l i (word_at l j)))
    ∙ inner
  where
    inner :
        (if k == j then word_at l i else word_at (set_elem l i (word_at l j)) k)
        ≡ word_at l (traded i j k)
    inner = ground (arith, word_at-set_elem l i (word_at l j) k h)

length-swap : (l : List Text) (i j : ℕ) → length (swap l i j) ≡ length l
length-swap l i j =
    length-set_elem (set_elem l i (word_at l j)) j (word_at l i) ∙ length-set_elem l i (word_at l j)

-- Every element of the one list is from a place of the other, and no two from the same.
pub record IsDrawn (l s : List Text) (n : ℕ) : Type 0 where
  pub place : ℕ → ℕ
  pub drawn : (k : ℕ) → k < n → word_at s k ≡ word_at l (place k)
  pub inside : (k : ℕ) → k < n → place k < length l
  pub once : (j k : ℕ) → j < n → k < n → place j ≡ place k → j ≡ k

traded-inside : (i j k n : ℕ) → i < n → j < n → k < n → traded i j k < n
traded-inside i j k n h h' h'' = ground arith

traded-injective : (i j k m : ℕ) → traded i j k ≡ traded i j m → k ≡ m
traded-injective i j k m e = ground arith

swap-IsDrawn :
    (l s : List Text) (i j : ℕ)
    → length s ≡ length l
    → i < length l
    → j < length l
    → IsDrawn l s (length l)
    → IsDrawn l (swap s i j) (length l)
swap-IsDrawn l s i j e h h' d = record {
  place = λ k. d.place (traded i j k);
  drawn = λ k b.
      word_at-swap s i j k (omega (arith, e, h)) (omega (arith, e, h'))
      ∙ d.drawn (traded i j k) (traded-inside i j k (length l) h h' b);
  inside = λ k b. d.inside (traded i j k) (traded-inside i j k (length l) h h' b);
  once = λ k m b b' q. traded-injective i j k m (
      d.once (traded i j k) (traded i j m) (traded-inside i j k (length l) h h' b)
        (traded-inside i j m (length l) h h' b') q);
}

pick_index-bound : (b : FourBytes) (n : ℕ) → 0 < n → pick_index b n < n
unfolding pick_index
pick_index-bound b n h = mod-lt (unsigned b) h

module _ (draws : ℕ → FourBytes) where
  shuffle_down-IsDrawn :
      (l s : List Text) (i t : ℕ)
      → length s ≡ length l
      → (i < length l) ⊎ (i ≡ 0)
      → IsDrawn l s (length l)
      → IsDrawn l (shuffle_down draws i t s).0 (length l)
        × (length (shuffle_down draws i t s).0 ≡ length l)
  unfolding shuffle_down
  shuffle_down-IsDrawn l s zero t e h d = (d, e)
  shuffle_down-IsDrawn l s (suc i) t e (inl h) d =
      shuffle_down-IsDrawn l (swap s (suc i) j) i (suc t) (length-swap s (suc i) j ∙ e)
        (inl (omega (arith, h))) (swap-IsDrawn l s (suc i) j e h (omega (arith, h, bound)) d)
    where
      j : ℕ
      j = pick_index (draws t) (suc i + 1)

      bound : pick_index (draws t) (suc i + 1) < suc i + 1
      bound = pick_index-bound (draws t) (suc i + 1) (omega arith)
  shuffle_down-IsDrawn l s (suc i) t e (inr h) d = absurd (omega (arith, h))

  pub shuffle-IsDrawn :
      (l : List Text) (t : ℕ)
      → IsDrawn l (shuffle draws t l).0 (length l) × (length (shuffle draws t l).0 ≡ length l)
  unfolding shuffle
  shuffle-IsDrawn l t =
      shuffle_down-IsDrawn l l (length l - 1) t refl (start l)
        (record { place = λ k. k; drawn = λ k b. refl; inside = λ k b. b; once = λ j k b b' q. q })
    where
      start : (l : List Text) → ((length l - 1) < length l) ⊎ (length l - 1 ≡ 0)
      start [] = inr refl
      start (x ∷ l) = inl (omega arith)

word_at-take : (n : ℕ) (l : List Text) (k : ℕ) → k < n → word_at (take n l) k ≡ word_at l k
unfolding word_at
word_at-take zero l k h = absurd (omega (arith, h))
word_at-take (suc n) [] k h = refl
word_at-take (suc n) (x ∷ l) zero h = refl
word_at-take (suc n) (x ∷ l) (suc k) h = word_at-take n l k (omega (arith, h))

pub take-IsDrawn :
    (n : ℕ) (l s : List Text) → n ≤ length l → IsDrawn l s (length l) → IsDrawn l (take n s) n
take-IsDrawn n l s h d = record {
  place = d.place;
  drawn = λ k b. word_at-take n s k b ∙ d.drawn k (omega (arith, h, b));
  inside = λ k b. d.inside k (omega (arith, h, b));
  once = λ j k b b' q. d.once j k (omega (arith, h, b)) (omega (arith, h, b')) q;
}
