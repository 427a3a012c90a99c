-- ===== src/Names/Words/Apart.antt =====
-- The word lists have no word twice.
use openrep.Prelude.{
  sym, ◌∙◌, ap, zero, ◌||◌, suc, [], text_eq_refl, ◌&&◌, arith, member, not, ◌∷◌, refl, length, ◌<◌,
  true, ℕ, Bool, ◌≡◌, Text, text_eq, List,
}
use openrep.Names.Words.{adjectives, colors, nouns, word_at}

unfoldable pub is_distinct : List Text → Bool
is_distinct [] = true
is_distinct (x ∷ xs) = not (member x xs) && is_distinct xs

member-word_at : (l : List Text) (k : ℕ) → k < length l → member (word_at l k) l ≡ true
unfolding word_at
member-word_at [] k h = absurd (omega (arith, h))
member-word_at (x ∷ l) zero h = ground (arith, text_eq_refl x)
member-word_at (x ∷ l) (suc k) h =
    absorbed (text_eq x (word_at l k)) (member-word_at l k (omega (arith, h)))
  where
    absorbed : (b : Bool) {c : Bool} → c ≡ true → (b || c) ≡ true
    absorbed b e = ground arith

not_both : (b c : Bool) → b ≡ true → ¬ ((not b && c) ≡ true)
not_both b c e d = ground arith

both : (b c : Bool) → (b && c) ≡ true → c ≡ true
both b c e = ground arith

pub word_at-injective :
    (l : List Text)
    → is_distinct l ≡ true
    → (j k : ℕ) → j < length l
    → k < length l
    → word_at l j ≡ word_at l k
    → j ≡ k
unfolding is_distinct word_at
word_at-injective [] d j k h h' e = absurd (omega (arith, h))
word_at-injective (x ∷ l) d zero zero h h' e = refl
word_at-injective (x ∷ l) d zero (suc k) h h' e =
    absurd
      (not_both (member x l) _ (ap (λ w. member w l) e ∙ member-word_at l k (omega (arith, h'))) d)
word_at-injective (x ∷ l) d (suc j) zero h h' e = absurd (
    not_both (member x l) _ (ap (λ w. member w l) (sym e) ∙ member-word_at l j (omega (arith, h)))
      d)
word_at-injective (x ∷ l) d (suc j) (suc k) h h' e =
    ap (λ n. suc n) (word_at-injective l (both _ _ d) j k (omega (arith, h)) (omega (arith, h')) e)

pub adjectives-distinct : is_distinct adjectives ≡ true
unfolding is_distinct text_eq
adjectives-distinct = refl

pub nouns-distinct : is_distinct nouns ≡ true
unfolding is_distinct text_eq
nouns-distinct = refl

pub colors-distinct : is_distinct colors ≡ true
unfolding is_distinct text_eq
colors-distinct = refl
