-- ===== src/Prompt/Refinement.antt =====
-- The input machine edits the line that the user sees.
use openrep.Prelude.{
  false, true, not, if◌then◌else◌, suc, length-take, take-drop, [], append_assoc, reverse-reverse,
  ap₂, Bool, reverse-cons, take-append, get_elem?-append, drop-append, length-reverse, ◌∙◌, sym,
  length-append, ◌+◌, ◌++◌, some, ap, take, ◌≡◌, ◌∷◌, drop, ◌≤◌, length, reverse, get_elem?, Text,
  ℕ,
}
use openrep.Prompt.Line.{ahead_over, back_over, is_space, in_word, line, Line}
use openrep.Prompt.Machine.{is_blank, skip_back, skip_ahead, space_at, word_at, InputState}

abbrev pub value_of : Text → Text → Text
value_of b a = reverse b ++ a

-- The state that holds a line.
abbrev pub state_of : Line → InputState
state_of l = record { value = value_of l.before l.after; cursor = length l.before }

-- The line that a state holds.
abbrev pub line_of : InputState → Line
line_of s = line (reverse (take s.cursor s.value)) (drop s.cursor s.value)

pub value_of-cons : (c : ℕ) (b a : Text) → value_of (c ∷ b) a ≡ value_of b (c ∷ a)
value_of-cons c b a = ap (λ x. x ++ a) (reverse-cons c b) ∙ append_assoc (reverse b) (c ∷ []) a

pub take-value_of : (b a : Text) → take (length b) (value_of b a) ≡ reverse b
take-value_of b a =
    ap (λ n. take n (value_of b a)) (sym (length-reverse b)) ∙ take-append (reverse b) a

pub drop-value_of : (b a : Text) → drop (length b) (value_of b a) ≡ a
drop-value_of b a =
    ap (λ n. drop n (value_of b a)) (sym (length-reverse b)) ∙ drop-append (reverse b) a

get_elem?-value_of : (b a : Text) (c : ℕ) → get_elem? (value_of b (c ∷ a)) (length b) ≡ some c
get_elem?-value_of b a c =
    ap (λ n. get_elem? (value_of b (c ∷ a)) n) (sym (length-reverse b))
    ∙ get_elem?-append (reverse b) a c

pub length-value_of : (b a : Text) → length (value_of b a) ≡ length b + length a
length-value_of b a = length-append (reverse b) a ∙ ap (λ n. n + length a) (length-reverse b)

pub line_of-state_of : (l : Line) → line_of (state_of l) ≡ l
line_of-state_of l =
    ap₂ line (ap reverse (take-value_of l.before l.after) ∙ reverse-reverse l.before)
      (drop-value_of l.before l.after)

pub state_of-line_of : (s : InputState) → s.cursor ≤ length s.value → state_of (line_of s) ≡ s
state_of-line_of s h =
    ap₂ (λ v c. record { value = v; cursor = c })
      (ap (λ b. b ++ drop s.cursor s.value) (reverse-reverse (take s.cursor s.value))
        ∙ take-drop s.cursor s.value)
      (length-reverse (take s.cursor s.value) ∙ length-take s.cursor s.value h)

-- A test of a place, and the test of the character there.
abbrev pub Agree : (ℕ → Bool) → (ℕ → Bool) → Text → Type 0
Agree place char value = (i c : ℕ) → get_elem? value i ≡ some c → place i ≡ char c

pub space_at-Agree : (value : Text) → Agree (space_at value) is_space value
space_at-Agree value i c h = ap is_blank h

pub word_at-Agree : (value : Text) → Agree (word_at value) in_word value
word_at-Agree value i c h = ap (λ o. not (is_blank o)) h

abbrev pub input : Text → ℕ → InputState
input value cursor = record { value = value; cursor = cursor }

choose :
    (value : Text) (t : Bool) (x y : Line) (n m : ℕ)
    → state_of x ≡ input value n
    → state_of y ≡ input value m
    → state_of (if t then x else y) ≡ input value (if t then n else m)
choose value true x y n m h h' = h
choose value false x y n m h h' = h'

-- The loops move over the characters before and after the cursor.
module _ (place char : ℕ → Bool) (value : Text) (h : Agree place char value) where
  pub skip_back-back_over :
      (b a : Text)
      → value_of b a ≡ value
      → state_of (back_over char b a) ≡ input value (skip_back place (length b))
  unfolding skip_back back_over
  skip_back-back_over [] a e = ap (λ v. input v 0) e
  skip_back-back_over (c ∷ b) a e = rw (h (length b) c (rw (sym e') (get_elem?-value_of b a c))) (
      choose value (char c) (back_over char b (c ∷ a)) (line (c ∷ b) a) (skip_back place (length b))
        (suc (length b)) (skip_back-back_over b (c ∷ a) e') (ap (λ v. input v (suc (length b))) e))
    where
      e' : value_of b (c ∷ a) ≡ value
      e' = sym (value_of-cons c b a) ∙ e

  pub skip_ahead-ahead_over :
      (b a : Text)
      → value_of b a ≡ value
      → state_of (ahead_over char b a) ≡ input value (skip_ahead place (length a) (length b))
  unfolding skip_ahead ahead_over
  skip_ahead-ahead_over b [] e = ap (λ v. input v (length b)) e
  skip_ahead-ahead_over b (c ∷ a) e = rw (h (length b) c (rw (sym e) (get_elem?-value_of b a c))) (
      choose value (char c) (ahead_over char (c ∷ b) a) (line b (c ∷ a))
        (skip_ahead place (length a) (suc (length b))) (length b)
        (skip_ahead-ahead_over (c ∷ b) a (value_of-cons c b a ∙ e))
        (ap (λ v. input v (length b)) e))
