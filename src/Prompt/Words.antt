-- ===== src/Prompt/Words.antt =====
-- The word boundaries of the input machine.
use openrep.Prelude.{refl, ap₂, sym, ◌∙◌}
use openrep.Prelude.{ap, arith, ◌≡◌, ◌-◌, length, Text, ℕ}
use openrep.Prompt.Machine.{
  word_at, space_at, skip_ahead, skip_back, previous_word_boundary, next_word_boundary,
}
use openrep.Prompt.Line.{in_word, is_space, back_over, ahead_over, word_left, word_right, Line}
use openrep.Prompt.Refinement.{
  word_at-Agree, space_at-Agree, length-value_of, skip_back-back_over, skip_ahead-ahead_over, input,
  value_of, state_of,
}

abbrev pub value_of_line : Line → Text
value_of_line l = value_of l.before l.after

rest_of : (l : Line) → length (value_of_line l) - length l.before ≡ length l.after
rest_of l = omega (arith, length-value_of l.before l.after)

module _ {v : Text} {n : ℕ} (l : Line) (h : state_of l ≡ input v n) where
  pub same_value : value_of_line l ≡ v
  same_value = ap (λ s. s.value) h

  pub same_cursor : length l.before ≡ n
  same_cursor = ap (λ s. s.cursor) h

pub word_left-boundary :
    (l : Line)
    → state_of (word_left l)
      ≡ input (value_of_line l) (previous_word_boundary (value_of_line l) (length l.before))
unfolding previous_word_boundary
word_left-boundary l =
    skip_back-back_over (word_at v) in_word v (word_at-Agree v) m.before m.after
      (same_value m first)
    ∙ ap (λ n. input v (skip_back (word_at v) n)) (same_cursor m first)
  where
    v : Text
    v = value_of_line l

    m : Line
    m = back_over is_space l.before l.after

    first : state_of m ≡ input v (skip_back (space_at v) (length l.before))
    first = skip_back-back_over (space_at v) is_space v (space_at-Agree v) l.before l.after refl

pub word_right-boundary :
    (l : Line)
    → state_of (word_right l)
      ≡ input (value_of_line l) (next_word_boundary (value_of_line l) (length l.before))
unfolding next_word_boundary
word_right-boundary l =
    skip_ahead-ahead_over (word_at v) in_word v (word_at-Agree v) m.before m.after
      (same_value m first)
    ∙ ap₂ (λ k n. input v (skip_ahead (word_at v) k n)) rounds (same_cursor m first)
  where
    v : Text
    v = value_of_line l

    m : Line
    m = ahead_over is_space l.before l.after

    n : ℕ
    n = skip_ahead (space_at v) (length v - length l.before) (length l.before)

    first : state_of m ≡ input v n
    first =
        skip_ahead-ahead_over (space_at v) is_space v (space_at-Agree v) l.before l.after refl
        ∙ ap (λ k. input v (skip_ahead (space_at v) k (length l.before))) (sym (rest_of l))

    rounds : length m.after ≡ length v - n
    rounds = sym (rest_of m) ∙ ap₂ (λ x k. length x - k) (same_value m first) (same_cursor m first)
