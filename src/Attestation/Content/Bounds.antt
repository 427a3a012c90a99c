-- ===== src/Attestation/Content/Bounds.antt =====
-- What content has that passes the validation.
use openrep.Attestation.Content.{
  too_large, max_output_length, max_task_length, invalid, or_fresh, Check, valid, ContentToValidate,
  validate_attestation_content, check_whole, check_texts, check_strings, content_text,
  tool_entries_valid,
}
use openrep.Canonical.{CanonicalError, Heap, Value, Attempt, value, error}
use openrep.Prelude.{none, refl, ◌≤◌, inr, arith, length, inl, ◌⊎◌, Option, some, ◌≡◌, Text, ℕ}

Attempt-cases :
    (a : Attempt Text) → ((t : Text) × (a ≡ value t)) ⊎ ((e : CanonicalError) × (a ≡ error e))
Attempt-cases (value t) = inl (t, refl)
Attempt-cases (error e) = inr (e, refl)

module _ (heap : Heap) (fresh : ℕ) (content : ContentToValidate) (tools : Value) where
  -- The limits of a content, and the text that is signed for it.
  pub record IsBounded : Type 0 where
    pub task : Text
    pub output : Text
    pub canonical : Text
    pub has_task : content.task ≡ some task
    pub has_output : content.output ≡ some output
    pub task_bound : length task ≤ max_task_length
    pub output_bound : length output ≤ max_output_length
    pub entries : tool_entries_valid heap (or_fresh heap fresh content.tools_used) ≡ valid tools
    pub text_of : content_text heap task output tools ≡ value canonical

  whole_sound :
      (task output : Text) (c : Check)
      → check_whole heap task output c ≡ valid tools
      → (t : Text) × (c ≡ valid tools) × (content_text heap task output tools ≡ value t)
  whole_sound task output invalid h = cc
  whole_sound task output too_large h = cc
  whole_sound task output (valid v) h = elim (Attempt-cases (content_text heap task output v)) [
    | inl (t, e) ↦ (t, ground (arith, h, e), ground (arith, h, e))
    | inr (x, e) ↦ absurd (ground (arith, h, e))
  ]

  texts_sound :
      (task output : Text)
      → content.task ≡ some task
      → content.output ≡ some output
      → check_texts heap fresh task output content.tools_used ≡ valid tools
      → IsBounded
  unfolding check_texts
  texts_sound task output a b h =
      let whole : check_whole heap task output
            (tool_entries_valid heap (or_fresh heap fresh content.tools_used))
          ≡ valid tools =
        ground (arith, h) in
      let (t, c, e) = whole_sound task output _ whole in
      record {
        task = task;
        output = output;
        canonical = t;
        has_task = a;
        has_output = b;
        task_bound = ground (arith, h);
        output_bound = ground (arith, h);
        entries = c;
        text_of = e;
      }

  strings_sound :
      (task output : Option Text)
      → content.task ≡ task
      → content.output ≡ output
      → check_strings heap fresh task output content.tools_used ≡ valid tools
      → IsBounded
  unfolding check_strings
  strings_sound none output a b h = absurd (ground (arith, h))
  strings_sound (some task) none a b h = absurd (ground (arith, h))
  strings_sound (some task) (some output) a b h = texts_sound task output a b h

  -- Content that is accepted has a task of at most 4000 units and an output of at most 8000, its
  -- tool calls are accepted entry by entry, and task, output and tool calls together have a
  -- canonical text, so that hashing them cannot fail afterwards.
  pub validate_attestation_content_sound :
      validate_attestation_content heap fresh content ≡ valid tools → IsBounded
  unfolding validate_attestation_content
  validate_attestation_content_sound h =
      strings_sound content.task content.output refl refl (ground (arith, h))
