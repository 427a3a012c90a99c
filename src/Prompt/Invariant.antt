-- ===== src/Prompt/Invariant.antt =====
-- What holds of the prompt after any session.
use openrep.Prelude.{
  trim, or_else, All-append, ◌+◌, append-nil, ap, leb, sym, ◌++◌, ◌∙◌, refl, text_eq_refl, arith,
  inr, text_eq_iff, inl, if◌then◌else◌, All, Bool-cases, ◌==◌, Bool, ◌≤◌, ◌≡◌, text_eq, length, ◌<◌,
  List, Text, Option, ℕ, none, some, true, false, [], ◌∷◌,
}
use openrep.Prompt.Session.{
  empty_prompt, submitted_as, run_edit, previous_from, supplied, pressed, recalled, Event,
  on_command, on_up, on_secret, step, recall, run, on_input, is_produced, down_from, on_return,
  after_change, apply, Prompt, change,
}
use openrep.Prompt.Machine.{empty_input, InputState}
use openrep.Prompt.Keys.{decode_input, InputCommand, Key}
use openrep.Prompt.{edit}
use openrep.Prompt.Edits.{edited-edit_line}

abbrev InRange : Option ℕ → List Text → Type 0
InRange none history = Unit
InRange (some i) history = i < length history

-- The text that an edit produced is still that of the prompt.
abbrev IsCurrent : Option Text → Text → Type 0
IsCurrent none value = Unit
IsCurrent (some v) value = v ≡ value

-- The drafts that were submitted when the prompt was not secret.
abbrev pub open_drafts : List (Bool × Text) → List Text
open_drafts [] = []
open_drafts ((secret, draft) ∷ rest) = if secret then open_drafts rest else draft ∷ open_drafts rest

abbrev HasLetters : Text → Type 0
HasLetters d = (length d == 0) ≡ false

-- The cursor is within the text, the index of the recall within the history, the history is what was
-- submitted in the open, and nothing in it is empty.
pub record IsValid (p : Prompt) : Type 0 where
  pub cursor : p.cursor ≤ length p.value
  pub index : InRange p.history_index p.history
  pub history : p.history ≡ open_drafts p.submitted
  pub drafts : All HasLetters p.history
  pub produced : IsCurrent p.last_produced p.value

if_holds : {A : Type 0} (P : A → Type 0) (b : Bool) {x y : A} → P x → P y → P (if b then x else y)
if_holds P true h k = h
if_holds P false h k = k

abbrev holding : Text → ℕ → Option Text → Prompt → Prompt
holding value cursor o p = record p { value = value; cursor = cursor; last_produced = o }

holding-IsValid :
    {p : Prompt} (value : Text) (cursor : ℕ) (o : Option Text)
    → cursor ≤ length value
    → IsCurrent o value
    → IsValid p
    → IsValid (holding value cursor o p)
holding-IsValid value cursor o h k v = record {
  cursor = h;
  index = v.index;
  history = v.history;
  drafts = v.drafts;
  produced = k;
}

is_produced-false :
    (o : Option Text) (value old : Text)
    → IsCurrent o old
    → text_eq value old ≡ false
    → is_produced value o ≡ false
is_produced-false none value old h k = refl
is_produced-false (some v) value old h k = rw h k

change-IsValid : (value : Text) (p : Prompt) → IsValid p → IsValid (change value p)
unfolding change after_change
change-IsValid value p v = elim (Bool-cases (text_eq value p.value)) [
  | inl same ↦ rw same (kept ((text_eq_iff value p.value).0 same))
  | inr other ↦
      rw (other, is_produced-false p.last_produced value p.value v.produced other)
        (holding-IsValid value (length value) none (omega arith) tt v)
]
  where
    kept : value ≡ p.value → IsValid (record p { value = value })
    kept e = rw e v

apply-IsValid :
    (s : InputState) (p : Prompt) → s.cursor ≤ length s.value → IsValid p → IsValid (apply s p)
unfolding apply after_change
apply-IsValid s p h v = elim (Bool-cases (text_eq s.value p.value)) [
  | inl same ↦ rw same (holding-IsValid s.value s.cursor (some s.value) h refl v)
  | inr other ↦ rw (other, text_eq_refl s.value) (holding-IsValid s.value s.cursor none h tt v)
]

open_drafts-append :
    (ds : List (Bool × Text)) (secret : Bool) (d : Text)
    → open_drafts (ds ++ (secret, d) ∷ []) ≡ open_drafts ds ++ open_drafts ((secret, d) ∷ [])
open_drafts-append [] true d = refl
open_drafts-append [] false d = refl
open_drafts-append ((true, e) ∷ ds) secret d = open_drafts-append ds secret d
open_drafts-append ((false, e) ∷ ds) secret d = ap (e ∷◌) (open_drafts-append ds secret d)

submitted_as-IsValid :
    (secret : Bool) (draft : Text) (p : Prompt)
    → HasLetters draft
    → IsValid p
    → IsValid (submitted_as secret draft p)
unfolding submitted_as
submitted_as-IsValid true draft p h v = record {
  cursor = v.cursor;
  index = v.index;
  history = v.history ∙ sym (append-nil _) ∙ sym (open_drafts-append p.submitted true draft);
  drafts = v.drafts;
  produced = v.produced;
}
submitted_as-IsValid false draft p h v = record {
  cursor = v.cursor;
  index = tt;
  history =
      ap (λ ds. ds ++ draft ∷ []) v.history ∙ sym (open_drafts-append p.submitted false draft);
  drafts = All-append HasLetters p.history (draft ∷ []) v.drafts (h, tt);
  produced = v.produced;
}

on_return-IsValid : (secret : Bool) (p : Prompt) → IsValid p → IsValid (on_return secret p)
unfolding on_return submitted_as
on_return-IsValid secret p v = elim (Bool-cases (length (trim p.value) == 0)) [
  | inl empty ↦ rw empty v
  | inr draft ↦ rw draft (submitted_as-IsValid secret (trim p.value) p draft v)
]

at_index :
    (o : Option ℕ) (p : Prompt)
    → InRange o p.history
    → IsValid p
    → IsValid (record p { history_index = o })
at_index o p h v = record {
  cursor = v.cursor;
  index = h;
  history = v.history;
  drafts = v.drafts;
  produced = v.produced;
}

on_secret-IsValid :
    (input : Text) (key : Key) (p : Prompt) → IsValid p → IsValid (on_secret input key p)
unfolding on_secret
on_secret-IsValid input key p v =
    if_holds IsValid _ (change-IsValid _ p v) (if_holds IsValid _ v (change-IsValid _ p v))

recall-IsValid : (i : ℕ) (p : Prompt) → i < length p.history → IsValid p → IsValid (recall i p)
unfolding recall
recall-IsValid i p h v =
    apply-IsValid (recalled p.history i) (record p { history_index = some i }) (omega arith)
      (at_index (some i) p h v)

on_up-IsValid : (p : Prompt) → IsValid p → IsValid (on_up p)
unfolding on_up
on_up-IsValid p v = elim (Bool-cases (length p.history == 0)) [
  | inl empty ↦ rw empty v
  | inr recalls ↦ rw recalls (
      recall-IsValid (previous_from (length p.history) p.history_index) p
        (earlier p.history_index v.index recalls) v)
]
  where
    earlier :
        (o : Option ℕ)
        → InRange o p.history
        → (length p.history == 0) ≡ false
        → previous_from (length p.history) o < length p.history
    earlier none h recalls = ground (arith, recalls)
    earlier (some i) h recalls = omega (arith, h)

down_from-IsValid :
    (o : Option ℕ) (p : Prompt) → InRange o p.history → IsValid p → IsValid (down_from p o)
unfolding down_from
down_from-IsValid none p h v = v
down_from-IsValid (some i) p h v = elim (Bool-cases (leb (length p.history) (i + 1))) [
  | inl last ↦ rw last (
      apply-IsValid empty_input (record p { history_index = none }) (omega arith)
        (at_index none p tt v))
  | inr more ↦ rw more (recall-IsValid (i + 1) p (ground arith) v)
]

on_command-IsValid : (c : InputCommand) (p : Prompt) → IsValid p → IsValid (on_command c p)
unfolding on_command run_edit
on_command-IsValid c p v = ran (edit c s) (edited-edit_line c s v.cursor).1
  where
    s : InputState
    s = record { value = p.value; cursor = p.cursor }

    ran :
        (o : Option InputState)
        → (or_else o s).cursor ≤ length (or_else o s).value
        → IsValid (run_edit p o)
    ran none h = v
    ran (some t) h = apply-IsValid t p h v

on_input-IsValid :
    (focused secret : Bool) (input : Text) (key : Key) (p : Prompt)
    → IsValid p
    → IsValid (on_input focused secret input key p)
unfolding on_input
on_input-IsValid focused secret input key p v = if_holds IsValid _ v (
    if_holds IsValid _ (on_return-IsValid secret p v) (
      if_holds IsValid _ (on_secret-IsValid input key p v) (
        if_holds IsValid _ (on_up-IsValid p v) (
          if_holds IsValid _ (down_from-IsValid p.history_index p v.index v)
            (on_command-IsValid (decode_input input key) p v)))))

step-IsValid : (e : Event) (p : Prompt) → IsValid p → IsValid (step e p)
unfolding step
step-IsValid (pressed focused secret input key) p v = on_input-IsValid focused secret input key p v
step-IsValid (supplied value) p v = change-IsValid value p v

run_keeps : (events : List Event) (p : Prompt) → IsValid p → IsValid (run events p)
unfolding run
run_keeps [] p v = v
run_keeps (e ∷ events) p v = run_keeps events (step e p) (step-IsValid e p v)

-- After any keys and any values that the parent sets, from the empty prompt: the cursor is within the
-- text, the index of the recall within the history, and the history is the list of the drafts that
-- were submitted while the prompt was not secret, so that no secret is in it, nor an empty draft.
pub run-IsValid : (events : List Event) → IsValid (run events empty_prompt)
run-IsValid events =
    run_keeps events empty_prompt
      (record { cursor = omega arith; index = tt; history = refl; drafts = tt; produced = tt })
