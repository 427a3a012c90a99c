-- ===== src/Canonical/Injective.antt =====
-- No two values have the same canonical text.
use mathlib.Core.Path.{ap₂}
use mathlib.Core.List.{append_assoc, append-nil}
use openrep.Prelude.{◌∙◌, Bool, true, false, ◌≡◌, refl, sym, ap, [], ◌∷◌, ◌++◌, All, Text, arith}
use openrep.Canonical.Json.{quote}
use openrep.Canonical.Json.Quoting.{IsUnit, quote-injective}
use openrep.Canonical.Tree.{
  Tree, null, bool, num, str, arr, obj, Items, nil, cons, Fields, end, field, print, items_tail,
  fields_tail, IsWellFormed, AllItems, AllFields,
}
use openrep.Canonical.Kinds.{
  heads, tails, IsDelimited, number-injective, is_null, is_bool, is_num, is_str, is_arr, is_obj,
  starts_with, print-ne-closing, items_tail-IsDelimited, fields_tail-IsDelimited, field_assoc,
  items_body, fields_body, print-arr, print-obj,
}

-- What is proved of a value, and of the rest of an array or object.
abbrev IsSound : Tree → Type 0
IsSound t =
    (u : Tree) (r s : Text)
    → IsWellFormed t
    → IsWellFormed u
    → IsDelimited r
    → IsDelimited s
    → print t ++ r ≡ print u ++ s
    → (t ≡ u) × (r ≡ s)

abbrev ItemsAreSound : (Items → Text) → Items → Type 0
ItemsAreSound show ts =
    (us : Items) (r s : Text)
    → AllItems ts
    → AllItems us
    → show ts ++ r ≡ show us ++ s
    → (ts ≡ us) × (r ≡ s)

abbrev FieldsAreSound : (Fields → Text) → Fields → Type 0
FieldsAreSound show fs =
    (gs : Fields) (r s : Text)
    → AllFields fs
    → AllFields gs
    → show fs ++ r ≡ show gs ++ s
    → (fs ≡ gs) × (r ≡ s)

module _ (u : Tree) (r s : Text) (k : IsWellFormed u) where
  null_sound : print null ++ r ≡ print u ++ s → (null ≡ u) × (r ≡ s)
  unfolding print
  null_sound e = let p = is_null u (starts_with u 110 _ s k e) in (sym p, cc)

  bool_sound : (b : Bool) → print (bool b) ++ r ≡ print u ++ s → (bool b ≡ u) × (r ≡ s)
  unfolding print
  bool_sound true e = let p = is_bool true u (starts_with u 116 _ s k e) in (sym p, cc)
  bool_sound false e = let p = is_bool false u (starts_with u 102 _ s k e) in (sym p, cc)

  num_sound :
      (t : Text)
      → IsWellFormed (num t)
      → IsDelimited r
      → IsDelimited s
      → print (num t) ++ r ≡ print u ++ s
      → (num t ≡ u) × (r ≡ s)
  unfolding print
  num_sound [] h d d' e = absurd h.0
  num_sound (c ∷ t) h d d' e =
      let (t', p) = is_num c u (starts_with u c _ s k e) (h.0.0) (h.0.1) in
      let k' : IsWellFormed (num t') = rw p at k in
      let (same, after) = number-injective (c ∷ t) t' r s h.1 k'.1 d d' (cc) in (cc, after)

  str_sound : (a : Text) → All IsUnit a → print (str a) ++ r ≡ print u ++ s → (str a ≡ u) × (r ≡ s)
  unfolding print quote
  str_sound a h e =
      let (b, p) = is_str u (starts_with u 34 _ s k e) in
      let k' : IsWellFormed (str b) = rw p at k in
      let (same, after) = quote-injective a b r s h k' (cc) in (cc, after)

  arr_start : (ts : Items) → print (arr ts) ++ r ≡ print u ++ s → (us : Items) × (u ≡ arr us)
  arr_start ts e = is_arr u (starts_with u 91 (items_body ts ++ r) s k (cc (print-arr ts)))

  obj_start : (fs : Fields) → print (obj fs) ++ r ≡ print u ++ s → (gs : Fields) × (u ≡ obj gs)
  obj_start fs e = is_obj u (starts_with u 123 (fields_body fs ++ r) s k (cc (print-obj fs)))

-- An item's text never reads as the closing bracket, nor a field's.
body-ne-closing :
    (u : Tree) (us : Items) (r s : Text)
    → IsWellFormed u
    → 93 ∷ r ≡ (print u ++ items_tail us) ++ s
    → ⊥
body-ne-closing u us r s k e =
    print-ne-closing u r (items_tail us ++ s) k (cc (append_assoc (print u) (items_tail us) s))

module _ (t : Tree) (ts : Items) (ih : IsSound t) (rest_ih : ItemsAreSound items_tail ts) where
  item_step :
      (u : Tree) (us : Items) (r s : Text)
      → AllItems (cons t ts)
      → AllItems (cons u us)
      → (print t ++ items_tail ts) ++ r ≡ (print u ++ items_tail us) ++ s
      → (cons t ts ≡ cons u us) × (r ≡ s)
  item_step u us r s h k e =
      let (head, rest) =
        ih u _ _ h.0 k.0 (items_tail-IsDelimited ts r) (items_tail-IsDelimited us s) (
          cc
            (append_assoc (print t) (items_tail ts) r, append_assoc (print u) (items_tail us) s)) in
      let (tail, after) = rest_ih us r s h.1 k.1 rest in (ap₂ cons head tail, after)

  body_cons : ItemsAreSound items_body (cons t ts)
  unfolding items_body
  body_cons nil r s h k e = absurd (body-ne-closing t ts s r h.0 (sym e))
  body_cons (cons u us) r s h k e = item_step u us r s h k e

  items_cons : ItemsAreSound items_tail (cons t ts)
  unfolding print
  items_cons nil r s h k e = absurd (omega (arith, heads 44 93 _ s e))
  items_cons (cons u us) r s h k e = item_step u us r s h k (tails 44 44 _ _ e)

body_nil : ItemsAreSound items_body nil
unfolding items_body
body_nil nil r s h k e = (refl, tails 93 93 r s e)
body_nil (cons u us) r s h k e = absurd (body-ne-closing u us r s k.0 e)

items_nil : ItemsAreSound items_tail nil
unfolding print
items_nil nil r s h k e = (refl, tails 93 93 r s e)
items_nil (cons u us) r s h k e = absurd (omega (arith, heads 93 44 r _ e))

module _ (a : Text) (t : Tree) (fs : Fields) (ih : IsSound t)
    (rest_ih : FieldsAreSound fields_tail fs) where
  field_step :
      (b : Text) (u : Tree) (gs : Fields) (r s : Text)
      → AllFields (field a t fs)
      → AllFields (field b u gs)
      → (quote a ++ 58 ∷ (print t ++ fields_tail fs)) ++ r
        ≡ (quote b ++ 58 ∷ (print u ++ fields_tail gs)) ++ s
      → (field a t fs ≡ field b u gs) × (r ≡ s)
  field_step b u gs r s h k e =
      let (key, body) =
        quote-injective a b (58 ∷ (print t ++ (fields_tail fs ++ r)))
          (58 ∷ (print u ++ (fields_tail gs ++ s))) h.0 k.0
          (cc (
            field_assoc a (print t) (fields_tail fs) r,
            field_assoc b (print u) (fields_tail gs) s,
          )) in
      let (head, rest) =
        ih u _ _ h.1 k.1 (fields_tail-IsDelimited fs r) (fields_tail-IsDelimited gs s) (cc body) in
      let (tail, after) = rest_ih gs r s h.2 k.2 rest in (cc (key, head, tail), after)

  entries_field : FieldsAreSound fields_body (field a t fs)
  unfolding fields_body quote
  entries_field end r s h k e = absurd (omega (arith, heads 34 125 _ s e))
  entries_field (field b u gs) r s h k e = field_step b u gs r s h k e

  fields_field : FieldsAreSound fields_tail (field a t fs)
  unfolding print
  fields_field end r s h k e = absurd (omega (arith, heads 44 125 _ s e))
  fields_field (field b u gs) r s h k e = field_step b u gs r s h k (tails 44 44 _ _ e)

entries_end : FieldsAreSound fields_body end
unfolding fields_body quote
entries_end end r s h k e = (refl, tails 125 125 r s e)
entries_end (field b u gs) r s h k e = absurd (omega (arith, heads 125 34 r _ e))

fields_end : FieldsAreSound fields_tail end
unfolding print
fields_end end r s h k e = (refl, tails 125 125 r s e)
fields_end (field b u gs) r s h k e = absurd (omega (arith, heads 125 44 r _ e))

arr-IsSound : (ts : Items) → ItemsAreSound items_body ts → IsSound (arr ts)
arr-IsSound ts ih u r s h k d d' e =
    let (us, p) = arr_start u r s k ts e in
    let k' : AllItems us = rw p at k in
    let (same, after) = ih us r s h k' (cc (print-arr ts, print-arr us)) in
    (ap arr same ∙ sym p, after)

obj-IsSound : (fs : Fields) → FieldsAreSound fields_body fs → IsSound (obj fs)
obj-IsSound fs ih u r s h k d d' e =
    let (gs, p) = obj_start u r s k fs e in
    let k' : AllFields gs = rw p at k in
    let (same, after) = ih gs r s h k' (cc (print-obj fs, print-obj gs)) in
    (ap obj same ∙ sym p, after)

mutual
  print-IsSound : (t : Tree) → IsSound t
  print-IsSound null = λ u r s h k d d'. null_sound u r s k
  print-IsSound (bool b) = λ u r s h k d d'. bool_sound u r s k b
  print-IsSound (num t) = λ u r s h k. num_sound u r s k t h
  print-IsSound (str a) = λ u r s h k d d'. str_sound u r s k a h
  print-IsSound (arr ts) = arr-IsSound ts (body_sound ts)
  print-IsSound (obj fs) = obj-IsSound fs (entries_sound fs)

  body_sound : (ts : Items) → ItemsAreSound items_body ts
  body_sound nil = body_nil
  body_sound (cons t ts) = body_cons t ts (print-IsSound t) (items_sound ts)

  items_sound : (ts : Items) → ItemsAreSound items_tail ts
  items_sound nil = items_nil
  items_sound (cons t ts) = items_cons t ts (print-IsSound t) (items_sound ts)

  entries_sound : (fs : Fields) → FieldsAreSound fields_body fs
  entries_sound end = entries_end
  entries_sound (field a t fs) = entries_field a t fs (print-IsSound t) (fields_sound fs)

  fields_sound : (fs : Fields) → FieldsAreSound fields_tail fs
  fields_sound end = fields_end
  fields_sound (field a t fs) = fields_field a t fs (print-IsSound t) (fields_sound fs)

-- Two values, each with strings of 16-bit units and numbers as `JSON.stringify` prints them, have
-- the same serialization only if they are equal: a signature over the text binds the whole value.
pub print-injective : (t u : Tree) → IsWellFormed t → IsWellFormed u → print t ≡ print u → t ≡ u
print-injective t u h k e = (print-IsSound t u [] [] h k tt tt (simp append-nil e)).0
