-- ===== src/Canonical/Kinds.antt =====
-- What the first character of a serialization tells of the value.
use mathlib.Core.List.{append_assoc}
use openrep.Prelude.{
  ℕ, Bool, true, false, ◌≡◌, ◌<◌, refl, ap, [], ◌∷◌, ◌++◌, All, if◌then◌else◌, Text, arith,
}
use openrep.Canonical.Json.{quote}
use openrep.Canonical.Tree.{
  Tree, null, bool, num, str, arr, obj, Items, nil, cons, Fields, end, field, print, items_tail,
  fields_tail, IsNumeric, IsWellFormed,
}

pub heads : (a b : ℕ) (r s : Text) → a ∷ r ≡ b ∷ s → a ≡ b
heads a b r s e = ap first e
  where
    first : Text → ℕ
    first [] = a
    first (c ∷ t) = c

pub tails : (a b : ℕ) (r s : Text) → a ∷ r ≡ b ∷ s → r ≡ s
tails a b r s e = ap rest e
  where
    rest : Text → Text
    rest [] = []
    rest (c ∷ t) = t

-- What can follow a value: nothing, a comma or a closing bracket.
abbrev pub IsDelimited : Text → Type 0
IsDelimited [] = Unit
IsDelimited (c ∷ r) = IsNumeric c → ⊥

pub number-injective :
    (t u r s : Text)
    → All IsNumeric t
    → All IsNumeric u
    → IsDelimited r
    → IsDelimited s
    → t ++ r ≡ u ++ s
    → (t ≡ u) × (r ≡ s)
number-injective [] [] r s h k d d' e = (refl, e)
number-injective [] (c ∷ u) [] s h k d d' e = cc
number-injective [] (c ∷ u) (b ∷ r) s h k d d' e = absurd (d (let e' : b ≡ c = cc in rw e' k.0))
number-injective (c ∷ t) [] r [] h k d d' e = cc
number-injective (c ∷ t) [] r (b ∷ s) h k d d' e = absurd (d' (let e' : b ≡ c = cc in rw e' h.0))
number-injective (c ∷ t) (b ∷ u) r s h k d d' e =
    let (same, after) = number-injective t u r s h.1 k.1 d d' (cc) in (cc, after)

-- The character that a value starts with tells its kind.
abbrev pub Kind : Tree → ℕ → Type 0
Kind null c = c ≡ 110
Kind (bool b) c = c ≡ (if b then 116 else 102)
Kind (num t) c = (44 < c) × (c < 58)
Kind (str s) c = c ≡ 34
Kind (arr ts) c = c ≡ 91
Kind (obj fs) c = c ≡ 123

pub starts : (t : Tree) → IsWellFormed t → (c : ℕ) × (r : Text) × (print t ≡ c ∷ r) × Kind t c
unfolding print quote
starts null h = (_, _, refl, refl)
starts (bool true) h = (_, _, refl, refl)
starts (bool false) h = (_, _, refl, refl)
starts (num (c ∷ t)) h = (c, t, refl, h.0)
starts (num []) h = absurd h.0
starts (str s) h = (_, _, refl, refl)
starts (arr nil) h = (_, _, refl, refl)
starts (arr (cons t ts)) h = (_, _, refl, refl)
starts (obj end) h = (_, _, refl, refl)
starts (obj (field k t fs)) h = (_, _, refl, refl)

-- A value is known by the character that it starts with.
pub is_null : (u : Tree) → Kind u 110 → u ≡ null
is_null null h = refl
is_null (bool b) h = absurd (ground arith)
is_null (num t) h = absurd (omega arith)
is_null u h = absurd (omega arith)

pub is_bool : (b : Bool) (u : Tree) → Kind u (if b then 116 else 102) → u ≡ bool b
is_bool b (bool c) h = ground arith
is_bool b (num t) h = absurd (ground arith)
is_bool b u h = absurd (ground arith)

pub is_num : (c : ℕ) (u : Tree) → Kind u c → 44 < c → c < 58 → (t : Text) × (u ≡ num t)
is_num c (num t) h lo hi = (t, refl)
is_num c (bool b) h lo hi = absurd (ground arith)
is_num c u h lo hi = absurd (omega arith)

pub is_str : (u : Tree) → Kind u 34 → (s : Text) × (u ≡ str s)
is_str (str s) h = (s, refl)
is_str (bool b) h = absurd (ground arith)
is_str u h = absurd (omega arith)

pub is_arr : (u : Tree) → Kind u 91 → (us : Items) × (u ≡ arr us)
is_arr (arr us) h = (us, refl)
is_arr (bool b) h = absurd (ground arith)
is_arr u h = absurd (omega arith)

pub is_obj : (u : Tree) → Kind u 123 → (gs : Fields) × (u ≡ obj gs)
is_obj (obj gs) h = (gs, refl)
is_obj (bool b) h = absurd (ground arith)
is_obj u h = absurd (omega arith)

pub not_closing : (u : Tree) → Kind u 93 → ⊥
not_closing (bool b) h = ground arith
not_closing u h = omega arith

-- A value whose text starts with `c`.
pub starts_with : (u : Tree) (c : ℕ) (r s : Text) → IsWellFormed u → c ∷ r ≡ print u ++ s → Kind u c
starts_with u c r s h e = let (b, x, p, kind) = starts u h in let e' : b ≡ c = cc in rw (← e') kind

pub print-ne-closing : (u : Tree) (r s : Text) → IsWellFormed u → 93 ∷ r ≡ print u ++ s → ⊥
print-ne-closing u r s h e = not_closing u (starts_with u 93 r s h e)

pub items_tail-IsDelimited : (ts : Items) (r : Text) → IsDelimited (items_tail ts ++ r)
unfolding print
items_tail-IsDelimited nil r = λ h. h.1 refl
items_tail-IsDelimited (cons t ts) r = λ h. h.0 refl

pub fields_tail-IsDelimited : (fs : Fields) (r : Text) → IsDelimited (fields_tail fs ++ r)
unfolding print
fields_tail-IsDelimited end r = λ h. h.2 refl
fields_tail-IsDelimited (field k t fs) r = λ h. h.0 refl

pub field_assoc :
    (k p f r : Text) → (quote k ++ 58 ∷ (p ++ f)) ++ r ≡ quote k ++ 58 ∷ (p ++ (f ++ r))
field_assoc k p f r = simp append_assoc

-- What stands behind the opening bracket.
unfoldable pub items_body : Items → Text
items_body nil = 93 ∷ []
items_body (cons t ts) = print t ++ items_tail ts

unfoldable pub fields_body : Fields → Text
fields_body end = 125 ∷ []
fields_body (field k t fs) = quote k ++ 58 ∷ (print t ++ fields_tail fs)

pub print-arr : (ts : Items) → print (arr ts) ≡ 91 ∷ items_body ts
unfolding print items_body
print-arr nil = refl
print-arr (cons t ts) = refl

pub print-obj : (fs : Fields) → print (obj fs) ≡ 123 ∷ fields_body fs
unfolding print fields_body
print-obj end = refl
print-obj (field k t fs) = refl
