-- ===== src/Canonical/Refinement.antt =====
-- `canonicalize` serializes the tree that its argument denotes, whatever objects it is made of.
use openrep.Prelude.{
  append_assoc, if◌then◌else◌, true, false, sym, Bool, ℕ, zero, suc, ◌≡◌, refl, Option, none, some,
  List, [], ◌∷◌, ◌++◌, map, Text,
}
use openrep.Canonical.{
  contains, object_text, field_text, canonicalize_inner, max_canonical_depth, join_more, node_text,
  leaf_text, fmap, join, canonicalize, finite, non_finite, Value, undefined, unsupported, ref, Node,
  array, object, Heap, Attempt, value, error, then_rest, map_attempt, sort_fields,
}
use openrep.Canonical.Json.{quote}
use openrep.Canonical.Tree.{IsWellFormed, fields_tail, items_tail, Tree, arr, obj, print}
use openrep.Canonical.Injective.{print-injective}
use openrep.Canonical.Reify.{
  items, fields, first_and, with_key, reify_items, reify_fields, reify_node, reify_leaf, reify,
}

-- `t` is the text of what `o` denotes.
abbrev Shows : Attempt Text → Option Tree → Type 0
Shows (error e) o = Unit
Shows (value t) none = ⊥
Shows (value t) (some tree) = print tree ≡ t

abbrev ShowsItems : Attempt (List Text) → Option (List Tree) → Type 0
ShowsItems (error e) o = Unit
ShowsItems (value ts) none = ⊥
ShowsItems (value ts) (some trees) = map print trees ≡ ts

abbrev show_field : Text × Tree → Text
show_field (k, t) = quote k ++ 58 ∷ print t

abbrev ShowsFields : Attempt (List Text) → Option (List (Text × Tree)) → Type 0
ShowsFields (error e) o = Unit
ShowsFields (value ts) none = ⊥
ShowsFields (value ts) (some trees) = map show_field trees ≡ ts

ShowsItems-cons :
    (a : Attempt Text) (rest : Attempt (List Text)) (o : Option Tree) (os : Option (List Tree))
    → Shows a o
    → ShowsItems rest os
    → ShowsItems (then_rest a rest) (first_and o os)
ShowsItems-cons (error e) rest o os h k = tt
ShowsItems-cons (value t) (error e) o os h k = tt
ShowsItems-cons (value t) (value ts) none os h k = h
ShowsItems-cons (value t) (value ts) (some tree) none h k = k
ShowsItems-cons (value t) (value ts) (some tree) (some trees) h k = cc (h, k)

module _ (text_of : Value → Attempt Text) (inner : Value → Option Tree)
    (sound : (v : Value) → Shows (text_of v) (inner v)) where
  map_attempt-Shows : (vs : List Value) → ShowsItems (map_attempt text_of vs) (reify_items inner vs)
  unfolding map_attempt reify_items
  map_attempt-Shows [] = refl
  map_attempt-Shows (v ∷ vs) =
      ShowsItems-cons (text_of v) (map_attempt text_of vs) (inner v) (reify_items inner vs)
        (sound v) (map_attempt-Shows vs)

  field_text-Shows :
      (k : Text) (v : Value) (rest : Attempt (List Text)) (os : Option (List (Text × Tree)))
      → ShowsFields rest os
      → ShowsFields
          (then_rest (field_text text_of (k, v)) rest)
          (first_and (with_key k (inner v)) os)
  unfolding field_text
  field_text-Shows k v rest os h = go (text_of v) (inner v) rest os (sound v) h
    where
      go :
          (a : Attempt Text) (o : Option Tree) (rest : Attempt (List Text))
          (os : Option (List (Text × Tree)))
          → Shows a o
          → ShowsFields rest os
          → ShowsFields
              (then_rest (fmap (λ t. quote k ++ 58 ∷ t) a) rest)
              (first_and (with_key k o) os)
      go (error e) o rest os h k = tt
      go (value t) o (error e) os h k = tt
      go (value t) none (value ts) os h k = h
      go (value t) (some tree) (value ts) none h k = k
      go (value t) (some tree) (value ts) (some trees) h k = cc (h, k)

  map_attempt-ShowsFields :
      (fs : List (Text × Value))
      → ShowsFields (map_attempt (field_text text_of) fs) (reify_fields inner fs)
  unfolding map_attempt reify_fields
  map_attempt-ShowsFields [] = refl
  map_attempt-ShowsFields ((k, v) ∷ fs) = field_text-Shows k v _ _ (map_attempt-ShowsFields fs)

join_more-items : (ts : List Tree) → join_more (map print ts) ++ 93 ∷ [] ≡ items_tail (items ts)
unfolding print
join_more-items [] = refl
join_more-items (t ∷ ts) =
    cc (append_assoc (print t) (join_more (map print ts)) (93 ∷ []), join_more-items ts)

join-items : (ts : List Tree) → 91 ∷ (join (map print ts) ++ 93 ∷ []) ≡ print (arr (items ts))
unfolding print
join-items [] = refl
join-items (t ∷ ts) =
    cc (append_assoc (print t) (join_more (map print ts)) (93 ∷ []), join_more-items ts)

join_more-fields :
    (fs : List (Text × Tree)) → join_more (map show_field fs) ++ 125 ∷ [] ≡ fields_tail (fields fs)
unfolding print
join_more-fields [] = refl
join_more-fields ((k, t) ∷ fs) = simp (append_assoc, join_more-fields fs)

join-fields :
    (fs : List (Text × Tree))
    → 123 ∷ (join (map show_field fs) ++ 125 ∷ []) ≡ print (obj (fields fs))
unfolding print
join-fields [] = refl
join-fields ((k, t) ∷ fs) = simp (append_assoc, join_more-fields fs)

wrap_items :
    (a : Attempt (List Text)) (o : Option (List Tree))
    → ShowsItems a o
    → Shows
        (fmap (λ parts. 91 ∷ (join parts ++ 93 ∷ [])) a)
        (elim o [ none ↦ none | some ts ↦ some (arr (items ts)) ])
wrap_items (error e) o h = tt
wrap_items (value ts) none h = h
wrap_items (value ts) (some trees) h = sym (rw (← h) (join-items trees))

wrap_fields :
    (a : Attempt (List Text)) (o : Option (List (Text × Tree)))
    → ShowsFields a o
    → Shows
        (fmap (λ parts. 123 ∷ (join parts ++ 125 ∷ [])) a)
        (elim o [ none ↦ none | some ts ↦ some (obj (fields ts)) ])
wrap_fields (error e) o h = tt
wrap_fields (value ts) none h = h
wrap_fields (value ts) (some trees) h = sym (rw (← h) (join-fields trees))

module _ (text_of : Value → Attempt Text) (inner : Value → Option Tree)
    (sound : (v : Value) → Shows (text_of v) (inner v)) where
  node_text-Shows : (n : Node) → Shows (node_text text_of n) (reify_node inner n)
  unfolding node_text object_text reify_node
  node_text-Shows (array vs) = wrap_items _ _ (map_attempt-Shows text_of inner sound vs)
  node_text-Shows (object fs) =
      wrap_fields _ _ (map_attempt-ShowsFields text_of inner sound (sort_fields fs))

leaf_text-Shows :
    (text_at : ℕ → Attempt Text) (tree_at : ℕ → Option Tree)
    → ((a : ℕ) → Shows (text_at a) (tree_at a))
    → (v : Value) → Shows (leaf_text text_at v) (reify_leaf tree_at v)
unfolding leaf_text reify_leaf print
leaf_text-Shows text_at tree_at h (ref a) = h a
leaf_text-Shows text_at tree_at h (Value.bool true) = refl
leaf_text-Shows text_at tree_at h (Value.bool false) = refl
leaf_text-Shows text_at tree_at h (Value.num (finite t)) = refl
leaf_text-Shows text_at tree_at h (Value.num non_finite) = tt
leaf_text-Shows text_at tree_at h Value.null = refl
leaf_text-Shows text_at tree_at h (Value.str s) = refl
leaf_text-Shows text_at tree_at h undefined = tt
leaf_text-Shows text_at tree_at h unsupported = tt

Shows-if :
    (b : Bool) (e : _) (a : Attempt Text) (o : Option Tree)
    → Shows a o
    → Shows (if b then error e else a) o
Shows-if true e a o h = tt
Shows-if false e a o h = h

canonicalize_inner-Shows :
    (heap : Heap) (left : ℕ) (ancestors : List ℕ) (v : Value)
    → Shows (canonicalize_inner heap left ancestors v) (reify heap left v)
unfolding canonicalize_inner reify
canonicalize_inner-Shows heap zero ancestors v = leaf_text-Shows _ _ (λ a. tt) v
canonicalize_inner-Shows heap (suc left) ancestors v =
    leaf_text-Shows _ _
      (λ a.
        Shows-if (contains a ancestors) _ _ _
          (node_text-Shows _ _ (canonicalize_inner-Shows heap left (a ∷ ancestors)) (heap a)))
      v

shown :
    (t : Text) (o : Option Tree)
    → Shows (value t) o
    → (tree : Tree) × (o ≡ some tree) × (print tree ≡ t)
shown t none h = absurd h
shown t (some tree) h = (tree, refl, h)

pub canonicalize_sound :
    (heap : Heap) (v : Value) {t : Text}
    → canonicalize heap v ≡ value t
    → (tree : Tree) × (reify heap max_canonical_depth v ≡ some tree) × (print tree ≡ t)
unfolding canonicalize
canonicalize_sound heap v {t} e =
    shown t _ (rw e at (canonicalize_inner-Shows heap max_canonical_depth [] v))

-- Two values of any two heaps that have the same canonical text denote the same tree, where their
-- strings are of 16-bit units and their numbers as `JSON.stringify` prints them.
pub canonicalize_unambiguous :
    (heap heap' : Heap) (v w : Value) (tree tree' : Tree) {t : Text}
    → reify heap max_canonical_depth v ≡ some tree
    → reify heap' max_canonical_depth w ≡ some tree'
    → IsWellFormed tree
    → IsWellFormed tree'
    → canonicalize heap v ≡ value t
    → canonicalize heap' w ≡ value t
    → tree ≡ tree'
canonicalize_unambiguous heap heap' v w tree tree' {t} r r' h h' e e' =
    let (a, p, q) = canonicalize_sound heap v e in
    let (b, p', q') = canonicalize_sound heap' w e' in
    let same : tree ≡ a = cc in let same' : tree' ≡ b = cc in print-injective tree tree' h h' (cc)
