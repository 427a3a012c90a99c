-- ===== src/Canonical/Reify.antt =====
-- The tree that a value of canonical.ts denotes.
use openrep.Prelude.{ℕ, zero, suc, Option, none, some, List, [], ◌∷◌, Text}
use openrep.Canonical.{
  finite, non_finite, Value, undefined, unsupported, ref, Node, array, object, Heap, sort_fields,
}
use openrep.Canonical.Tree.{
  Tree, null, bool, num, str, arr, obj, Items, nil, cons, Fields, end, field,
}

abbrev pub items : List Tree → Items
items [] = nil
items (t ∷ ts) = cons t (items ts)

abbrev pub fields : List (Text × Tree) → Fields
fields [] = end
fields ((k, t) ∷ fs) = field k t (fields fs)

abbrev pub first_and {ℓ} : {A : Type ℓ} → Option A → Option (List A) → Option (List A)
first_and none rest = none
first_and (some a) none = none
first_and (some a) (some rest') = some (a ∷ rest')

abbrev pub with_key : Text → Option Tree → Option (Text × Tree)
with_key k none = none
with_key k (some t) = some (k, t)

module _ (inner : Value → Option Tree) where
  unfoldable pub reify_items : List Value → Option (List Tree)
  reify_items [] = some []
  reify_items (v ∷ vs) = first_and (inner v) (reify_items vs)

  unfoldable pub reify_fields : List (Text × Value) → Option (List (Text × Tree))
  reify_fields [] = some []
  reify_fields ((k, v) ∷ fs) = first_and (with_key k (inner v)) (reify_fields fs)

  unfoldable pub reify_node : Node → Option Tree
  reify_node (array vs) = elim (reify_items vs) [ none ↦ none | some ts ↦ some (arr (items ts)) ]
  reify_node (object fs) = elim (reify_fields (sort_fields fs)) [
    | none ↦ none
    | some ts ↦ some (obj (fields ts))
  ]

unfoldable pub reify_leaf : (ℕ → Option Tree) → Value → Option Tree
reify_leaf inner Value.null = some null
reify_leaf inner (Value.bool b) = some (bool b)
reify_leaf inner (Value.num (finite t)) = some (num t)
reify_leaf inner (Value.num non_finite) = none
reify_leaf inner (Value.str s) = some (str s)
reify_leaf inner (ref address) = inner address
reify_leaf inner undefined = none
reify_leaf inner unsupported = none

-- The tree that a value denotes, if it has at most `left` levels of arrays and objects and all
-- its parts can be serialized. Objects have their keys in order.
unfoldable pub reify : Heap → ℕ → Value → Option Tree
reify heap zero v = reify_leaf (λ _. none) v
reify heap (suc left) v = reify_leaf (λ address. reify_node (reify heap left) (heap address)) v
