-- ===== src/Canonical.antt =====
-- packages/sdk/src/canonical.ts: the deterministic serialization that is hashed and signed.
pub mod Json
pub mod Tree
pub mod Kinds
pub mod Injective
pub mod Reify
pub mod Refinement
use openrep.Prelude.{
  ℕ, zero, suc, Bool, true, false, ◌||◌, List, [], ◌∷◌, ◌++◌, map, ltb, ◌==◌, if◌then◌else◌, any,
  Text, text,
}
use openrep.Canonical.Json.{quote}

-- A number is NaN or infinite, or stands as the text that `JSON.stringify` prints for it.
pub data JsNumber : Type 0 where
  finite : Text → JsNumber
  non_finite : JsNumber

-- A JavaScript value. Arrays and objects have an identity: a value refers to one by its address.
-- `unsupported` stands for functions, symbols and bigints.
pub data Value : Type 0 where
  null undefined unsupported : Value
  bool : Bool → Value
  num : JsNumber → Value
  str : Text → Value
  ref : ℕ → Value

-- An object holds its own enumerable keys with their values, in insertion order.
pub data Node : Type 0 where
  array : List Value → Node
  object : List (Text × Value) → Node

abbrev pub Heap : Type 0
Heap = ℕ → Node

-- The errors that `canonicalize` throws.
pub data CanonicalError : Type 0 where
  non_finite_number too_deep circular unsupported_type : CanonicalError

pub data Attempt {ℓ} (A : Type ℓ) : Type ℓ where
  value : A → Attempt A
  error : CanonicalError → Attempt A

abbrev pub fmap {ℓ κ} : {A : Type ℓ} {B : Type κ} → (A → B) → Attempt A → Attempt B
fmap f (value a) = value (f a)
fmap f (error e) = error e

abbrev pub max_canonical_depth : ℕ
max_canonical_depth = 6

-- `xs.map(f)` where `f` may throw: the first error ends it.
abbrev then_rest : Attempt Text → Attempt (List Text) → Attempt (List Text)
then_rest (error e) rest = error e
then_rest (value t) rest = fmap (λ ts. t ∷ ts) rest

module _ {A : Type 0} (f : A → Attempt Text) where
  unfoldable pub map_attempt : List A → Attempt (List Text)
  map_attempt [] = value []
  map_attempt (x ∷ xs) = then_rest (f x) (map_attempt xs)

-- `parts.join(",")`
abbrev pub join_more : List Text → Text
join_more [] = []
join_more (t ∷ ts) = 44 ∷ (t ++ join_more ts)

abbrev pub join : List Text → Text
join [] = []
join (t ∷ ts) = t ++ join_more ts

-- `<` on strings, by code units, as `sort()` uses it.
unfoldable pub text_le : Text → Text → Bool
text_le [] b = true
text_le (c ∷ a) [] = false
text_le (c ∷ a) (d ∷ b) = if ltb c d then true else if c == d then text_le a b else false

module _ {A : Type 0} where
  unfoldable pub insert_field : Text × A → List (Text × A) → List (Text × A)
  insert_field p [] = p ∷ []
  insert_field p (q ∷ fields) =
      if text_le p.0 q.0 then p ∷ q ∷ fields else q ∷ insert_field p fields

  -- `Object.keys(record).sort()`, each key with its value.
  unfoldable pub sort_fields : List (Text × A) → List (Text × A)
  sort_fields [] = []
  sort_fields (p ∷ fields) = insert_field p (sort_fields fields)

abbrev contains : ℕ → List ℕ → Bool
contains address ancestors = any (λ a. a == address) ancestors

-- `JSON.stringify(k) + ":" + canonicalizeInner(record[k], …)`
unfoldable pub field_text : (Value → Attempt Text) → Text × Value → Attempt Text
field_text inner (key, v) = fmap (λ t. quote key ++ 58 ∷ t) (inner v)

unfoldable pub object_text : (Value → Attempt Text) → List (Text × Value) → Attempt Text
object_text inner fields =
    fmap (λ parts. 123 ∷ (join parts ++ 125 ∷ []))
      (map_attempt (field_text inner) (sort_fields fields))

unfoldable pub node_text : (Value → Attempt Text) → Node → Attempt Text
node_text inner (array items) =
    fmap (λ parts. 91 ∷ (join parts ++ 93 ∷ [])) (map_attempt inner items)
node_text inner (object fields) = object_text inner fields

-- A value other than an array or object; `inner` takes those.
unfoldable pub leaf_text : (ℕ → Attempt Text) → Value → Attempt Text
leaf_text inner null = value (text "null")
leaf_text inner (str s) = value (quote s)
leaf_text inner (num (finite t)) = value t
leaf_text inner (num non_finite) = error non_finite_number
leaf_text inner (bool true) = value (text "true")
leaf_text inner (bool false) = value (text "false")
leaf_text inner (ref address) = inner address
leaf_text inner undefined = error unsupported_type
leaf_text inner unsupported = error unsupported_type

module _ (heap : Heap) where
  -- `left` is `MAX_CANONICAL_DEPTH - depth`: the depth test is what makes the recursion end.
  unfoldable pub canonicalize_inner : ℕ → List ℕ → Value → Attempt Text
  canonicalize_inner zero ancestors v = leaf_text (λ _. error too_deep) v
  canonicalize_inner (suc left) ancestors v =
      leaf_text
        (λ address.
          if contains address ancestors
          then error circular
          else node_text (canonicalize_inner left (address ∷ ancestors)) (heap address))
        v

  unfoldable pub canonicalize : Value → Attempt Text
  canonicalize v = canonicalize_inner max_canonical_depth [] v

  -- `canonicalize({ … })` of an object literal. The object is new, so that nothing refers to it
  -- and it can be no descendant's ancestor.
  unfoldable pub canonicalize_literal : List (Text × Value) → Attempt Text
  canonicalize_literal fields = object_text (canonicalize_inner 5 []) fields
