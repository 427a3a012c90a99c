-- ===== src/RunLoop/Arguments.antt =====
-- The values that a model sends and that a schema is made of.
use openrep.Prelude.{
  any, text_eq, [], none, ◌∷◌, if◌then◌else◌, some, text, or_else, Option, Text, Bool, List, ℕ,
}

-- A number, by what is asked of it.
pub record Number : Type 0 where
  pub is_nan : Bool
  pub is_above : ℕ → Bool
  pub is_below : ℕ → Bool

mutual
  pub data Json : Type 0 where
    undefined_json null_json function_json : Json
    boolean : Bool → Json
    number : Number → Json
    string : Text → Json
    json_array : JsonItems → Json
    json_object : JsonFields → Json

  pub data JsonItems : Type 0 where
    empty_array : JsonItems
    item : Json → JsonItems → JsonItems

  pub data JsonFields : Type 0 where
    empty_object : JsonFields
    json_field : Text → Json → JsonFields → JsonFields

unfoldable pub own_property : Text → JsonFields → Option Json
own_property key empty_object = none
own_property key (json_field k v fields) = if text_eq k key then some v else own_property key fields

-- The properties that every object has by its prototype.
abbrev prototype_keys : List Text
prototype_keys =
    text "constructor"
    ∷ text "toString"
    ∷ text "toLocaleString"
    ∷ text "valueOf"
    ∷ text "hasOwnProperty"
    ∷ text "isPrototypeOf"
    ∷ text "propertyIsEnumerable"
    ∷ text "__defineGetter__"
    ∷ text "__defineSetter__"
    ∷ text "__lookupGetter__"
    ∷ text "__lookupSetter__"
    ∷ []

abbrev pub prototype_value : Text → Option Json
prototype_value key =
    if text_eq key (text "__proto__")
    then some (json_object empty_object)
    else if any (text_eq key) prototype_keys
    then some function_json
    else none

abbrev pub or_inherited : Text → Option Json → Option Json
or_inherited key (some v) = some v
or_inherited key none = prototype_value key

-- `record[key]`, none for a key that is not `in` the record
abbrev pub find_property : Text → JsonFields → Option Json
find_property key fields = or_inherited key (own_property key fields)

-- `record[key]`, with `undefined` for a key that is not in the record
abbrev pub get_property : Text → JsonFields → Json
get_property key fields = or_else (find_property key fields) undefined_json
