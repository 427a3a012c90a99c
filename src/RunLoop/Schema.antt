-- ===== src/RunLoop/Schema.antt =====
-- `validateAgainstSchema` of packages/sdk/src/providers/validate.ts. The reason of a rejection is for
-- people and is left out.
use openrep.Prelude.{
  length, not, false, text, text_eq, is_some, true, ◌&&◌, Bool, if◌then◌else◌, Text, String,
}
use openrep.RunLoop.Arguments.{
  empty_array, json_field, find_property, item, empty_object, number, undefined_json, boolean,
  json_array, json_object, JsonItems, get_property, string, Json, JsonFields,
}

unfoldable pub is_plain_object : Json → Bool
is_plain_object (json_object fields) = true
is_plain_object _ = false

abbrev pub has_key : JsonFields → Json → Bool
has_key fields (string key) = is_some (find_property key fields)
has_key fields _ = true

-- The keys that are no strings are ignored.
unfoldable pub has_all : JsonFields → JsonItems → Bool
has_all fields empty_array = true
has_all fields (item key keys) = has_key fields key && has_all fields keys

unfoldable pub has_required : JsonFields → Json → Bool
has_required fields (json_array keys) = has_all fields keys
has_required fields _ = true

unfoldable pub fields_of : Json → JsonFields
fields_of (json_object fields) = fields
fields_of _ = empty_object

unfoldable pub is_false : Json → Bool
is_false (boolean false) = true
is_false _ = false

unfoldable pub not_shorter : Text → Json → Bool
not_shorter s (number n) = not (n.is_above (length s))
not_shorter s _ = true

unfoldable pub not_longer : Text → Json → Bool
not_longer s (number n) = not (n.is_below (length s))
not_longer s _ = true

-- What `rule.type` says.
pub data Kind : Type 0 where
  untyped of_object of_array of_string of_number of_boolean unsupported : Kind

abbrev kind_named : Text → Kind
kind_named t =
    if text_eq t (text "object")
    then of_object
    else if text_eq t (text "array")
    then of_array
    else if text_eq t (text "string")
    then of_string
    else if text_eq t (text "number")
    then of_number
    else if text_eq t (text "boolean")
    then of_boolean
    else unsupported

unfoldable pub kind_of : Json → Kind
kind_of undefined_json = untyped
kind_of (string t) = kind_named t
kind_of _ = unsupported

-- A schema that is no plain object says as little as one without a type.
unfoldable pub schema_kind : Json → Kind
schema_kind (json_object rule) = kind_of (get_property (text "type") rule)
schema_kind _ = untyped

abbrev pub rule_at : String → Json → Json
rule_at key schema = get_property (text key) (fields_of schema)

unfoldable pub string_fits : Text → Json → Bool
string_fits s schema =
    not_shorter s (rule_at "minLength" schema) && not_longer s (rule_at "maxLength" schema)

-- `undefined` in the table of properties is as good as no entry.
unfoldable pub is_undefined : Json → Bool
is_undefined undefined_json = true
is_undefined _ = false

abbrev pub allows_more : Json → Bool
allows_more schema = not (is_false (rule_at "additionalProperties" schema))

unfoldable mutual
  pub validate_kind : Json → Json → Kind → Bool
  validate_kind args schema untyped = is_plain_object args
  validate_kind (json_object fields) schema of_object =
      has_required fields (rule_at "required" schema)
      && validate_fields fields schema (fields_of (rule_at "properties" schema))
  validate_kind (json_array items) schema of_array = validate_items items (rule_at "items" schema)
  validate_kind (string s) schema of_string = string_fits s schema
  validate_kind (number n) schema of_number = not n.is_nan
  validate_kind (boolean b) schema of_boolean = true
  validate_kind args schema kind = false

  pub validate_items : JsonItems → Json → Bool
  validate_items empty_array schema = true
  validate_items (item v items) schema =
      validate_kind v schema (schema_kind schema) && validate_items items schema

  pub validate_fields : JsonFields → Json → JsonFields → Bool
  validate_fields empty_object schema properties = true
  validate_fields (json_field key v fields) schema properties =
      let rule = get_property key properties in
      let nested = validate_kind v rule (schema_kind rule) in
      (if is_undefined rule then allows_more schema else nested)
      && validate_fields fields schema properties

unfoldable pub validate_against_schema : Json → Json → Bool
validate_against_schema args schema = validate_kind args schema (schema_kind schema)
